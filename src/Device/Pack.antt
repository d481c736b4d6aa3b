-- ===== src/Device/Pack.antt =====
-- `struct.pack` and `struct.unpack` of one unsigned number of a given width and byte order, as
-- `USBDevice` of cobra_system_control/cobra_system_control/device.py uses them.
use m.Common.{
  ℕ, zero, suc, ◌+◌, ◌*◌, ◌/◌, ◌%◌, ◌^◌, ◌<◌, ◌≡◌, refl, ap, ◌∙◌, Bool, true, false, List, [], ◌∷◌,
  ◌++◌, length, ltb, lt→ltb, if◌then◌else◌, Result, ok, err, struct_error, arith,
}
use m.Common.All.{All}
use m.Common.Fields.{pow-add}

-- The lowest byte first.
abbrev pub low_first : ℕ → ℕ → List ℕ
low_first zero v = []
low_first (suc n) v = v % 2 ^ 8 ∷ low_first n (v / 2 ^ 8)

abbrev pub reverse_onto : List ℕ → List ℕ → List ℕ
reverse_onto [] acc = acc
reverse_onto (b ∷ bytes) acc = reverse_onto bytes (b ∷ acc)

abbrev pub from_low_first : List ℕ → ℕ
from_low_first [] = 0
from_low_first (b ∷ bytes) = b + 2 ^ 8 * from_low_first bytes

-- `struct.pack`: `big` is the order `>`, `n` the number of bytes of the format.
unfoldable pub pack : Bool → ℕ → ℕ → Result (List ℕ)
pack big n v =
    if ltb v (2 ^ (8 * n))
    then ok (if big then reverse_onto (low_first n v) [] else low_first n v)
    else err struct_error

-- `struct.unpack(...)[0]`
unfoldable pub unpack : Bool → List ℕ → ℕ
unpack big bytes = from_low_first (if big then reverse_onto bytes [] else bytes)

pub length-low_first : (n v : ℕ) → length (low_first n v) ≡ n
length-low_first zero v = refl
length-low_first (suc n) v = ap suc (length-low_first n (v / 2 ^ 8))

pub low_first-Bytes : (n v : ℕ) → All (λ b. b < 2 ^ 8) (low_first n v)
low_first-Bytes zero v = tt
low_first-Bytes (suc n) v = (omega arith, low_first-Bytes n (v / 2 ^ 8))

length-reverse_onto : (xs acc : List ℕ) → length (reverse_onto xs acc) ≡ length xs + length acc
length-reverse_onto [] acc = omega arith
length-reverse_onto (x ∷ xs) acc = omega (arith, length-reverse_onto xs (x ∷ acc))

All-reverse_onto :
    (P : ℕ → Type 0) (xs acc : List ℕ) → All P xs → All P acc → All P (reverse_onto xs acc)
All-reverse_onto P [] acc h k = k
All-reverse_onto P (x ∷ xs) acc h k = All-reverse_onto P xs (x ∷ acc) h.1 (h.0, k)

reverse_onto_twice :
    (xs acc acc' : List ℕ) → reverse_onto (reverse_onto xs acc) acc' ≡ reverse_onto acc (xs ++ acc')
reverse_onto_twice [] acc acc' = refl
reverse_onto_twice (x ∷ xs) acc acc' = reverse_onto_twice xs (x ∷ acc) acc'

append-nil : (xs : List ℕ) → xs ++ [] ≡ xs
append-nil [] = refl
append-nil (x ∷ xs) = ap (λ (t : List ℕ). x ∷ t) (append-nil xs)

pow_byte : (n : ℕ) → 2 ^ (8 * suc n) ≡ 2 ^ 8 * 2 ^ (8 * n)
pow_byte n =
    let e : 8 * suc n ≡ 8 + 8 * n = omega arith in ap (λ (t : ℕ). 2 ^ t) e ∙ pow-add 8 (8 * n)

from_low_first-low_first : (n v : ℕ) → v < 2 ^ (8 * n) → from_low_first (low_first n v) ≡ v
from_low_first-low_first zero v h = omega arith
from_low_first-low_first (suc n) v h =
    omega (arith, from_low_first-low_first n (v / 2 ^ 8) (omega (arith, pow_byte n, h)))

-- What packs has the bytes of its format, and unpacks to the number.
pub record Packs (big : Bool) (n v : ℕ) : Type 0 where
  pub bytes : List ℕ
  pub packs : pack big n v ≡ ok bytes
  pub count : length bytes ≡ n
  pub each : All (λ b. b < 2 ^ 8) bytes
  pub unpacks : unpack big bytes ≡ v

pack_fits :
    (big : Bool) (n v : ℕ)
    → v < 2 ^ (8 * n)
    → pack big n v ≡ ok (if big then reverse_onto (low_first n v) [] else low_first n v)
unfolding pack
pack_fits big n v h = rw (lt→ltb v (2 ^ (8 * n)) h) refl

pub pack-Packs : (big : Bool) (n v : ℕ) → v < 2 ^ (8 * n) → Packs big n v
pack-Packs true n v h = record {
  bytes = reverse_onto (low_first n v) [];
  packs = pack_fits true n v h;
  count = omega (arith, length-reverse_onto (low_first n v) [], length-low_first n v);
  each = All-reverse_onto (λ b. b < 2 ^ 8) (low_first n v) [] (low_first-Bytes n v) tt;
  unpacks =
      unfold unpack in
      ap from_low_first (reverse_onto_twice (low_first n v) [] [] ∙ append-nil (low_first n v))
      ∙ from_low_first-low_first n v h;
}
pack-Packs false n v h = record {
  bytes = low_first n v;
  packs = pack_fits false n v h;
  count = length-low_first n v;
  each = low_first-Bytes n v;
  unpacks = unfold unpack in from_low_first-low_first n v h;
}
