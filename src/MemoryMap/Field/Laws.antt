-- ===== src/MemoryMap/Field/Laws.antt =====
-- What `MemoryMapField` accepts, and how its mask and its value agree (memory_map.py).
use m.Common.{
  ℕ, zero, suc, ◌+◌, ◌%◌, ◌^◌, ◌≤◌, ◌<◌, ◌≡◌, refl, ap, ◌∙◌, ◌↔◌, ◌⊎◌, none, some, ok, err,
  value_error, arith,
}
use m.Common.Bits.{◌<<◌, ◌>>>◌, low_mask, bit_andnot, pow-pos, and_mask}
use m.Common.Fields.{field}
use m.Common.Int.{pos, negsuc}
use m.MemoryMap.Field.{
  YamlParams, bytes_per_word, FieldArgs, Field, make_field, get_field_mask, get_field_value,
  ceil_div, n_bytes, ceil_log2, ceil_log2_from,
}
use native.Mathlib.Nat.{mod-lt, mod-eq_of_lt, mul-div_cancel, pow-suc}
use native.Mathlib.Decide.{dec_lt}

-- What the checks of the constructor leave: a field of at least one bit that starts in its word,
-- at an offset of whole words, and that either ends in that word or starts at bit 0 and is aligned
-- to a power of two that holds all its bytes.
pub record IsWellFormed (yp : YamlParams) (f : Field) : Type 0 where
  pub nonempty : 1 ≤ f.size
  pub in_word : f.position < yp.word_size
  pub aligned : f.offset % bytes_per_word yp ≡ 0
  pub words : f.n_words ≡ ceil_div f.size yp.word_size
  pub fits :
      (f.position + f.size ≤ yp.word_size)
      ⊎ ((f.position ≡ 0) × (f.offset % 2 ^ ceil_log2 (n_bytes f) ≡ 0))

-- Every field that the constructor returns is well formed.
pub make_field-IsWellFormed :
    (yp : YamlParams) (a : FieldArgs) (f : Field) → make_field yp a ≡ ok f → IsWellFormed yp f
unfolding make_field
make_field-IsWellFormed yp a f h = record {
  nonempty = ground arith;
  in_word = ground arith;
  aligned = ground arith;
  words = ground arith;
  fits = ground arith;
}

pub get_field_value-eq-field : (f : Field) (w : ℕ) → get_field_value f w ≡ field f.position f.size w
unfolding get_field_value
get_field_value-eq-field f w = and_mask f.size (w >>> f.position)

fits_iff : (k v : ℕ) → (bit_andnot v (low_mask k) ≡ 0) ↔ (v < 2 ^ k)
fits_iff k v = (
  λ e. omega (arith, e, and_mask k v, mod-lt v (pow-pos k)),
  λ h. omega (arith, and_mask k v, mod-eq_of_lt h),
)

pub get_field_mask-none : (f : Field) → get_field_mask f none ≡ ok (low_mask f.size << f.position)
unfolding get_field_mask
get_field_mask-none f = refl

pub get_field_mask-fits :
    (f : Field) (v : ℕ) → v < 2 ^ f.size → get_field_mask f (some (pos v)) ≡ ok (v << f.position)
unfolding get_field_mask
get_field_mask-fits f v h =
    ground (arith, (fits_iff f.size v).1 h, and_mask f.size v, mod-eq_of_lt h)

pub get_field_mask-overflow :
    (f : Field) (v : ℕ) → 2 ^ f.size ≤ v → get_field_mask f (some (pos v)) ≡ err value_error
unfolding get_field_mask
get_field_mask-overflow f v h = ground (arith, (fits_iff f.size v).0)

pub get_field_mask_negative :
    (f : Field) (v : ℕ) → get_field_mask f (some (negsuc v)) ≡ err value_error
unfolding get_field_mask
get_field_mask_negative f v = refl

get_field_value-shifted :
    (f : Field) (v : ℕ) → v < 2 ^ f.size → get_field_value f (v << f.position) ≡ v
get_field_value-shifted f v h =
    get_field_value-eq-field f (v << f.position)
    ∙ ap (λ (t : ℕ). t % 2 ^ f.size) (mul-div_cancel v (pow-pos f.position))
    ∙ mod-eq_of_lt h

-- Placing a value into a field's mask raises `ValueError` exactly when the value is negative or has
-- more bits than the field, and otherwise reading the field back from the word gives the value.
pub get_field_value-get_field_mask :
    (f : Field) (v : ℕ)
    → ((w : ℕ) → get_field_mask f (some (pos v)) ≡ ok w → get_field_value f w ≡ v)
      × ((get_field_mask f (some (pos v)) ≡ err value_error) ↔ (2 ^ f.size ≤ v))
      × (get_field_mask f (some (negsuc v)) ≡ err value_error)
get_field_value-get_field_mask f v = elim (dec_lt v (2 ^ f.size)) [
  | yes fits ↦
      let e = get_field_mask-fits f v fits in
      (
        λ w h. ground (arith, e, get_field_value-shifted f v fits),
        (λ h. cc e, get_field_mask-overflow f v),
        get_field_mask_negative f v,
      )
  | no over ↦ (
    λ w h. cc (get_field_mask-overflow f v (omega arith)),
    (λ h. omega arith, get_field_mask-overflow f v),
    get_field_mask_negative f v,
  )
]

ceil_log2_from-holds : (fuel k n : ℕ) → n ≤ 2 ^ (k + fuel) → n ≤ 2 ^ ceil_log2_from fuel k n
unfolding ceil_log2_from
ceil_log2_from-holds zero k n h =
    let e : k + 0 ≡ k = omega arith in omega (arith, ap (λ (t : ℕ). 2 ^ t) e)
ceil_log2_from-holds (suc fuel) k n h =
    let e : k + suc fuel ≡ suc k + fuel = omega arith in
    ground (arith, ceil_log2_from-holds fuel (suc k) n (omega (arith, ap (λ (t : ℕ). 2 ^ t) e)))

ceil_log2_from-least : (fuel k n j : ℕ) → (k ≤ j) → n ≤ 2 ^ j → ceil_log2_from fuel k n ≤ j
unfolding ceil_log2_from
ceil_log2_from-least zero k n j h hj = h
ceil_log2_from-least (suc fuel) k n j h hj = elim (dec_lt k j) [
  | yes below ↦ ground (arith, ceil_log2_from-least fuel (suc k) n j (omega arith) hj)
  | no other ↦ let e : k ≡ j = omega arith in ground (arith, ap (λ (t : ℕ). 2 ^ t) e)
]

lt-two-pow : (n : ℕ) → n < 2 ^ n
lt-two-pow zero = omega arith
lt-two-pow (suc n) = omega (arith, lt-two-pow n, pow-suc 2 n)

-- The alignment that is asked of a field wider than a word is the least power of two that holds its
-- bytes: `2 ** ceil_log2(n)` is at least `n`, and every power of two that is at least `n` is at
-- least that.
pub ceil_log2_least : (n : ℕ) → (n ≤ 2 ^ ceil_log2 n) × ((j : ℕ) → n ≤ 2 ^ j → ceil_log2 n ≤ j)
unfolding ceil_log2
ceil_log2_least n =
    let e : 0 + n ≡ n = omega arith in
    (
      ceil_log2_from-holds n 0 n (omega (arith, ap (λ (t : ℕ). 2 ^ t) e, lt-two-pow n)),
      λ j h. ceil_log2_from-least n 0 n j (omega arith) h,
    )
