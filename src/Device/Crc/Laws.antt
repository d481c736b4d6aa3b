-- ===== src/Device/Crc/Laws.antt =====
-- What `USB.calculate_crc16` of cobra_system_control/cobra_system_control/device.py detects.
use m.Common.{
  ℕ, suc, ◌*◌, ◌/◌, ◌%◌, ◌^◌, ◌<◌, ◌≡◌, ◌≢◌, refl, sym, ap, ap₂, ◌∙◌, Bool, true, List, [], ◌∷◌,
  ◌++◌, ◌==◌, if◌then◌else◌, get_or, arith, ==_iff,
}
use m.Common.All.{All, All-append}
use m.Common.Table.{holds_below, from-holds_below}
use m.Common.Xor.{xor-zero, zero-xor, xor_self, xor_cancel, xor-lt, mod-xor, xor_comm}
use m.Device.Crc.{crc16tab, calculate_crc16}
use m.Device.Crc.Ccitt.{Byte, step16, step16-lt, loop16, loop16-lt, calculate_crc16-eq}
use Prim.Native.Nat.{bit_xor}

loop16-append : (xs ys : List ℕ) (c : ℕ) → loop16 c (xs ++ ys) ≡ loop16 (loop16 c xs) ys
loop16-append [] ys c = refl
loop16-append (x ∷ xs) ys c = loop16-append xs ys (step16 c x)

-- The two bytes of the register, sent one after the other, clear it.
loop16_residue : (c : ℕ) → c < 2 ^ 16 → loop16 c (c / 2 ^ 8 ∷ c % 2 ^ 8 ∷ []) ≡ 0
loop16_residue c h =
    let l = c % 2 ^ 8 in
    let first : step16 c (c / 2 ^ 8) ≡ l * 2 ^ 8 =
      ap (λ (t : ℕ). bit_xor (l * 2 ^ 8) (get_or crc16tab t 0)) (xor_self (c / 2 ^ 8))
      ∙ xor-zero (l * 2 ^ 8) in
    let high : l * 2 ^ 8 / 2 ^ 8 ≡ l = omega arith in
    let low : l * 2 ^ 8 % 2 ^ 8 * 2 ^ 8 ≡ 0 = omega arith in
    ap (λ (t : ℕ). step16 t l) first
    ∙ ap₂ (λ (s t : ℕ). bit_xor s (get_or crc16tab t 0)) low
        (ap (λ (t : ℕ). bit_xor t l) high ∙ xor_self l)
    ∙ zero-xor 0

-- The high byte and the low byte of the checksum, put after a message, make the checksum of the
-- whole 0.
pub calculate_crc16-residue :
    (bytes : List ℕ)
    → All Byte bytes
    → calculate_crc16 (bytes ++ calculate_crc16 bytes / 2 ^ 8 ∷ calculate_crc16 bytes % 2 ^ 8 ∷ [])
      ≡ 0
calculate_crc16-residue bytes h =
    let c = calculate_crc16 bytes in
    let e = calculate_crc16-eq bytes h in
    let lt = loop16-lt bytes 0 (omega arith) h in
    let tail = c / 2 ^ 8 ∷ c % 2 ^ 8 ∷ [] in
    calculate_crc16-eq (bytes ++ tail)
      (All-append Byte bytes tail h (omega (arith, e, lt), (omega arith, tt)))
    ∙ loop16-append bytes tail 0
    ∙ ap (λ (t : ℕ). loop16 t tail) (sym e)
    ∙ loop16_residue c (omega (arith, e, lt))

-- The rows of the table have different low bytes.
find_low : List ℕ → ℕ → ℕ
find_low [] v = 0
find_low (x ∷ xs) v = let rest = find_low xs v in if x % 2 ^ 8 == v then 0 else suc rest

abbrev found : ℕ → Bool
found i = find_low crc16tab (get_or crc16tab i 0 % 2 ^ 8) == i

all_found : holds_below found 256 ≡ true
unfolding holds_below find_low
all_found = refl

row_of_low : (i : ℕ) → Byte i → find_low crc16tab (get_or crc16tab i 0 % 2 ^ 8) ≡ i
row_of_low i h =
    (==_iff (find_low crc16tab (get_or crc16tab i 0 % 2 ^ 8)) i).0
      (from-holds_below found 256 i (omega (arith, h)) all_found)

xor-injective : (a b m : ℕ) → bit_xor a m ≡ bit_xor b m → a ≡ b
xor-injective a b m e = sym (xor_cancel a m) ∙ ap (λ (t : ℕ). bit_xor t m) e ∙ xor_cancel b m

low_step16 : (c b : ℕ) → step16 c b % 2 ^ 8 ≡ get_or crc16tab (bit_xor (c / 2 ^ 8) b) 0 % 2 ^ 8
low_step16 c b =
    let row = get_or crc16tab (bit_xor (c / 2 ^ 8) b) 0 in
    let low : c % 2 ^ 8 * 2 ^ 8 % 2 ^ 8 ≡ 0 = omega arith in
    mod-xor 8 (c % 2 ^ 8 * 2 ^ 8) row
    ∙ ap (λ (t : ℕ). bit_xor t (row % 2 ^ 8)) low
    ∙ zero-xor (row % 2 ^ 8)

-- A step gives away the row it took.
module _ (c d a b : ℕ) (hc : c < 2 ^ 16) (hd : d < 2 ^ 16) (ha : Byte a) (hb : Byte b)
    (same : step16 c a ≡ step16 d b) where
  same_row : bit_xor (c / 2 ^ 8) a ≡ bit_xor (d / 2 ^ 8) b
  same_row =
      sym (row_of_low (bit_xor (c / 2 ^ 8) a) (xor-lt 8 (c / 2 ^ 8) a (omega (arith, hc)) ha))
      ∙ ap (find_low crc16tab)
          (sym (low_step16 c a) ∙ ap (λ (t : ℕ). t % 2 ^ 8) same ∙ low_step16 d b)
      ∙ row_of_low (bit_xor (d / 2 ^ 8) b) (xor-lt 8 (d / 2 ^ 8) b (omega (arith, hd)) hb)

step16-injective_input :
    (c a b : ℕ) → c < 2 ^ 16 → Byte a → Byte b → step16 c a ≡ step16 c b → a ≡ b
step16-injective_input c a b hc ha hb same =
    let h = c / 2 ^ 8 in
    xor-injective a b h (xor_comm a h ∙ same_row c c a b hc hc ha hb same ∙ xor_comm h b)

step16-injective_register :
    (c d b : ℕ) → c < 2 ^ 16 → d < 2 ^ 16 → Byte b → step16 c b ≡ step16 d b → c ≡ d
step16-injective_register c d b hc hd hb same =
    let row = same_row c d b b hc hd hb hb same in
    let high = xor-injective (c / 2 ^ 8) (d / 2 ^ 8) b row in
    let low =
      xor-injective (c % 2 ^ 8 * 2 ^ 8) (d % 2 ^ 8 * 2 ^ 8)
        (get_or crc16tab (bit_xor (c / 2 ^ 8) b) 0)
        (same ∙ ap (λ (t : ℕ). bit_xor (d % 2 ^ 8 * 2 ^ 8) (get_or crc16tab t 0)) (sym row)) in
    omega (arith, high, low)

loop16-injective :
    (bytes : List ℕ) (c d : ℕ)
    → c < 2 ^ 16
    → d < 2 ^ 16
    → All Byte bytes
    → loop16 c bytes ≡ loop16 d bytes
    → c ≡ d
loop16-injective [] c d hc hd h same = same
loop16-injective (b ∷ bytes) c d hc hd h same = step16-injective_register c d b hc hd h.0 (
    loop16-injective bytes (step16 c b) (step16 d b) (step16-lt c b hc h.0) (step16-lt d b hd h.0)
      h.1 same)

-- Two messages that differ in one byte, wherever it stands, have different checksums.
pub calculate_crc16_detects :
    (front back : List ℕ) (a b : ℕ)
    → All Byte front
    → All Byte back
    → Byte a
    → Byte b
    → a ≢ b
    → calculate_crc16 (front ++ a ∷ back) ≢ calculate_crc16 (front ++ b ∷ back)
calculate_crc16_detects front back a b hf hk ha hb differ same =
    let c = loop16 0 front in
    let hc = loop16-lt front 0 (omega arith) hf in
    let reduce : (x : ℕ) → Byte x → calculate_crc16 (front ++ x ∷ back) ≡ loop16 (step16 c x) back =
      λ x hx.
        calculate_crc16-eq (front ++ x ∷ back) (All-append Byte front (x ∷ back) hf (hx, hk))
        ∙ loop16-append front (x ∷ back) 0 in
    differ (
      step16-injective_input c a b hc ha hb (
        loop16-injective back (step16 c a) (step16 c b) (step16-lt c a hc ha) (step16-lt c b hc hb)
          hk (sym (reduce a ha) ∙ same ∙ reduce b hb)))
