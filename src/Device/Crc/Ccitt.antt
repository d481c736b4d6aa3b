-- ===== src/Device/Crc/Ccitt.antt =====
-- The CRC that the table of `USB.calculate_crc16` stands for: the remainder by x^16 + x^12 + x^5 + 1,
-- one bit at a time in a register of 16 bits, from 0, highest bit first.
use m.Common.{
  ℕ, zero, suc, ◌+◌, ◌*◌, ◌/◌, ◌%◌, ◌^◌, ◌≤◌, ◌<◌, bit_and, ◌≡◌, refl, sym, ap, ap₂, ◌∙◌, Bool,
  true, ◌⊎◌, inl, inr, List, [], ◌∷◌, ◌==◌, leb, if◌then◌else◌, get_or, arith, ==_iff,
}
use m.Common.All.{All}
use m.Common.Bits.{and_mask, pow-pos}
use m.Common.Table.{holds_below, from-holds_below}
use m.Common.Xor.{
  xor-zero, xor-lt, mod-xor, div-xor, xor_double, xor_swap, xor_high, xor_under, xor_comm,
}
use m.Device.Crc.{crc16tab, crc_step, crc_loop, calculate_crc16}
use Prim.Native.Nat.{bit_xor}
use native.Mathlib.Nat.{mod-eq_of_lt, pow-suc, div-add-mod'}

abbrev pub Byte : ℕ → Type 0
Byte b = b < 2 ^ 8

-- One bit of the division.
abbrev pub divide_bit : ℕ → ℕ
divide_bit c = if leb 0x8000 c then bit_xor (2 * c % 0x10000) 0x1021 else 2 * c

abbrev pub divide_bits : ℕ → ℕ → ℕ
divide_bits zero c = c
divide_bits (suc n) c = divide_bits n (divide_bit c)

abbrev pub crc_ccitt : ℕ → List ℕ → ℕ
crc_ccitt c [] = c
crc_ccitt c (b ∷ bytes) = crc_ccitt (divide_bits 8 (bit_xor c (b * 2 ^ 8))) bytes

-- A step of the table on a register of 16 bits.
abbrev pub step16 : ℕ → ℕ → ℕ
step16 c b = bit_xor (c % 2 ^ 8 * 2 ^ 8) (get_or crc16tab (bit_xor (c / 2 ^ 8) b) 0)

abbrev row_fits : ℕ → Bool
row_fits i = leb (get_or crc16tab i 0) 0xFFFF

rows_fit : holds_below row_fits 256 ≡ true
unfolding holds_below
rows_fit = refl

pub row-lt : (i : ℕ) → Byte i → get_or crc16tab i 0 < 2 ^ 16
row-lt i h = let e = from-holds_below row_fits 256 i (omega (arith, h)) rows_fit in ground arith

divide_high : (x : ℕ) → 0x8000 ≤ x → divide_bit x ≡ bit_xor (2 * x % 0x10000) 0x1021
divide_high x h = ground arith

divide_low : (x : ℕ) → x < 0x8000 → divide_bit x ≡ 2 * x
divide_low x h = ground arith

top_xor : (x y : ℕ) → y < 0x8000 → bit_xor x y / 0x8000 ≡ x / 0x8000
top_xor x y h =
    let e : y / 0x8000 ≡ 0 = omega arith in
    div-xor 15 x y ∙ ap (λ (t : ℕ). bit_xor (x / 0x8000) t) e ∙ xor-zero (x / 0x8000)

double_mod : (x y : ℕ) → y < 0x8000 → 2 * bit_xor x y % 0x10000 ≡ bit_xor (2 * x % 0x10000) (2 * y)
double_mod x y h =
    let e : 2 * y % 0x10000 ≡ 2 * y = omega arith in
    ap (λ (t : ℕ). t % 0x10000) (sym (xor_double x y))
    ∙ mod-xor 16 (2 * x) (2 * y)
    ∙ ap (λ (t : ℕ). bit_xor (2 * x % 0x10000) t) e

-- Dividing is linear in the bits that have not reached the top.
divide_bit-xor : (x y : ℕ) → y < 0x8000 → divide_bit (bit_xor x y) ≡ bit_xor (divide_bit x) (2 * y)
divide_bit-xor x y h = elim (below x) [
  | inl low ↦
      divide_low (bit_xor x y) (omega (arith, top_xor x y h))
      ∙ sym (xor_double x y)
      ∙ ap (λ (t : ℕ). bit_xor t (2 * y)) (sym (divide_low x low))
  | inr high ↦
      divide_high (bit_xor x y) (omega (arith, top_xor x y h))
      ∙ ap (λ (t : ℕ). bit_xor t 0x1021) (double_mod x y h)
      ∙ xor_swap (2 * x % 0x10000) (2 * y) 0x1021
      ∙ ap (λ (t : ℕ). bit_xor t (2 * y)) (sym (divide_high x high))
]
  where
    below : (x : ℕ) → (x < 0x8000) ⊎ (0x8000 ≤ x)
    below x = omega arith

divide_bits-xor :
    (n x y : ℕ)
    → y * 2 ^ n < 2 ^ 16
    → divide_bits n (bit_xor x y) ≡ bit_xor (divide_bits n x) (y * 2 ^ n)
divide_bits-xor zero x y h = let e : y ≡ y * 2 ^ 0 = omega arith in ap (λ (t : ℕ). bit_xor x t) e
divide_bits-xor (suc n) x y h =
    let e : 2 * y * 2 ^ n ≡ y * 2 ^ suc n =
      omega (arith, pow-suc 2 n, ap (λ (t : ℕ). y * t) (pow-suc 2 n)) in
    let small : y < 0x8000 = grind (arith, pow-pos n) in
    ap (divide_bits n) (divide_bit-xor x y small)
    ∙ divide_bits-xor n (divide_bit x) (2 * y) (omega (arith, e))
    ∙ ap (λ (t : ℕ). bit_xor (divide_bits n (divide_bit x)) t) e

-- The table holds the remainders of the bytes at the top.
abbrev row_divides : ℕ → Bool
row_divides i = divide_bits 8 (i * 2 ^ 8) == get_or crc16tab i 0

rows_divide : holds_below row_divides 256 ≡ true
unfolding holds_below
rows_divide = refl

row-eq : (i : ℕ) → Byte i → divide_bits 8 (i * 2 ^ 8) ≡ get_or crc16tab i 0
row-eq i h =
    (==_iff (divide_bits 8 (i * 2 ^ 8)) (get_or crc16tab i 0)).0
      (from-holds_below row_divides 256 i (omega (arith, h)) rows_divide)

-- Eight bits of the division are one row of the table.
bits_row :
    (h l b : ℕ)
    → Byte h
    → Byte l
    → Byte b
    → divide_bits 8 (bit_xor (h * 2 ^ 8 + l) (b * 2 ^ 8))
      ≡ bit_xor (l * 2 ^ 8) (get_or crc16tab (bit_xor h b) 0)
bits_row h l b hh hl hb =
    let i = bit_xor h b in
    ap (divide_bits 8) (xor_high 8 h b l hl ∙ sym (xor_under 8 i l hl))
    ∙ divide_bits-xor 8 (i * 2 ^ 8) l (omega (arith, hl))
    ∙ ap (λ (t : ℕ). bit_xor t (l * 2 ^ 8)) (row-eq i (xor-lt 8 h b hh hb))
    ∙ xor_comm (get_or crc16tab i 0) (l * 2 ^ 8)

pub divide_bits-step16 :
    (c b : ℕ) → c < 2 ^ 16 → Byte b → divide_bits 8 (bit_xor c (b * 2 ^ 8)) ≡ step16 c b
divide_bits-step16 c b hc hb =
    ap (λ (t : ℕ). divide_bits 8 (bit_xor t (b * 2 ^ 8))) (sym (div-add-mod' c (2 ^ 8)))
    ∙ bits_row (c / 2 ^ 8) (c % 2 ^ 8) b (omega (arith, hc)) (omega arith) hb

-- The row that a step takes, with the register cut to 16 bits or not.
row_index :
    (c b : ℕ) → Byte b → bit_and (bit_xor (c / 2 ^ 8) b) 0x00FF ≡ bit_xor (c % 2 ^ 16 / 2 ^ 8) b
row_index c b hb =
    let high : c / 2 ^ 8 % 2 ^ 8 ≡ c % 2 ^ 16 / 2 ^ 8 = omega arith in
    and_mask 8 (bit_xor (c / 2 ^ 8) b)
    ∙ mod-xor 8 (c / 2 ^ 8) b
    ∙ ap₂ bit_xor high (mod-eq_of_lt hb)

-- What is above the 16 bits of the register never comes back.
pub crc_step-mod : (c b : ℕ) → Byte b → crc_step c b % 2 ^ 16 ≡ step16 (c % 2 ^ 16) b
unfolding crc_step
crc_step-mod c b hb =
    let i = bit_xor (c % 2 ^ 16 / 2 ^ 8) b in
    let row : get_or crc16tab i 0 < 2 ^ 16 =
      row-lt i (xor-lt 8 (c % 2 ^ 16 / 2 ^ 8) b (omega arith) hb) in
    let high : c * 2 ^ 8 % 2 ^ 16 ≡ c % 2 ^ 16 % 2 ^ 8 * 2 ^ 8 = omega arith in
    ap (λ (t : ℕ). bit_xor (c * 2 ^ 8) (get_or crc16tab t 0) % 2 ^ 16) (row_index c b hb)
    ∙ mod-xor 16 (c * 2 ^ 8) (get_or crc16tab i 0)
    ∙ ap₂ bit_xor high (mod-eq_of_lt row)

pub step16-lt : (c b : ℕ) → c < 2 ^ 16 → Byte b → step16 c b < 2 ^ 16
step16-lt c b hc hb =
    xor-lt 16 (c % 2 ^ 8 * 2 ^ 8) (get_or crc16tab (bit_xor (c / 2 ^ 8) b) 0) (omega arith)
      (row-lt (bit_xor (c / 2 ^ 8) b) (xor-lt 8 (c / 2 ^ 8) b (omega (arith, hc)) hb))

-- The loop of the code, on its register cut to 16 bits.
abbrev pub loop16 : ℕ → List ℕ → ℕ
loop16 c [] = c
loop16 c (b ∷ bytes) = loop16 (step16 c b) bytes

pub crc_loop-mod :
    (bytes : List ℕ) (c : ℕ)
    → All Byte bytes
    → crc_loop c bytes % 2 ^ 16 ≡ loop16 (c % 2 ^ 16) bytes
crc_loop-mod [] c h = refl
crc_loop-mod (b ∷ bytes) c h =
    crc_loop-mod bytes (crc_step c b) h.1 ∙ ap (λ (t : ℕ). loop16 t bytes) (crc_step-mod c b h.0)

pub calculate_crc16-eq : (bytes : List ℕ) → All Byte bytes → calculate_crc16 bytes ≡ loop16 0 bytes
unfolding calculate_crc16
calculate_crc16-eq bytes h = and_mask 16 (crc_loop 0 bytes) ∙ crc_loop-mod bytes 0 h

pub loop16-lt : (bytes : List ℕ) (c : ℕ) → c < 2 ^ 16 → All Byte bytes → loop16 c bytes < 2 ^ 16
loop16-lt [] c hc h = hc
loop16-lt (b ∷ bytes) c hc h = loop16-lt bytes (step16 c b) (step16-lt c b hc h.0) h.1

pub calculate_crc16-lt : (bytes : List ℕ) → All Byte bytes → calculate_crc16 bytes < 2 ^ 16
calculate_crc16-lt bytes h =
    omega (arith, calculate_crc16-eq bytes h, loop16-lt bytes 0 (omega arith) h)

crc_ccitt-loop16 :
    (bytes : List ℕ) (c : ℕ) → c < 2 ^ 16 → All Byte bytes → crc_ccitt c bytes ≡ loop16 c bytes
crc_ccitt-loop16 [] c hc h = refl
crc_ccitt-loop16 (b ∷ bytes) c hc h =
    ap (λ (t : ℕ). crc_ccitt t bytes) (divide_bits-step16 c b hc h.0)
    ∙ crc_ccitt-loop16 bytes (step16 c b) (step16-lt c b hc h.0) h.1

-- For bytes, calculate_crc16, whose register grows with the message and is cut to 16 bits at the
-- end only, gives the remainder of the message by x^16 + x^12 + x^5 + 1 that the bit by bit
-- division in 16 bits gives.
pub calculate_crc16-crc_ccitt :
    (bytes : List ℕ) → All Byte bytes → calculate_crc16 bytes ≡ crc_ccitt 0 bytes
calculate_crc16-crc_ccitt bytes h =
    calculate_crc16-eq bytes h ∙ sym (crc_ccitt-loop16 bytes 0 (omega arith) h)
