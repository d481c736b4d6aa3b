-- ===== src/Common/Xor.antt =====
-- `^` on non-negative Python integers: its laws, and its halves at any width. Shared lemmas.
use m.Common.{
  ℕ, zero, suc, ◌+◌, ◌*◌, ◌/◌, ◌%◌, ◌^◌, ◌≤◌, ◌<◌, ◌≡◌, refl, sym, ap, ◌∙◌, ◌⊎◌, inl, inr, arith,
}
use m.Common.Digits.{xor_step}
use m.Common.Bits.{split, by_halves, pow-pos}
use Prim.Native.Nat.{bit_xor, differ, bit_xor-bitwise}
use native.Mathlib.Nat.{
  div-add-mod', mod-lt, mul-add-div_right, mul-add-mod_self_right, div-eq_of_lt, mod-eq_of_lt,
  pow-suc,
}

digit : (x : ℕ) → (x % 2 ≡ 0) ⊎ (x % 2 ≡ 1)
digit x = omega arith

differ_self : (d : ℕ) → differ d d ≡ 0
differ_self zero = refl
differ_self (suc d) = differ_self d

differ-zero : (d : ℕ) → differ d 0 ≡ d
differ-zero zero = refl
differ-zero (suc d) = refl

differ_cancel : (x y : ℕ) → differ (differ (x % 2) (y % 2)) (y % 2) ≡ x % 2
differ_cancel x y = elim (digit x) [
  | inl p ↦ elim (digit y) [ inl q ↦ rw (p, q) refl | inr q ↦ rw (p, q) refl ]
  | inr p ↦ elim (digit y) [ inl q ↦ rw (p, q) refl | inr q ↦ rw (p, q) refl ]
]

differ-lt : (x y : ℕ) → differ (x % 2) (y % 2) < 2
differ-lt x y = elim (digit x) [
  | inl p ↦ elim (digit y) [ inl q ↦ rw (p, q) (omega arith) | inr q ↦ rw (p, q) (omega arith) ]
  | inr p ↦ elim (digit y) [ inl q ↦ rw (p, q) (omega arith) | inr q ↦ rw (p, q) (omega arith) ]
]

pub zero-xor : (b : ℕ) → bit_xor 0 b ≡ b
zero-xor b = bit_xor-bitwise 0 b

pub xor-zero : (a : ℕ) → bit_xor a 0 ≡ a
xor-zero =
    by_halves (λ x. bit_xor x 0 ≡ x) (zero-xor 0)
      (λ x ih. omega (arith, xor_step (suc x) 0, differ-zero (suc x % 2), ih))

pub xor_self : (a : ℕ) → bit_xor a a ≡ 0
xor_self =
    by_halves (λ x. bit_xor x x ≡ 0) (zero-xor 0)
      (λ x ih. omega (arith, xor_step (suc x) (suc x), differ_self (suc x % 2), ih))

cancel_below : (n a b : ℕ) → a + b ≤ n → bit_xor (bit_xor a b) b ≡ a
cancel_below zero a b h =
    let p : a ≡ 0 = omega arith in let q : b ≡ 0 = omega arith in rw (p, q) refl
cancel_below (suc n) zero zero h = refl
cancel_below (suc n) zero (suc b) h = rw (zero-xor (suc b)) (xor_self (suc b))
cancel_below (suc n) (suc a) b h =
    let ih = cancel_below n (suc a / 2) (b / 2) (omega arith) in
    let s = xor_step (suc a) b in
    let lt = differ-lt (suc a) b in
    let half : bit_xor (suc a) b / 2 ≡ bit_xor (suc a / 2) (b / 2) = omega (arith, s, lt) in
    let low : bit_xor (suc a) b % 2 ≡ differ (suc a % 2) (b % 2) = omega (arith, s, lt) in
    omega (
      arith,
      xor_step (bit_xor (suc a) b) b,
      ap (λ (t : ℕ). bit_xor t (b / 2)) half,
      ap (λ (t : ℕ). differ t (b % 2)) low,
      differ_cancel (suc a) b,
      ih,
    )

-- What is masked twice is what it was.
pub xor_cancel : (a b : ℕ) → bit_xor (bit_xor a b) b ≡ a
xor_cancel a b = cancel_below (a + b) a b (omega arith)

pub xor_split :
    (k a b c d : ℕ)
    → c < 2 ^ k
    → d < 2 ^ k
    → bit_xor (a * 2 ^ k + c) (b * 2 ^ k + d) ≡ bit_xor a b * 2 ^ k + bit_xor c d
xor_split = split bit_xor differ refl xor_step

pub xor-lt : (k a b : ℕ) → a < 2 ^ k → b < 2 ^ k → bit_xor a b < 2 ^ k
xor-lt zero a b ha hb =
    let p : a ≡ 0 = omega arith in let q : b ≡ 0 = omega arith in rw (p, q) (omega arith)
xor-lt (suc k) a b ha hb =
    let ih = xor-lt k (a / 2) (b / 2) (omega (arith, pow-suc 2 k)) (omega (arith, pow-suc 2 k)) in
    omega (arith, xor_step a b, differ-lt a b, pow-suc 2 k, ih)

-- The low and the high part of `a ^ b`.
module _ (k a b : ℕ) where
  parts : bit_xor a b ≡ bit_xor (a / 2 ^ k) (b / 2 ^ k) * 2 ^ k + bit_xor (a % 2 ^ k) (b % 2 ^ k)
  parts =
      sym (ap (λ (t : ℕ). bit_xor t b) (div-add-mod' a (2 ^ k)))
      ∙ sym (ap (λ (t : ℕ). bit_xor (a / 2 ^ k * 2 ^ k + a % 2 ^ k) t) (div-add-mod' b (2 ^ k)))
      ∙ xor_split k (a / 2 ^ k) (b / 2 ^ k) (a % 2 ^ k) (b % 2 ^ k) (mod-lt a (pow-pos k))
          (mod-lt b (pow-pos k))

  low_fits : bit_xor (a % 2 ^ k) (b % 2 ^ k) < 2 ^ k
  low_fits = xor-lt k (a % 2 ^ k) (b % 2 ^ k) (mod-lt a (pow-pos k)) (mod-lt b (pow-pos k))

  pub mod-xor : bit_xor a b % 2 ^ k ≡ bit_xor (a % 2 ^ k) (b % 2 ^ k)
  mod-xor =
      ap (λ (t : ℕ). t % 2 ^ k) parts
      ∙ mul-add-mod_self_right (bit_xor (a / 2 ^ k) (b / 2 ^ k)) (2 ^ k)
          (bit_xor (a % 2 ^ k) (b % 2 ^ k))
      ∙ mod-eq_of_lt low_fits

  pub div-xor : bit_xor a b / 2 ^ k ≡ bit_xor (a / 2 ^ k) (b / 2 ^ k)
  div-xor = omega (
    arith,
    ap (λ (t : ℕ). t / 2 ^ k) parts,
    mul-add-div_right (pow-pos k) (bit_xor (a / 2 ^ k) (b / 2 ^ k))
        (bit_xor (a % 2 ^ k) (b % 2 ^ k)),
    div-eq_of_lt low_fits,
  )

pub xor_double : (a b : ℕ) → bit_xor (2 * a) (2 * b) ≡ 2 * bit_xor a b
xor_double a b =
    let e : 2 * a / 2 ≡ a = omega arith in
    let e' : 2 * b / 2 ≡ b = omega arith in
    let p : 2 * a % 2 ≡ 0 = omega arith in
    let q : 2 * b % 2 ≡ 0 = omega arith in xor_step (2 * a) (2 * b) ∙ rw (e, e', p, q) (omega arith)

differ_swap :
    (x y z : ℕ) → differ (differ (x % 2) (y % 2)) (z % 2) ≡ differ (differ (x % 2) (z % 2)) (y % 2)
differ_swap x y z = elim (digit y) [
  | inl p ↦ elim (digit z) [
    | inl q ↦ rw (p, q) refl
    | inr q ↦ rw (p, q, differ-zero (x % 2), differ-zero (differ (x % 2) 1)) refl
  ]
  | inr p ↦ elim (digit z) [
    | inl q ↦ rw (p, q, differ-zero (x % 2), differ-zero (differ (x % 2) 1)) refl
    | inr q ↦ rw (p, q) refl
  ]
]

half_xor : (a b : ℕ) → bit_xor a b / 2 ≡ bit_xor (a / 2) (b / 2)
half_xor a b = omega (arith, xor_step a b, differ-lt a b)

parity_xor : (a b : ℕ) → bit_xor a b % 2 ≡ differ (a % 2) (b % 2)
parity_xor a b = omega (arith, xor_step a b, differ-lt a b)

swap_step :
    (a b c : ℕ)
    → bit_xor (bit_xor (a / 2) (b / 2)) (c / 2) ≡ bit_xor (bit_xor (a / 2) (c / 2)) (b / 2)
    → bit_xor (bit_xor a b) c ≡ bit_xor (bit_xor a c) b
swap_step a b c ih =
    xor_step (bit_xor a b) c
    ∙ rw (half_xor a b, parity_xor a b, ih, differ_swap a b c)
        (omega (
          arith,
          xor_step (bit_xor a c) b,
          ap (λ (t : ℕ). bit_xor t (b / 2)) (half_xor a c),
          ap (λ (t : ℕ). differ t (b % 2)) (parity_xor a c),
        ))

swap_below : (n a b c : ℕ) → a + b + c ≤ n → bit_xor (bit_xor a b) c ≡ bit_xor (bit_xor a c) b
swap_below n zero zero c h = rw (zero-xor 0, zero-xor c) (sym (xor-zero c))
swap_below zero a b c h =
    let p : a ≡ 0 = omega arith in
    let q : b ≡ 0 = omega arith in let r : c ≡ 0 = omega arith in rw (p, q, r) refl
swap_below (suc n) zero (suc b) c h =
    swap_step 0 (suc b) c (swap_below n 0 (suc b / 2) (c / 2) (omega arith))
swap_below (suc n) (suc a) b c h =
    swap_step (suc a) b c (swap_below n (suc a / 2) (b / 2) (c / 2) (omega arith))

-- Masks in any order.
pub xor_swap : (a b c : ℕ) → bit_xor (bit_xor a b) c ≡ bit_xor (bit_xor a c) b
xor_swap a b c = swap_below (a + b + c) a b c (omega arith)

pub xor_comm : (a b : ℕ) → bit_xor a b ≡ bit_xor b a
xor_comm a b =
    ap (λ (t : ℕ). bit_xor t b) (sym (zero-xor a))
    ∙ xor_swap 0 a b
    ∙ ap (λ (t : ℕ). bit_xor t a) (zero-xor b)

-- A mask of the high part, and one of the low part.
pub xor_high :
    (k a b l : ℕ) → l < 2 ^ k → bit_xor (a * 2 ^ k + l) (b * 2 ^ k) ≡ bit_xor a b * 2 ^ k + l
xor_high k a b l h =
    let e : b * 2 ^ k ≡ b * 2 ^ k + 0 = omega arith in
    ap (λ (t : ℕ). bit_xor (a * 2 ^ k + l) t) e
    ∙ xor_split k a b l 0 h (pow-pos k)
    ∙ ap (λ (t : ℕ). bit_xor a b * 2 ^ k + t) (xor-zero l)

pub xor_under : (k a l : ℕ) → l < 2 ^ k → bit_xor (a * 2 ^ k) l ≡ a * 2 ^ k + l
xor_under k a l h =
    let e : l ≡ 0 * 2 ^ k + l = omega arith in
    xor_comm (a * 2 ^ k) l
    ∙ ap (λ (t : ℕ). bit_xor t (a * 2 ^ k)) e
    ∙ xor_high k 0 a l h
    ∙ ap (λ (t : ℕ). t * 2 ^ k + l) (zero-xor a)
