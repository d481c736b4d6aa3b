-- ===== src/Common/Bits.antt =====
-- Shifts, masks and fields of non-negative Python integers, at every width. Shared lemmas.
use m.Common.{
  ℕ, zero, suc, ◌+◌, ◌-◌, ◌*◌, ◌/◌, ◌%◌, ◌^◌, ◌≤◌, ◌<◌, bit_and, bit_or, ◌≡◌, refl, ap, arith,
}
use m.Common.Digits.{and_step, or_step}
use Prim.Native.Nat.{min, max, bit_and-bitwise, bit_or-bitwise}
use native.Mathlib.Nat.{pow-suc, one-le-pow, div-add-mod', mod-lt}

-- `x >> k`, `x << k` and the mask `(1 << k) - 1`.
infixl 75 ◌<<◌ ◌>>>◌
abbrev pub ◌<<◌ : ℕ → ℕ → ℕ
x << k = x * 2 ^ k

abbrev pub ◌>>>◌ : ℕ → ℕ → ℕ
x >>> k = x / 2 ^ k

abbrev pub low_mask : ℕ → ℕ
low_mask k = 2 ^ k - 1

-- `x & ~y`: what remains of `x` without the ones that it shares with `y`.
abbrev pub bit_andnot : ℕ → ℕ → ℕ
bit_andnot x y = x - bit_and x y

pub pow-pos : (k : ℕ) → 0 < 2 ^ k
pow-pos k = one-le-pow k 2 (omega arith)

pub zero-and : (b : ℕ) → bit_and 0 b ≡ 0
zero-and b = bit_and-bitwise 0 b

pub zero-or : (b : ℕ) → bit_or 0 b ≡ b
zero-or b = bit_or-bitwise 0 b

-- Induction by halving.
by_halves_below :
    (P : ℕ → Type 0) → P 0 → ((x : ℕ) → P (suc x / 2) → P (suc x)) → (n x : ℕ) → x ≤ n → P x
by_halves_below P base step n zero h = base
by_halves_below P base step zero (suc x) h = absurd (omega arith)
by_halves_below P base step (suc n) (suc x) h =
    step x (by_halves_below P base step n (suc x / 2) (omega arith))

pub by_halves : (P : ℕ → Type 0) → P 0 → ((x : ℕ) → P (suc x / 2) → P (suc x)) → (x : ℕ) → P x
by_halves P base step x = by_halves_below P base step x x (omega arith)

pub and-zero : (a : ℕ) → bit_and a 0 ≡ 0
and-zero =
    by_halves (λ x. bit_and x 0 ≡ 0) (zero-and 0) (λ x ih. omega (arith, and_step (suc x) 0, ih))

or_comm_below : (n a b : ℕ) → a + b ≤ n → bit_or a b ≡ bit_or b a
or_comm_below zero a b h = let p : a ≡ 0 = omega arith in let q : b ≡ 0 = omega arith in rw (p, q)
or_comm_below (suc n) zero zero h = refl
or_comm_below (suc n) zero (suc b) h =
    omega (arith, or_step 0 (suc b), or_step (suc b) 0, or_comm_below n 0 (suc b / 2) (omega arith))
or_comm_below (suc n) (suc a) b h =
    omega (
      arith,
      or_step (suc a) b,
      or_step b (suc a),
      or_comm_below n (suc a / 2) (b / 2) (omega arith),
    )

pub or_comm : (a b : ℕ) → bit_or a b ≡ bit_or b a
or_comm a b = or_comm_below (a + b) a b (omega arith)

pub or-zero : (a : ℕ) → bit_or a 0 ≡ a
or-zero a = omega (arith, or_comm a 0, zero-or a)

double-pow : (q k : ℕ) → q * 2 ^ suc k ≡ 2 * (q * 2 ^ k)
double-pow q k = omega (arith, ap (λ (t : ℕ). q * t) (pow-suc 2 k))

half-shift : (a k c : ℕ) → (a * 2 ^ suc k + c) / 2 ≡ a * 2 ^ k + c / 2
half-shift a k c = omega (arith, double-pow a k)

parity-shift : (a k c : ℕ) → (a * 2 ^ suc k + c) % 2 ≡ c % 2
parity-shift a k c = omega (arith, double-pow a k)

-- An operation on digits works on the low `k` digits and on the others separately.
module _ (op f : ℕ → ℕ → ℕ) (op-zero : op 0 0 ≡ 0)
    (step : (a b : ℕ) → op a b ≡ 2 * op (a / 2) (b / 2) + f (a % 2) (b % 2)) where
  pub split :
      (k a b c d : ℕ)
      → c < 2 ^ k
      → d < 2 ^ k
      → op (a * 2 ^ k + c) (b * 2 ^ k + d) ≡ op a b * 2 ^ k + op c d
  split zero a b c d hc hd =
      let p : c ≡ 0 = omega arith in
      let q : d ≡ 0 = omega arith in
      let r : a * 2 ^ 0 + 0 ≡ a = omega arith in
      let s : b * 2 ^ 0 + 0 ≡ b = omega arith in rw (p, q, r, s, op-zero) (omega arith)
  split (suc k) a b c d hc hd =
      let ih =
        split k a b (c / 2) (d / 2) (omega (arith, pow-suc 2 k)) (omega (arith, pow-suc 2 k)) in
      rw
        (
          step (a * 2 ^ suc k + c) (b * 2 ^ suc k + d),
          half-shift a k c,
          half-shift b k d,
          parity-shift a k c,
          parity-shift b k d,
          ih,
        )
        (omega (arith, step c d, double-pow (op a b) k))

pub or_split :
    (k a b c d : ℕ)
    → c < 2 ^ k
    → d < 2 ^ k
    → bit_or (a * 2 ^ k + c) (b * 2 ^ k + d) ≡ bit_or a b * 2 ^ k + bit_or c d
or_split = split bit_or max refl or_step

pub and_split :
    (k a b c d : ℕ)
    → c < 2 ^ k
    → d < 2 ^ k
    → bit_and (a * 2 ^ k + c) (b * 2 ^ k + d) ≡ bit_and a b * 2 ^ k + bit_and c d
and_split = split bit_and min refl and_step

-- A number below `2 ^ k` fits under one that is shifted by `k`.
pub or_shifted : (k q r : ℕ) → r < 2 ^ k → bit_or (q << k) r ≡ q * 2 ^ k + r
or_shifted k q r h =
    let e : q * 2 ^ k + 0 ≡ q << k = omega arith in
    let e' : 0 * 2 ^ k + r ≡ r = omega arith in
    omega (
      arith,
      ap (λ (t : ℕ). bit_or t r) e,
      ap (λ (t : ℕ). bit_or (q * 2 ^ k + 0) t) e',
      or_split k q 0 0 r (pow-pos k) h,
      ap (λ (t : ℕ). t * 2 ^ k) (or-zero q),
      zero-or r,
    )

pub or_shifted' : (k q r : ℕ) → r < 2 ^ k → bit_or r (q << k) ≡ q * 2 ^ k + r
or_shifted' k q r h = omega (arith, or_comm r (q << k), or_shifted k q r h)

-- A sum of a shifted part and a low part, and a mask of the low part.
and_low : (k q r : ℕ) → r < 2 ^ k → bit_and (q * 2 ^ k + r) (low_mask k) ≡ bit_and r (low_mask k)
and_low k q r h =
    let e : 0 * 2 ^ k + low_mask k ≡ low_mask k = omega arith in
    omega (
      arith,
      ap (λ (t : ℕ). bit_and (q * 2 ^ k + r) t) e,
      and_split k q 0 r (low_mask k) h (omega (arith, pow-pos k)),
      ap (λ (t : ℕ). t * 2 ^ k) (and-zero q),
    )

and_ones : (k r : ℕ) → r < 2 ^ k → bit_and r (low_mask k) ≡ r
and_ones zero r h = let p : r ≡ 0 = omega arith in rw p refl
and_ones (suc k) r h = omega (
  arith,
  and_step r (low_mask (suc k)),
  ap (λ (t : ℕ). bit_and (r / 2) t) half-mask,
  and_ones k (r / 2) (omega (arith, pow-suc 2 k)),
  pow-suc 2 k,
  pow-pos k,
)
  where
    half-mask : low_mask (suc k) / 2 ≡ low_mask k
    half-mask = omega (arith, pow-suc 2 k, pow-pos k)

-- `x & ((1 << k) - 1)` is the remainder.
pub and_mask : (k a : ℕ) → bit_and a (low_mask k) ≡ a % 2 ^ k
and_mask k a = omega (
  arith,
  ap (λ (t : ℕ). bit_and t (low_mask k)) (div-add-mod' a (2 ^ k)),
  and_low k (a / 2 ^ k) (a % 2 ^ k) (mod-lt a (pow-pos k)),
  and_ones k (a % 2 ^ k) (mod-lt a (pow-pos k)),
)
