-- ===== src/Common/Fields.antt =====
-- A field of `s` bits at bit `p` of a word: reading it, and storing into it. Shared lemmas for the
-- memory map, the scan entries and the metadata, whose code says this with shifts and masks.
use m.Common.{
  ℕ, zero, suc, ◌+◌, ◌-◌, ◌*◌, ◌/◌, ◌%◌, ◌^◌, ◌≤◌, ◌<◌, bit_and, bit_or, ◌≡◌, ap, sym, ◌∙◌, ◌⊎◌,
  inl, inr, arith,
}
use m.Common.Bits.{
  ◌<<◌, low_mask, bit_andnot, pow-pos, and-zero, or-zero, and_mask, or_split, and_split, or_shifted,
}
use native.Mathlib.Nat.{
  pow-suc, div-add-mod', mod-lt, div-div-eq-div-mul, mul-add-mod_self_right, mul-add-div_right,
  mod-eq_of_lt, div-eq_of_lt, div-lt_iff_lt-mul,
}

abbrev pub field : ℕ → ℕ → ℕ → ℕ
field p s x = x / 2 ^ p % 2 ^ s

-- `x` with `v` in its field.
pub put : ℕ → ℕ → ℕ → ℕ → ℕ
put p s v x = (x / 2 ^ p / 2 ^ s * 2 ^ s + v) * 2 ^ p + x % 2 ^ p

pub pow-add : (a b : ℕ) → 2 ^ (a + b) ≡ 2 ^ a * 2 ^ b
pow-add a zero = let e : a + 0 ≡ a = omega arith in omega (arith, ap (λ (t : ℕ). 2 ^ t) e)
pow-add a (suc b) =
    let e : a + suc b ≡ suc (a + b) = omega arith in
    omega (
      arith,
      ap (λ (t : ℕ). 2 ^ t) e,
      pow-suc 2 (a + b),
      pow-suc 2 b,
      ap (λ (t : ℕ). t * 2) (pow-add a b),
      ap (λ (t : ℕ). 2 ^ a * t) (pow-suc 2 b),
    )

-- The three parts of a word round a field.
module _ (p s h v l : ℕ) (v_fits : v < 2 ^ s) (l_fits : l < 2 ^ p) where
  parts-div : ((h * 2 ^ s + v) * 2 ^ p + l) / 2 ^ p ≡ h * 2 ^ s + v
  parts-div = omega (arith, mul-add-div_right (pow-pos p) (h * 2 ^ s + v) l, div-eq_of_lt l_fits)

  pub field-parts : field p s ((h * 2 ^ s + v) * 2 ^ p + l) ≡ v
  field-parts =
      ap (λ (t : ℕ). t % 2 ^ s) parts-div ∙ mul-add-mod_self_right h (2 ^ s) v ∙ mod-eq_of_lt v_fits

  pub high-parts : ((h * 2 ^ s + v) * 2 ^ p + l) / 2 ^ p / 2 ^ s ≡ h
  high-parts = omega (
    arith,
    ap (λ (t : ℕ). t / 2 ^ s) parts-div,
    mul-add-div_right (pow-pos s) h v,
    div-eq_of_lt v_fits,
  )

  pub low-parts : ((h * 2 ^ s + v) * 2 ^ p + l) % 2 ^ p ≡ l
  low-parts = mul-add-mod_self_right (h * 2 ^ s + v) (2 ^ p) l ∙ mod-eq_of_lt l_fits

module _ (p s : ℕ) where
  -- A word is put together from its field and the rest.
  pub put_self : (x : ℕ) → put p s (field p s x) x ≡ x
  unfolding put
  put_self x =
      omega (
        arith,
        ap (λ (t : ℕ). t * 2 ^ p) (div-add-mod' (x / 2 ^ p) (2 ^ s)),
        div-add-mod' x (2 ^ p),
      )

  pub field-put : (v x : ℕ) → v < 2 ^ s → field p s (put p s v x) ≡ v
  unfolding put
  field-put v x h = field-parts p s (x / 2 ^ p / 2 ^ s) v (x % 2 ^ p) h (mod-lt x (pow-pos p))

  pub high-put : (v x : ℕ) → v < 2 ^ s → put p s v x / 2 ^ p / 2 ^ s ≡ x / 2 ^ p / 2 ^ s
  unfolding put
  high-put v x h = high-parts p s (x / 2 ^ p / 2 ^ s) v (x % 2 ^ p) h (mod-lt x (pow-pos p))

-- A field above bit `p` of a word of which only the part above `p` is known, and one below.
pub field_above : (p s d t x : ℕ) → field (p + s + d) t x ≡ field d t (x / 2 ^ p / 2 ^ s)
field_above p s d t x =
    let e : x / 2 ^ (p + s + d) ≡ x / 2 ^ p / 2 ^ s / 2 ^ d = omega (
      arith,
      ap (λ (t : ℕ). x / t) (pow-add (p + s) d),
      ap (λ (t : ℕ). x / (t * 2 ^ d)) (pow-add p s),
      div-div-eq-div-mul x (2 ^ p * 2 ^ s) (2 ^ d),
      ap (λ (t : ℕ). t / 2 ^ d) (div-div-eq-div-mul x (2 ^ p) (2 ^ s)),
    ) in
    ap (λ (u : ℕ). u % 2 ^ t) e

pub field_below : (p s d q l : ℕ) → field p s (q * 2 ^ (d + s + p) + l) ≡ field p s l
field_below p s d q l =
    let e : q * 2 ^ (d + s + p) + l ≡ q * 2 ^ d * 2 ^ s * 2 ^ p + l = omega (
      arith,
      ap (λ (t : ℕ). q * t) (pow-add (d + s) p),
      ap (λ (t : ℕ). q * (t * 2 ^ p)) (pow-add d s),
    ) in
    ap (λ (t : ℕ). t / 2 ^ p % 2 ^ s) e
    ∙ ap (λ (t : ℕ). t % 2 ^ s) (mul-add-div_right (pow-pos p) (q * 2 ^ d * 2 ^ s) l)
    ∙ mul-add-mod_self_right (q * 2 ^ d) (2 ^ s) (l / 2 ^ p)

-- A field below bit `p` is a field of the low part.
field_of_low : (p p' s' q l : ℕ) → p' + s' ≤ p → field p' s' (q * 2 ^ p + l) ≡ field p' s' l
field_of_low p p' s' q l below =
    let d = p - (p' + s') in
    let e : p ≡ d + s' + p' = omega arith in
    ap (λ (t : ℕ). field p' s' (q * 2 ^ t + l)) e ∙ field_below p' s' d q l

-- Storing into one field leaves every field that does not overlap it as it was.
pub field-put_ne :
    (p s p' s' v x : ℕ)
    → v < 2 ^ s
    → (p + s ≤ p') ⊎ (p' + s' ≤ p)
    → field p' s' (put p s v x) ≡ field p' s' x
field-put_ne p s p' s' v x h (inl above) =
    let e : p' ≡ p + s + (p' - (p + s)) = omega arith in
    let d = p' - (p + s) in
    ap (λ (t : ℕ). field t s' (put p s v x)) e
    ∙ field_above p s d s' (put p s v x)
    ∙ ap (λ (t : ℕ). field d s' t) (high-put p s v x h)
    ∙ sym (field_above p s d s' x)
    ∙ ap (λ (t : ℕ). field t s' x) (sym e)
field-put_ne p s p' s' v x h (inr below) =
    put-low
    ∙ sym (field_of_low p p' s' (x / 2 ^ p) (x % 2 ^ p) below)
    ∙ ap (λ (t : ℕ). field p' s' t) (div-add-mod' x (2 ^ p))
  where
    put-low : field p' s' (put p s v x) ≡ field p' s' (x % 2 ^ p)
    put-low = unfold put in field_of_low p p' s' (x / 2 ^ p / 2 ^ s * 2 ^ s + v) (x % 2 ^ p) below

parts-lt : (d s p q v l : ℕ) → q < d → v < s → l < p → (q * s + v) * p + l < d * s * p
parts-lt d s p q v l hq hv hl = let outer : q * s + v < d * s = grind arith in grind arith

-- A store that fits a word of `w` bits stays in it.
pub put-lt : (p s w v x : ℕ) → v < 2 ^ s → p + s ≤ w → x < 2 ^ w → put p s v x < 2 ^ w
unfolding put
put-lt p s w v x h fits hx =
    let d = w - (p + s) in
    let e : w ≡ d + s + p = omega arith in
    let width : 2 ^ w ≡ 2 ^ d * 2 ^ s * 2 ^ p =
      ap (λ (t : ℕ). 2 ^ t) e ∙ pow-add (d + s) p ∙ ap (λ (t : ℕ). t * 2 ^ p) (pow-add d s) in
    let q_fits : x / 2 ^ p / 2 ^ s < 2 ^ d =
      (div-lt_iff_lt-mul (pow-pos s)).1
        ((div-lt_iff_lt-mul (pow-pos p)).1 (omega (arith, width))) in
    omega (
      arith,
      width,
      parts-lt (2 ^ d) (2 ^ s) (2 ^ p) (x / 2 ^ p / 2 ^ s) v (x % 2 ^ p) q_fits h
          (mod-lt x (pow-pos p)),
    )

module _ (p s : ℕ) where
  -- `x & (mask << p)`
  pub and_field : (x : ℕ) → bit_and x (low_mask s << p) ≡ field p s x << p
  and_field x =
      let e : (low_mask s << p) + 0 ≡ low_mask s << p = omega arith in
      omega (
        arith,
        ap (λ (t : ℕ). bit_and t (low_mask s << p)) (div-add-mod' x (2 ^ p)),
        ap (λ (t : ℕ). bit_and (x / 2 ^ p * 2 ^ p + x % 2 ^ p) t) e,
        and_split p (x / 2 ^ p) (low_mask s) (x % 2 ^ p) 0 (mod-lt x (pow-pos p)) (pow-pos p),
        ap (λ (t : ℕ). t * 2 ^ p) (and_mask s (x / 2 ^ p)),
        and-zero (x % 2 ^ p),
      )

  -- `x & ~(mask << p)` clears the field.
  pub andnot_field : (x : ℕ) → bit_andnot x (low_mask s << p) ≡ put p s 0 x
  unfolding put
  andnot_field x = omega (
    arith,
    and_field x,
    ap (λ (t : ℕ). t * 2 ^ p) (div-add-mod' (x / 2 ^ p) (2 ^ s)),
    div-add-mod' x (2 ^ p),
  )

  -- `x | (v << p)` where the field of `x` is clear.
  pub or_clear : (v x : ℕ) → v < 2 ^ s → bit_or (put p s 0 x) (v << p) ≡ put p s v x
  unfolding put
  or_clear v x h =
      let q = x / 2 ^ p / 2 ^ s in
      let e : (v << p) + 0 ≡ v << p = omega arith in
      let z : q * 2 ^ s + 0 ≡ q * 2 ^ s = omega arith in
      omega (
        arith,
        ap (λ (t : ℕ). bit_or ((q * 2 ^ s + 0) * 2 ^ p + x % 2 ^ p) t) e,
        or_split p (q * 2 ^ s + 0) v (x % 2 ^ p) 0 (mod-lt x (pow-pos p)) (pow-pos p),
        ap (λ (t : ℕ). bit_or t v * 2 ^ p) z,
        ap (λ (t : ℕ). t * 2 ^ p) (or_shifted s q v h),
        or-zero (x % 2 ^ p),
      )

  -- The read-modify-write of a field.
  pub put_bits :
      (v x : ℕ) → v < 2 ^ s → bit_or (bit_andnot x (low_mask s << p)) (v << p) ≡ put p s v x
  put_bits v x h = ap (λ (t : ℕ). bit_or t (v << p)) (andnot_field x) ∙ or_clear v x h

  -- Where a field is zero, `x | (v << p)` stores into it.
  pub or_free : (v x : ℕ) → v < 2 ^ s → field p s x ≡ 0 → bit_or x (v << p) ≡ put p s v x
  or_free v x h free =
      ap (λ (t : ℕ). bit_or t (v << p)) (sym (put_self p s x) ∙ ap (λ (t : ℕ). put p s t x) free)
      ∙ or_clear v x h

-- A field of the low `k` bits.
pub field-mod : (p s k x : ℕ) → p + s ≤ k → field p s (x % 2 ^ k) ≡ field p s x
field-mod p s k x h =
    sym (field_of_low k p s (x / 2 ^ k) (x % 2 ^ k) h)
    ∙ ap (λ (t : ℕ). field p s t) (div-add-mod' x (2 ^ k))
