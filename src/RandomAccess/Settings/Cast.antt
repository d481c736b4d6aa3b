-- ===== src/RandomAccess/Settings/Cast.antt =====
-- `cast_to_sequence` of cobra_system_control/cobra_system_control/validation_utilities.py: how many values
-- it gives, and which.
use m.Common.{
  ℕ, zero, suc, ◌≡◌, refl, sym, ap, ◌∙◌, Bool, true, List, [], ◌∷◌, ◌==◌, length, length-replicate,
  replicate, Result, ok, err, ◌>>=◌, if_ok, ok-injective, value_error, ==_iff,
}
use mathlib.Core.Path.{subst}
use m.Common.All.{All}
use m.RandomAccess.Settings.{Param, single, sequence, map_all, cast_to_sequence, option}

-- A part that returned, and what comes after it.
pub after {ℓ κ} :
    {X Y : Type ℓ} {T : Type κ} (r : Result X) (next : X → Result Y) {y : Y}
    → (r >>= next) ≡ ok y
    → ((x : X) → r ≡ ok x → next x ≡ ok y → T)
    → T
after (ok x) next e rest = rest x refl e
after (err raised) next e rest = cc

All-replicate : {A : Type 0} (P : A → Type 0) (n : ℕ) (y : A) → P y → All P (replicate n y)
All-replicate P zero y h = tt
All-replicate P (suc n) y h = (h, All-replicate P n y h)

module _ {A B : Type 0} (func : A → Result B) where
  length-map_all : (xs : List A) {ys : List B} → map_all func xs ≡ ok ys → length ys ≡ length xs
  length-map_all [] e = ap length (sym (ok-injective e))
  length-map_all (x ∷ xs) e = after (func x) _ e (λ y first e'.
      after (map_all func xs) _ e'
        (λ ys rest done. ap length (sym (ok-injective done)) ∙ ap suc (length-map_all xs rest)))

  pub length-cast_to_sequence :
      (p : Param A) (n : ℕ) {ys : List B} → cast_to_sequence p n func ≡ ok ys → length ys ≡ n
  unfolding cast_to_sequence
  length-cast_to_sequence (single x) n e =
      after (func x) _ e
        (λ y first done. ap length (sym (ok-injective done)) ∙ length-replicate n y)
  length-cast_to_sequence (sequence []) n {ys = ys} e =
      let (zero_eq, done) = if_ok (0 == n) (ok []) value_error ys e in
      ap length (sym (ok-injective done)) ∙ (==_iff 0 n).0 zero_eq
  length-cast_to_sequence (sequence (x ∷ [])) n e =
      after (func x) _ e
        (λ y first done. ap length (sym (ok-injective done)) ∙ length-replicate n y)
  length-cast_to_sequence (sequence (x ∷ y ∷ xs)) n {ys = ys} e =
      let (same, done) =
        if_ok (length (x ∷ y ∷ xs) == n) (map_all func (x ∷ y ∷ xs)) value_error ys e in
      length-map_all (x ∷ y ∷ xs) done ∙ (==_iff (length (x ∷ y ∷ xs)) n).0 same

  -- What every result of the function satisfies.
  module _ (P : B → Type 0) (each : (x : A) (y : B) → func x ≡ ok y → P y) where
    All-map_all : (xs : List A) {ys : List B} → map_all func xs ≡ ok ys → All P ys
    All-map_all [] e = subst (All P) (ok-injective e) tt
    All-map_all (x ∷ xs) e = after (func x) _ e (λ y first e'.
        after (map_all func xs) _ e'
          (λ ys rest done. subst (All P) (ok-injective done) (each x y first, All-map_all xs rest)))

    All-cast_to_sequence :
        (p : Param A) (n : ℕ) {ys : List B} → cast_to_sequence p n func ≡ ok ys → All P ys
    unfolding cast_to_sequence
    All-cast_to_sequence (single x) n e =
        after (func x) _ e
          (λ y first done. subst (All P) (ok-injective done) (All-replicate P n y (each x y first)))
    All-cast_to_sequence (sequence []) n {ys = ys} e =
        subst (All P) (ok-injective (if_ok (0 == n) (ok []) value_error ys e).1) tt
    All-cast_to_sequence (sequence (x ∷ [])) n e =
        after (func x) _ e
          (λ y first done. subst (All P) (ok-injective done) (All-replicate P n y (each x y first)))
    All-cast_to_sequence (sequence (x ∷ y ∷ xs)) n {ys = ys} e =
        All-map_all (x ∷ y ∷ xs)
          (if_ok (length (x ∷ y ∷ xs) == n) (map_all func (x ∷ y ∷ xs)) value_error ys e).1

option-ok : (t : ℕ → Bool) (x y : ℕ) → option t x ≡ ok y → t y ≡ true
option-ok t x y e =
    let (holds, same) = if_ok (t x) (ok x) value_error y e in
    subst (λ (z : ℕ). t z ≡ true) (ok-injective same) holds

pub option_cast :
    (t : ℕ → Bool) (p : Param ℕ) (n : ℕ) {ys : List ℕ}
    → cast_to_sequence p n (option t) ≡ ok ys
    → All (λ y. t y ≡ true) ys
option_cast t p n e =
    All-cast_to_sequence (option t) (λ y. t y ≡ true) (λ x y made. option-ok t x y made) p n e

module _ {A : Type 0} (P : A → Type 0) where
  All-map_same : (xs : List A) {ys : List A} → All P xs → map_all (λ x. ok x) xs ≡ ok ys → All P ys
  All-map_same [] h e = subst (All P) (ok-injective e) tt
  All-map_same (x ∷ xs) h e =
      after (map_all (λ x. ok x) xs) _ e
        (λ ys rest done. subst (All P) (ok-injective done) (h.0, All-map_same xs h.1 rest))

  pub All-cast_same :
      (xs : List A) (n : ℕ) {ys : List A}
      → All P xs
      → cast_to_sequence (sequence xs) n (λ x. ok x) ≡ ok ys
      → All P ys
  unfolding cast_to_sequence
  All-cast_same [] n {ys = ys} h e =
      subst (All P) (ok-injective (if_ok (0 == n) (ok []) value_error ys e).1) tt
  All-cast_same (x ∷ []) n h e = subst (All P) (ok-injective e) (All-replicate P n x h.0)
  All-cast_same (x ∷ y ∷ xs) n {ys = ys} h e =
      All-map_same (x ∷ y ∷ xs) h
        (if_ok (length (x ∷ y ∷ xs) == n) (map_all (λ x. ok x) (x ∷ y ∷ xs)) value_error ys e).1

-- The same, to be written one part after the other.
infixr 1 past◌of◌take◌
pub past◌of◌take◌ {ℓ κ} :
    {X Y : Type ℓ} {T : Type κ} (r : Result X) {next : X → Result Y} {y : Y}
    → (r >>= next) ≡ ok y
    → ((x : X) → r ≡ ok x → next x ≡ ok y → T)
    → T
past◌of◌take◌ r {next = next} e rest = after r next e rest
