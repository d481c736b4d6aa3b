-- ===== src/Common/Action.antt =====
-- Code that changes the state of a device and may raise: the state is kept also when it raises.
use mathlib.Core.Path.{◌≡◌, refl, ap, ◌∙◌}
use mathlib.Core.Bool.{Bool, true, false}
use m.Common.Tests.{if◌then◌else◌}
use m.Common.Raise.{Exception, Result, ok, err}

abbrev pub Action : Type 0 → Type 0 → Type 0
Action S A = S → Result A × S

module _ {S A B : Type 0} where
  abbrev pub continue : (A → Action S B) → Result A × S → Result B × S
  continue next (err raised, s) = (err raised, s)
  continue next (ok x, s) = next x s

  infixl 5 ◌>>=◌
  abbrev pub ◌>>=◌ : Action S A → (A → Action S B) → Action S B
  (first >>= next) s = continue next (first s)

infixl 5 ◌>>◌
abbrev pub ◌>>◌ : {S B : Type 0} → Action S (Unit {0}) → Action S B → Action S B
first >> rest = first >>= λ done. rest

-- Code that does not touch the state.
abbrev pub lift : {S A : Type 0} → Result A → Action S A
lift r s = (r, s)

abbrev pub return : {S A : Type 0} → A → Action S A
return x s = (ok x, s)

abbrev pub raise : {S A : Type 0} → Exception → Action S A
raise e s = (err e, s)

-- `if bad: raise e`
abbrev pub check : {S : Type 0} → Bool → Exception → Action S (Unit {0})
check true e s = (err e, s)
check false e s = (ok tt, s)

-- The action returns, with a result and a state that satisfy `P`.
pub record Returns {S A : Type 0} (action : Action S A) (s : S) (P : A → S → Type 0) : Type 0 where
  pub result : A
  pub after : S
  pub runs : action s ≡ (ok result, after)
  pub holds : P result after

module _ {S A B : Type 0} where
  pub Returns-bind :
      {first : Action S A} {next : A → Action S B} {s : S} {P : A → S → Type 0} {Q : B → S → Type 0}
      → Returns first s P
      → ((x : A) (t : S) → P x t → Returns (next x) t Q)
      → Returns (first >>= next) s Q
  Returns-bind {next = next} r rest =
      let r' = rest r.result r.after r.holds in
      record {
        result = r'.result;
        after = r'.after;
        runs = ap (continue next) r.runs ∙ r'.runs;
        holds = r'.holds;
      }

module _ {S A : Type 0} where
  pub Returns-if :
      (test : Bool) {x y : Action S A} {s : S} {P : A → S → Type 0}
      → (test ≡ true → Returns x s P)
      → (test ≡ false → Returns y s P)
      → Returns (if test then x else y) s P
  Returns-if true on_true on_false = on_true refl
  Returns-if false on_true on_false = on_false refl

-- The action raises `e`.
pub record Raises {S A : Type 0} (action : Action S A) (s : S) (e : Exception) : Type 0 where
  pub left : S
  pub fails : action s ≡ (err e, left)

module _ {S A B : Type 0} where
  pub Raises-bind :
      {first : Action S A} {next : A → Action S B} {s : S} {P : A → S → Type 0} {e : Exception}
      → Returns first s P
      → ((x : A) (t : S) → P x t → Raises (next x) t e)
      → Raises (first >>= next) s e
  Raises-bind {next = next} r rest =
      let r' = rest r.result r.after r.holds in
      record { left = r'.left; fails = ap (continue next) r.runs ∙ r'.fails }

  pub Raises-first :
      {first : Action S A} (next : A → Action S B) {s : S} {e : Exception}
      → Raises first s e
      → Raises (first >>= next) s e
  Raises-first next r = record { left = r.left; fails = ap (continue next) r.fails }

-- What returns has got past its first part.
module _ {S A B : Type 0} (next : A → Action S B) {y : B} {t : S} where
  pub continue-eq-ok :
      (r : Result A × S)
      → continue next r ≡ (ok y, t)
      → (x : A) × ((u : S) × ((r ≡ (ok x, u)) × (next x u ≡ (ok y, t))))
  continue-eq-ok (err e, u) returns = cc
  continue-eq-ok (ok x, u) returns = (x, (u, (refl, returns)))
