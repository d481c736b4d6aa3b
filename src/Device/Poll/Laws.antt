-- ===== src/Device/Poll/Laws.antt =====
-- When `wait_for_true` of cobra_system_control/cobra_system_control/functional_utilities.py ends well.
use m.Common.{
  ℕ, zero, suc, ◌≡◌, refl, ap, ◌∙◌, ◌↔◌, Bool, true, false, Result, ok, err, if◌then◌else◌,
  timeout_error,
}
use m.Common.Action.{Action, continue, return}
use m.Device.Poll.{wait_for_true}

-- The predicate, polled again and again from a state, holds at one of the next `n` polls, and leads
-- to a last state.
pub data HoldsWithin {S : Type 0} (predicate : Action S Bool) (last : S) : ℕ → S → Type 0 where
  now : {n : ℕ} {s : S} → predicate s ≡ (ok true, last) → HoldsWithin predicate last (suc n) s
  later :
      {n : ℕ} {s t : S}
      → predicate s ≡ (ok false, t)
      → HoldsWithin predicate last n t
      → HoldsWithin predicate last (suc n) s

module _ {S : Type 0} (predicate : Action S Bool) (last : S) where
  within_returns :
      (n : ℕ) (s : S) → HoldsWithin predicate last n s → wait_for_true predicate n s ≡ (ok tt, last)
  unfolding wait_for_true
  within_returns zero s h = elim h [ ]
  within_returns (suc n) s (now e) = rw e refl
  within_returns (suc n) s (later {t = t} e rest) = rw e (within_returns n t rest)

  -- The result of the first poll, told apart.
  module _ (n : ℕ) (s : S)
      (rest : (t : S)
        → wait_for_true predicate n t ≡ (ok tt, last)
        → HoldsWithin predicate last n t) where
    after_poll :
        (r : Result Bool × S)
        → predicate s ≡ r
        → continue (λ holds. if holds then return tt else wait_for_true predicate n) r
          ≡ (ok tt, last)
        → HoldsWithin predicate last (suc n) s
    after_poll (err x, t) polled e = cc
    after_poll (ok true, t) polled e =
        now (polled ∙ ap (λ (u : S). (ok true, u)) (ap (λ (p : Result (Unit {0}) × S). p.1) e))
    after_poll (ok false, t) polled e = later polled (rest t e)

  returns_within :
      (n : ℕ) (s : S) → wait_for_true predicate n s ≡ (ok tt, last) → HoldsWithin predicate last n s
  unfolding wait_for_true
  returns_within zero s e = cc
  returns_within (suc n) s e = after_poll n s (returns_within n) (predicate s) refl e

  -- wait_for_true returns, and leaves the state that the last poll led to, exactly when one of the
  -- polls that it makes holds.
  pub wait_for_true_iff :
      (n : ℕ) (s : S)
      → (wait_for_true predicate n s ≡ (ok tt, last)) ↔ HoldsWithin predicate last n s
  wait_for_true_iff n s = (returns_within n s, within_returns n s)

-- A predicate that never holds and leaves its state alone uses up the polls.
pub wait_for_true_never :
    {S : Type 0} (predicate : Action S Bool) (s : S) (n : ℕ)
    → predicate s ≡ (ok false, s)
    → wait_for_true predicate n s ≡ (err timeout_error, s)
unfolding wait_for_true
wait_for_true_never predicate s zero h = refl
wait_for_true_never predicate s (suc n) h = rw h (wait_for_true_never predicate s n h)
