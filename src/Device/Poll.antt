-- ===== src/Device/Poll.antt =====
-- `wait_for_true` of cobra_system_control/cobra_system_control/functional_utilities.py: a bounded
-- number of polls of a predicate that may change the state of the hardware. The pauses between the
-- polls are not modelled.
pub mod Laws
use m.Common.{ℕ, zero, suc, Bool, if◌then◌else◌, timeout_error}
use m.Common.Action.{Action, return, raise, ◌>>=◌}

unfoldable pub wait_for_true : {S : Type 0} → Action S Bool → ℕ → Action S (Unit {0})
wait_for_true predicate zero = raise timeout_error
wait_for_true predicate (suc n_tries) =
    predicate >>= λ holds. if holds then return tt else wait_for_true predicate n_tries
