-- ===== src/Common/Table.antt =====
-- Checking every value of a small range by evaluation. Shared lemma.
use m.Common.{ℕ, zero, suc, ◌<◌, Bool, true, ◌&&◌, ◌≡◌, arith}

unfoldable pub holds_below : (ℕ → Bool) → ℕ → Bool
holds_below test zero = true
holds_below test (suc top) = holds_below test top && test top

pub from-holds_below :
    (test : ℕ → Bool) (top x : ℕ) → x < top → holds_below test top ≡ true → test x ≡ true
unfolding holds_below
from-holds_below test zero x lt all = absurd (omega arith)
from-holds_below test (suc top) x lt all = ground (arith, from-holds_below test top x)
