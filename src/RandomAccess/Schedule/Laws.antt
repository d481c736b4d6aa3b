-- ===== src/RandomAccess/Schedule/Laws.antt =====
-- `schedule_scan` of cobra_system_control/cobra_system_control/random_access_scanning.py loses no entry and
-- keeps the values of an entry together.
use m.Common.{
  ℕ, ◌<◌, ◌≡◌, refl, sym, true, false, List, [], ◌∷◌, map, lt→ltb, length, get_or, Result, ok,
  arith,
}
use mathlib.Core.Path.{subst}
use m.Common.All.{All}
use m.RandomAccess.Flags.{pick}
use m.RandomAccess.Schedule.{Item, column, non_array, reorder_items, schedule_scan}
use m.RandomAccess.Schedule.Order.{IsOrder, order-All, count-order}
use m.Scan.Table.Laws.{count}
use Prim.Native.String.{String}

pick-map :
    (v idx : List ℕ) → All (λ i. i < length v) idx → pick v idx ≡ ok (map (λ i. get_or v i 0) idx)
pick-map v [] h = refl
pick-map v (i ∷ idx) h = rw (lt→ltb i (length v) h.0, pick-map v idx h.1) refl

-- The dictionary's lists have a value for each of `n` entries.
pub data HasEntries (n : ℕ) : List (String × Item) → Type 0 where
  no_items : HasEntries n []
  kept_item :
      {k : String} {v : Item} {items : List (String × Item)}
      → non_array k ≡ true
      → HasEntries n items
      → HasEntries n ((k, v) ∷ items)
  list_item :
      {k : String} {v : List ℕ} {items : List (String × Item)}
      → non_array k ≡ false
      → length v ≡ n
      → HasEntries n items
      → HasEntries n ((k, column v) ∷ items)

-- The items of the one are those of the other: what is not a list of entries is as it was, and every
-- list of entries is in the order `idx`, in which it has the same values.
pub data Rearranged (idx : List ℕ) : List (String × Item) → List (String × Item) → Type 0 where
  nothing : Rearranged idx [] []
  as_it_was :
      {k : String} {v : Item} {items out : List (String × Item)}
      → non_array k ≡ true
      → Rearranged idx items out
      → Rearranged idx ((k, v) ∷ items) ((k, v) ∷ out)
  in_order :
      {k : String} {v w : List ℕ} {items out : List (String × Item)}
      → non_array k ≡ false
      → w ≡ map (λ i. get_or v i 0) idx
      → ((x : ℕ) → count x w ≡ count x v)
      → Rearranged idx items out
      → Rearranged idx ((k, column v) ∷ items) ((k, column w) ∷ out)

pub record Scheduled (idx : List ℕ) (items : List (String × Item))
    (r : Result (List (String × Item))) : Type 0 where
  pub out : List (String × Item)
  pub returns : r ≡ ok out
  pub rearranged : Rearranged idx items out

module _ (n : ℕ) (idx : List ℕ) (order : IsOrder n idx) where
  reorder_items-Scheduled :
      (items : List (String × Item))
      → HasEntries n items
      → Scheduled idx items (reorder_items idx items)
  reorder_items-Scheduled [] no_items = record { out = []; returns = refl; rearranged = nothing }
  reorder_items-Scheduled ((k, v) ∷ items) (kept_item is_kept h) =
      let rest = reorder_items-Scheduled items h in
      record {
        out = (k, v) ∷ rest.out;
        returns = rw (is_kept, rest.returns) refl;
        rearranged = as_it_was is_kept rest.rearranged;
      }
  reorder_items-Scheduled ((k, column v) ∷ items) (list_item is_list size h) =
      let rest = reorder_items-Scheduled items h in
      let order' = subst (λ (t : ℕ). IsOrder t idx) (sym size) order in
      let inside = order-All (length v) idx (λ k above. let e = order' k in ground arith) in
      let w = map (λ i. get_or v i 0) idx in
      record {
        out = (k, column w) ∷ rest.out;
        returns = rw (is_list, pick-map v idx inside, rest.returns) refl;
        rearranged = in_order is_list refl (λ x. count-order x v idx order') rest.rearranged;
      }

-- With an argsort that gives each index of the sorting values once: schedule_scan returns, puts
-- every list of the entries into that one order, in which it has the same values as before, and
-- leaves the other settings as they are.
pub schedule_scan-Scheduled :
    {K : Type 0} (argsort : List K → List ℕ) (items : List (String × Item)) (sorting : List K)
    → IsOrder (length sorting) (argsort sorting)
    → HasEntries (length sorting) items
    → Scheduled (argsort sorting) items (schedule_scan argsort items sorting)
unfolding schedule_scan
schedule_scan-Scheduled argsort items sorting order h =
    reorder_items-Scheduled (length sorting) (argsort sorting) order items h
