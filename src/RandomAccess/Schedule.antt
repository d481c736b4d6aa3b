-- ===== src/RandomAccess/Schedule.antt =====
-- `schedule_scan` of cobra_system_control/cobra_system_control/random_access_scanning.py: the lists for
-- `apply_settings` put into the order of their sorting values. The values of an entry are numbers.
pub mod Order
pub mod Laws
use m.Common.{
  ℕ, Bool, true, false, ◌||◌, List, [], ◌∷◌, if◌then◌else◌, Result, ok, err, ◌>>=◌, type_error,
}
use m.RandomAccess.Flags.{pick}
use Prim.Native.String.{String}
use text.Mathlib.Text.{◌==◌ as str_eq}

-- A value of the dictionary: a list with a value for each entry, or something else.
pub data Item : Type 0 where
  column : List ℕ → Item
  setting : ℕ → Item

-- `k in NON_ARRAY_ITEMS`
abbrev pub non_array : String → Bool
non_array k = str_eq k "virtual_sensor_metadata" || str_eq k "hdr_threshold" || str_eq k "dsp_mode"

-- `[v[i] for i in sort_idx]`
abbrev pub reorder : List ℕ → Item → Result Item
reorder sort_idx (column v) = pick v sort_idx >>= λ w. ok (column w)
reorder sort_idx (setting x) = err type_error

abbrev pub reorder_item : List ℕ → String → Item → Result Item
reorder_item sort_idx k v = if non_array k then ok v else reorder sort_idx v

abbrev pub reorder_items : List ℕ → List (String × Item) → Result (List (String × Item))
reorder_items sort_idx [] = ok []
reorder_items sort_idx ((k, v) ∷ items) =
    reorder_item sort_idx k v >>= λ w. reorder_items sort_idx items >>= λ rest. ok ((k, w) ∷ rest)

-- `argsort` is that of numpy.
unfoldable pub schedule_scan :
    {K : Type 0} → (List K → List ℕ) → List (String × Item) → List K → Result (List (String × Item))
schedule_scan argsort future_apply_settings_dict sorting_list =
    reorder_items (argsort sorting_list) future_apply_settings_dict
