-- ===== src/RandomAccess/Flags.antt =====
-- `replace_flag`, the tests of start and stop flags and `flag_equalizer` of
-- cobra_system_control/cobra_system_control/random_access_scanning.py. An entry's flags are four bits for
-- each virtual sensor: 1 starts it, 2 stops it, 3 does both. Arrays are lists.
pub mod Laws
pub mod Order
pub mod Replaced
pub mod Settled
use m.Common.{
  ℕ, zero, suc, ◌+◌, ◌-◌, ◌*◌, ◌%◌, bit_and, bit_or, Bool, true, false, ◌&&◌, ◌||◌, not, List, [],
  ◌∷◌, ◌++◌, map, ◌==◌, ltb, if◌then◌else◌, length, get_or, set, replicate, Result, ok, err, ◌>>=◌,
  index_error, value_error,
}
use m.Common.Bits.{◌<<◌, ◌>>>◌, bit_andnot}

-- The flag of a virtual sensor: `(flags >> (4*virtual_sensor)) & 0xf`
abbrev pub flag_of : ℕ → ℕ → ℕ
flag_of virtual_sensor flag = bit_and (flag >>> (4 * virtual_sensor)) 0xf

unfoldable pub replace_flag : ℕ → ℕ → ℕ → ℕ
replace_flag flag new_val virtual_sensor =
    let bit_mask = 0xf << (4 * virtual_sensor) in
    bit_or (bit_andnot flag bit_mask) (new_val << (4 * virtual_sensor))

-- `flags[flags != 0]`, and the same for another value.
abbrev pub without : ℕ → List ℕ → List ℕ
without k [] = []
without k (x ∷ xs) = if x == k then without k xs else x ∷ without k xs

-- `-k in np.diff(xs)`: some number is followed by one that is smaller by `k`.
abbrev pub drop_of : ℕ → List ℕ → Bool
drop_of k [] = false
drop_of k (x ∷ []) = false
drop_of k (x ∷ y ∷ xs) = (x == y + k) || drop_of k (y ∷ xs)

abbrev pub last_of : ℕ → List ℕ → ℕ
last_of x [] = x
last_of x (y ∷ ys) = last_of y ys

-- `xs[:-1]`
abbrev pub all_but_last : List ℕ → List ℕ
all_but_last [] = []
all_but_last (x ∷ []) = []
all_but_last (x ∷ y ∷ ys) = x ∷ all_but_last (y ∷ ys)

abbrev pub is_valid_normal : List ℕ → Result Bool
is_valid_normal [] = err index_error
is_valid_normal (x ∷ xs) = ok (
    (x == 1)
    && (last_of x xs == 2)
    && not (drop_of 0 (without 0 (x ∷ xs)))
    && not (drop_of 2 (all_but_last xs))
    && (length (without 0 (x ∷ xs)) % 2 == 0))

-- `xs[::-1]`
abbrev pub reversed : List ℕ → List ℕ
reversed [] = []
reversed (x ∷ xs) = reversed xs ++ x ∷ []

abbrev pub is_almost_valid_reversed : List ℕ → Result Bool
is_almost_valid_reversed virtual_sensor_flags = is_valid_normal (reversed virtual_sensor_flags)

abbrev pub is_almost_valid_threes : List ℕ → Bool
is_almost_valid_threes virtual_sensor_flags = length virtual_sensor_flags == 1

abbrev pub all_threes : List ℕ → Bool
all_threes [] = true
all_threes (x ∷ xs) = (x == 3) && all_threes xs

-- `np.flatnonzero((bitmask >> virtual_sensor) & 0b1 == 1)`, counted from `i`.
abbrev pub loc_from : ℕ → ℕ → List ℕ → List ℕ
loc_from virtual_sensor i [] = []
loc_from virtual_sensor i (b ∷ bitmask) =
    let rest = loc_from virtual_sensor (i + 1) bitmask in
    if bit_and (b >>> virtual_sensor) 1 == 1 then i ∷ rest else rest

abbrev pub loc_idx : ℕ → List ℕ → List ℕ
loc_idx virtual_sensor bitmask = loc_from virtual_sensor 0 bitmask

-- `xs[idx]` for an array of indices that are not negative.
abbrev pub pick : List ℕ → List ℕ → Result (List ℕ)
pick xs [] = ok []
pick xs (i ∷ idx) =
    if ltb i (length xs)
    then (pick xs idx >>= λ rest. ok (get_or xs i 0 ∷ rest))
    else err index_error

-- `xs[idx - 1]`: the index -1 is the last.
abbrev pub pick_before : List ℕ → List ℕ → Result (List ℕ)
pick_before xs [] = ok []
pick_before xs (zero ∷ idx) =
    pick xs ((length xs - 1) ∷ []) >>= λ x. pick_before xs idx >>= λ rest. ok (x ++ rest)
pick_before xs (suc i ∷ idx) =
    pick xs (i ∷ []) >>= λ x. pick_before xs idx >>= λ rest. ok (x ++ rest)

-- `flags[idx] = replace_flag(flags[idx], new_vals, virtual_sensor)`: all are read before any is
-- written. `out` is what has been written so far.
abbrev pub replace_from : ℕ → List ℕ → List ℕ → List ℕ → List ℕ → Result (List ℕ)
replace_from virtual_sensor flags [] new_vals out = ok out
replace_from virtual_sensor flags (i ∷ idx) [] out = err value_error
replace_from virtual_sensor flags (i ∷ idx) (new_val ∷ new_vals) out =
    if ltb i (length flags)
    then replace_from virtual_sensor flags idx new_vals
        (set out i (replace_flag (get_or flags i 0) new_val virtual_sensor))
    else err index_error

abbrev pub replace_at : ℕ → List ℕ → List ℕ → List ℕ → Result (List ℕ)
replace_at virtual_sensor idx new_vals flags = replace_from virtual_sensor flags idx new_vals flags

-- The same with one new value for all.
abbrev pub replace_all : ℕ → List ℕ → ℕ → List ℕ → Result (List ℕ)
replace_all virtual_sensor idx new_val flags =
    replace_at virtual_sensor idx (replicate (length idx) new_val) flags

-- The flags of a virtual sensor at its entries.
abbrev pub virtual_sensor_flags : ℕ → List ℕ → List ℕ → Result (List ℕ)
virtual_sensor_flags virtual_sensor loc flags =
    pick flags loc >>= λ fs. ok (map (flag_of virtual_sensor) fs)

-- `xs[1:-1]`
abbrev pub inner : List ℕ → List ℕ
inner [] = []
inner (x ∷ xs) = all_but_last xs

-- The test at the end of a round.
abbrev pub no_repeats : List ℕ → Bool
no_repeats vs_flags = not (drop_of 0 (without 3 (without 0 vs_flags)))

abbrev pub check_repeats : ℕ → List ℕ → List ℕ → Result (List ℕ)
check_repeats virtual_sensor loc flags =
    virtual_sensor_flags virtual_sensor loc flags >>= λ new_flags.
    if no_repeats new_flags then ok flags else err value_error

-- `linspace_indexes n k` is `np.round(np.linspace(0, n, k + 1)).astype(int)`.
module _ (linspace_indexes : ℕ → ℕ → List ℕ) where
  -- New flags at equal distances, `fr` pairs of them.
  abbrev pub spread : ℕ → ℕ → List ℕ → List ℕ → Result (List ℕ)
  spread virtual_sensor fr loc flags = do
    cleared ← replace_all virtual_sensor loc 0 flags
    first ← pick loc (0 ∷ [])
    started ← replace_all virtual_sensor first 1 cleared
    let subset = inner (linspace_indexes (length loc) fr)
    before ← pick_before loc subset
    stops ← replace_all virtual_sensor before 2 started
    after ← pick loc subset
    starts ← replace_all virtual_sensor after 1 stops
    end ← pick_before loc (0 ∷ [])
    replace_all virtual_sensor end 2 starts

  -- The branches of a round.
  abbrev pub repair : ℕ → ℕ → List ℕ → List ℕ → List ℕ → Bool → Result (List ℕ)
  repair virtual_sensor fr loc vs_flags flags reversed_valid =
      if reversed_valid
      then replace_at virtual_sensor loc (reversed vs_flags) flags
      else if is_almost_valid_threes vs_flags
      then replace_all virtual_sensor loc 3 flags
      else if not (all_threes vs_flags)
      then spread virtual_sensor fr loc flags
      else ok flags

  -- A round of the loop.
  abbrev pub equalize : List ℕ → ℕ → ℕ → List ℕ → Result (List ℕ)
  equalize bitmask virtual_sensor fr flags =
      let loc = loc_idx virtual_sensor bitmask in
      virtual_sensor_flags virtual_sensor loc flags >>= λ vs_flags.
      is_valid_normal vs_flags >>= λ valid.
      if valid
      then ok flags
      else (is_almost_valid_reversed vs_flags >>= λ reversed_valid.
          repair virtual_sensor fr loc vs_flags flags reversed_valid >>= λ new.
          check_repeats virtual_sensor loc new)

  -- `for virtual_sensor, fr in enumerate(fps)`
  abbrev pub equalize_from : List ℕ → ℕ → List ℕ → List ℕ → Result (List ℕ)
  equalize_from bitmask virtual_sensor [] flags = ok flags
  equalize_from bitmask virtual_sensor (fr ∷ fps) flags =
      equalize bitmask virtual_sensor fr flags >>= λ new.
      equalize_from bitmask (virtual_sensor + 1) fps new

  unfoldable pub flag_equalizer : List ℕ → List ℕ → List ℕ → Result (List ℕ)
  flag_equalizer flags bitmask fps = equalize_from bitmask 0 fps flags
