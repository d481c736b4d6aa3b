-- ===== src/MemoryMap/Build.antt =====
-- The constructor of `MemoryMapPeriph` of memory_map.py, from what the YAML file says of a peripheral.
-- The names, comments and file names are left out, and addresses are not negative.
pub mod Bounds
use Prim.Native.String.{String, ◌++◌ as str_append}
use text.Mathlib.Text.{◌==◌ as str_eq}
use m.Common.{
  ℕ, zero, suc, ◌+◌, ◌*◌, ◌/◌, ◌%◌, ◌^◌, Bool, true, false, ◌&&◌, ◌||◌, not, Option, none, some,
  List, [], ◌∷◌, ltb, ◌==◌, if◌then◌else◌, Result, ok, err, ◌>>=◌, ◌>>◌, raise_if, value_error,
  memory_map_periph_alignment_error, memory_map_field_overflow_error,
}
use m.Common.Int.{ℤ, pos, negsuc}
use m.MemoryMap.Field.{Field, FieldArgs, YamlParams, make_field, ceil_log2, bytes_per_word}
use m.MemoryMap.Periph.{Periph}

-- A memory array: fields that are repeated.
pub record ArrayArgs : Type 0 where
  pub offset : ℕ
  pub rep : ℕ
  pub step : ℕ
  pub fields : List (String × FieldArgs)

pub record PeriphArgs : Type 0 where
  pub addr_base : ℕ
  pub n_blocks : ℕ
  pub fields : List (String × FieldArgs)
  pub arrays : List ArrayArgs
  pub array_rep_limit : Option ℕ
  pub ignore_alignment_error : Bool

-- `offset_add + f_dict['offset']`
abbrev pub add_offset : ℕ → ℤ → ℤ
add_offset n (pos k) = pos (n + k)
add_offset zero (negsuc k) = negsuc k
add_offset (suc n) (negsuc zero) = pos n
add_offset (suc n) (negsuc (suc k)) = add_offset n (negsuc k)

-- The decimal digits of `'{:d}'.format(n)`.
abbrev pub digit : ℕ → String
digit d =
    if d == 0
    then "0"
    else if d == 1
    then "1"
    else if d == 2
    then "2"
    else if d == 3
    then "3"
    else if d == 4
    then "4"
    else if d == 5
    then "5"
    else if d == 6
    then "6"
    else if d == 7
    then "7"
    else if d == 8
    then "8"
    else "9"

abbrev pub decimal : ℕ → ℕ → String
decimal zero n = digit n
decimal (suc fuel) n =
    let rest = str_append (decimal fuel (n / 10)) (digit (n % 10)) in
    if ltb n 10 then digit n else rest

-- `'{}_{:d}'.format(f, i)`
abbrev pub array_name : String → ℕ → String
array_name f i = str_append f (str_append "_" (decimal i i))

-- `self.fields[name] = f`
unfoldable pub set_field : String → Field → List (String × Field) → List (String × Field)
set_field name f [] = (name, f) ∷ []
set_field name f ((k, g) ∷ fields) =
    let rest = set_field name f fields in if str_eq k name then (k, f) ∷ fields else (k, g) ∷ rest

-- The field objects, made in the order of the file.
unfoldable pub make_fields :
    YamlParams → List (String × FieldArgs) → List (String × Field) → Result (List (String × Field))
make_fields yp [] fields = ok fields
make_fields yp ((name, a) ∷ rest) fields = do
  f ← make_field yp a
  make_fields yp rest (set_field name f fields)

-- The fields of round `i` of an array.
abbrev pub repeated : ℕ → ℕ → List (String × FieldArgs) → List (String × FieldArgs)
repeated i offset_add [] = []
repeated i offset_add ((f, a) ∷ rest) =
    (array_name f i, record a { offset = add_offset offset_add a.offset })
    ∷ repeated i offset_add rest

-- `n` rounds of an array, from round `i` on.
unfoldable pub make_rounds :
    YamlParams → ArrayArgs → ℕ → ℕ → List (String × Field) → Result (List (String × Field))
make_rounds yp arr zero i fields = ok fields
make_rounds yp arr (suc n) i fields = do
  fields' ← make_fields yp (repeated i (arr.offset + i * arr.step) arr.fields) fields
  make_rounds yp arr n (i + 1) fields'

-- `array_rep_limit or arr['rep']`
abbrev pub rounds_of : Option ℕ → ArrayArgs → ℕ
rounds_of none arr = arr.rep
rounds_of (some n) arr = if n == 0 then arr.rep else n

unfoldable pub make_arrays :
    YamlParams → Option ℕ → List ArrayArgs → List (String × Field) → Result (List (String × Field))
make_arrays yp limit [] fields = ok fields
make_arrays yp limit (arr ∷ rest) fields = do
  fields' ← make_rounds yp arr (rounds_of limit arr) 0 fields
  make_arrays yp limit rest fields'

-- The test for the list `ob_fields`.
abbrev pub exceeds : YamlParams → ℕ → List (String × Field) → Bool
exceeds yp size [] = false
exceeds yp size ((k, f) ∷ fields) =
    ltb size (f.offset + f.n_words * bytes_per_word yp) || exceeds yp size fields

-- `MemoryMapPeriph.__init__`, for a file that gives the fields before the arrays. The logarithm of 0
-- is a `ValueError`.
unfoldable pub make_periph : YamlParams → PeriphArgs → Result Periph
make_periph yp args = do
  fields ← make_fields yp args.fields []
  all ← make_arrays yp args.array_rep_limit args.arrays fields
  let size = args.n_blocks * yp.block_size
  raise_if (size == 0) value_error
  raise_if (not (args.addr_base % 2 ^ ceil_log2 size == 0) && not args.ignore_alignment_error)
      memory_map_periph_alignment_error
  raise_if (exceeds yp size all) memory_map_field_overflow_error
  ok (record { addr_base = args.addr_base; word_size = yp.word_size; fields = all })
