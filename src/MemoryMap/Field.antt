-- ===== src/MemoryMap/Field.antt =====
-- `MemoryMapField` of cobra_system_control/cobra_system_control/memory_map.py: a slice of memory,
-- its checks on construction, its mask and its value in a word of data.
pub mod Laws
use Prim.Native.String.{String}
use m.Common.{
  ℕ, zero, suc, ◌+◌, ◌-◌, ◌*◌, ◌/◌, ◌%◌, ◌^◌, bit_and, Bool, true, not, Option, none, some, List,
  ltb, leb, ◌||◌, ◌==◌, if◌then◌else◌, Result, ok, err, ◌>>=◌, ◌>>◌, raise_if, value_error,
  memory_map_field_value_error, memory_map_field_alignment_error,
}
use m.Common.Bits.{◌<<◌, ◌>>>◌, low_mask, bit_andnot}
use m.Common.Int.{ℤ, pos, negsuc, pos_part, is_negative, in_range}

-- `PARAMS` of the YAML file, as far as the fields use it.
pub record YamlParams : Type 0 where
  pub word_size : ℕ
  pub block_size : ℕ

abbrev pub bytes_per_word : YamlParams → ℕ
bytes_per_word yp = yp.word_size / 8

-- The attributes of a field as they come from the YAML file. The ones that the code only prints
-- (access, pulsed, signed, n_frac, logging, default, comment) are left out, and the keys of
-- `mnemonic` are texts by their type.
pub record FieldArgs : Type 0 where
  pub offset : ℤ
  pub position : ℤ
  pub size : ℤ
  pub mnemonic : List (String × ℤ)

-- A field that has passed the checks of `__init__`.
pub record Field : Type 0 where
  pub offset : ℕ
  pub position : ℕ
  pub size : ℕ
  pub n_words : ℕ
  pub mnemonic : List (String × ℤ)

-- `math.ceil(a / b)`
abbrev pub ceil_div : ℕ → ℕ → ℕ
ceil_div a b = (a + b - 1) / b

-- `math.ceil(math.log2(n))`: the least `k` with `n <= 2 ** k`. The search starts at 0 and has
-- `n` as fuel. The logarithm of the code is a floating point number, which is exact enough for the number
-- of bytes of a field below 2^48; from there on it may round down.
pub ceil_log2_from : ℕ → ℕ → ℕ → ℕ
ceil_log2_from zero k n = k
ceil_log2_from (suc fuel) k n =
    let next = ceil_log2_from fuel (suc k) n in if leb n (2 ^ k) then k else next

unfoldable pub ceil_log2 : ℕ → ℕ
unfolding ceil_log2_from
ceil_log2 n = ceil_log2_from n 0 n

-- The property `n_bytes`.
abbrev pub n_bytes_of : ℕ → ℕ
n_bytes_of size = ceil_div size 8

abbrev pub n_bytes : Field → ℕ
n_bytes f = n_bytes_of f.size

-- The checks of a field that is wider than a word.
check_multi_word : ℕ → ℕ → ℕ → Result (Unit {0})
check_multi_word offset position size = do
  raise_if (not (position == 0)) memory_map_field_alignment_error
  raise_if (not (offset % 2 ^ ceil_log2 (n_bytes_of size) == 0)) memory_map_field_alignment_error

-- `MemoryMapField.__init__`, its checks in the order of the code.
unfoldable pub make_field : YamlParams → FieldArgs → Result Field
unfolding check_multi_word
make_field yp a = do
  raise_if (is_negative a.size || pos_part a.size == 0) memory_map_field_value_error
  raise_if (not (in_range a.position yp.word_size)) memory_map_field_value_error
  raise_if (is_negative a.offset) memory_map_field_value_error
  let size = pos_part a.size
  let position = pos_part a.position
  let offset = pos_part a.offset
  raise_if (not (offset % bytes_per_word yp == 0)) memory_map_field_value_error
  if ltb yp.word_size (position + size) then check_multi_word offset position size else ok tt
  ok (record {
    offset = offset;
    position = position;
    size = size;
    n_words = ceil_div size yp.word_size;
    mnemonic = a.mnemonic;
  })

-- `value & ~mask != 0`; of a negative value infinitely many ones are left.
overflows : ℤ → ℕ → Bool
overflows (pos v) mask = not (bit_andnot v mask == 0)
overflows (negsuc v) mask = true

-- `get_field_mask(value=None)`
unfoldable pub get_field_mask : Field → Option ℤ → Result ℕ
unfolding overflows
get_field_mask f none = ok (low_mask f.size << f.position)
get_field_mask f (some value) =
    if overflows value (low_mask f.size)
    then err value_error
    else ok (bit_and (pos_part value) (low_mask f.size) << f.position)

-- `get_field_value`
unfoldable pub get_field_value : Field → ℕ → ℕ
get_field_value f word = bit_and (word >>> f.position) (low_mask f.size)
