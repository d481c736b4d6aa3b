-- ===== src/Mcs/Binary.antt =====
-- `BinMcsReader` of mcs_reader.py: a memory image without records. Its addresses are not negative
-- where the code uses it.
use m.Common.{
  false, true, ℕ, ◌-◌, Bool, not, Option, none, some, List, ◌++◌, map, ltb, if◌then◌else◌, Result,
  ok, ◌>>◌, raise_if, value_error, index_error, length, take, drop, replicate, get_or,
}
use m.Mcs.Record.{reverse_bits}

pub record BinMcsReader : Type 0 where
  pub mem_size : ℕ
  pub padding : ℕ
  pub bytes : List ℕ

-- `__init__`, from the bytes of the file; `np.pad` takes no negative width.
unfoldable pub make_bin_reader : List ℕ → ℕ → ℕ → Result BinMcsReader
make_bin_reader file mem_size padding = do
  raise_if (ltb mem_size (length file)) value_error
  let padded = file ++ replicate (mem_size - length file) padding
  ok (record { mem_size = mem_size; padding = padding; bytes = padded })

abbrev pub mirrored : Bool → List ℕ → List ℕ
mirrored mirror_data bytes = if mirror_data then map reverse_bits bytes else bytes

-- `get_item(key)` of a number.
unfoldable pub get_byte : BinMcsReader → Bool → ℕ → Result ℕ
get_byte r mirror_data key = do
  raise_if (not (ltb key r.mem_size)) index_error
  let byte = get_or r.bytes key 0
  ok (if mirror_data then reverse_bits byte else byte)

abbrev pub not_in_range : Option ℕ → ℕ → Bool
not_in_range none n = false
not_in_range (some k) n = not (ltb k n)

abbrev pub or_default : Option ℕ → ℕ → ℕ
or_default none d = d
or_default (some k) d = k

-- `get_item(key)` of a slice with no step.
unfoldable pub get_slice : BinMcsReader → Bool → Option ℕ → Option ℕ → Result (List ℕ)
get_slice r mirror_data start stop = do
  raise_if (not_in_range start r.mem_size) index_error
  raise_if (not_in_range stop r.mem_size) index_error
  let from = or_default start 0
  let upto = or_default stop (length r.bytes)
  ok (mirrored mirror_data (take (upto - from) (drop from r.bytes)))

-- `reader[start:stop]`
abbrev pub getitem_slice : BinMcsReader → ℕ → ℕ → Result (List ℕ)
getitem_slice r start stop = get_slice r true (some start) (some stop)
