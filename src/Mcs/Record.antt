-- ===== src/Mcs/Record.antt =====
-- `HexRecordTypeEnum` and `HexRecord` of mcs_reader.py, and `BinMcsReader.reverse_bits`.
pub mod Laws
pub mod Mirror
pub mod Checksum
use m.Common.{
  ℕ, zero, suc, ◌+◌, ◌-◌, ◌*◌, ◌/◌, ◌%◌, ◌^◌, bit_and, bit_or, Bool, true, false, not, Option, none,
  some, List, [], ◌∷◌, ◌++◌, map, ltb, leb, ◌==◌, if◌then◌else◌, Result, ok, err, ◌>>=◌, ◌>>◌,
  raise_if, value_error, overflow_error, length, take, drop,
}
use m.Common.Bits.{◌<<◌, ◌>>>◌}
use m.Mcs.Text.{int_hex, format_hex}
use mathlib.Core.List.{reverse, foldl}

pub data RecordType : Type 0 where
  data_record eof ext_seg_addr start_seg_addr ext_lin_addr start_lin_addr : RecordType

abbrev pub type_value : RecordType → ℕ
type_value data_record = 0
type_value eof = 1
type_value ext_seg_addr = 2
type_value start_seg_addr = 3
type_value ext_lin_addr = 4
type_value start_lin_addr = 5

-- `HexRecordTypeEnum(n)`
pub record_type : ℕ → Result RecordType
record_type n =
    if n == 0
    then ok data_record
    else if n == 1
    then ok eof
    else if n == 2
    then ok ext_seg_addr
    else if n == 3
    then ok start_seg_addr
    else if n == 4
    then ok ext_lin_addr
    else if n == 5
    then ok start_lin_addr
    else err value_error

pub record HexRecord : Type 0 where
  pub count : ℕ
  pub address : ℕ
  pub type : RecordType
  pub bytes : List ℕ
  pub checksum : ℕ

abbrev pub sum : List ℕ → ℕ
sum [] = 0
sum (b ∷ bs) = b + sum bs

-- `'{:08b}'.format(b)` of a byte, as digits, and `int(digits, 2)`.
pub format_bits : ℕ → ℕ → List ℕ → List ℕ
format_bits zero b acc = acc
format_bits (suc k) b acc = format_bits k (b / 2) (b % 2 ∷ acc)

pub int_bits : ℕ → List ℕ → ℕ
int_bits n [] = n
int_bits n (d ∷ ds) = int_bits (n * 2 + d) ds

unfoldable pub mirror_byte : ℕ → ℕ
unfolding format_bits int_bits
mirror_byte b = int_bits 0 (reverse (format_bits 8 b []))

-- `data_mirrored`
unfoldable pub data_mirrored : HexRecord → List ℕ
data_mirrored r = map mirror_byte r.bytes

-- `sum_` and `check` of `__post_init__`: `-sum_ & 0xff`.
unfoldable pub record_sum : ℕ → ℕ → RecordType → List ℕ → ℕ
record_sum count address type bytes =
    count + (address >>> 8) + address + type_value type + sum bytes

unfoldable pub check_of : ℕ → ℕ
check_of total = (256 - total % 256) % 256

-- The constructor with `__post_init__`. Addresses are not negative where the code makes records.
unfoldable pub make_record : ℕ → ℕ → RecordType → List ℕ → Option ℕ → Bool → Result HexRecord
make_record count address type bytes checksum reverse_data = do
  raise_if (ltb 0xffff address) value_error
  raise_if (not (length bytes == count)) value_error
  let content = if reverse_data then map mirror_byte bytes else bytes
  let check = check_of (record_sum count address type content)
  let built : HexRecord = record {
    count = count;
    address = address;
    type = type;
    bytes = content;
    checksum = check;
  }
  elim checksum [
    | none ↦ ok built
    | some given ↦ if given == check then ok built else err value_error
  ]

-- The bytes of `count` pairs of digits.
pub hex_bytes : ℕ → List ℕ → Result (List ℕ)
hex_bytes zero s = ok []
hex_bytes (suc count) s = do b ← int_hex (take 2 s); bs ← hex_bytes count (drop 2 s); ok (b ∷ bs)

abbrev pub slice : List ℕ → ℕ → ℕ → List ℕ
slice s start stop = take (stop - start) (drop start s)

-- `HexRecord.from_str`
unfoldable pub from_str : List ℕ → Result HexRecord
unfolding hex_bytes record_type
from_str s = do
  raise_if (ltb (length s) 11) value_error
  count ← int_hex (slice s 1 3)
  address ← int_hex (slice s 3 7)
  type_ ← int_hex (slice s 7 9)
  bytes ← hex_bytes ((length s - 11) / 2) (drop 9 s)
  checksum ← int_hex (drop (length s - 2) s)
  type ← record_type type_
  make_record count address type bytes (some checksum) false

pub format_bytes : List ℕ → List ℕ
format_bytes [] = []
format_bytes (b ∷ bs) = format_hex 2 b ++ format_bytes bs

-- `HexRecord.to_str`
unfoldable pub to_str : HexRecord → List ℕ
unfolding format_bytes
to_str r =
    b':'
    ∷ (format_hex 2 r.count
        ++ (format_hex 4 r.address
            ++ (format_hex 2 (type_value r.type)
                ++ (format_bytes r.bytes ++ format_hex 2 r.checksum))))

-- `HexRecord.get_ela_record`; `to_bytes(2, 'big')` takes 16 bits.
unfoldable pub get_ela_record : ℕ → Result HexRecord
get_ela_record abs_address = do
  let upper = abs_address >>> 16
  raise_if (ltb 0xffff upper) overflow_error
  make_record 2 0 ext_lin_addr (upper / 256 ∷ upper % 256 ∷ []) none false

-- `HexRecord.get_eof_record`
unfoldable pub get_eof_record : Result HexRecord
get_eof_record = make_record 0 0 eof [] none false

-- `BinMcsReader.reverse_bits` on `np.uint8`, whose shifts to the left drop what passes 8 bits.
unfoldable pub reverse_bits : ℕ → ℕ
reverse_bits x =
    let y = bit_or ((bit_and x 0x55 << 1) % 256) (bit_and x 0xaa >>> 1) in
    let z = bit_or ((bit_and y 0x33 << 2) % 256) (bit_and y 0xcc >>> 2) in
    bit_or ((bit_and z 0x0f << 4) % 256) (bit_and z 0xf0 >>> 4)
