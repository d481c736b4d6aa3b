-- ===== src/Mcs/Tests.antt =====
-- Runs of mcs_reader.py, and its laws at concrete records.
use m.Common.{
  ℕ, ◌+◌, ◌/◌, ◌%◌, ◌≡◌, refl, some, none, false, List, [], ◌∷◌, map, ok, err, value_error, arith,
}
use m.Mcs.Text.{int_hex, format_hex}
use m.Mcs.Record.{
  HexRecord, data_record, mirror_byte, make_record, reverse_bits, from_str, to_str, record_sum,
  check_of,
}
use m.Mcs.Record.Laws.{IsChecked, IsPrintable, make_record-IsChecked, from_str-to_str}
use m.Mcs.Record.Checksum.{checksum_total, one_byte_detected}
use m.Mcs.Record.Mirror.{reverse_bits-mirrors}

-- ":0300300002337A1E", the example of the class.
abbrev sample : HexRecord
sample = record {
  count = 3;
  address = 0x30;
  type = data_record;
  bytes = 0x02 ∷ 0x33 ∷ 0x7a ∷ [];
  checksum = 0x1e;
}

sample_made : make_record 3 0x30 data_record (0x02 ∷ 0x33 ∷ 0x7a ∷ []) none false ≡ ok sample
unfolding make_record record_sum check_of
sample_made = refl

abbrev sample_text : List ℕ
sample_text =
    b':' ∷ b'0' ∷ b'3' ∷ b'0' ∷ b'0' ∷ b'3' ∷ b'0' ∷ b'0' ∷ b'0' ∷ b'0' ∷ b'2' ∷ b'3' ∷ b'3' ∷ b'7'
    ∷ b'A' ∷ b'1' ∷ b'E' ∷ []

sample_printed : to_str sample ≡ sample_text
unfolding to_str format_hex
sample_printed = refl

sample_read : from_str sample_text ≡ ok sample
unfolding from_str make_record record_sum check_of int_hex
sample_read = refl

sample-IsChecked : IsChecked sample
sample-IsChecked =
    make_record-IsChecked 3 0x30 data_record (0x02 ∷ 0x33 ∷ 0x7a ∷ []) none false sample sample_made

sample-IsPrintable : IsPrintable sample
sample-IsPrintable = record { checked = sample-IsChecked; short = omega arith; bytes = omega arith }

from_str-to_str_example : from_str (to_str sample) ≡ ok sample
from_str-to_str_example = from_str-to_str sample sample-IsPrintable

checksum_total_example : (3 + 0x30 / 256 + 0x30 % 256 + 0 + 175 + 0x1e) % 256 ≡ 0
checksum_total_example = checksum_total sample sample-IsChecked

one_byte_detected_example :
    make_record 3 0x30 data_record (0x02 ∷ 0x34 ∷ 0x7a ∷ []) (some 0x1e) false ≡ err value_error
one_byte_detected_example =
    one_byte_detected sample (0x02 ∷ []) (0x7a ∷ []) 0x33 0x34 sample-IsChecked refl (omega arith)
      (omega arith) (omega arith)

reverse_bits-mirrors_example :
    (map reverse_bits (0x01 ∷ 0xf0 ∷ []) ≡ map mirror_byte (0x01 ∷ 0xf0 ∷ []))
    × (map mirror_byte (map mirror_byte (0x01 ∷ 0xf0 ∷ [])) ≡ 0x01 ∷ 0xf0 ∷ [])
reverse_bits-mirrors_example = reverse_bits-mirrors (0x01 ∷ 0xf0 ∷ []) (omega arith)
