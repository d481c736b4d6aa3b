-- ===== src/Mcs/Writer/Tests.antt =====
-- A small table of the LCM writer.
use m.Common.{ℕ, ◌≡◌, refl, true, false, List, [], ◌∷◌, ok, arith}
use m.Mcs.Writer.{LcmMcsWriter, write_table}
use m.Mcs.Writer.Laws.{DataLines, content, write_table-DataLines}

abbrev small_table : List ℕ
small_table = 1 ∷ 2 ∷ 0x80 ∷ 0xff ∷ []

abbrev writer : LcmMcsWriter
writer = record {
  base_address = 0x100000;
  mirror_user_data = true;
  write_eof_record = false;
  bytes_per_data_record = 2;
  tables_per_segment = 64;
  tables = small_table ∷ [];
  bytes_per_table = 4;
}

write_table-DataLines_example :
    (lines : List (List ℕ)) × (write_table writer 0xfffe small_table ≡ ok lines)
    × DataLines lines 2 0xfffe (content true small_table)
write_table-DataLines_example =
    write_table-DataLines writer 0xfffe small_table refl refl (omega arith) (omega arith)
      (omega arith)
