-- ===== src/Mcs/Writer.antt =====
-- `LcmMcsWriter` of mcs_reader.py. A file is the list of its lines.
pub mod Laws
mod Tests
use m.Common.{
  ℕ, zero, suc, ◌+◌, ◌*◌, ◌/◌, ◌%◌, ◌^◌, Bool, true, not, none, List, [], ◌∷◌, ◌++◌, ◌==◌,
  if◌then◌else◌, Result, ok, err, ◌>>=◌, ◌>>◌, raise_if, runtime_error, zero_division_error, length,
  take, drop,
}
use m.Common.Bits.{◌<<◌, ◌>>>◌}
use m.Mcs.Record.{data_record, make_record, to_str, get_ela_record}

pub record LcmMcsWriter : Type 0 where
  pub base_address : ℕ
  pub mirror_user_data : Bool
  pub write_eof_record : Bool
  pub bytes_per_data_record : ℕ
  pub tables_per_segment : ℕ
  pub tables : List (List ℕ)
  pub bytes_per_table : ℕ

-- `n` rounds of the loop of `write_table`, from record `i` on.
unfoldable pub write_records : LcmMcsWriter → ℕ → List ℕ → ℕ → ℕ → Result (List (List ℕ))
write_records w address table zero i = ok []
write_records w address table (suc n) i = do
  let bytes = take w.bytes_per_data_record (drop (i * w.bytes_per_data_record) table)
  let record_address = (address + i * w.bytes_per_data_record) % 2 ^ 16
  r ← make_record (length bytes) record_address data_record bytes none w.mirror_user_data
  rest ← write_records w address table n (i + 1)
  ok (to_str r ∷ rest)

-- `write_table`
unfoldable pub write_table : LcmMcsWriter → ℕ → List ℕ → Result (List (List ℕ))
write_table w address table = do
  raise_if (not (length table == w.bytes_per_table)) runtime_error
  raise_if (w.bytes_per_data_record == 0) zero_division_error
  write_records w address table (w.bytes_per_table / w.bytes_per_data_record) 0

-- The lines before a table: a segment record where a segment begins.
unfoldable pub segment_lines : LcmMcsWriter → ℕ → ℕ → Result (List (List ℕ))
segment_lines w table_index seg_count =
    if w.tables_per_segment == 0
    then err zero_division_error
    else if table_index % w.tables_per_segment == 0
    then (get_ela_record (((w.base_address >>> 16) + seg_count) << 16) >>= λ ela.
        ok (to_str ela ∷ []))
    else ok []

-- The loop of `write_mcs`.
unfoldable pub write_tables : LcmMcsWriter → List (List ℕ) → ℕ → ℕ → Result (List (List ℕ))
write_tables w [] table_index seg_count = ok []
write_tables w (table ∷ tables) table_index seg_count = do
  let begins = table_index % w.tables_per_segment == 0
  head ← segment_lines w table_index seg_count
  lines ← write_table w (table_index * w.bytes_per_table) table
  rest ← write_tables w tables (table_index + 1) (if begins then seg_count + 1 else seg_count)
  ok (head ++ (lines ++ rest))

-- ":00000001FF"
abbrev pub eof_text : List ℕ
eof_text = b':' ∷ b'0' ∷ b'0' ∷ b'0' ∷ b'0' ∷ b'0' ∷ b'0' ∷ b'0' ∷ b'1' ∷ b'F' ∷ b'F' ∷ []

-- `write_mcs`
unfoldable pub write_mcs : LcmMcsWriter → Result (List (List ℕ))
write_mcs w = do
  lines ← write_tables w w.tables 0 0
  ok (if w.write_eof_record then lines ++ (eof_text ∷ []) else lines)
