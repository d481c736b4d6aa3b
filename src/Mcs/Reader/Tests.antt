-- ===== src/Mcs/Reader/Tests.antt =====
-- Runs of `McsReader` on small files, and its laws there.
use m.Common.{ℕ, ◌+◌, ◌≤◌, ◌≡◌, refl, false, some, List, [], ◌∷◌, ok, err, arith, runtime_error}
use m.Mcs.Text.{int_hex, strip}
use m.Mcs.Record.{from_str, make_record, record_sum, check_of}
use m.Mcs.Reader.{
  Bookmark, McsReader, make_bookmark, bookmarks_sorted, check_overlaps, find_bookmark, get_bookmark,
  item_byte, bookmark_byte, getline, byte_at, merge,
}
use m.Mcs.Reader.Parse.{
  make_reader, parse_lines, branch, ela_line, data_line, eof_line, no_eof, save_bookmark,
}
use m.Mcs.Reader.Order.{holders}
use m.Mcs.Reader.Accepted.{get_bookmark-eq}
use m.Mcs.Reader.Merge.{or_else, get_bookmark-merge}

-- ":020000040001F9", ":0300300002337A1E", ":00000001FF": three bytes at 0x10030.
abbrev ela_text : List ℕ
ela_text =
    b':' ∷ b'0' ∷ b'2' ∷ b'0' ∷ b'0' ∷ b'0' ∷ b'0' ∷ b'0' ∷ b'4' ∷ b'0' ∷ b'0' ∷ b'0' ∷ b'1' ∷ b'F'
    ∷ b'9' ∷ []

abbrev data_text : List ℕ
data_text =
    b':' ∷ b'0' ∷ b'3' ∷ b'0' ∷ b'0' ∷ b'3' ∷ b'0' ∷ b'0' ∷ b'0' ∷ b'0' ∷ b'2' ∷ b'3' ∷ b'3' ∷ b'7'
    ∷ b'A' ∷ b'1' ∷ b'E' ∷ []

abbrev eof_sample : List ℕ
eof_sample = b':' ∷ b'0' ∷ b'0' ∷ b'0' ∷ b'0' ∷ b'0' ∷ b'0' ∷ b'0' ∷ b'1' ∷ b'F' ∷ b'F' ∷ []

abbrev high_bookmark : Bookmark
high_bookmark = record {
  filename = "high";
  line_num = 2;
  addr_start = 0x10030;
  addr_stop = 0x10033;
}

abbrev high : McsReader
high = record {
  mem_size = 0x400000;
  addr_step = 16;
  padding = 0xff;
  bookmarks = high_bookmark ∷ [];
}

high_made : make_reader "high" (ela_text ∷ data_text ∷ eof_sample ∷ []) 0x400000 16 0xff ≡ ok high
unfolding make_reader parse_lines branch ela_line data_line eof_line save_bookmark make_bookmark
    bookmarks_sorted check_overlaps strip from_str int_hex make_record record_sum check_of
high_made = refl

-- The same bytes at 0x30, without ELA and without EOF.
abbrev low_bookmark : Bookmark
low_bookmark = record { filename = "low"; line_num = 1; addr_start = 0x30; addr_stop = 0x33 }

abbrev low : McsReader
low = record { mem_size = 0x400000; addr_step = 16; padding = 0xff; bookmarks = low_bookmark ∷ [] }

low_made : make_reader "low" (data_text ∷ []) 0x400000 16 0xff ≡ ok low
unfolding make_reader parse_lines branch data_line no_eof save_bookmark make_bookmark
    bookmarks_sorted check_overlaps strip from_str int_hex make_record record_sum check_of
low_made = refl

eof_first : make_reader "eof" (eof_sample ∷ []) 0x400000 16 0xff ≡ err runtime_error
unfolding make_reader parse_lines branch eof_line strip from_str int_hex make_record record_sum
    check_of
eof_first = refl

high_read : item_byte (λ name. ela_text ∷ data_text ∷ eof_sample ∷ []) high false 0x10031 ≡ ok 0x33
unfolding item_byte bookmark_byte find_bookmark getline byte_at strip from_str int_hex make_record
    record_sum check_of
high_read = refl

get_bookmark-eq_example : get_bookmark high 0x10032 ≡ some high_bookmark
get_bookmark-eq_example =
    get_bookmark-eq "high" (ela_text ∷ data_text ∷ eof_sample ∷ []) 0x400000 16 0xff high 0 0x10032
      high_bookmark high_made refl refl

abbrev both : McsReader
both = record low { bookmarks = low_bookmark ∷ high_bookmark ∷ [] }

both_merged : merge high low ≡ ok both
unfolding merge bookmarks_sorted check_overlaps
both_merged = refl

get_bookmark-merge_example :
    (both.mem_size ≡ low.mem_size)
    × (both.addr_step ≡ low.addr_step)
    × (both.padding ≡ low.padding)
    × (get_bookmark both 0x31 ≡ or_else (get_bookmark high 0x31) (get_bookmark low 0x31))
    × (holders (high_bookmark ∷ []) 0x31 + holders (low_bookmark ∷ []) 0x31 ≤ 1)
get_bookmark-merge_example =
    get_bookmark-merge high low both 0x31 (omega arith, tt) (omega arith, tt) both_merged
