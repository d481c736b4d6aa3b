-- ===== src/Mcs/Reader.antt =====
-- `Bookmark` and `McsReader` of mcs_reader.py: a memory that is described by the records of a file.
pub mod Parse
pub mod Order
pub mod Accepted
pub mod Merge
mod Tests
use Prim.Native.String.{String}
use m.Common.{
  ℕ, zero, suc, ◌+◌, ◌-◌, ◌*◌, ◌/◌, ◌%◌, bit_or, Bool, true, false, ◌&&◌, not, Option, none, some,
  List, [], ◌∷◌, ◌++◌, ltb, leb, ◌==◌, if◌then◌else◌, Result, ok, err, ◌>>=◌, ◌>>◌, raise_if,
  runtime_error, index_error, type_error, value_error, get_or, length,
}
use m.Common.Bits.{◌<<◌}
use m.Mcs.Text.{strip}
use m.Mcs.Record.{HexRecord, RecordType, from_str, data_mirrored}

pub record Bookmark : Type 0 where
  pub filename : String
  pub line_num : ℕ
  pub addr_start : ℕ
  pub addr_stop : ℕ

-- The constructor with `__post_init__`.
unfoldable pub make_bookmark : String → ℕ → ℕ → ℕ → Result Bookmark
make_bookmark filename line_num addr_start addr_stop = do
  raise_if (leb addr_stop addr_start) runtime_error
  ok (record {
    filename = filename;
    line_num = line_num;
    addr_start = addr_start;
    addr_stop = addr_stop;
  })

pub record McsReader : Type 0 where
  pub mem_size : ℕ
  pub addr_step : ℕ
  pub padding : ℕ
  pub bookmarks : List Bookmark

-- `sorted(bookmarks, key=lambda x: x.addr_start)`, which keeps the order of equal keys.
pub insert : Bookmark → List Bookmark → List Bookmark
insert b [] = b ∷ []
insert b (c ∷ bms) =
    let rest = insert b bms in if leb b.addr_start c.addr_start then b ∷ c ∷ bms else c ∷ rest

unfoldable pub bookmarks_sorted : List Bookmark → List Bookmark
unfolding insert
bookmarks_sorted [] = []
bookmarks_sorted (b ∷ bms) = insert b (bookmarks_sorted bms)

-- The condition of the loops that look for overlaps, for neighbours.
abbrev pub overlaps : Bookmark → Bookmark → Bool
overlaps bm_prev bm =
    leb bm_prev.addr_start (bm.addr_stop - 1) && leb bm.addr_start (bm_prev.addr_stop - 1)

unfoldable pub check_overlaps : List Bookmark → Result (Unit {0})
check_overlaps [] = ok tt
check_overlaps (bm_prev ∷ []) = ok tt
check_overlaps (bm_prev ∷ bm ∷ bms) =
    let rest = check_overlaps (bm ∷ bms) in if overlaps bm_prev bm then err runtime_error else rest

-- `bm.addr_start <= address < bm.addr_stop`
abbrev pub holds_address : Bookmark → ℕ → Bool
holds_address bm address = leb bm.addr_start address && ltb address bm.addr_stop

unfoldable pub find_bookmark : List Bookmark → ℕ → Option Bookmark
find_bookmark [] address = none
find_bookmark (bm ∷ bms) address =
    let rest = find_bookmark bms address in if holds_address bm address then some bm else rest

-- `_get_bookmark`
abbrev pub get_bookmark : McsReader → ℕ → Option Bookmark
get_bookmark r address = find_bookmark r.bookmarks address

-- The files, by name. `linecache.getline` counts lines from 1 and gives an empty text where there is
-- none.
abbrev pub Files : Type 0
Files = String → List (List ℕ)

unfoldable pub getline : List (List ℕ) → ℕ → List ℕ
getline lines zero = []
getline lines (suc n) = get_or lines n []

-- `data[i]`
unfoldable pub byte_at : List ℕ → ℕ → Result ℕ
byte_at [] i = err index_error
byte_at (b ∷ bs) zero = ok b
byte_at (b ∷ bs) (suc i) = byte_at bs i

module _ (files : Files) (r : McsReader) (mirror_data : Bool) where
  -- The byte at an address that a bookmark holds. The steps of a reader are not 0.
  unfoldable pub bookmark_byte : Bookmark → ℕ → Result ℕ
  bookmark_byte bm addr = do
    let delta = addr - bm.addr_start
    rec ← from_str (strip (getline (files bm.filename) (bm.line_num + delta / r.addr_step)))
    byte_at (if mirror_data then data_mirrored rec else rec.bytes) (delta % r.addr_step)

  -- One round of the loop of `get_item`.
  unfoldable pub item_byte : ℕ → Result ℕ
  item_byte addr = do
    raise_if (not (ltb addr r.mem_size)) index_error
    elim (get_bookmark r addr) [ none ↦ ok r.padding | some bm ↦ bookmark_byte bm addr ]

  -- `get_item(slice(start, start + count))`
  unfoldable pub get_item : ℕ → ℕ → Result (List ℕ)
  get_item start zero = ok []
  get_item start (suc count) = do b ← item_byte start; bs ← get_item (start + 1) count; ok (b ∷ bs)

-- `addr_min`
unfoldable pub addr_min : McsReader → Result ℕ
addr_min r = elim (bookmarks_sorted r.bookmarks) [
  | [] ↦ err index_error
  | bm ∷ bms ↦ ok bm.addr_start
]

abbrev pub last_stop : List Bookmark → Result ℕ
last_stop [] = err index_error
last_stop (bm ∷ []) = ok bm.addr_stop
last_stop (bm ∷ bm' ∷ bms) = last_stop (bm' ∷ bms)

-- `addr_max`
unfoldable pub addr_max : McsReader → Result ℕ
addr_max r = last_stop (bookmarks_sorted r.bookmarks)

-- `merge`, which changes the reader where it does not raise.
unfoldable pub merge : McsReader → McsReader → Result McsReader
merge self other = do
  raise_if (not (other.mem_size == self.mem_size)) runtime_error
  raise_if (not (other.addr_step == self.addr_step)) runtime_error
  raise_if (not (other.padding == self.padding)) runtime_error
  let bookmarks = bookmarks_sorted (self.bookmarks ++ other.bookmarks)
  check_overlaps bookmarks
  ok (record self { bookmarks = bookmarks })
