-- ===== src/Mcs/Reader/Parse.antt =====
-- The constructor of `McsReader`: the lines of the file, one at a time, as bookmarks.
use Prim.Native.String.{String}
use m.Common.{
  ℕ, ◌+◌, ◌*◌, bit_or, Bool, true, false, ◌||◌, not, Option, none, some, List, [], ◌∷◌, ◌++◌, ◌==◌,
  if◌then◌else◌, Result, ok, err, ◌>>=◌, ◌>>◌, raise_if, runtime_error, type_error, Exception,
}
use m.Common.Bits.{◌<<◌}
use m.Mcs.Text.{strip}
use m.Mcs.Record.{
  HexRecord, RecordType, data_record, eof, ext_lin_addr, ext_seg_addr, start_seg_addr,
  start_lin_addr, from_str,
}
use m.Mcs.Reader.{Bookmark, McsReader, make_bookmark, bookmarks_sorted, check_overlaps}

-- The variables of the loop.
pub record State : Type 0 where
  pub addr_base : ℕ
  pub addr_next : Option ℕ
  pub record_prev : Option HexRecord
  pub bm_line_num : Option ℕ
  pub bm_start : Option ℕ
  pub bookmarks : List Bookmark

abbrev pub start : State
start = record {
  addr_base = 0;
  addr_next = none;
  record_prev = none;
  bm_line_num = none;
  bm_start = none;
  bookmarks = [];
}

-- `int.from_bytes(data, byteorder='big')`
abbrev pub from_bytes : ℕ → List ℕ → ℕ
from_bytes n [] = n
from_bytes n (b ∷ bs) = from_bytes (n * 256 + b) bs

abbrev pub is_ela : Option HexRecord → Bool
is_ela none = false
is_ela (some r) = elim r.type [ ext_lin_addr ↦ true | _ ↦ false ]

-- What is `None` here raises where it is used.
abbrev pub needed {ℓ} : {A : Type ℓ} → Exception → Option A → Result A
needed e none = err e
needed e (some x) = ok x

-- Saving a bookmark, since its end is found.
unfoldable pub save_bookmark : String → State → Result State
save_bookmark filename st = do
  prev ← needed type_error st.record_prev
  line ← needed type_error st.bm_line_num
  from ← needed type_error st.bm_start
  bm ← make_bookmark filename line from (bit_or st.addr_base prev.address + prev.count)
  ok (record st { bookmarks = st.bookmarks ++ (bm ∷ []); bm_start = none })

-- The branch of the ELA records.
unfoldable pub ela_line : String → ℕ → HexRecord → State → Result State
ela_line filename line_num r st = do
  st' ←
      (if line_num == 1
        then ok st
        else if is_ela st.record_prev
        then err runtime_error
        else save_bookmark filename st)
  ok (record st' { addr_base = from_bytes 0 r.bytes << 16; record_prev = some r })

-- The branch of the data records.
unfoldable pub data_line : ℕ → ℕ → HexRecord → State → Result State
data_line addr_step line_num r st =
    if line_num == 1 || is_ela st.record_prev
    then ok (record st {
      bm_line_num = some line_num;
      bm_start = some (bit_or st.addr_base r.address);
      addr_next = some (r.address + r.count);
      record_prev = some r;
    })
    else do
      prev ← needed type_error st.record_prev
      raise_if (not (prev.count == addr_step)) runtime_error
      next ← needed runtime_error st.addr_next
      raise_if (not (r.address == next)) runtime_error
      ok (record st { addr_next = some (next + r.count); record_prev = some r })

-- The branch of the EOF record, after which the loop ends.
unfoldable pub eof_line : String → ℕ → State → Result State
eof_line filename line_num st = do
  raise_if (line_num == 1) runtime_error
  raise_if (is_ela st.record_prev) runtime_error
  save_bookmark filename st

-- The end of the file without EOF.
unfoldable pub no_eof : String → State → Result State
no_eof filename st = elim st.bm_start [
  | none ↦ err runtime_error
  | some a ↦ save_bookmark filename st
]

-- The branches by the type of a record; `next` is the rest of the loop.
unfoldable pub branch :
    String → ℕ → ℕ → HexRecord → RecordType → (State → Result State) → State → Result State
branch filename addr_step line_num r ext_lin_addr next st = ela_line filename line_num r st >>= next
branch filename addr_step line_num r data_record next st =
    data_line addr_step line_num r st >>= next
branch filename addr_step line_num r eof next st = eof_line filename line_num st
branch filename addr_step line_num r ext_seg_addr next st = err runtime_error
branch filename addr_step line_num r start_seg_addr next st = err runtime_error
branch filename addr_step line_num r start_lin_addr next st = err runtime_error

-- The loop over the lines from number `line_num` on.
unfoldable pub parse_lines : String → ℕ → ℕ → List (List ℕ) → State → Result State
parse_lines filename addr_step line_num [] st = no_eof filename st
parse_lines filename addr_step line_num (line ∷ lines) st = do
  r ← from_str (strip line)
  branch filename addr_step line_num r r.type (parse_lines filename addr_step (line_num + 1) lines)
      st

-- `McsReader(mcs_filename, mem_size, addr_step, padding)`
unfoldable pub make_reader : String → List (List ℕ) → ℕ → ℕ → ℕ → Result McsReader
make_reader filename lines mem_size addr_step padding = do
  st ← parse_lines filename addr_step 1 lines start
  check_overlaps (bookmarks_sorted st.bookmarks)
  ok (record {
    mem_size = mem_size;
    addr_step = addr_step;
    padding = padding;
    bookmarks = st.bookmarks;
  })
