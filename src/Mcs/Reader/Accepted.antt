-- ===== src/Mcs/Reader/Accepted.antt =====
-- The readers that the constructor of `McsReader` returns.
use Prim.Native.String.{String}
use m.Common.{
  ℕ, ◌+◌, ◌≤◌, ◌≡◌, Bool, true, false, Option, none, some, List, [], ◌∷◌, ◌==◌, if◌then◌else◌,
  Result, ok, err, >>=-eq-ok, ok-injective, raise_if, arith, get_elem?, runtime_error, type_error,
}
use mathlib.Core.Path.{subst}
use m.Common.All.{All, All-append}
use m.Mcs.Text.{strip}
use m.Mcs.Record.{
  HexRecord, RecordType, data_record, eof, ext_lin_addr, ext_seg_addr, start_seg_addr,
  start_lin_addr, from_str,
}
use m.Mcs.Reader.{
  Bookmark, McsReader, make_bookmark, bookmarks_sorted, check_overlaps, holds_address, get_bookmark,
}
use m.Mcs.Reader.Parse.{
  State, start, needed, is_ela, save_bookmark, ela_line, data_line, eof_line, no_eof, branch,
  parse_lines, make_reader,
}
use m.Mcs.Reader.Order.{IsProper, holders, check_overlaps-holders, find_bookmark-eq}

make_bookmark-IsProper :
    (filename : String) (line from upto : ℕ) (bm : Bookmark)
    → make_bookmark filename line from upto ≡ ok bm
    → IsProper bm
unfolding make_bookmark
make_bookmark-IsProper filename line from upto bm h = ground arith

-- Every line keeps the bookmarks proper.
module _ (filename : String) where
  save_bookmark-All :
      (st st' : State)
      → All IsProper st.bookmarks
      → save_bookmark filename st ≡ ok st'
      → All IsProper st'.bookmarks
  unfolding save_bookmark
  save_bookmark-All st st' all h =
      let (prev, h1, k1) = >>=-eq-ok (needed type_error st.record_prev) _ h in
      let (line, h2, k2) = >>=-eq-ok (needed type_error st.bm_line_num) _ k1 in
      let (from, h3, k3) = >>=-eq-ok (needed type_error st.bm_start) _ k2 in
      let (bm, h4, k4) = >>=-eq-ok (make_bookmark filename line from _) _ k3 in
      subst (λ (t : State). All IsProper t.bookmarks) (ok-injective k4)
        (All-append IsProper st.bookmarks (bm ∷ []) all
          (make_bookmark-IsProper filename line from _ bm h4, tt))

  ela_line-All :
      (line_num : ℕ) (r : HexRecord) (st st' : State)
      → All IsProper st.bookmarks
      → ela_line filename line_num r st ≡ ok st'
      → All IsProper st'.bookmarks
  unfolding ela_line
  ela_line-All line_num r st st' all h =
      let (mid, h1, k1) =
        >>=-eq-ok
          (if line_num == 1
            then ok st
            else if is_ela st.record_prev
            then err runtime_error
            else save_bookmark filename st)
          _ h in
      subst (λ (t : State). All IsProper t.bookmarks) (ok-injective k1)
        (before mid (line_num == 1) (is_ela st.record_prev) h1)
    where
      before :
          (mid : State) (first back_to_back : Bool)
          → (if first
              then ok st
              else if back_to_back
              then err runtime_error
              else save_bookmark filename st)
            ≡ ok mid
          → All IsProper mid.bookmarks
      before mid true b e = subst (λ (t : State). All IsProper t.bookmarks) (ok-injective e) all
      before mid false true e = cc
      before mid false false e = save_bookmark-All st mid all e

  data_line-bookmarks :
      (addr_step line_num : ℕ) (r : HexRecord) (st st' : State)
      → data_line addr_step line_num r st ≡ ok st'
      → st.bookmarks ≡ st'.bookmarks
  unfolding data_line
  data_line-bookmarks addr_step line_num r st st' h = ground arith

  eof_line-All :
      (line_num : ℕ) (st st' : State)
      → All IsProper st.bookmarks
      → eof_line filename line_num st ≡ ok st'
      → All IsProper st'.bookmarks
  unfolding eof_line
  eof_line-All line_num st st' all h =
      let (u, h1, k1) = >>=-eq-ok (raise_if (line_num == 1) runtime_error) _ h in
      let (u', h2, k2) = >>=-eq-ok (raise_if (is_ela st.record_prev) runtime_error) _ k1 in
      save_bookmark-All st st' all k2

  no_eof-All :
      (st st' : State)
      → All IsProper st.bookmarks
      → no_eof filename st ≡ ok st'
      → All IsProper st'.bookmarks
  unfolding no_eof
  no_eof-All st st' all h = go st.bm_start h
    where
      go :
          (o : Option ℕ)
          → (elim o as (λ o. Result State) [
            | none ↦ err runtime_error
            | some a ↦ save_bookmark filename st
          ])
            ≡ ok st'
          → All IsProper st'.bookmarks
      go none e = cc
      go (some a) e = save_bookmark-All st st' all e

  branch-All :
      (addr_step line_num : ℕ) (r : HexRecord) (type : RecordType) (next : State → Result State)
      (st st' : State)
      → ((mid : State)
          → All IsProper mid.bookmarks
          → next mid ≡ ok st'
          → All IsProper st'.bookmarks)
      → All IsProper st.bookmarks
      → branch filename addr_step line_num r type next st ≡ ok st'
      → All IsProper st'.bookmarks
  unfolding branch
  branch-All addr_step line_num r ext_lin_addr next st st' rest all h =
      let (mid, h1, k1) = >>=-eq-ok (ela_line filename line_num r st) next h in
      rest mid (ela_line-All line_num r st mid all h1) k1
  branch-All addr_step line_num r data_record next st st' rest all h =
      let (mid, h1, k1) = >>=-eq-ok (data_line addr_step line_num r st) next h in
      rest mid (subst (All IsProper) (data_line-bookmarks addr_step line_num r st mid h1) all) k1
  branch-All addr_step line_num r eof next st st' rest all h = eof_line-All line_num st st' all h
  branch-All addr_step line_num r ext_seg_addr next st st' rest all h = cc
  branch-All addr_step line_num r start_seg_addr next st st' rest all h = cc
  branch-All addr_step line_num r start_lin_addr next st st' rest all h = cc

  parse_lines-All :
      (addr_step line_num : ℕ) (lines : List (List ℕ)) (st st' : State)
      → All IsProper st.bookmarks
      → parse_lines filename addr_step line_num lines st ≡ ok st'
      → All IsProper st'.bookmarks
  unfolding parse_lines
  parse_lines-All addr_step line_num [] st st' all h = no_eof-All st st' all h
  parse_lines-All addr_step line_num (line ∷ lines) st st' all h =
      let (r, h1, k1) = >>=-eq-ok (from_str (strip line)) _ h in
      branch-All addr_step line_num r r.type (parse_lines filename addr_step (line_num + 1) lines)
        st st' (λ mid. parse_lines-All addr_step (line_num + 1) lines mid st') all k1

-- What the constructor returns has proper bookmarks, no two of which hold one address.
pub make_reader-holders :
    (filename : String) (lines : List (List ℕ)) (mem_size addr_step padding : ℕ) (r : McsReader)
    (a : ℕ)
    → make_reader filename lines mem_size addr_step padding ≡ ok r
    → All IsProper r.bookmarks × (holders r.bookmarks a ≤ 1)
unfolding make_reader
make_reader-holders filename lines mem_size addr_step padding r a h =
    let (st, h1, k1) = >>=-eq-ok (parse_lines filename addr_step 1 lines start) _ h in
    let (u, h2, k2) = >>=-eq-ok (check_overlaps (bookmarks_sorted st.bookmarks)) _ k1 in
    let all = parse_lines-All filename addr_step 1 lines start st tt h1 in
    subst (λ (q : McsReader). All IsProper q.bookmarks × (holders q.bookmarks a ≤ 1))
      (ok-injective k2) (all, check_overlaps-holders st.bookmarks a all h2)

-- In a reader that the constructor returns, the bookmark that `_get_bookmark` finds for an address is
-- the one that holds it, wherever this stands in the list.
pub get_bookmark-eq :
    (filename : String) (lines : List (List ℕ)) (mem_size addr_step padding : ℕ) (r : McsReader)
    (i a : ℕ) (bm : Bookmark)
    → make_reader filename lines mem_size addr_step padding ≡ ok r
    → get_elem? r.bookmarks i ≡ some bm
    → holds_address bm a ≡ true
    → get_bookmark r a ≡ some bm
get_bookmark-eq filename lines mem_size addr_step padding r i a bm h at holds =
    find_bookmark-eq r.bookmarks i a bm
      (make_reader-holders filename lines mem_size addr_step padding r a h).1 at holds
