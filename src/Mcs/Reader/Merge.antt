-- ===== src/Mcs/Reader/Merge.antt =====
-- `merge` of mcs_reader.py.
use m.Common.{
  ℕ, ◌+◌, ◌≤◌, ◌≡◌, refl, ◌∙◌, Bool, true, false, not, Option, none, some, List, [], ◌∷◌, ◌++◌,
  ◌==◌, if◌then◌else◌, ok, >>=-eq-ok, ok-injective, raise_if, arith, runtime_error,
}
use mathlib.Core.Path.{subst}
use m.Common.All.{All, All-append}
use m.Mcs.Reader.{
  Bookmark, McsReader, bookmarks_sorted, check_overlaps, holds_address, find_bookmark, get_bookmark,
  merge,
}
use m.Mcs.Reader.Order.{IsProper, holders, check_overlaps-holders, find_bookmark-sorted}

-- The first of two that is there.
abbrev pub or_else {ℓ} : {A : Type ℓ} → Option A → Option A → Option A
or_else (some x) o = some x
or_else none o = o

find_bookmark-append :
    (xs ys : List Bookmark) (a : ℕ)
    → find_bookmark (xs ++ ys) a ≡ or_else (find_bookmark xs a) (find_bookmark ys a)
unfolding find_bookmark
find_bookmark-append [] ys a = refl
find_bookmark-append (x ∷ xs) ys a = go (holds_address x a) (find_bookmark-append xs ys a)
  where
    go :
        (b : Bool)
        → find_bookmark (xs ++ ys) a ≡ or_else (find_bookmark xs a) (find_bookmark ys a)
        → (if b then some x else find_bookmark (xs ++ ys) a)
          ≡ or_else (if b then some x else find_bookmark xs a) (find_bookmark ys a)
    go true ih = refl
    go false ih = ih

holders-append :
    (xs ys : List Bookmark) (a : ℕ) → holders (xs ++ ys) a ≡ holders xs a + holders ys a
holders-append [] ys a = omega arith
holders-append (x ∷ xs) ys a = omega (arith, holders-append xs ys a)

-- Where `merge` returns, the merged reader has the sizes and the padding of the other reader, and
-- finds for every address the bookmark that the first one finds, or else the one that the second
-- finds; no address is held by bookmarks of both.
pub get_bookmark-merge :
    (self other r : McsReader) (a : ℕ)
    → All IsProper self.bookmarks
    → All IsProper other.bookmarks
    → merge self other ≡ ok r
    → (r.mem_size ≡ other.mem_size)
      × (r.addr_step ≡ other.addr_step)
      × (r.padding ≡ other.padding)
      × (get_bookmark r a ≡ or_else (get_bookmark self a) (get_bookmark other a))
      × (holders self.bookmarks a + holders other.bookmarks a ≤ 1)
unfolding merge
get_bookmark-merge self other r a all all' h =
    let (u1, h1, k1) =
      >>=-eq-ok (raise_if (not (other.mem_size == self.mem_size)) runtime_error) _ h in
    let (u2, h2, k2) =
      >>=-eq-ok (raise_if (not (other.addr_step == self.addr_step)) runtime_error) _ k1 in
    let (u3, h3, k3) =
      >>=-eq-ok (raise_if (not (other.padding == self.padding)) runtime_error) _ k2 in
    let (u4, h4, k4) =
      >>=-eq-ok (check_overlaps (bookmarks_sorted (self.bookmarks ++ other.bookmarks))) _ k3 in
    let few =
      check_overlaps-holders (self.bookmarks ++ other.bookmarks) a
        (All-append IsProper self.bookmarks other.bookmarks all all') h4 in
    subst
      (λ (q : McsReader).
        (q.mem_size ≡ other.mem_size)
        × (q.addr_step ≡ other.addr_step)
        × (q.padding ≡ other.padding)
        × (get_bookmark q a ≡ or_else (get_bookmark self a) (get_bookmark other a))
        × (holders self.bookmarks a + holders other.bookmarks a ≤ 1))
      (ok-injective k4)
      (
        ground arith,
        ground arith,
        ground arith,
        find_bookmark-sorted (self.bookmarks ++ other.bookmarks) a few
            ∙ find_bookmark-append self.bookmarks other.bookmarks a,
        omega (arith, few, holders-append self.bookmarks other.bookmarks a),
      )
