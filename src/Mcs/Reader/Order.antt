-- ===== src/Mcs/Reader/Order.antt =====
-- Bookmarks that pass the check for overlaps are disjoint, so which one holds an address does not
-- depend on their order.
use m.Common.{
  ℕ, zero, suc, ◌+◌, ◌≤◌, ◌<◌, ◌≡◌, refl, ap, ◌∙◌, Bool, true, false, ◌&&◌, Option, none, some,
  List, [], ◌∷◌, leb, if◌then◌else◌, Result, ok, err, runtime_error, arith, get_elem?, Bool-cases,
  inl, inr,
}
use m.Common.All.{All}
use m.Mcs.Reader.{
  Bookmark, insert, bookmarks_sorted, overlaps, check_overlaps, holds_address, find_bookmark,
}

abbrev pub IsProper : Bookmark → Type 0
IsProper bm = bm.addr_start < bm.addr_stop

-- How many bookmarks hold an address.
abbrev pub holders : List Bookmark → ℕ → ℕ
holders [] a = 0
holders (bm ∷ bms) a = (if holds_address bm a then 1 else 0) + holders bms a

-- In the order of the addresses at which they begin, none before `lo`.
abbrev Ascending : ℕ → List Bookmark → Type 0
Ascending lo [] = Unit
Ascending lo (bm ∷ bms) = (lo ≤ bm.addr_start) × Ascending bm.addr_start bms

-- One after the other, none before `lo`.
abbrev Chain : ℕ → List Bookmark → Type 0
Chain lo [] = Unit
Chain lo (bm ∷ bms) = (lo ≤ bm.addr_start) × IsProper bm × Chain bm.addr_stop bms

insert-Ascending :
    (lo : ℕ) (b : Bookmark) (bms : List Bookmark)
    → lo ≤ b.addr_start
    → Ascending lo bms
    → Ascending lo (insert b bms)
unfolding insert
insert-Ascending lo b [] h asc = (h, tt)
insert-Ascending lo b (c ∷ bms) h asc = elim (Bool-cases (leb b.addr_start c.addr_start)) [
  | inl e ↦ rw e (h, (ground arith, asc.1))
  | inr e ↦ rw e (asc.0, insert-Ascending c.addr_start b bms (ground arith) asc.1)
]

sorted-Ascending : (bms : List Bookmark) → Ascending 0 (bookmarks_sorted bms)
unfolding bookmarks_sorted
sorted-Ascending [] = tt
sorted-Ascending (b ∷ bms) =
    insert-Ascending 0 b (bookmarks_sorted bms) (omega arith) (sorted-Ascending bms)

insert-All :
    (b : Bookmark) (bms : List Bookmark)
    → IsProper b
    → All IsProper bms
    → All IsProper (insert b bms)
unfolding insert
insert-All b [] h all = (h, tt)
insert-All b (c ∷ bms) h all = elim (Bool-cases (leb b.addr_start c.addr_start)) [
  | inl e ↦ rw e (h, all)
  | inr e ↦ rw e (all.0, insert-All b bms h all.1)
]

sorted-All : (bms : List Bookmark) → All IsProper bms → All IsProper (bookmarks_sorted bms)
unfolding bookmarks_sorted
sorted-All [] all = tt
sorted-All (b ∷ bms) all = insert-All b (bookmarks_sorted bms) all.0 (sorted-All bms all.1)

Chain-weaken :
    (lo lo' : ℕ) (bm : Bookmark) (bms : List Bookmark)
    → lo' ≤ bm.addr_start
    → Chain lo (bm ∷ bms)
    → Chain lo' (bm ∷ bms)
Chain-weaken lo lo' bm bms h c = (h, c.1, c.2)

raised_not :
    (b : Bool) (r : Result (Unit {0}))
    → (if b then err runtime_error else r) ≡ ok tt
    → (b ≡ false) × (r ≡ ok tt)
raised_not true r h = cc
raised_not false r h = (refl, h)

-- The check compares neighbours only; in the order of the addresses that is enough.
check_overlaps-Chain :
    (lo : ℕ) (bms : List Bookmark)
    → Ascending lo bms
    → All IsProper bms
    → check_overlaps bms ≡ ok tt
    → Chain lo bms
unfolding check_overlaps
check_overlaps-Chain lo [] asc all h = tt
check_overlaps-Chain lo (b ∷ []) asc all h = (asc.0, all.0, tt)
check_overlaps-Chain lo (b ∷ c ∷ bms) asc all h =
    let (apart, rest) = raised_not (overlaps b c) (check_overlaps (c ∷ bms)) h in
    let ih = check_overlaps-Chain b.addr_start (c ∷ bms) asc.1 all.1 rest in
    let proper : IsProper c = all.1.0 in
    let le : b.addr_stop ≤ c.addr_start = ground arith in
    (asc.0, all.0, Chain-weaken b.addr_start b.addr_stop c bms le ih)

holders-below : (lo : ℕ) (bms : List Bookmark) (a : ℕ) → Chain lo bms → a < lo → holders bms a ≡ 0
holders-below lo [] a c h = refl
holders-below lo (bm ∷ bms) a c h = ground (arith, holders-below bm.addr_stop bms a c.2)

pub Chain-holders : (lo : ℕ) (bms : List Bookmark) (a : ℕ) → Chain lo bms → holders bms a ≤ 1
Chain-holders lo [] a c = omega arith
Chain-holders lo (bm ∷ bms) a c = elim (Bool-cases (holds_address bm a)) [
  | inl e ↦ ground (arith, holders-below bm.addr_stop bms a c.2)
  | inr e ↦ rw e (omega (arith, Chain-holders bm.addr_stop bms a c.2))
]

-- Sorting keeps the number of holders, and with one at most also which it is.
holders-insert :
    (b : Bookmark) (bms : List Bookmark) (a : ℕ) → holders (insert b bms) a ≡ holders (b ∷ bms) a
unfolding insert
holders-insert b [] a = refl
holders-insert b (c ∷ bms) a = elim (Bool-cases (leb b.addr_start c.addr_start)) [
  | inl e ↦ rw e refl
  | inr e ↦ rw e (omega (arith, holders-insert b bms a))
]

pub holders-sorted :
    (bms : List Bookmark) (a : ℕ) → holders (bookmarks_sorted bms) a ≡ holders bms a
unfolding bookmarks_sorted
holders-sorted [] a = refl
holders-sorted (b ∷ bms) a =
    omega (arith, holders-insert b (bookmarks_sorted bms) a, holders-sorted bms a)

find_bookmark-none : (bms : List Bookmark) (a : ℕ) → holders bms a ≡ 0 → find_bookmark bms a ≡ none
unfolding find_bookmark
find_bookmark-none [] a h = refl
find_bookmark-none (bm ∷ bms) a h = elim (Bool-cases (holds_address bm a)) [
  | inl e ↦ absurd (ground arith)
  | inr e ↦ rw e (find_bookmark-none bms a (ground arith))
]

not_both :
    (p q : Bool) (n : ℕ) → (if p then 1 else 0) + ((if q then 1 else 0) + n) ≤ 1 → (p && q) ≡ false
not_both true true n h = absurd (omega arith)
not_both true false n h = refl
not_both false q n h = refl

swap_tests :
    (p q : Bool) (x y z : Option Bookmark)
    → (p && q) ≡ false
    → (if q then y else if p then x else z) ≡ (if p then x else if q then y else z)
swap_tests true true x y z h = cc
swap_tests true false x y z h = refl
swap_tests false true x y z h = refl
swap_tests false false x y z h = refl

pub find_bookmark-insert :
    (b : Bookmark) (bms : List Bookmark) (a : ℕ)
    → holders (b ∷ bms) a ≤ 1
    → find_bookmark (insert b bms) a ≡ find_bookmark (b ∷ bms) a
unfolding insert find_bookmark
find_bookmark-insert b [] a h = refl
find_bookmark-insert b (c ∷ bms) a h = elim (Bool-cases (leb b.addr_start c.addr_start)) [
  | inl e ↦ rw e refl
  | inr e ↦
      let ih = find_bookmark-insert b bms a (omega arith) in
      rw (e, ih)
        (swap_tests (holds_address b a) (holds_address c a) _ _ _
          (not_both (holds_address b a) (holds_address c a) (holders bms a) h))
]

pub find_bookmark-sorted :
    (bms : List Bookmark) (a : ℕ)
    → holders bms a ≤ 1
    → find_bookmark (bookmarks_sorted bms) a ≡ find_bookmark bms a
unfolding bookmarks_sorted find_bookmark
find_bookmark-sorted [] a h = refl
find_bookmark-sorted (b ∷ bms) a h =
    let ih = find_bookmark-sorted bms a (omega arith) in
    find_bookmark-insert b (bookmarks_sorted bms) a (omega (arith, holders-sorted bms a))
    ∙ ap (λ o. if holds_address b a then some b else o) ih

-- At most one bookmark holds an address.
pub check_overlaps-holders :
    (bms : List Bookmark) (a : ℕ)
    → All IsProper bms
    → check_overlaps (bookmarks_sorted bms) ≡ ok tt
    → holders bms a ≤ 1
check_overlaps-holders bms a all h = omega (
  arith,
  holders-sorted bms a,
  Chain-holders 0 (bookmarks_sorted bms) a
      (check_overlaps-Chain 0 (bookmarks_sorted bms) (sorted-Ascending bms) (sorted-All bms all) h),
)

holder-at :
    (bms : List Bookmark) (i a : ℕ) (bm : Bookmark)
    → get_elem? bms i ≡ some bm
    → holds_address bm a ≡ true
    → 0 < holders bms a
holder-at [] i a bm at holds = cc
holder-at (b ∷ bms) zero a bm at holds = let e : b ≡ bm = cc in rw (e, holds) (omega arith)
holder-at (b ∷ bms) (suc i) a bm at holds = omega (arith, holder-at bms i a bm at holds)

pub find_bookmark-eq :
    (bms : List Bookmark) (i a : ℕ) (bm : Bookmark)
    → holders bms a ≤ 1
    → get_elem? bms i ≡ some bm
    → holds_address bm a ≡ true
    → find_bookmark bms a ≡ some bm
unfolding find_bookmark
find_bookmark-eq [] i a bm h at holds = cc
find_bookmark-eq (b ∷ bms) zero a bm h at holds = let e : b ≡ bm = cc in rw (e, holds) refl
find_bookmark-eq (b ∷ bms) (suc i) a bm h at holds = elim (Bool-cases (holds_address b a)) [
  | inl e ↦ absurd (ground (arith, holder-at bms i a bm at holds))
  | inr e ↦ rw e (find_bookmark-eq bms i a bm (omega arith) at holds)
]
