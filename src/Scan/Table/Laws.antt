-- ===== src/Scan/Table/Laws.antt =====
-- Sorted lists and ranges, for `ScanTable.__post_init__` of
-- cobra_system_control/cobra_system_control/scan_control.py.
use m.Common.{
  ℕ, zero, suc, ◌+◌, ◌≤◌, ◌<◌, ◌≡◌, refl, ap, ap₂, ◌⊎◌, inl, inr, true, ◌&&◌, List, [], ◌∷◌, ◌==◌,
  leb, ltb, if◌then◌else◌, length, arith, ==_iff, Bool-cases, and_true,
}
use m.Common.All.{All}
use m.Scan.Table.{insert, sorted_roi_sel, contiguous_roi_sel, list_eq, last}

-- How often a number occurs.
abbrev pub count : ℕ → List ℕ → ℕ
count k [] = 0
count k (x ∷ xs) = (if k == x then 1 else 0) + count k xs

abbrev AtLeast : ℕ → List ℕ → Type 0
AtLeast a xs = All (λ x. a ≤ x) xs

abbrev Sorted : List ℕ → Type 0
Sorted [] = Unit
Sorted (x ∷ xs) = AtLeast x xs × Sorted xs

count-insert : (k x : ℕ) (xs : List ℕ) → count k (insert x xs) ≡ count k (x ∷ xs)
count-insert k x [] = refl
count-insert k x (y ∷ ys) = elim (Bool-cases (leb x y)) [
  | inl below ↦ rw below refl
  | inr above ↦ rw above (omega (arith, count-insert k x ys))
]

pub count-sorted_roi_sel : (k : ℕ) (xs : List ℕ) → count k (sorted_roi_sel xs) ≡ count k xs
unfolding sorted_roi_sel
count-sorted_roi_sel k [] = refl
count-sorted_roi_sel k (x ∷ xs) =
    omega (arith, count-insert k x (sorted_roi_sel xs), count-sorted_roi_sel k xs)

AtLeast-insert : (a x : ℕ) (xs : List ℕ) → a ≤ x → AtLeast a xs → AtLeast a (insert x xs)
AtLeast-insert a x [] h k = (h, tt)
AtLeast-insert a x (y ∷ ys) h k = elim (Bool-cases (leb x y)) [
  | inl below ↦ rw below (h, k)
  | inr above ↦ rw above (k.0, AtLeast-insert a x ys h k.1)
]

AtLeast-down : (a b : ℕ) (xs : List ℕ) → a ≤ b → AtLeast b xs → AtLeast a xs
AtLeast-down a b [] h k = tt
AtLeast-down a b (x ∷ xs) h k = (omega (arith, h, k.0), AtLeast-down a b xs h k.1)

Sorted-insert : (x : ℕ) (xs : List ℕ) → Sorted xs → Sorted (insert x xs)
Sorted-insert x [] h = (tt, tt)
Sorted-insert x (y ∷ ys) h = elim (Bool-cases (leb x y)) [
  | inl below ↦ let le : x ≤ y = ground arith in rw below ((le, AtLeast-down x y ys le h.0), h)
  | inr above ↦
      let le : y ≤ x = ground arith in
      rw above (AtLeast-insert y x ys le h.0, Sorted-insert x ys h.1)
]

pub sorted_roi_sel-Sorted : (xs : List ℕ) → Sorted (sorted_roi_sel xs)
unfolding sorted_roi_sel
sorted_roi_sel-Sorted [] = tt
sorted_roi_sel-Sorted (x ∷ xs) = Sorted-insert x (sorted_roi_sel xs) (sorted_roi_sel-Sorted xs)

count_below : (a k : ℕ) (xs : List ℕ) → k < a → AtLeast a xs → count k xs ≡ 0
count_below a k [] lt h = refl
count_below a k (x ∷ xs) lt h = let rest = count_below a k xs lt h.1 in ground arith

pub count-contiguous_roi_sel :
    (k a n : ℕ) → count k (contiguous_roi_sel a n) ≡ (if leb a k && ltb k (a + n) then 1 else 0)
count-contiguous_roi_sel k a zero = ground arith
count-contiguous_roi_sel k a (suc n) =
    let rest = count-contiguous_roi_sel k (a + 1) n in ground arith

count-pos : (x : ℕ) (xs : List ℕ) → 0 < count x (x ∷ xs)
count-pos x xs = ground arith

same_head :
    (x y : ℕ) (xs ys : List ℕ)
    → AtLeast x xs
    → AtLeast y ys
    → ((k : ℕ) → count k (x ∷ xs) ≡ count k (y ∷ ys))
    → x ≡ y
same_head x y xs ys hx hy same = elim (trichotomy x y) [
  | inl lt ↦
      absurd (omega (arith, same x, count-pos x xs, count_below y x (y ∷ ys) lt (omega arith, hy)))
  | inr (inl gt) ↦
      absurd (omega (arith, same y, count-pos y ys, count_below x y (x ∷ xs) gt (omega arith, hx)))
  | inr (inr e) ↦ e
]
  where
    trichotomy : (x y : ℕ) → (x < y) ⊎ ((y < x) ⊎ (x ≡ y))
    trichotomy x y = ground arith

-- A sorted list is known by its counts.
pub Sorted-unique :
    (xs ys : List ℕ) → Sorted xs → Sorted ys → ((k : ℕ) → count k xs ≡ count k ys) → xs ≡ ys
Sorted-unique [] [] hx hy same = refl
Sorted-unique [] (y ∷ ys) hx hy same = absurd (omega (arith, same y, count-pos y ys))
Sorted-unique (x ∷ xs) [] hx hy same = absurd (omega (arith, same x, count-pos x xs))
Sorted-unique (x ∷ xs) (y ∷ ys) hx hy same =
    let head = same_head x y xs ys hx.0 hy.0 same in
    let tails : (k : ℕ) → count k xs ≡ count k ys =
      λ k. omega (arith, same k, ap {B = ℕ} (λ (t : ℕ). if k == t then 1 else 0) head) in
    ap₂ ◌∷◌ head (Sorted-unique xs ys hx.1 hy.1 tails)

contiguous_roi_sel-AtLeast : (b a n : ℕ) → b ≤ a → AtLeast b (contiguous_roi_sel a n)
contiguous_roi_sel-AtLeast b a zero h = tt
contiguous_roi_sel-AtLeast b a (suc n) h =
    (h, contiguous_roi_sel-AtLeast b (a + 1) n (omega (arith, h)))

pub contiguous_roi_sel-Sorted : (a n : ℕ) → Sorted (contiguous_roi_sel a n)
contiguous_roi_sel-Sorted a zero = tt
contiguous_roi_sel-Sorted a (suc n) =
    (contiguous_roi_sel-AtLeast a (a + 1) n (omega arith), contiguous_roi_sel-Sorted (a + 1) n)

pub last-contiguous_roi_sel : (a n : ℕ) → last a (contiguous_roi_sel (a + 1) n) ≡ a + n
last-contiguous_roi_sel a zero = omega arith
last-contiguous_roi_sel a (suc n) = omega (arith, last-contiguous_roi_sel (a + 1) n)

pub length-contiguous_roi_sel : (a n : ℕ) → length (contiguous_roi_sel a n) ≡ n
length-contiguous_roi_sel a zero = refl
length-contiguous_roi_sel a (suc n) = ap suc (length-contiguous_roi_sel (a + 1) n)

pub list_eq→eq : (xs ys : List ℕ) → list_eq xs ys ≡ true → xs ≡ ys
list_eq→eq [] [] h = refl
list_eq→eq [] (y ∷ ys) h = cc
list_eq→eq (x ∷ xs) [] h = cc
list_eq→eq (x ∷ xs) (y ∷ ys) h =
    let (head, rest) = and_true (x == y) (list_eq xs ys) h in
    ap₂ ◌∷◌ ((==_iff x y).0 head) (list_eq→eq xs ys rest)

pub list_eq_self : (xs : List ℕ) → list_eq xs xs ≡ true
list_eq_self [] = refl
list_eq_self (x ∷ xs) = let e : (x == x) ≡ true = ground arith in rw (e, list_eq_self xs) refl
