-- ===== src/RandomAccess/Schedule/Order.antt =====
-- Lists put into an order, for `schedule_scan` of
-- cobra_system_control/cobra_system_control/random_access_scanning.py.
use m.Common.{
  ℕ, zero, suc, ◌+◌, ◌*◌, ◌≤◌, ◌<◌, ◌≡◌, refl, sym, ap, ◌∙◌, ◌⊎◌, inl, inr, Bool, List, [], ◌∷◌,
  map, ◌==◌, ltb, lt→ltb, if◌then◌else◌, length, get_or, arith,
}
use m.Common.All.{All}
use m.Scan.Table.Laws.{count}

-- Each index below `n` once, and no other.
abbrev pub IsOrder : ℕ → List ℕ → Type 0
IsOrder n idx = (k : ℕ) → count k idx ≡ (if ltb k n then 1 else 0)

sum_below : ℕ → (ℕ → ℕ) → ℕ
sum_below zero f = 0
sum_below (suc n) f = sum_below n f + f n

sum_below-eq : (n : ℕ) (f g : ℕ → ℕ) → ((k : ℕ) → k < n → f k ≡ g k) → sum_below n f ≡ sum_below n g
unfolding sum_below
sum_below-eq zero f g h = refl
sum_below-eq (suc n) f g h =
    omega (arith, sum_below-eq n f g (λ k lt. h k (omega arith)), h n (omega arith))

sum_below-first : (n : ℕ) (f : ℕ → ℕ) → sum_below (suc n) f ≡ f 0 + sum_below n (λ k. f (suc k))
unfolding sum_below
sum_below-first zero f = omega arith
sum_below-first (suc n) f = omega (arith, sum_below-first n f)

one_if : ℕ → ℕ → ℕ
one_if k i = if k == i then 1 else 0

one_if_self : (k : ℕ) → one_if k k ≡ 1
unfolding one_if
one_if_self k = ground arith

one_if_ne : (k i : ℕ) → (k < i) ⊎ (i < k) → one_if k i ≡ 0
unfolding one_if
one_if_ne k i (inl h) = ground arith
one_if_ne k i (inr h) = ground arith

here : (a c f : ℕ) → a ≡ 1 → (a + c) * f ≡ f + c * f
here a c f h = rw h (grind arith)

elsewhere : (a c f : ℕ) → a ≡ 0 → (a + c) * f ≡ c * f
elsewhere a c f h = rw h (grind arith)

-- A sum in which one term stands out.
sum_below-one :
    (n i : ℕ) (f c : ℕ → ℕ)
    → i < n
    → sum_below n (λ k. (one_if k i + c k) * f k) ≡ f i + sum_below n (λ k. c k * f k)
unfolding sum_below
sum_below-one zero i f c h = absurd (omega (arith, h))
sum_below-one (suc n) i f c h = elim (below_or_at h) [
  | inl below ↦ omega (
    arith,
    sum_below-one n i f c below,
    elsewhere (one_if n i) (c n) (f n) (one_if_ne n i (inr below)),
  )
  | inr at ↦
      let lower : sum_below n (λ k. (one_if k i + c k) * f k) ≡ sum_below n (λ k. c k * f k) =
        sum_below-eq n (λ k. (one_if k i + c k) * f k) (λ k. c k * f k)
          (λ k lt.
            elsewhere (one_if k i) (c k) (f k) (one_if_ne k i (inl (omega (arith, lt, at))))) in
      let top : (one_if n i + c n) * f n ≡ f n + c n * f n =
        here (one_if n i) (c n) (f n) (ap (one_if n) at ∙ one_if_self n) in
      omega (arith, lower, top, ap f at)
]
  where
    below_or_at : {i n : ℕ} → i < suc n → (i < n) ⊎ (i ≡ n)
    below_or_at h = omega (arith, h)

total : (ℕ → ℕ) → List ℕ → ℕ
total f [] = 0
total f (i ∷ idx) = f i + total f idx

sum_zero : (n : ℕ) (f : ℕ → ℕ) → 0 ≡ sum_below n (λ k. 0 * f k)
unfolding sum_below
sum_zero zero f = refl
sum_zero (suc n) f = let z : 0 * f n ≡ 0 = omega arith in omega (arith, sum_zero n f, z)

total-count :
    (n : ℕ) (f : ℕ → ℕ) (idx : List ℕ)
    → All (λ i. i < n) idx
    → total f idx ≡ sum_below n (λ k. count k idx * f k)
unfolding total one_if
total-count n f [] h = sum_zero n f
total-count n f (i ∷ idx) h =
    omega (arith, total-count n f idx h.1, sum_below-one n i f (λ k. count k idx) h.0)

pub order-All : (n : ℕ) (idx : List ℕ) → ((k : ℕ) → n ≤ k → count k idx ≡ 0) → All (λ i. i < n) idx
order-All n [] h = tt
order-All n (i ∷ idx) h = (in_order (h i), order-All n idx (λ k above. omega (arith, h k above)))
  where
    in_order : (n ≤ i → count i (i ∷ idx) ≡ 0) → i < n
    in_order none = ground arith

total-order : (n : ℕ) (f : ℕ → ℕ) (idx : List ℕ) → IsOrder n idx → total f idx ≡ sum_below n f
total-order n f idx h =
    let once : (k : ℕ) → k < n → count k idx ≡ 1 =
      λ k lt. h k ∙ ap {B = ℕ} (λ (b : Bool). if b then 1 else 0) (lt→ltb k n lt) in
    total-count n f idx (order-All n idx (λ k above. let e = h k in ground arith))
    ∙ sum_below-eq n (λ k. count k idx * f k) f
        (λ k lt. ap (λ (t : ℕ). t * f k) (once k lt) ∙ omega arith)

count-sum : (x : ℕ) (v : List ℕ) → count x v ≡ sum_below (length v) (λ k. one_if x (get_or v k 0))
unfolding one_if
count-sum x [] = unfold sum_below in refl
count-sum x (y ∷ v) =
    omega (arith, count-sum x v, sum_below-first (length v) (λ k. one_if x (get_or (y ∷ v) k 0)))

count-map :
    (x : ℕ) (v idx : List ℕ)
    → count x (map (λ i. get_or v i 0) idx) ≡ total (λ k. one_if x (get_or v k 0)) idx
unfolding total one_if
count-map x v [] = refl
count-map x v (i ∷ idx) = omega (arith, count-map x v idx)

-- Values that are put into an order stay the same values.
pub count-order :
    (x : ℕ) (v idx : List ℕ)
    → IsOrder (length v) idx
    → count x (map (λ i. get_or v i 0) idx) ≡ count x v
count-order x v idx h =
    count-map x v idx
    ∙ total-order (length v) (λ k. one_if x (get_or v k 0)) idx h
    ∙ sym (count-sum x v)
