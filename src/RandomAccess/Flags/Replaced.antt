-- ===== src/RandomAccess/Flags/Replaced.antt =====
-- What `flag_equalizer` of cobra_system_control/cobra_system_control/random_access_scanning.py reads where it has
-- replaced flags.
use m.Common.{
  ℕ, suc, ◌+◌, ◌^◌, ◌≤◌, ◌<◌, ◌≡◌, refl, sym, ap, ◌∙◌, inl, inr, Bool-cases, true, List, [], ◌∷◌,
  length, get_or, set, length-set, get_or-set_self, get_or-set_ne, ltb, ltb→lt, lt→ltb, ◌==◌, ok,
  err, if_ok, >>=-eq-ok, ◌>>=◌, ok-injective, index_error, bit_and, arith,
}
use mathlib.Core.Path.{subst}
use m.Common.All.{All}
use m.Common.Bits.{◌>>>◌}
use m.RandomAccess.Flags.{
  flag_of, replace_flag, replace_from, virtual_sensor_flags, loc_from, loc_idx,
}
use m.RandomAccess.Flags.Laws.{flag_of-replace_flag, sees, sees-eq}

-- Indices in ascending order.
abbrev pub Ascending : List ℕ → Type 0
Ascending [] = Unit
Ascending (i ∷ idx) = All (λ j. i < j) idx × Ascending idx

All-weaken : (i k : ℕ) (idx : List ℕ) → i < k → All (λ j. k ≤ j) idx → All (λ j. i < j) idx
All-weaken i k [] h g = tt
All-weaken i k (j ∷ idx) h g = (omega (arith, g.0), All-weaken i k idx h g.1)

All-below : (i k : ℕ) (idx : List ℕ) → i ≤ k → All (λ j. k ≤ j) idx → All (λ j. i ≤ j) idx
All-below i k [] h g = tt
All-below i k (j ∷ idx) h g = (omega (arith, g.0), All-below i k idx h g.1)

loc_from-Ascending :
    (v i : ℕ) (bitmask : List ℕ)
    → All (λ j. i ≤ j) (loc_from v i bitmask) × Ascending (loc_from v i bitmask)
loc_from-Ascending v i [] = (tt, tt)
loc_from-Ascending v i (b ∷ bitmask) =
    let (above, ordered) = loc_from-Ascending v (i + 1) bitmask in
    let rest = loc_from v (i + 1) bitmask in
    elim (Bool-cases (bit_and (b >>> v) 1 == 1)) [
      | inl here ↦ rw here (
        (omega arith, All-below i (i + 1) rest (omega arith) above),
        (All-weaken i (i + 1) rest (omega arith) above, ordered),
      )
      | inr other ↦ rw other (All-below i (i + 1) rest (omega arith) above, ordered)
    ]

pub loc_idx-Ascending : (v : ℕ) (bitmask : List ℕ) → Ascending (loc_idx v bitmask)
loc_idx-Ascending v bitmask = (loc_from-Ascending v 0 bitmask).1

-- A round of the replacing.
next_round :
    (v : ℕ) (flags : List ℕ) (i n : ℕ) (idx news out : List ℕ) {new : List ℕ}
    → replace_from v flags (i ∷ idx) (n ∷ news) out ≡ ok new
    → (i < length flags)
      × (replace_from v flags idx news (set out i (replace_flag (get_or flags i 0) n v)) ≡ ok new)
next_round v flags i n idx news out e = elim (Bool-cases (ltb i (length flags))) [
  | inl inside ↦
      let same : replace_from v flags (i ∷ idx) (n ∷ news) out
          ≡ replace_from v flags idx news (set out i (replace_flag (get_or flags i 0) n v)) =
        rw inside refl in
      (ltb→lt i (length flags) inside, sym same ∙ e)
  | inr outside ↦
      let refused : replace_from v flags (i ∷ idx) (n ∷ news) out ≡ err index_error =
        rw outside refl in
      cc
]

-- What lies before the indices is not touched.
before_indices :
    (v : ℕ) (flags idx news out : List ℕ) {new : List ℕ} (k : ℕ)
    → All (λ j. k < j) idx
    → replace_from v flags idx news out ≡ ok new
    → (get_or new k 0 ≡ get_or out k 0) × (length new ≡ length out)
before_indices v flags [] news out k h e =
    subst (λ (xs : List ℕ). (get_or xs k 0 ≡ get_or out k 0) × (length xs ≡ length out))
      (ok-injective e) (refl, refl)
before_indices v flags (i ∷ idx) [] out k h e = cc
before_indices v flags (i ∷ idx) (n ∷ news) out k h e =
    let (inside, e1) = next_round v flags i n idx news out e in
    let value = replace_flag (get_or flags i 0) n v in
    let (same, count) = before_indices v flags idx news (set out i value) k h.1 e1 in
    (
      same ∙ get_or-set_ne out i k value 0 (λ z. let lt = h.0 in omega (arith, z, lt)),
      count ∙ length-set out i value,
    )

pub replace_from-reads :
    (v : ℕ) (flags idx news out : List ℕ) {new : List ℕ}
    → Ascending idx
    → All (λ n. n < 2 ^ 4) news
    → length news ≡ length idx
    → length out ≡ length flags
    → replace_from v flags idx news out ≡ ok new
    → virtual_sensor_flags v idx new ≡ ok news
replace_from-reads v flags [] [] out a small n m e = refl
replace_from-reads v flags [] (x ∷ xs) out a small n m e = absurd (omega (arith, n))
replace_from-reads v flags (i ∷ idx) [] out a small n m e = cc
replace_from-reads v flags (i ∷ idx) (x ∷ xs) out {new = new} a small n m e =
    let (inside, e1) = next_round v flags i x idx xs out e in
    let value = replace_flag (get_or flags i 0) x v in
    let (same, count) = before_indices v flags idx xs (set out i value) i a.0 e1 in
    let m' = length-set out i value in
    let rest =
      replace_from-reads v flags idx xs (set out i value) a.1 small.1 (omega (arith, n)) (m' ∙ m)
        e1 in
    let own : (v == v) ≡ true = ground arith in
    let mine : flag_of v (get_or new i 0) ≡ x =
      ap (flag_of v) (same ∙ get_or-set_self out i value 0 (omega (arith, inside, m)))
      ∙ flag_of-replace_flag (get_or flags i 0) x v v small.0
      ∙ rw own refl in
    let within : ltb i (length new) ≡ true =
      lt→ltb i (length new) (omega (arith, inside, m, m', count)) in
    sees-eq v i idx new
    ∙ ap (sees i (length new) (flag_of v (get_or new i 0))) rest
    ∙ ap (λ (t : ℕ). sees i (length new) t (ok xs)) mine
    ∙ rw within refl

pub length-virtual_sensor_flags :
    (v : ℕ) (loc flags : List ℕ) {seen : List ℕ}
    → virtual_sensor_flags v loc flags ≡ ok seen
    → length seen ≡ length loc
length-virtual_sensor_flags v [] flags e = ap length (sym (ok-injective e))
length-virtual_sensor_flags v (i ∷ loc) flags {seen = seen} e =
    let x = flag_of v (get_or flags i 0) in
    let (inside, e1) =
      if_ok (ltb i (length flags)) (virtual_sensor_flags v loc flags >>= λ rest. ok (x ∷ rest))
        index_error seen (sym (sees-eq v i loc flags) ∙ e) in
    let (rest, sees_rest, done) = >>=-eq-ok (virtual_sensor_flags v loc flags) _ e1 in
    ap length (sym (ok-injective done)) ∙ ap suc (length-virtual_sensor_flags v loc flags sees_rest)
