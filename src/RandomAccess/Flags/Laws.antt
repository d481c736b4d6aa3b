-- ===== src/RandomAccess/Flags/Laws.antt =====
-- Changing the flags of one virtual sensor, as `flag_equalizer` of
-- cobra_system_control/cobra_system_control/random_access_scanning.py does.
use m.Common.{
  ℕ, zero, suc, ◌+◌, ◌*◌, ◌/◌, ◌^◌, ◌≤◌, ◌<◌, ◌≡◌, ◌≢◌, refl, sym, ap, ap₂, ◌∙◌, ◌⊎◌, inl, inr,
  Bool, true, false, List, [], ◌∷◌, map, ◌==◌, ltb, ltb→lt, if◌then◌else◌, length, length-set,
  get_or, get_or-set_self, get_or-set_ne, set, replicate, Result, ok, err, ◌>>=◌, >>=-eq-ok,
  ok-injective, index_error, arith, Bool-cases, equal_cases,
}
use mathlib.Core.Path.{subst}
use m.Common.All.{All}
use m.Common.Bits.{and_mask}
use m.Common.Fields.{field, put, field-put, field-put_ne, put_bits}
use m.RandomAccess.Flags.{
  flag_of, replace_flag, pick, replace_from, replace_at, replace_all, virtual_sensor_flags,
}

flag_of-field : (v flag : ℕ) → flag_of v flag ≡ field (4 * v) 4 flag
flag_of-field v flag = and_mask 4 (flag / 2 ^ (4 * v))

replace_flag-put : (flag n v : ℕ) → n < 2 ^ 4 → replace_flag flag n v ≡ put (4 * v) 4 n flag
unfolding replace_flag
replace_flag-put flag n v h = put_bits (4 * v) 4 n flag h

-- Replacing the flag of a virtual sensor gives that sensor the new flag, and every other sensor
-- keeps its own.
pub flag_of-replace_flag :
    (flag n v w : ℕ)
    → n < 2 ^ 4
    → flag_of w (replace_flag flag n v) ≡ (if v == w then n else flag_of w flag)
flag_of-replace_flag flag n v w h = elim (equal_cases v w) [
  | inl e ↦
      let t : (v == w) ≡ true = ground arith in
      rw t (
        flag_of-field w (replace_flag flag n v)
        ∙ ap (field (4 * w) 4) (replace_flag-put flag n v h)
        ∙ ap (λ (u : ℕ). field (4 * u) 4 (put (4 * v) 4 n flag)) (sym e)
        ∙ field-put (4 * v) 4 n flag h)
  | inr other ↦
      let t : (v == w) ≡ false = ground arith in
      let apart : (4 * v + 4 ≤ 4 * w) ⊎ (4 * w + 4 ≤ 4 * v) = omega (arith, other) in
      rw t (
        flag_of-field w (replace_flag flag n v)
        ∙ ap (field (4 * w) 4) (replace_flag-put flag n v h)
        ∙ field-put_ne (4 * v) 4 (4 * w) 4 n flag h apart
        ∙ sym (flag_of-field w flag))
]

kept_flag :
    (flag n v w : ℕ) → n < 2 ^ 4 → w ≢ v → flag_of w (replace_flag flag n v) ≡ flag_of w flag
kept_flag flag n v w h other =
    let t : (v == w) ≡ false = ground arith in flag_of-replace_flag flag n v w h ∙ rw t refl

-- Only the flags of the virtual sensor `v` have changed.
pub record Touches (v : ℕ) (flags out : List ℕ) : Type 0 where
  pub count : length out ≡ length flags
  pub others : (w i : ℕ) → w ≢ v → flag_of w (get_or out i 0) ≡ flag_of w (get_or flags i 0)

pub Touches-refl : (v : ℕ) (flags : List ℕ) → Touches v flags flags
Touches-refl v flags = record { count = refl; others = λ w i other. refl }

pub Touches-trans : (v : ℕ) {a b c : List ℕ} → Touches v a b → Touches v b c → Touches v a c
Touches-trans v p q = record {
  count = q.count ∙ p.count;
  others = λ w i other. q.others w i other ∙ p.others w i other;
}

-- One more entry is written.
Touches-set :
    (v i n : ℕ) (flags out : List ℕ)
    → n < 2 ^ 4
    → i < length flags
    → Touches v flags out
    → Touches v flags (set out i (replace_flag (get_or flags i 0) n v))
Touches-set v i n flags out hn hi t = record {
  count = length-set out i (replace_flag (get_or flags i 0) n v) ∙ t.count;
  others = λ w j other. elim (equal_cases i j) [
    | inl e ↦
        ap (λ (t : ℕ). flag_of w (get_or (set out i (replace_flag (get_or flags i 0) n v)) t 0))
          (sym e)
        ∙ ap (flag_of w) (
            get_or-set_self out i (replace_flag (get_or flags i 0) n v) 0
              (omega (arith, hi, t.count)))
        ∙ kept_flag (get_or flags i 0) n v w hn other
        ∙ ap (λ (t : ℕ). flag_of w (get_or flags t 0)) e
    | inr ne ↦
        ap (flag_of w) (get_or-set_ne out i j (replace_flag (get_or flags i 0) n v) 0 ne)
        ∙ t.others w j other
  ];
}

replace_from-Touches :
    (v : ℕ) (flags idx news out : List ℕ) {new : List ℕ}
    → All (λ n. n < 2 ^ 4) news
    → Touches v flags out
    → replace_from v flags idx news out ≡ ok new
    → Touches v flags new
replace_from-Touches v flags [] news out small t e = subst (Touches v flags) (ok-injective e) t
replace_from-Touches v flags (i ∷ idx) [] out small t e = cc
replace_from-Touches v flags (i ∷ idx) (n ∷ news) out small t e =
    elim (Bool-cases (ltb i (length flags))) [
      | inl inside ↦
          replace_from-Touches v flags idx news (set out i (replace_flag (get_or flags i 0) n v))
            small.1 (Touches-set v i n flags out small.0 (ltb→lt i (length flags) inside) t)
            (sym (taken inside) ∙ e)
      | inr outside ↦
          let refused : replace_from v flags (i ∷ idx) (n ∷ news) out ≡ err index_error =
            rw outside refl in
          cc
    ]
  where
    taken :
        ltb i (length flags) ≡ true
        → replace_from v flags (i ∷ idx) (n ∷ news) out
          ≡ replace_from v flags idx news (set out i (replace_flag (get_or flags i 0) n v))
    taken inside = rw inside refl

pub replace_at-Touches :
    (v : ℕ) (idx news flags : List ℕ) {new : List ℕ}
    → All (λ n. n < 2 ^ 4) news
    → replace_at v idx news flags ≡ ok new
    → Touches v flags new
replace_at-Touches v idx news flags small e =
    replace_from-Touches v flags idx news flags small (Touches-refl v flags) e

All-replicate : (n k : ℕ) → n < 2 ^ 4 → All (λ x. x < 2 ^ 4) (replicate k n)
All-replicate n zero h = tt
All-replicate n (suc k) h = (h, All-replicate n k h)

pub replace_all-Touches :
    (v : ℕ) (idx : List ℕ) (n : ℕ) (flags : List ℕ) {new : List ℕ}
    → n < 2 ^ 4
    → replace_all v idx n flags ≡ ok new
    → Touches v flags new
replace_all-Touches v idx n flags h e =
    replace_at-Touches v idx (replicate (length idx) n) flags (All-replicate n (length idx) h) e

-- What a sensor sees at one entry more.
abbrev pub sees : ℕ → ℕ → ℕ → Result (List ℕ) → Result (List ℕ)
sees i n x rest = if ltb i n then (rest >>= λ seen. ok (x ∷ seen)) else err index_error

pub sees-eq :
    (w i : ℕ) (loc flags : List ℕ)
    → virtual_sensor_flags w (i ∷ loc) flags
      ≡ sees i (length flags) (flag_of w (get_or flags i 0)) (virtual_sensor_flags w loc flags)
sees-eq w i loc flags = by_cases (ltb i (length flags)) (pick flags loc)
  where
    by_cases :
        (inside : Bool) (picked : Result (List ℕ))
        → ((if inside then (picked >>= λ rest. ok (get_or flags i 0 ∷ rest)) else err index_error)
            >>= λ fs. ok (map (flag_of w) fs))
          ≡ (if inside
              then ((picked >>= λ fs. ok (map (flag_of w) fs)) >>= λ seen.
                  ok (flag_of w (get_or flags i 0) ∷ seen))
              else err index_error)
    by_cases true (ok picked) = refl
    by_cases true (err e) = refl
    by_cases false picked = refl

-- The flags of the virtual sensor `w` are as they were.
pub record Keeps (w : ℕ) (flags out : List ℕ) : Type 0 where
  pub count : length out ≡ length flags
  pub same : (i : ℕ) → flag_of w (get_or out i 0) ≡ flag_of w (get_or flags i 0)

pub Touches-Keeps : (v w : ℕ) {flags out : List ℕ} → w ≢ v → Touches v flags out → Keeps w flags out
Touches-Keeps v w other t = record { count = t.count; same = λ i. t.others w i other }

-- What a sensor sees of flags that were changed for others.
pub virtual_sensor_flags-Keeps :
    (w : ℕ) (loc : List ℕ) {flags out : List ℕ}
    → Keeps w flags out
    → virtual_sensor_flags w loc out ≡ virtual_sensor_flags w loc flags
virtual_sensor_flags-Keeps w [] k = refl
virtual_sensor_flags-Keeps w (i ∷ loc) {flags = flags} {out = out} k =
    sees-eq w i loc out
    ∙ ap (λ (n : ℕ). sees i n (flag_of w (get_or out i 0)) (virtual_sensor_flags w loc out)) k.count
    ∙ ap₂ (sees i (length flags)) (k.same i) (virtual_sensor_flags-Keeps w loc k)
    ∙ sym (sees-eq w i loc flags)

flags-lt : (v : ℕ) (fs : List ℕ) → All (λ n. n < 2 ^ 4) (map (flag_of v) fs)
flags-lt v [] = tt
flags-lt v (f ∷ fs) = (omega (arith, flag_of-field v f), flags-lt v fs)

-- The flags that are seen are flags.
pub virtual_sensor_flags-lt :
    (v : ℕ) (loc flags : List ℕ) {seen : List ℕ}
    → virtual_sensor_flags v loc flags ≡ ok seen
    → All (λ n. n < 2 ^ 4) seen
virtual_sensor_flags-lt v loc flags e =
    let (fs, picked, seen) = >>=-eq-ok (pick flags loc) (λ fs. ok (map (flag_of v) fs)) e in
    subst (All (λ n. n < 2 ^ 4)) (ok-injective seen) (flags-lt v fs)
