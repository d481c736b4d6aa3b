-- ===== src/Scan/Table/Accepted.antt =====
-- Which entries `ScanTable` of cobra_system_control/cobra_system_control/scan_control.py accepts.
use m.Common.{
  ℕ, suc, ◌+◌, ◌-◌, ◌^◌, ◌≤◌, ◌<◌, ◌≡◌, refl, sym, ap, ap₂, ◌∙◌, ◌↔◌, Bool, ◌&&◌, List, [], ◌∷◌,
  map, leb, ltb, if◌then◌else◌, length, ok, ◌>>=◌, arith, >>=-eq-ok, ok-injective, if_ok,
  value_error, leb→le,
}
use mathlib.Core.Path.{subst}
use m.Scan.Entry.{ScanEntry, roi_sel_register}
use m.Scan.Table.{
  ScanTable, sorted_roi_sel, contiguous_roi_sel, list_eq, last, make_table, check_contiguous,
  set_ptr,
}
use m.Scan.Table.Laws.{
  count, count-sorted_roi_sel, sorted_roi_sel-Sorted, count-contiguous_roi_sel, Sorted-unique,
  contiguous_roi_sel-Sorted, last-contiguous_roi_sel, length-contiguous_roi_sel, list_eq→eq,
  list_eq_self,
}

abbrev pub roi_sels : List ScanEntry → List ℕ
roi_sels entries = map (λ e. e.roi_sel) entries

-- Each `roi_sel` from `a` to `b` stands in one entry, and no other does.
abbrev pub EachOnce : ℕ → ℕ → List ScanEntry → Type 0
EachOnce a b entries = (k : ℕ) → count k (roi_sels entries) ≡ (if leb a k && leb k b then 1 else 0)

abbrev table_of : List ScanEntry → ℕ → ℕ → ScanTable
table_of entries a b = record { scan_entries = entries; first_ptr = a; last_ptr = b }

set_ptr-ok : (v p : ℕ) → set_ptr v ≡ ok p → (v ≡ p) × (v ≤ 511)
set_ptr-ok v p h =
    let (below, e) = if_ok (leb v 511) (ok v) value_error p h in
    (ok-injective e, leb→le v 511 below)

set_ptr-fits : (v : ℕ) → v ≤ 511 → set_ptr v ≡ ok v
set_ptr-fits v h = ground arith

record FromRange (entries : List ScanEntry) (xs : List ℕ) (t : ScanTable) : Type 0 where
  in_order : xs ≡ contiguous_roi_sel t.first_ptr (suc (t.last_ptr - t.first_ptr))
  ordered : t.first_ptr ≤ t.last_ptr
  fits : t.last_ptr ≤ 511
  keeps : t.scan_entries ≡ entries

-- The table that a sorted list of pointers gives.
accepted_range :
    (entries : List ScanEntry) (xs : List ℕ) (t : ScanTable)
    → check_contiguous entries xs ≡ ok t
    → FromRange entries xs t
accepted_range entries [] t h = cc
accepted_range entries (x ∷ xs) t h =
    let n = length xs in
    let (contiguous, set) =
      if_ok (list_eq (contiguous_roi_sel x (suc n)) (x ∷ xs))
        (set_ptr x >>= λ a. set_ptr (last x xs) >>= λ b. ok (table_of entries a b)) value_error t
        h in
    let e : contiguous_roi_sel x (suc n) ≡ x ∷ xs =
      list_eq→eq (contiguous_roi_sel x (suc n)) (x ∷ xs) contiguous in
    let (a, first, then_last) =
      >>=-eq-ok (set_ptr x) (λ a. set_ptr (last x xs) >>= λ b. ok (table_of entries a b)) set in
    let (b, end, finished) =
      >>=-eq-ok (set_ptr (last x xs)) (λ b. ok (table_of entries a b)) then_last in
    let (first_eq, first_fits) = set_ptr-ok x a first in
    let (last_eq, last_fits) = set_ptr-ok (last x xs) b end in
    let t_eq : table_of entries a b ≡ t = ok-injective finished in
    let last_sum : last x xs ≡ x + n = sym (ap last_of e) ∙ last-contiguous_roi_sel x n in
    let size : suc n ≡ suc (b - a) = omega (arith, first_eq, last_eq, last_sum) in
    subst (λ (t : ScanTable). FromRange entries (x ∷ xs) t) t_eq
      (record {
        in_order = sym e ∙ ap₂ contiguous_roi_sel first_eq size;
        ordered = omega (arith, first_eq, last_eq, last_sum);
        fits = omega (arith, last_eq, last_fits);
        keeps = refl;
      })
  where
    last_of : List ℕ → ℕ
    last_of [] = 0
    last_of (y ∷ ys) = last y ys

check_range :
    (entries : List ScanEntry) (a n : ℕ)
    → a + n ≤ 511
    → check_contiguous entries (contiguous_roi_sel a (suc n)) ≡ ok (table_of entries a (a + n))
check_range entries a n h =
    rw
      (
        length-contiguous_roi_sel (a + 1) n,
        list_eq_self (contiguous_roi_sel a (suc n)),
        last-contiguous_roi_sel a n,
        set_ptr-fits a (omega (arith, h)),
        set_ptr-fits (a + n) h,
      )
      refl

-- The entries lie side by side from `a` to `b`, in whatever order they come.
pub record Contiguous (entries : List ScanEntry) (a b : ℕ) : Type 0 where
  pub each_once : EachOnce a b entries
  pub ordered : a ≤ b
  pub fits : b < 2 ^ roi_sel_register.size

between : (k a b : ℕ) → a ≤ b → (leb a k && ltb k (a + suc (b - a))) ≡ (leb a k && leb k b)
between k a b h = ground arith

pub accepted-Contiguous :
    (entries : List ScanEntry) (t : ScanTable)
    → make_table entries ≡ ok t
    → Contiguous entries t.first_ptr t.last_ptr × (t.scan_entries ≡ entries)
unfolding make_table
accepted-Contiguous entries t h =
    let r = accepted_range entries (sorted_roi_sel (roi_sels entries)) t h in
    (
      record {
        each_once = λ k.
            sym (count-sorted_roi_sel k (roi_sels entries))
            ∙ ap (count k) r.in_order
            ∙ count-contiguous_roi_sel k t.first_ptr (suc (t.last_ptr - t.first_ptr))
            ∙ ap {B = ℕ} (λ (b : Bool). if b then 1 else 0)
                (between k t.first_ptr t.last_ptr r.ordered);
        ordered = r.ordered;
        fits = omega (arith, r.fits);
      },
      r.keeps,
    )

Contiguous-accepted :
    (entries : List ScanEntry) (a b : ℕ)
    → Contiguous entries a b
    → make_table entries ≡ ok (table_of entries a b)
unfolding make_table
Contiguous-accepted entries a b c =
    let n = b - a in
    let e : sorted_roi_sel (roi_sels entries) ≡ contiguous_roi_sel a (suc n) =
      Sorted-unique (sorted_roi_sel (roi_sels entries)) (contiguous_roi_sel a (suc n))
        (sorted_roi_sel-Sorted (roi_sels entries)) (contiguous_roi_sel-Sorted a (suc n))
        (λ k.
          count-sorted_roi_sel k (roi_sels entries)
          ∙ c.each_once k
          ∙ ap {B = ℕ} (λ (t : Bool). if t then 1 else 0) (sym (between k a b c.ordered))
          ∙ sym (count-contiguous_roi_sel k a (suc n))) in
    let end : a + n ≡ b = omega (arith, c.ordered) in
    ap (check_contiguous entries) e
    ∙ check_range entries a n (omega (arith, end, c.fits))
    ∙ ap (λ (t : ℕ). ok (table_of entries a t)) end

-- The table is made, with the pointers `a` and `b`, exactly when each roi_sel from `a` to `b` stands
-- in one entry, no other does, and `b` fits the register; the order of the entries does not matter.
pub make_table_iff :
    (entries : List ScanEntry) (a b : ℕ)
    → (make_table entries ≡ ok (record { scan_entries = entries; first_ptr = a; last_ptr = b }))
      ↔ Contiguous entries a b
make_table_iff entries a b =
    (λ h. (accepted-Contiguous entries (table_of entries a b) h).0, Contiguous-accepted entries a b)
