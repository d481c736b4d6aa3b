-- ===== src/Scan/Table.antt =====
-- `ScanTable` of cobra_system_control/cobra_system_control/scan_control.py: the entries that the scan
-- controller runs through, which must lie side by side in its memory.
pub mod Laws
pub mod Accepted
use m.Common.{
  ℕ, zero, suc, ◌+◌, ◌-◌, ◌^◌, Bool, true, false, ◌&&◌, List, [], ◌∷◌, map, ◌==◌, leb,
  if◌then◌else◌, length, Result, ok, err, ◌>>=◌, index_error, value_error,
}
use m.Scan.Entry.{ScanEntry, Register, roi_sel_register}

pub record ScanTable : Type 0 where
  pub scan_entries : List ScanEntry
  pub first_ptr : ℕ
  pub last_ptr : ℕ

-- `sorted` on integers.
abbrev pub insert : ℕ → List ℕ → List ℕ
insert x [] = x ∷ []
insert x (y ∷ ys) = let rest = insert x ys in if leb x y then x ∷ y ∷ ys else y ∷ rest

unfoldable pub sorted_roi_sel : List ℕ → List ℕ
sorted_roi_sel [] = []
sorted_roi_sel (x ∷ xs) = insert x (sorted_roi_sel xs)

-- `list(range(a, a + n))`
abbrev pub contiguous_roi_sel : ℕ → ℕ → List ℕ
contiguous_roi_sel a zero = []
contiguous_roi_sel a (suc n) = a ∷ contiguous_roi_sel (a + 1) n

-- `==` of lists of integers.
abbrev pub list_eq : List ℕ → List ℕ → Bool
list_eq [] [] = true
list_eq [] (y ∷ ys) = false
list_eq (x ∷ xs) [] = false
list_eq (x ∷ xs) (y ∷ ys) = (x == y) && list_eq xs ys

-- `xs[-1]` of a list that begins with `x`.
abbrev pub last : ℕ → List ℕ → ℕ
last x [] = x
last x (y ∷ ys) = last y ys

-- The descriptor `BoundedNumber(0, 2 ** ScanEntry.roi_sel.size - 1)` of a pointer.
abbrev pub set_ptr : ℕ → Result ℕ
set_ptr value = if leb value (2 ^ roi_sel_register.size - 1) then ok value else err value_error

-- `__post_init__`
abbrev pub check_contiguous : List ScanEntry → List ℕ → Result ScanTable
check_contiguous entries [] = err index_error
check_contiguous entries (first ∷ rest) =
    if list_eq (contiguous_roi_sel first (length (first ∷ rest))) (first ∷ rest)
    then (set_ptr first >>= λ first_ptr. set_ptr (last first rest) >>= λ last_ptr.
        ok (record { scan_entries = entries; first_ptr = first_ptr; last_ptr = last_ptr }))
    else err value_error

unfoldable pub make_table : List ScanEntry → Result ScanTable
make_table entries = check_contiguous entries (sorted_roi_sel (map (λ e. e.roi_sel) entries))

-- `valid_ptr_range`
abbrev pub valid_ptr_range : ScanTable → ℕ × ℕ
valid_ptr_range t = (t.first_ptr, t.last_ptr)
