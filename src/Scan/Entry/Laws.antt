-- ===== src/Scan/Entry/Laws.antt =====
-- The words of an entry of the scan table, `ScanEntry.data_words` of
-- cobra_system_control/cobra_system_control/scan_control.py.
use m.Common.{
  ℕ, zero, suc, ◌+◌, ◌%◌, ◌^◌, ◌≡◌, refl, sym, ap, ◌∙◌, inl, inr, Bool-cases, Bool, true, false,
  ◌&&◌, not, List, [], ◌∷◌, ltb, leb, ltb→lt, leb→le, if◌then◌else◌, length, replicate, get_or,
  arith, and_true,
}
use m.Common.All.{All}
use m.Common.Fields.{field}
use mathlib.Core.Path.{subst}
use native.Mathlib.Nat.{zero-div, zero-mod}
use m.Scan.Entry.{
  ScanEntry, Register, same_register, roi_sel_register, memmap, data_words, data_nwords, in_bounds,
  all_in_bounds, place, place_all,
}
use m.Scan.Entry.Words.{
  register_value, Placed, Free, all_apart, place_all_reads, place_all-Words, Word,
}

-- The parameters that the words hold: all but `roi_sel`.
abbrev pub data_only : List (Register × ℕ) → List (Register × ℕ)
data_only [] = []
data_only ((r, v) ∷ ps) =
    if same_register r roi_sel_register then data_only ps else (r, v) ∷ data_only ps

-- Where each register lies.
abbrev well_placed : List (Register × ℕ) → Bool
well_placed [] = true
well_placed ((r, v) ∷ ps) =
    not (same_register r roi_sel_register)
    && (ltb r.offset data_nwords && (leb (r.position + r.size) 32 && well_placed ps))

not-true : (b : Bool) → not b ≡ true → b ≡ false
not-true false h = refl
not-true true h = cc

Placed-from :
    (ps : List (Register × ℕ))
    → well_placed ps ≡ true
    → all_in_bounds ps ≡ true
    → All (Placed data_nwords) ps
Placed-from [] h k = tt
Placed-from ((r, v) ∷ ps) h k =
    let (data_only, rest) =
      and_true (not (same_register r roi_sel_register))
        (ltb r.offset data_nwords && (leb (r.position + r.size) 32 && well_placed ps)) h in
    let (inside, rest') =
      and_true (ltb r.offset data_nwords) (leb (r.position + r.size) 32 && well_placed ps) rest in
    let (narrow, others) = and_true (leb (r.position + r.size) 32) (well_placed ps) rest' in
    let (small, smalls) = and_true (ltb v (2 ^ r.size)) (all_in_bounds ps) k in
    (
      record {
        data_register = not-true (same_register r roi_sel_register) data_only;
        fits = ltb→lt v (2 ^ r.size) small;
        in_words = ltb→lt r.offset data_nwords inside;
        in_width = leb→le (r.position + r.size) 32 narrow;
      },
      Placed-from ps others smalls,
    )

data_only_keeps :
    (r : Register) (v : ℕ) (ps : List (Register × ℕ))
    → same_register r roi_sel_register ≡ false
    → data_only ((r, v) ∷ ps) ≡ (r, v) ∷ data_only ps
data_only_keeps r v ps other = rw other refl

skip_one :
    (r : Register) (v : ℕ) (ps : List (Register × ℕ)) (words : List ℕ)
    → ((ws : List ℕ) → place_all ps ws ≡ place_all (data_only ps) ws)
    → place_all ((r, v) ∷ ps) words ≡ place_all (data_only ((r, v) ∷ ps)) words
skip_one r v ps words rest = elim (Bool-cases (same_register r roi_sel_register)) [
  | inl roi_sel ↦ rw roi_sel (rest words)
  | inr other ↦
      rest (place r v words)
      ∙ sym (ap (λ (t : List (Register × ℕ)). place_all t words) (data_only_keeps r v ps other))
]

skip_roi_sel :
    (ps : List (Register × ℕ)) (words : List ℕ)
    → place_all ps words ≡ place_all (data_only ps) words
skip_roi_sel [] words = refl
skip_roi_sel ((r, v) ∷ ps) words = skip_one r v ps words (skip_roi_sel ps)

data_in_bounds :
    (ps : List (Register × ℕ)) → all_in_bounds ps ≡ true → all_in_bounds (data_only ps) ≡ true
data_in_bounds [] h = refl
data_in_bounds ((r, v) ∷ ps) h =
    let (small, rest) = and_true (ltb v (2 ^ r.size)) (all_in_bounds ps) h in
    elim (Bool-cases (same_register r roi_sel_register)) [
      | inl roi_sel ↦ rw roi_sel (data_in_bounds ps rest)
      | inr other ↦ rw (other, small) (data_in_bounds ps rest)
    ]

zeros_free : (n i : ℕ) → get_or {A = ℕ} (replicate n 0) i 0 ≡ 0
zeros_free zero i = refl
zeros_free (suc n) zero = refl
zeros_free (suc n) (suc i) = zeros_free n i

zeros-Free : (n : ℕ) (ps : List (Register × ℕ)) → Free (replicate n 0) ps
zeros-Free n [] = tt
zeros-Free n ((r, v) ∷ ps) = (
  ap (field r.position r.size) (zeros_free n r.offset) ∙ field_zero r.position r.size,
  zeros-Free n ps,
)
  where
    field_zero : (p s : ℕ) → field p s 0 ≡ 0
    field_zero p s = ap (λ (t : ℕ). t % 2 ^ s) (zero-div (2 ^ p)) ∙ zero-mod (2 ^ s)

zero_words : (n : ℕ) → All Word (replicate n 0)
zero_words zero = tt
zero_words (suc n) = (omega arith, zero_words n)

-- The registers of the class.
registers_placed : (e : ScanEntry) → well_placed (data_only (memmap e)) ≡ true
registers_placed e = refl

registers_apart : (e : ScanEntry) → all_apart (data_only (memmap e)) ≡ true
registers_apart e = refl

module _ (e : ScanEntry) (bounds : in_bounds e ≡ true) where
  All-Placed : All (Placed data_nwords) (data_only (memmap e))
  All-Placed =
      Placed-from (data_only (memmap e)) (registers_placed e) (data_in_bounds (memmap e) bounds)

  words-eq : data_words e ≡ place_all (data_only (memmap e)) (replicate data_nwords 0)
  unfolding data_words
  words-eq = skip_roi_sel (memmap e) (replicate data_nwords 0)

  -- Every parameter of an entry that is in the bounds of its register, all but `roi_sel`, can be read
  -- back at its register from the data words.
  pub register_value-data_words :
      All (λ rv. register_value rv.0 (data_words e) ≡ rv.1) (data_only (memmap e))
  register_value-data_words =
      subst (λ (ws : List ℕ). All (λ rv. register_value rv.0 ws ≡ rv.1) (data_only (memmap e)))
        (sym words-eq)
        (place_all_reads (data_only (memmap e)) (replicate data_nwords 0) All-Placed
          (zeros-Free data_nwords (data_only (memmap e))) (registers_apart e))

  -- An entry whose values are in the bounds of their registers has 16 data words of 32 bits.
  pub data_words-Words : (length (data_words e) ≡ data_nwords) × All Word (data_words e)
  data_words-Words =
      subst (λ (ws : List ℕ). (length ws ≡ data_nwords) × All Word ws) (sym words-eq)
        (place_all-Words (data_only (memmap e)) (replicate data_nwords 0) All-Placed
          (zeros-Free data_nwords (data_only (memmap e))) (registers_apart e)
          (zero_words data_nwords))
