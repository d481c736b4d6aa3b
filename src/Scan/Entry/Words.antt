-- ===== src/Scan/Entry/Words.antt =====
-- Placing values that fit into parts of words that they do not share, as `ScanEntry.data_words` of
-- cobra_system_control/cobra_system_control/scan_control.py does.
use m.Common.{
  ℕ, zero, suc, ◌+◌, ◌^◌, ◌≤◌, ◌<◌, ◌≡◌, ◌≢◌, refl, sym, ap, ◌∙◌, ◌⊎◌, inl, inr, Bool, true, false,
  ◌&&◌, ◌||◌, not, List, [], ◌∷◌, ◌==◌, leb, length, get_or, set, length-set, get_or-set_self,
  get_or-set_ne, arith, and_true,
}
use m.Common.All.{All}
use mathlib.Core.Path.{subst}
use m.Common.Fields.{field, put, field-put, field-put_ne, put-lt, or_free}
use m.Scan.Entry.{Register, same_register, roi_sel_register, place, place_all}

-- What stands at a register.
abbrev pub register_value : Register → List ℕ → ℕ
register_value r words = field r.position r.size (get_or words r.offset 0)

-- Two registers share no bit.
abbrev pub apart : Register → Register → Bool
apart r q =
    not (r.offset == q.offset)
    || leb (r.position + r.size) q.position
    || leb (q.position + q.size) r.position

Apart : Register → Register → Type 0
Apart r q =
    (r.offset ≢ q.offset)
    ⊎ ((r.position + r.size ≤ q.position) ⊎ (q.position + q.size ≤ r.position))

apart-Apart : (r q : Register) → apart r q ≡ true → Apart r q
unfolding Apart
apart-Apart r q h = ground arith

word_cases : (a b : ℕ) → (a ≡ b) ⊎ (a ≢ b)
word_cases a b = ground arith

-- A register of a value in a list of `n` words.
pub record Placed (n : ℕ) (rv : Register × ℕ) : Type 0 where
  pub data_register : same_register rv.0 roi_sel_register ≡ false
  pub fits : rv.1 < 2 ^ rv.0.size
  pub in_words : rv.0.offset < n
  pub in_width : rv.0.position + rv.0.size ≤ 32

module _ (r : Register) (v : ℕ) (words : List ℕ) (placed : Placed (length words) (r, v))
    (free : register_value r words ≡ 0) where
  place-eq :
      place r v words ≡ set words r.offset (put r.position r.size v (get_or words r.offset 0))
  place-eq = rw placed.data_register (
      ap (λ (t : ℕ). set words r.offset t)
        (or_free r.position r.size v (get_or words r.offset 0) placed.fits free))

  place_self : register_value r (place r v words) ≡ v
  place_self =
      ap (register_value r) place-eq
      ∙ ap (field r.position r.size) (
          get_or-set_self words r.offset (put r.position r.size v (get_or words r.offset 0)) 0
            placed.in_words)
      ∙ field-put r.position r.size v (get_or words r.offset 0) placed.fits

  word_other :
      (q : Register)
      → r.offset ≢ q.offset
      → register_value q (place r v words) ≡ register_value q words
  word_other q other =
      ap (register_value q) place-eq
      ∙ ap (field q.position q.size) (
          get_or-set_ne words r.offset q.offset (put r.position r.size v (get_or words r.offset 0))
            0 other)

  word_same :
      (q : Register)
      → r.offset ≡ q.offset
      → (r.position + r.size ≤ q.position) ⊎ (q.position + q.size ≤ r.position)
      → register_value q (place r v words) ≡ register_value q words
  word_same q same disjoint =
      let w = get_or words r.offset 0 in
      let stored = put r.position r.size v w in
      ap (register_value q) place-eq
      ∙ ap (λ (t : ℕ). field q.position q.size (get_or (set words r.offset stored) t 0)) (sym same)
      ∙ ap (field q.position q.size) (get_or-set_self words r.offset stored 0 placed.in_words)
      ∙ field-put_ne r.position r.size q.position q.size v w placed.fits disjoint
      ∙ ap (λ (t : ℕ). field q.position q.size (get_or words t 0)) same

  place_other :
      (q : Register) → Apart r q → register_value q (place r v words) ≡ register_value q words
  unfolding Apart
  place_other q (inl other) = word_other q other
  place_other q (inr disjoint) = elim (word_cases r.offset q.offset) [
    | inl same ↦ word_same q same disjoint
    | inr other ↦ word_other q other
  ]

  length-place : length (place r v words) ≡ length words
  length-place =
      ap length place-eq
      ∙ length-set words r.offset (put r.position r.size v (get_or words r.offset 0))

-- No two registers of a list share a bit.
abbrev pub apart_from : Register → List (Register × ℕ) → Bool
apart_from r [] = true
apart_from r ((q, v) ∷ rest) = apart r q && apart_from r rest

abbrev pub all_apart : List (Register × ℕ) → Bool
all_apart [] = true
all_apart ((r, v) ∷ rest) = apart_from r rest && all_apart rest

Apart-sym : (r q : Register) → Apart r q → Apart q r
unfolding Apart
Apart-sym r q (inl other) = inl (λ e. other (sym e))
Apart-sym r q (inr (inl below)) = inr (inr below)
Apart-sym r q (inr (inr above)) = inr (inl above)

abbrev pub Free : List ℕ → List (Register × ℕ) → Type 0
Free words ps = All (λ rv. register_value rv.0 words ≡ 0) ps

module _ (r : Register) (v : ℕ) (words : List ℕ) (placed : Placed (length words) (r, v))
    (free : register_value r words ≡ 0) where
  still-Free :
      (ps : List (Register × ℕ))
      → apart_from r ps ≡ true
      → Free words ps
      → Free (place r v words) ps
  still-Free [] h k = tt
  still-Free ((q, w) ∷ ps) h k =
      let (this, rest) = and_true (apart r q) (apart_from r ps) h in
      (place_other r v words placed free q (apart-Apart r q this) ∙ k.0, still-Free ps rest k.1)

place_all_keeps :
    (q : Register) (ps : List (Register × ℕ)) (words : List ℕ)
    → All (Placed (length words)) ps
    → Free words ps
    → all_apart ps ≡ true
    → apart_from q ps ≡ true
    → register_value q (place_all ps words) ≡ register_value q words
place_all_keeps q [] words placed free disjoint others = refl
place_all_keeps q ((r, v) ∷ ps) words placed free disjoint others =
    let (this, rest) = and_true (apart_from r ps) (all_apart ps) disjoint in
    let (here, there) = and_true (apart q r) (apart_from q ps) others in
    let n = length-place r v words placed.0 free.0 in
    place_all_keeps q ps (place r v words) (subst (λ (t : ℕ). All (Placed t) ps) (sym n) placed.1)
      (still-Free r v words placed.0 free.0 ps this free.1) rest there
    ∙ place_other r v words placed.0 free.0 q (Apart-sym q r (apart-Apart q r here))

-- What is placed can be read back.
pub place_all_reads :
    (ps : List (Register × ℕ)) (words : List ℕ)
    → All (Placed (length words)) ps
    → Free words ps
    → all_apart ps ≡ true
    → All (λ rv. register_value rv.0 (place_all ps words) ≡ rv.1) ps
place_all_reads [] words placed free disjoint = tt
place_all_reads ((r, v) ∷ ps) words placed free disjoint =
    let (this, rest) = and_true (apart_from r ps) (all_apart ps) disjoint in
    let n = length-place r v words placed.0 free.0 in
    let placed' = subst (λ (t : ℕ). All (Placed t) ps) (sym n) placed.1 in
    let free' = still-Free r v words placed.0 free.0 ps this free.1 in
    (
      place_all_keeps r ps (place r v words) placed' free' rest this
          ∙ place_self r v words placed.0 free.0,
      place_all_reads ps (place r v words) placed' free' rest,
    )

-- Words of 32 bits.
abbrev pub Word : ℕ → Type 0
Word w = w < 2 ^ 32

All-set : (xs : List ℕ) (i v : ℕ) → All Word xs → Word v → All Word (set xs i v)
All-set [] i v h k = tt
All-set (x ∷ xs) zero v h k = (k, h.1)
All-set (x ∷ xs) (suc i) v h k = (h.0, All-set xs i v h.1 k)

All-get_or : (xs : List ℕ) (i : ℕ) → All Word xs → Word (get_or xs i 0)
All-get_or [] i h = omega arith
All-get_or (x ∷ xs) zero h = h.0
All-get_or (x ∷ xs) (suc i) h = All-get_or xs i h.1

pub place_all-Words :
    (ps : List (Register × ℕ)) (words : List ℕ)
    → All (Placed (length words)) ps
    → Free words ps
    → all_apart ps ≡ true
    → All Word words
    → (length (place_all ps words) ≡ length words) × All Word (place_all ps words)
place_all-Words [] words placed free disjoint h = (refl, h)
place_all-Words ((r, v) ∷ ps) words placed free disjoint h =
    let (this, rest) = and_true (apart_from r ps) (all_apart ps) disjoint in
    let n = length-place r v words placed.0 free.0 in
    let placed' = subst (λ (t : ℕ). All (Placed t) ps) (sym n) placed.1 in
    let free' = still-Free r v words placed.0 free.0 ps this free.1 in
    let stored = put r.position r.size v (get_or words r.offset 0) in
    let fits =
      put-lt r.position r.size 32 v (get_or words r.offset 0) placed.0.fits placed.0.in_width
        (All-get_or words r.offset h) in
    let h' =
      subst (λ (t : List ℕ). All Word t) (sym (place-eq r v words placed.0 free.0))
        (All-set words r.offset stored h fits) in
    let (count, each) = place_all-Words ps (place r v words) placed' free' rest h' in
    (count ∙ n, each)
