-- ===== src/MemoryMap/Periph/Zeros.antt =====
-- Fields of memory_map.py over a bus that reads 0 everywhere.
use m.Common.{
  ℕ, zero, suc, ◌+◌, ◌*◌, ◌/◌, ◌^◌, bit_and, bit_or, ◌≡◌, refl, sym, ap, ap₂, ◌∙◌, Bool, true,
  false, ◌==◌, if◌then◌else◌, arith,
}
use mathlib.Core.Path.{subst}
use native.Mathlib.Nat.{zero-div}
use m.Common.Bits.{◌<<◌, low_mask, zero-and, zero-or}
use m.MemoryMap.Bus.{Bus}
use m.MemoryMap.Field.{Field, get_field_value}
use m.MemoryMap.Periph.{
  Periph, Reading, no_words, gather, read_words, word_bytes, word_count, get_field_addr, read_field,
  plain, encapsulated, raw, ReadValue,
}

-- The words that a read gathers are zero.
abbrev AllZero : Reading → Type 0
AllZero r = (r.bits ≡ 0) × (r.uses_encapsulation ≡ false)

gather-AllZero : (p : Periph) (idx : ℕ) (acc : Reading) → AllZero acc → AllZero (gather p idx acc 0)
unfolding gather
gather-AllZero p idx acc h =
    let part : bit_and 0 (low_mask p.word_size) << (idx * p.word_size) ≡ 0 =
      ap (λ (t : ℕ). t * 2 ^ (idx * p.word_size)) (zero-and (low_mask p.word_size)) ∙ omega arith in
    let bits : bit_or acc.bits (bit_and 0 (low_mask p.word_size) << (idx * p.word_size)) ≡ 0 =
      ap₂ bit_or h.0 part ∙ zero-or 0 in
    (bits, rw (bits, h.1) (if_same (idx == 0)))
  where
    if_same : (b : Bool) → (if b then false else false) ≡ false
    if_same true = refl
    if_same false = refl

-- The value that a read makes of what it gathered.
value_of :
    (f : Field) (r : Reading)
    → AllZero r
    → (if r.uses_encapsulation
        then encapsulated (raw (get_field_value f r.bits)) r.rstruct
        else plain (raw (get_field_value f r.bits)))
      ≡ plain (raw 0)
unfolding get_field_value
value_of f r h =
    let shifted : 0 / 2 ^ f.position ≡ 0 = zero-div (2 ^ f.position) in
    rw (h.1, h.0, shifted, zero-and (low_mask f.size)) refl

-- Over a bus that reads 0 everywhere, every field reads 0.
module _ {S : Type 0} (bus : Bus S) (p : Periph)
    (zeros : (a : ℕ) (s : S) → bus.read a s ≡ (0, s)) where
  read_words-AllZero :
      (count idx a : ℕ) (acc : Reading) (s : S)
      → AllZero acc
      → AllZero (read_words bus p count idx a acc s).0
        × ((read_words bus p count idx a acc s).1 ≡ s)
  unfolding read_words
  read_words-AllZero zero idx a acc s h = (h, refl)
  read_words-AllZero (suc count) idx a acc s h =
      subst
        (λ (r : ℕ × S).
          AllZero (read_words bus p count (idx + 1) (a + word_bytes p) (gather p idx acc r.0) r.1).0
          × ((read_words bus p count (idx + 1) (a + word_bytes p) (gather p idx acc r.0) r.1).1
              ≡ s))
        (sym (zeros a s))
        (read_words-AllZero count (idx + 1) (a + word_bytes p) (gather p idx acc 0) s
          (gather-AllZero p idx acc h))

  pub read_field-zero : (f : Field) (s : S) → read_field bus p f false s ≡ (plain (raw 0), s)
  unfolding read_field
  read_field-zero f s =
      let (h, same) =
        read_words-AllZero (word_count p f) 0 (get_field_addr p f) no_words s (refl, refl) in
      ap₂ (λ (v : ReadValue) (t : S). (v, t))
        (value_of f (read_words bus p (word_count p f) 0 (get_field_addr p f) no_words s).0 h) same
