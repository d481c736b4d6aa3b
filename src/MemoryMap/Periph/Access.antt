-- ===== src/MemoryMap/Periph/Access.antt =====
-- Writing and reading fields of memory_map.py, over registers that are plain memory.
use m.Common.{
  ℕ, zero, suc, ◌+◌, ◌*◌, ◌/◌, ◌%◌, ◌^◌, ◌≤◌, ◌<◌, ◌≡◌, refl, ap, ap₂, sym, ◌∙◌, ◌⊎◌, inl, inr,
  false, arith, ok, err, value_error,
}
use m.Common.Bits.{pow-pos}
use m.Common.Fields.{field, put, put_bits, field-put, field-put_ne, field-mod}
use m.Common.Int.{pos}
use m.MemoryMap.Bus.{Bus, IsMemory}
use m.MemoryMap.Field.{Field, YamlParams, n_bytes, ceil_div}
use m.MemoryMap.Field.Laws.{
  IsWellFormed, get_field_mask-none, get_field_mask-fits, get_field_mask-overflow,
  get_field_value-eq-field,
}
use m.MemoryMap.Periph.{
  Periph, word_bytes, word_count, store, get_field_addr, no_words, read_words, write_words, modify,
  resolve, number, ReadValue, plain, encapsulated, Mnemonic, raw, write_field, read_field,
}
use m.MemoryMap.Periph.Words.{
  words_value, read_words-keeps, read_words-value, words_value-write_words,
  words_value-write_words_ne,
}

-- What a read gives, without the structure of the callback.
abbrev pub mnemonic_of : ReadValue → Mnemonic
mnemonic_of (plain m) = m
mnemonic_of (encapsulated m rstruct) = m

-- Words of whole bytes, and fields that were built for them.
pub record IsByteWide (p : Periph) : Type 0 where
  pub bytes : p.word_size ≡ 8 * word_bytes p
  pub some_bytes : 0 < word_bytes p

abbrev pub FitsIn : Periph → Field → Type 0
FitsIn p f = f.position + f.size ≤ word_count p f * p.word_size

ceil_div-mul : (a b : ℕ) → 0 < b → a ≤ ceil_div a b * b
ceil_div-mul a b h = grind arith

cover : (size y b n w : ℕ) → size ≤ y * 8 → y ≤ n * b → w ≡ 8 * b → size ≤ n * w
cover size y b n w h k e =
    let step : y * 8 ≤ n * b * 8 = omega arith in omega (arith, step, ap (λ (t : ℕ). n * t) e)

nonzero : (n size w : ℕ) → 1 ≤ size → size ≤ n * w → 1 ≤ n
nonzero zero size w h k = absurd (omega arith)
nonzero (suc n) size w h k = omega arith

one_word : (x n w : ℕ) → x ≤ w → 1 ≤ n → x ≤ n * w
one_word x n w h k = grind arith

-- The words that are read and written for a well-formed field hold all its bits.
pub IsWellFormed-FitsIn :
    (p : Periph) (yp : YamlParams) (f : Field)
    → IsByteWide p
    → yp.word_size ≡ p.word_size
    → IsWellFormed yp f
    → FitsIn p f
IsWellFormed-FitsIn p yp f wide same wf =
    let n = word_count p f in
    let bits : f.size ≤ n * p.word_size =
      cover f.size (n_bytes f) (word_bytes p) n p.word_size (ceil_div-mul f.size 8 (omega arith))
        (ceil_div-mul (n_bytes f) (word_bytes p) wide.some_bytes) wide.bytes in
    let some_word : 1 ≤ n = nonzero n f.size p.word_size wf.nonempty bits in
    elim wf.fits [
      | inl h ↦ one_word (f.position + f.size) n p.word_size (omega (arith, same)) some_word
      | inr (h, _) ↦ omega arith
    ]

modify-eq-put :
    (f : Field) (v bits : ℕ)
    → v < 2 ^ f.size
    → modify f (number (pos v)) bits ≡ ok (put f.position f.size v bits)
unfolding modify resolve
modify-eq-put f v bits h =
    rw (get_field_mask-none f, get_field_mask-fits f v h)
      (ap ok (put_bits f.position f.size v bits h))

pub modify_overflow :
    (f : Field) (v bits : ℕ) → 2 ^ f.size ≤ v → modify f (number (pos v)) bits ≡ err value_error
unfolding modify resolve
modify_overflow f v bits h = rw (get_field_mask-none f, get_field_mask-overflow f v h) refl

module _ {S : Type 0} (bus : Bus S) (p : Periph) (mem : IsMemory p.word_size bus) where
  abbrev base : Field → S → ℕ
  base f s = words_value bus p (word_count p f) (get_field_addr p f) s

  gathered-eq :
      (f : Field) (s : S)
      → (read_words bus p (word_count p f) 0 (get_field_addr p f) no_words s).0.bits ≡ base f s
  gathered-eq f s =
      let e : 0 * p.word_size ≡ 0 = omega arith in
      omega (
        arith,
        read_words-value bus p mem (word_count p f) 0 (get_field_addr p f) no_words s
            (pow-pos (0 * p.word_size)),
        ap (λ (t : ℕ). base f s * 2 ^ t) e,
      )

  write_field-eq :
      (f : Field) (v : ℕ) (s : S)
      → v < 2 ^ f.size
      → write_field bus p f (number (pos v)) s ≡ (
        ok tt,
        write_words bus p
            (word_count p f)
            0
            (get_field_addr p f)
            (put f.position f.size v (base f s))
            s,
      )
  unfolding write_field store
  write_field-eq f v s h =
      rw
        (
          gathered-eq f s,
          modify-eq-put f v (base f s) h,
          read_words-keeps bus p mem (word_count p f) 0 (get_field_addr p f) no_words s,
        )
        refl

  read_field-eq :
      (f : Field) (s : S)
      → mnemonic_of (read_field bus p f false s).0 ≡ raw (field f.position f.size (base f s))
  unfolding read_field
  read_field-eq f s = ground (arith, gathered-eq f s, get_field_value-eq-field f (base f s))

-- Two fields whose words lie apart, or that have the very same words and lie apart in them.
pub data Apart (p : Periph) (f g : Field) : Type 0 where
  before : get_field_addr p g + word_count p g * word_bytes p ≤ get_field_addr p f → Apart p f g
  after : get_field_addr p f + word_count p f * word_bytes p ≤ get_field_addr p g → Apart p f g
  in_word :
      get_field_addr p g ≡ get_field_addr p f
      → word_count p g ≡ word_count p f
      → (f.position + f.size ≤ g.position) ⊎ (g.position + g.size ≤ f.position)
      → Apart p f g

module _ {S : Type 0} (bus : Bus S) (p : Periph) (mem : IsMemory p.word_size bus)
    (wide : IsByteWide p) (f : Field) (v : ℕ) (s : S) (v_fits : v < 2 ^ f.size)
    (fits : FitsIn p f) where
  written : S
  written =
      write_words bus p (word_count p f) 0 (get_field_addr p f)
        (put f.position f.size v (base bus p mem f s)) s

  -- The bits of the words of `f` after the write.
  base-written :
      words_value bus p (word_count p f) (get_field_addr p f) written
      ≡ put f.position f.size v (base bus p mem f s) % 2 ^ (word_count p f * p.word_size)
  unfolding written
  base-written =
      let bits = put f.position f.size v (base bus p mem f s) in
      let e : 0 * p.word_size ≡ 0 = omega arith in
      let whole : bits / 2 ^ (0 * p.word_size) ≡ bits =
        omega (arith, ap (λ (t : ℕ). bits / 2 ^ t) e) in
      words_value-write_words bus p mem (word_count p f) 0 (get_field_addr p f) bits s
        wide.some_bytes
      ∙ ap (λ (t : ℕ). t % 2 ^ (word_count p f * p.word_size)) whole

  pub read_field-write_field_self :
      ((write_field bus p f (number (pos v)) s).0 ≡ ok tt)
      × (mnemonic_of (read_field bus p f false (write_field bus p f (number (pos v)) s).1).0
          ≡ raw v)
  unfolding written
  read_field-write_field_self =
      rw (write_field-eq bus p mem f v s v_fits)
        (refl, read_field-eq bus p mem f written ∙ ap raw field-written)
    where
      field-written : field f.position f.size (base bus p mem f written) ≡ v
      field-written =
          ap (λ (t : ℕ). field f.position f.size t) base-written
          ∙ field-mod f.position f.size (word_count p f * p.word_size) _ fits
          ∙ field-put f.position f.size v (base bus p mem f s) v_fits

  field-written_ne :
      (g : Field)
      → FitsIn p g
      → Apart p f g
      → field g.position g.size (base bus p mem g written)
        ≡ field g.position g.size (base bus p mem g s)
  field-written_ne g fits_g (before h) =
      ap (λ (t : ℕ). field g.position g.size t)
        (unfold written in
          words_value-write_words_ne bus p mem (word_count p g) (get_field_addr p g)
            (word_count p f) 0 (get_field_addr p f) _ s (inl h) wide.some_bytes)
  field-written_ne g fits_g (after h) =
      ap (λ (t : ℕ). field g.position g.size t)
        (unfold written in
          words_value-write_words_ne bus p mem (word_count p g) (get_field_addr p g)
            (word_count p f) 0 (get_field_addr p f) _ s (inr h) wide.some_bytes)
  field-written_ne g fits_g (in_word same one apart) =
      let bits = base bus p mem f s in
      let k = word_count p f * p.word_size in
      ap (λ (t : ℕ). field g.position g.size t)
        (ap₂ (λ (n a : ℕ). words_value bus p n a written) one same ∙ base-written)
      ∙ field-mod g.position g.size k _ (rw (← one) fits_g)
      ∙ field-put_ne f.position f.size g.position g.size v bits v_fits apart
      ∙ ap (λ (t : ℕ). field g.position g.size t)
          (ap₂ (λ (n a : ℕ). words_value bus p n a s) (sym one) (sym same))

  pub read_field-write_field_ne :
      (g : Field)
      → FitsIn p g
      → Apart p f g
      → mnemonic_of (read_field bus p g false (write_field bus p f (number (pos v)) s).1).0
        ≡ mnemonic_of (read_field bus p g false s).0
  unfolding written
  read_field-write_field_ne g fits_g apart = rw (write_field-eq bus p mem f v s v_fits) (
      read_field-eq bus p mem g written
      ∙ ap raw (field-written_ne g fits_g apart)
      ∙ sym (read_field-eq bus p mem g s))
