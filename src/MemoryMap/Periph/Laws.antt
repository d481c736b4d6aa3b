-- ===== src/MemoryMap/Periph/Laws.antt =====
-- What `write_fields` and `read_fields` of memory_map.py promise, for fields that the constructor
-- accepts, over registers that are plain memory.
use m.Common.{ℕ, ◌^◌, ◌≤◌, ◌<◌, ◌≡◌, refl, false, ok, err, value_error}
use m.Common.Int.{pos, negsuc}
use m.MemoryMap.Bus.{Bus, IsMemory}
use m.MemoryMap.Field.{Field, FieldArgs, YamlParams, make_field}
use m.MemoryMap.Field.Laws.{make_field-IsWellFormed, get_field_mask-none, get_field_mask_negative}
use m.MemoryMap.Periph.{
  Periph, word_count, get_field_addr, no_words, store, modify, resolve, number, raw, write_field,
  read_field,
}
use m.MemoryMap.Periph.Words.{read_words-keeps}
use m.MemoryMap.Periph.Access.{
  IsByteWide, FitsIn, IsWellFormed-FitsIn, Apart, mnemonic_of, modify_overflow,
  read_field-write_field_self, read_field-write_field_ne,
}

module _ {S : Type 0} (bus : Bus S) (p : Periph) (mem : IsMemory p.word_size bus)
    (wide : IsByteWide p) (yp : YamlParams) (same : yp.word_size ≡ p.word_size) where
  built-FitsIn : (a : FieldArgs) (f : Field) → make_field yp a ≡ ok f → FitsIn p f
  built-FitsIn a f h = IsWellFormed-FitsIn p yp f wide same (make_field-IsWellFormed yp a f h)

  -- Over registers that are plain memory with words of whole bytes: a value that has no more bits
  -- than a field that the constructor accepted can be written, and reading the field then gives it,
  -- also where the field spans several words.
  pub read_field-write_field :
      (a : FieldArgs) (f : Field)
      → make_field yp a ≡ ok f
      → (v : ℕ) (s : S) → v < 2 ^ f.size
      → ((write_field bus p f (number (pos v)) s).0 ≡ ok tt)
        × (mnemonic_of (read_field bus p f false (write_field bus p f (number (pos v)) s).1).0
            ≡ raw v)
  read_field-write_field a f h v s fits =
      read_field-write_field_self bus p mem wide f v s fits (built-FitsIn a f h)

  -- Over the same registers: writing a value that fits into one accepted field changes what no
  -- other accepted field reads, where the words of the two lie apart, or the two have the very same
  -- words and lie apart in them.
  pub read_field-write_field_other :
      (a b : FieldArgs) (f g : Field)
      → make_field yp a ≡ ok f
      → make_field yp b ≡ ok g
      → Apart p f g
      → (v : ℕ) (s : S) → v < 2 ^ f.size
      → mnemonic_of (read_field bus p g false (write_field bus p f (number (pos v)) s).1).0
        ≡ mnemonic_of (read_field bus p g false s).0
  read_field-write_field_other a b f g hf hg apart v s fits =
      read_field-write_field_ne bus p mem wide f v s fits (built-FitsIn a f hf) g
        (built-FitsIn b g hg) apart

module _ {S : Type 0} (bus : Bus S) (p : Periph) (mem : IsMemory p.word_size bus) where
  -- Over registers that are plain memory: a value with more bits than the field, or a negative
  -- one, raises `ValueError`, and nothing is written.
  pub write_field_overflow :
      (f : Field) (v : ℕ) (s : S)
      → (2 ^ f.size ≤ v → write_field bus p f (number (pos v)) s ≡ (err value_error, s))
        × (write_field bus p f (number (negsuc v)) s ≡ (err value_error, s))
  unfolding write_field store
  write_field_overflow f v s =
      let keeps = read_words-keeps bus p mem (word_count p f) 0 (get_field_addr p f) no_words s in
      (
        λ h. rw (modify_overflow f v _ h, keeps) refl,
        unfold modify resolve in
            rw (get_field_mask-none f, get_field_mask_negative f v, keeps) refl,
      )
