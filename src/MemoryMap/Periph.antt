-- ===== src/MemoryMap/Periph.antt =====
-- `MemoryMapPeriph` of cobra_system_control/cobra_system_control/memory_map.py: reading and writing
-- the fields of a peripheral through its callbacks. The callback for the data of a read is the
-- identity, as `Device.connect` registers it.
pub mod Words
pub mod Access
pub mod Laws
pub mod Zeros
use Prim.Native.String.{String}
use text.Mathlib.Text.{◌==◌ as str_eq}
use m.Common.{
  ℕ, zero, suc, ◌+◌, ◌-◌, ◌*◌, ◌/◌, ◌^◌, bit_and, bit_or, Bool, true, false, not, Option, none,
  some, List, [], ◌∷◌, ◌==◌, if◌then◌else◌, Result, ok, err, ◌>>=◌, key_error, type_error,
}
use m.Common.Bits.{◌<<◌, ◌>>>◌, low_mask, bit_andnot}
use m.Common.Int.{ℤ, pos, negsuc}
use m.MemoryMap.Bus.{Bus}
use m.MemoryMap.Field.{Field, n_bytes, ceil_div, get_field_mask, get_field_value}

pub record Periph : Type 0 where
  pub addr_base : ℕ
  pub word_size : ℕ
  pub fields : List (String × Field)

abbrev pub word_bytes : Periph → ℕ
word_bytes p = p.word_size / 8

-- `dict.get`
module _ {ℓ} {V : Type ℓ} where
  unfoldable pub lookup : String → List (String × V) → Option V
  lookup k [] = none
  lookup k ((j, v) ∷ d) = if str_eq j k then some v else lookup k d

-- The argument of a write: a raw number or a mnemonic.
pub data WriteValue : Type 0 where
  number : ℤ → WriteValue
  key : String → WriteValue

-- What a read gives: a raw number or a mnemonic, with the last structure that the callback
-- returned where the first one held more than its word.
pub data Mnemonic : Type 0 where
  raw : ℕ → Mnemonic
  name : String → Mnemonic

pub data ReadValue : Type 0 where
  plain : Mnemonic → ReadValue
  encapsulated : Mnemonic → ℕ → ReadValue

-- `get_field_addr`
abbrev pub get_field_addr : Periph → Field → ℕ
get_field_addr p f = p.addr_base + f.offset

-- `len(range(addr, addr + n_bytes, bytes_per_word))`
abbrev pub word_count : Periph → Field → ℕ
word_count p f = ceil_div (n_bytes f) (word_bytes p)

-- The variables of the loop that reads the words of a field.
pub record Reading : Type 0 where
  pub bits : ℕ
  pub uses_encapsulation : Bool
  pub rstruct : ℕ

abbrev pub no_words : Reading
no_words = record { bits = 0; uses_encapsulation = false; rstruct = 0 }

-- `mnemonic.get(value, value)`; the mask of a text is a `TypeError`.
pub resolve : Field → WriteValue → Result ℤ
resolve f (number v) = ok v
resolve f (key k) = elim (lookup k f.mnemonic) [ none ↦ err type_error | some v ↦ ok v ]

-- `data = (data & ~mask) | vmask`
pub modify : Field → WriteValue → ℕ → Result ℕ
modify f v bits = do
  value ← resolve f v
  mask ← get_field_mask f none
  vmask ← get_field_mask f (some value)
  ok (bit_or (bit_andnot bits mask) vmask)

-- `imnemonic.get(val, val)`: the last of several keys of one number is kept.
pub imnemonic_get : ℕ → List (String × ℤ) → Mnemonic → Mnemonic
imnemonic_get val [] default = default
imnemonic_get val ((k, pos n) ∷ d) default =
    imnemonic_get val d (if n == val then name k else default)
imnemonic_get val ((k, negsuc n) ∷ d) default = imnemonic_get val d default

-- One word more: `data |= word << (word_idx * word_size)`.
unfoldable pub gather : Periph → ℕ → Reading → ℕ → Reading
gather p idx acc rstruct =
    let bits = bit_or acc.bits (bit_and rstruct (low_mask p.word_size) << (idx * p.word_size)) in
    record {
      bits = bits;
      uses_encapsulation = if idx == 0 then not (rstruct == bits) else acc.uses_encapsulation;
      rstruct = rstruct;
    }

module _ {S : Type 0} (bus : Bus S) (p : Periph) where
  unfoldable pub read_words : ℕ → ℕ → ℕ → Reading → S → Reading × S
  read_words zero idx a acc s = (acc, s)
  read_words (suc count) idx a acc s =
      let (rstruct, s') = bus.read a s in
      read_words count (idx + 1) (a + word_bytes p) (gather p idx acc rstruct) s'

  pub write_words : ℕ → ℕ → ℕ → ℕ → S → S
  write_words zero idx a bits s = s
  write_words (suc count) idx a bits s =
      let word = bit_and (bits >>> (idx * p.word_size)) (low_mask p.word_size) in
      write_words count (idx + 1) (a + word_bytes p) bits (bus.write a word s)

  -- The rest of a round of `write_fields`, once the new bits of the words are known.
  pub store : Field → Result ℕ → S → Result (Unit {0}) × S
  store f (err e) s = (err e, s)
  store f (ok bits) s = (ok tt, write_words (word_count p f) 0 (get_field_addr p f) bits s)

  -- One round of `write_fields`. A value that the field does not take raises after the read.
  pub write_field : Field → WriteValue → S → Result (Unit {0}) × S
  write_field f v s =
      let (r, s') = read_words (word_count p f) 0 (get_field_addr p f) no_words s in
      store f (modify f v r.bits) s'

  -- `write_fields(**kwargs)`; the status of the last write is not modelled.
  unfoldable pub write_fields : List (String × WriteValue) → S → Result (Unit {0}) × S
  write_fields [] s = (ok tt, s)
  write_fields ((k, v) ∷ rest) s = elim (lookup k p.fields) [
    | none ↦ (err key_error, s)
    | some f ↦
        let (r, s') = write_field f v s in
        elim r [ err e ↦ (err e, s') | ok _ ↦ write_fields rest s' ]
  ]

  -- One round of `read_fields`.
  unfoldable pub read_field : Field → Bool → S → ReadValue × S
  read_field f use_mnemonic s =
      let (r, s') = read_words (word_count p f) 0 (get_field_addr p f) no_words s in
      let val = get_field_value f r.bits in
      let mnemonic = if use_mnemonic then imnemonic_get val f.mnemonic (raw val) else raw val in
      (if r.uses_encapsulation then encapsulated mnemonic r.rstruct else plain mnemonic, s')

  -- `read_fields(*args, use_mnemonic)`
  unfoldable pub read_fields : List String → Bool → S → Result (List (String × ReadValue)) × S
  read_fields [] use_mnemonic s = (ok [], s)
  read_fields (k ∷ rest) use_mnemonic s = elim (lookup k p.fields) [
    | none ↦ (err key_error, s)
    | some f ↦
        let (v, s') = read_field f use_mnemonic s in
        let (r, s'') = read_fields rest use_mnemonic s' in
        (elim r [ err e ↦ err e | ok vs ↦ ok ((k, v) ∷ vs) ], s'')
  ]
