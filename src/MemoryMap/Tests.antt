-- ===== src/MemoryMap/Tests.antt =====
-- Runs of memory_map.py on a memory, and the laws at concrete fields.
use Prim.Native.String.{String}
use m.MemoryMap.Build.{
  ArrayArgs, PeriphArgs, make_fields, make_rounds, make_arrays, set_field, make_periph,
}
use m.MemoryMap.Build.Bounds.{make_periph-InBounds}
use m.Common.{
  ◌+◌, ◌*◌, ◌%◌, none, ◌∷◌, ℕ, ◌^◌, ◌≤◌, ◌≡◌, refl, false, ok, err, value_error, [], ◌==◌,
  if◌then◌else◌, arith, some, ◌↔◌,
}
use m.Common.Int.{pos, negsuc}
use m.MemoryMap.Bus.{Bus, IsMemory}
use m.MemoryMap.Field.{
  Field, FieldArgs, YamlParams, ceil_log2, make_field, bytes_per_word, get_field_mask,
  get_field_value,
}
use m.MemoryMap.Field.Laws.{
  IsWellFormed, make_field-IsWellFormed, get_field_value-get_field_mask, ceil_log2_least,
}
use m.MemoryMap.Periph.{lookup, get_field_addr, Periph, number, raw, write_field, read_field}
use m.MemoryMap.Periph.Access.{IsByteWide, before, mnemonic_of}
use m.MemoryMap.Periph.Laws.{
  read_field-write_field, read_field-write_field_other, write_field_overflow,
}

-- A memory: a function from addresses to bytes.
abbrev ram : Bus (ℕ → ℕ)
ram = record { read = λ a s. (s a, s); write = λ a word s b. if a == b then word else s b }

ram-IsMemory : IsMemory 8 ram
ram-IsMemory = record {
  read_keeps = λ a s. refl;
  read-write_self = λ a word s h. ground arith;
  read-write_ne = λ a b word s h. ground arith;
}

abbrev params : YamlParams
params = record { word_size = 8; block_size = 1 }

abbrev lcm : Periph
lcm = record { addr_base = 0x100; word_size = 8; fields = [] }

lcm-IsByteWide : IsByteWide lcm
lcm-IsByteWide = omega arith

-- A field of 16 bits over two words, and one of 3 bits in the word after them.
abbrev period_args : FieldArgs
period_args = record { offset = pos 2; position = pos 0; size = pos 16; mnemonic = [] }

abbrev period : Field
period = record { offset = 2; position = 0; size = 16; n_words = 2; mnemonic = [] }

abbrev mode_args : FieldArgs
mode_args = record { offset = pos 4; position = pos 5; size = pos 3; mnemonic = [] }

abbrev mode : Field
mode = record { offset = 4; position = 5; size = 3; n_words = 1; mnemonic = [] }

period_made : make_field params period_args ≡ ok period
unfolding make_field ceil_log2
period_made = refl

mode_made : make_field params mode_args ≡ ok mode
unfolding make_field ceil_log2
mode_made = refl

abbrev zeros : ℕ → ℕ
zeros a = 0

period-IsWellFormed : IsWellFormed params period
period-IsWellFormed = make_field-IsWellFormed params period_args period period_made

five-in_mode :
    ((w : ℕ) → get_field_mask mode (some (pos 5)) ≡ ok w → get_field_value mode w ≡ 5)
    × ((get_field_mask mode (some (pos 5)) ≡ err value_error) ↔ (8 ≤ 5))
    × (get_field_mask mode (some (negsuc 5)) ≡ err value_error)
five-in_mode = get_field_value-get_field_mask mode 5

read_field-write_field_example :
    ((write_field ram lcm period (number (pos 0xabcd)) zeros).0 ≡ ok tt)
    × (mnemonic_of
          (read_field ram lcm period false
            (write_field ram lcm period (number (pos 0xabcd)) zeros).1).0
        ≡ raw 0xabcd)
read_field-write_field_example =
    read_field-write_field ram lcm ram-IsMemory lcm-IsByteWide params refl period_args period
      period_made 0xabcd zeros (omega arith)

read_field-write_field_other_example :
    mnemonic_of
      (read_field ram lcm period false (write_field ram lcm mode (number (pos 5)) zeros).1).0
    ≡ mnemonic_of (read_field ram lcm period false zeros).0
read_field-write_field_other_example =
    read_field-write_field_other ram lcm ram-IsMemory lcm-IsByteWide params refl mode_args
      period_args mode period mode_made period_made (before (omega arith)) 5 zeros (omega arith)

write_field_overflow_example :
    (8 ≤ 9 → write_field ram lcm mode (number (pos 9)) zeros ≡ (err value_error, zeros))
    × (write_field ram lcm mode (number (negsuc 9)) zeros ≡ (err value_error, zeros))
write_field_overflow_example = write_field_overflow ram lcm ram-IsMemory mode 9 zeros

five_least : (5 ≤ 2 ^ ceil_log2 5) × ((j : ℕ) → 5 ≤ 2 ^ j → ceil_log2 5 ≤ j)
five_least = ceil_log2_least 5

-- A peripheral of 32 bytes with a field of its own and an array of two fields.
abbrev lane_args : FieldArgs
lane_args = record { offset = pos 0; position = pos 4; size = pos 3; mnemonic = [] }

abbrev lanes : ArrayArgs
lanes = record { offset = 8; rep = 2; step = 4; fields = ("lane", lane_args) ∷ [] }

abbrev bank_args : PeriphArgs
bank_args = record {
  addr_base = 0x40;
  n_blocks = 32;
  fields = ("top", lane_args) ∷ [];
  arrays = lanes ∷ [];
  array_rep_limit = none;
  ignore_alignment_error = false;
}

abbrev lane : ℕ → Field
lane offset = record { offset = offset; position = 4; size = 3; n_words = 1; mnemonic = [] }

abbrev bank : Periph
bank = record {
  addr_base = 0x40;
  word_size = 8;
  fields = ("top", lane 0) ∷ ("lane_0", lane 8) ∷ ("lane_1", lane 12) ∷ [];
}

bank_made : make_periph params bank_args ≡ ok bank
unfolding make_periph make_fields make_arrays make_rounds set_field make_field ceil_log2
bank_made = refl

make_periph-InBounds_example :
    (bank.addr_base ≡ bank_args.addr_base)
    × (bank_args.ignore_alignment_error ≡ false
        → bank.addr_base % 2 ^ ceil_log2 (bank_args.n_blocks * params.block_size) ≡ 0)
    × ((name : String) (f : Field)
        → lookup name bank.fields ≡ some f
        → IsWellFormed params f
          × (bank.addr_base ≤ get_field_addr bank f)
          × (get_field_addr bank f + f.n_words * bytes_per_word params
              ≤ bank.addr_base + bank_args.n_blocks * params.block_size))
make_periph-InBounds_example = make_periph-InBounds params bank_args bank bank_made
