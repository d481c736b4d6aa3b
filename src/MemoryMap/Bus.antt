-- ===== src/MemoryMap/Bus.antt =====
-- The callbacks that `MemoryMapPeriph` of memory_map.py is given by `register_read_callback` and
-- `register_write_callback`: the hardware behind them is not code of the repository.
use m.Common.{ℕ, ◌<◌, ◌^◌, ◌≡◌, ◌≢◌}

-- `read a` and `write a word`, over whatever the hardware keeps. A read may change it, as that of a
-- FIFO does.
pub record Bus (S : Type 0) : Type 0 where
  pub read : ℕ → S → ℕ × S
  pub write : ℕ → ℕ → S → S

-- What is documented of registers that are plain memory, with words of `width` bits: reading changes
-- nothing, and gives what was last written at that address.
pub record IsMemory {S : Type 0} (width : ℕ) (bus : Bus S) : Type 0 where
  pub read_keeps : (a : ℕ) (s : S) → (bus.read a s).1 ≡ s
  pub read-write_self :
      (a word : ℕ) (s : S) → word < 2 ^ width → (bus.read a (bus.write a word s)).0 ≡ word
  pub read-write_ne :
      (a b word : ℕ) (s : S) → a ≢ b → (bus.read b (bus.write a word s)).0 ≡ (bus.read b s).0
