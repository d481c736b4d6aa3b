-- ===== src/Flash/Partition.antt =====
-- `SpiFlashPartition` of spi_flash.py: erasing, programming and verifying a partition.
pub mod Erase
pub mod Verify
use m.Common.{
  ℕ, zero, suc, ◌+◌, ◌-◌, ◌*◌, ◌/◌, ◌%◌, ◌≤◌, Bool, true, false, ◌&&◌, ◌||◌, not, Option, none,
  some, List, [], ◌∷◌, ◌++◌, ltb, leb, ◌==◌, if◌then◌else◌, Result, ok, err, runtime_error,
  value_error, not_ended,
}
use m.Common.Raise
use m.Common.Action.{Action, ◌>>=◌, ◌>>◌, lift, return, raise, check}
use m.Mcs.Binary.{BinMcsReader, getitem_slice, or_default}
use m.Flash.Qspi.{
  Registers, full_block_size, half_block_size, sector_size, page_size, fifo_depth, block_erase,
  sector_erase, page_program, fast_read_data,
}

-- `self.mmp`: the address and the size of the partition in the memory map.
pub record Partition : Type 0 where
  pub addr_base : ℕ
  pub size : ℕ

-- The checks of `__init__`.
unfoldable pub make_partition : ℕ → ℕ → Result Partition
make_partition addr_base size =
    Raise.◌>>◌ (Raise.raise_if (not (size % sector_size == 0)) runtime_error)
      (ok (record { addr_base = addr_base; size = size }))

-- `all(b == 0xff for b in data)`
abbrev pub is_empty : List ℕ → Bool
is_empty [] = true
is_empty (b ∷ bs) = (b == 0xff) && is_empty bs

-- `{(addr + i): (x, y) for i, (x, y) in enumerate(zip(data_mcs, data_mem)) if x != y}`, with the pairs
-- in the order of their addresses.
abbrev pub differences : ℕ → List ℕ → List ℕ → List (ℕ × (ℕ × ℕ))
differences addr [] ys = []
differences addr (x ∷ xs) [] = []
differences addr (x ∷ xs) (y ∷ ys) =
    let rest = differences (addr + 1) xs ys in if x == y then rest else (addr, (x, y)) ∷ rest

module _ {S : Type 0} (r : Registers S) (polls : ℕ) where
  -- `for _ in range(num_erases)`: gives the next address. The size that is left is the size less the
  -- blocks.
  unfoldable pub erase_blocks : (ℕ → Action S (Unit {0})) → ℕ → ℕ → ℕ → Action S ℕ
  erase_blocks erase_func erase_size zero addr = return addr
  erase_blocks erase_func erase_size (suc num_erases) addr =
      erase_func addr >> erase_blocks erase_func erase_size num_erases (addr + erase_size)

  -- The loop over the sizes, with its `else`.
  unfoldable pub erase_sizes : List (ℕ × (ℕ → Action S (Unit {0}))) → ℕ → ℕ → Action S (Unit {0})
  erase_sizes [] addr size = raise runtime_error
  erase_sizes ((erase_size, erase_func) ∷ sizes) addr size = do
    next ← erase_blocks erase_func erase_size (size / erase_size) addr
    let left = size - size / erase_size * erase_size
    if left == 0 then return tt else erase_sizes sizes next left

  -- `erase_partition`
  unfoldable pub erase_partition : Partition → Action S (Unit {0})
  erase_partition p =
      erase_sizes
        ((full_block_size, λ a. block_erase r polls a true true)
          ∷ (half_block_size, λ a. block_erase r polls a false true)
          ∷ (sector_size, λ a. sector_erase r polls a true)
          ∷ [])
        p.addr_base p.size

  -- `n` rounds of the loop of `program_partition`.
  unfoldable pub program_pages : BinMcsReader → Bool → ℕ → ℕ → Action S (Unit {0})
  program_pages reader skip_empty zero addr = return tt
  program_pages reader skip_empty (suc n) addr = do
    bytes ← lift (getitem_slice reader addr (addr + page_size))
    let rest = program_pages reader skip_empty n (addr + page_size)
    if skip_empty && is_empty bytes then rest else page_program r polls addr bytes true >> rest

  -- `program_partition`, where `range(addr_base, size, page_size)` ends at the size.
  unfoldable pub program_partition : BinMcsReader → Partition → Bool → Action S (Unit {0})
  program_partition reader p skip_empty =
      program_pages reader skip_empty ((p.size - p.addr_base + (page_size - 1)) / page_size)
        p.addr_base

  abbrev pub at_most : ℕ → ℕ → ℕ
  at_most a b = if leb a b then a else b

  -- `while size != 0`, with fuel.
  unfoldable pub verify_rounds : BinMcsReader → ℕ → ℕ → ℕ → Action S (List (ℕ × (ℕ × ℕ)))
  verify_rounds reader zero addr zero = return []
  verify_rounds reader zero addr (suc size) = raise not_ended
  verify_rounds reader (suc fuel) addr zero = return []
  verify_rounds reader (suc fuel) addr (suc size) = do
    let n = at_most (suc size) fifo_depth
    mem ← fast_read_data r polls addr (some n)
    mcs ← lift (getitem_slice reader addr (addr + n))
    rest ← verify_rounds reader fuel (addr + n) (suc size - n)
    return (differences addr mcs mem ++ rest)

  -- `read_and_verify`; the fuel is the number of bytes.
  unfoldable pub read_and_verify :
      BinMcsReader → Partition → Option ℕ → Option ℕ → Action S (List (ℕ × (ℕ × ℕ)))
  read_and_verify reader p addr_start addr_stop = do
    let end = p.addr_base + p.size
    let start = or_default addr_start p.addr_base
    let stop = or_default addr_stop end
    check (ltb start p.addr_base || not (ltb (start - p.addr_base) p.size)) value_error
    check (not (ltb start stop && leb stop end)) value_error
    verify_rounds reader (stop - start) start (stop - start)
