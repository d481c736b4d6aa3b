-- ===== src/Flash/Updater.antt =====
-- cobra_system_control/cobra_system_control/mcs_updater.py: replacing what a partition of the SPI
-- flash holds. The messages to the log and the queue are left out.
pub mod Laws
use m.Common.{
  ℕ, zero, suc, ◌+◌, ◌-◌, ◌*◌, ◌/◌, bit_or, Bool, true, false, ◌&&◌, not, Option, none, some, List,
  [], ◌∷◌, ltb, leb, ◌==◌, if◌then◌else◌, Result, ok, err, value_error, length, raise_if,
}
use m.Common.Raise
use m.Common.Action.{Action, ◌>>=◌, ◌>>◌, lift, return, check}
use m.Mcs.Binary.{BinMcsReader, getitem_slice, make_bin_reader}
use m.Flash.Qspi.{
  Registers, full_block_size, page_size, fast_read_size, block_erase, page_program, fast_read_data,
}
use m.Flash.Partition.{Partition}

-- `final_check_pages`; the limit is a fraction of pages, so both sides are taken in bytes.
unfoldable pub final_check_pages : List (List ℕ) → ℕ → ℕ → Result (Unit {0})
final_check_pages pages addr_base addr_max =
    Raise.◌>>◌ (page_sizes pages)
      (raise_if (ltb (addr_max + 1) (length pages * page_size + addr_base)) value_error)
  where
    page_sizes : List (List ℕ) → Result (Unit {0})
    page_sizes [] = ok tt
    page_sizes (p ∷ ps) =
        let rest = page_sizes ps in if length p == page_size then rest else err value_error

-- `sf_ba == mcs_ba`
abbrev pub same_bytes : List ℕ → List ℕ → Bool
same_bytes [] [] = true
same_bytes [] (y ∷ ys) = false
same_bytes (x ∷ xs) [] = false
same_bytes (x ∷ xs) (y ∷ ys) = (x == y) && same_bytes xs ys

-- `range(start, start + n)`
abbrev pub range : ℕ → ℕ → List ℕ
range start zero = []
range start (suc n) = start ∷ range (start + 1) n

-- `[x for x in chunks if x < max_chunk]`
abbrev pub below : ℕ → List ℕ → List ℕ
below max_chunk [] = []
below max_chunk (x ∷ xs) =
    let rest = below max_chunk xs in if ltb x max_chunk then x ∷ rest else rest

abbrev pub chunks_below : Option (List ℕ) → ℕ → List ℕ
chunks_below none max_chunk = below max_chunk (range 0 max_chunk)
chunks_below (some chunks) max_chunk = below max_chunk chunks

-- `sorted(chunks)`
abbrev pub insert_chunk : ℕ → List ℕ → List ℕ
insert_chunk x [] = x ∷ []
insert_chunk x (y ∷ ys) = let rest = insert_chunk x ys in if leb x y then x ∷ y ∷ ys else y ∷ rest

abbrev pub sorted : List ℕ → List ℕ
sorted [] = []
sorted (x ∷ xs) = insert_chunk x (sorted xs)

-- `BinMcsReader`'s own size of the memory.
abbrev pub default_mem_size : ℕ
default_mem_size = 4 * 1024 * 1024

module _ {S : Type 0} (r : Registers S) (polls : ℕ) where
  -- `n` rounds of the loop of `delete_memory`, from block `big_block` on.
  unfoldable pub delete_blocks : ℕ → ℕ → ℕ → Action S (Unit {0})
  delete_blocks addr_base zero big_block = return tt
  delete_blocks addr_base (suc n) big_block =
      block_erase r polls (bit_or addr_base (big_block * full_block_size)) true true
      >> delete_blocks addr_base n (big_block + 1)

  -- `delete_memory`
  unfoldable pub delete_memory : ℕ → ℕ → Action S (Unit {0})
  delete_memory addr_base addr_max =
      delete_blocks addr_base ((addr_max - addr_base) / full_block_size) 0

  module _ (mr : BinMcsReader) where
    -- `n` rounds of the loop of `write_memory`, from page `page` on.
    unfoldable pub write_pages : ℕ → ℕ → ℕ → Action S (Unit {0})
    write_pages addr_base zero page = return tt
    write_pages addr_base (suc n) page = do
      let addr = addr_base + page * page_size
      bytes ← lift (getitem_slice mr addr (addr + page_size))
      page_program r polls addr bytes true >> write_pages addr_base n (page + 1)

    -- `write_memory`
    unfoldable pub write_memory : ℕ → ℕ → Action S (Unit {0})
    write_memory addr_base num_pages = write_pages addr_base num_pages 0

    -- `verify_sf`
    unfoldable pub verify_sf : ℕ → List ℕ → Action S Bool
    verify_sf addr_base [] = return true
    verify_sf addr_base (ck ∷ chunks) = do
      let addr = addr_base + ck * fast_read_size
      sf_ba ← fast_read_data r polls addr (some fast_read_size)
      mcs_ba ← lift (getitem_slice mr addr (addr + fast_read_size))
      if same_bytes sf_ba mcs_ba then verify_sf addr_base chunks else return false

    -- `verify_fpga` of the partition `bitstream_primary`.
    unfoldable pub verify_fpga : Partition → Action S Bool
    verify_fpga p = verify_sf p.addr_base (range 0 (p.size / fast_read_size))

    -- `verify_lcm_tables` of the partition `lcm_patterns`, with all chunks or a list of some.
    unfoldable pub verify_lcm_tables : Partition → Option (List ℕ) → Action S Bool
    verify_lcm_tables p chunks =
        verify_sf p.addr_base (sorted (chunks_below chunks (p.size / fast_read_size)))

    -- What `update_fpga` and `update_lcm` do between reading the file and verifying.
    unfoldable pub rewrite_partition : Partition → Action S (Unit {0})
    rewrite_partition p = do
      let addr_min = p.addr_base
      let addr_max = addr_min + p.size
      check (ltb (length mr.bytes) addr_max) value_error
      delete_memory addr_min addr_max
      write_memory addr_min ((addr_max - addr_min) / page_size)

  -- `update_fpga` of `bitstream_primary`, from the bytes of the file.
  unfoldable pub update_fpga : List ℕ → Partition → Action S Bool
  update_fpga file p = do
    mr ← lift (make_bin_reader file default_mem_size 0xff)
    rewrite_partition mr p
    verify_fpga mr p

  -- `update_lcm` of `lcm_patterns`, which verifies all chunks.
  unfoldable pub update_lcm : List ℕ → Partition → Action S Bool
  update_lcm file p = do
    mr ← lift (make_bin_reader file default_mem_size 0xff)
    rewrite_partition mr p
    verify_lcm_tables mr p none
