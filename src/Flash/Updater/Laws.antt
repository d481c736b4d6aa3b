-- ===== src/Flash/Updater/Laws.antt =====
-- What mcs_updater.py sends to the flash, whatever the device answers.
use m.Common.{
  ℕ, zero, suc, ◌+◌, ◌-◌, ◌*◌, ◌/◌, ◌%◌, ◌^◌, ◌≤◌, ◌<◌, bit_or, ◌≡◌, refl, sym, ap, ◌∙◌, true,
  false, List, [], ◌∷◌, ◌++◌, length, replicate, length-append, length-replicate, ltb, lt→ltb, ◌⊎◌,
  inl, inr, Bool-cases, err, value_error, arith,
}
use native.Mathlib.Nat.{div-add-mod'}
use m.Common.Action.{◌>>◌}
use m.Common.Bits.{or_shifted, ◌<<◌}
use m.Mcs.Binary.{make_bin_reader}
use m.Flash.Qspi.{Registers, full_block_size, block_erase}
use m.Flash.Partition.{Partition}
use m.Flash.Partition.Erase.{Erase, full, Tiles, blocks, blocks-Tiles, run_all, continue-ap}
use m.Flash.Updater.{
  delete_blocks, delete_memory, update_fpga, update_lcm, rewrite_partition, default_mem_size,
}

-- `base | offset` where the base is a multiple of a power of two that is above the offset.
or-aligned :
    (j base offset : ℕ) → base % 2 ^ j ≡ 0 → offset < 2 ^ j → bit_or base offset ≡ base + offset
or-aligned j base offset aligned h =
    let e : (base / 2 ^ j) << j ≡ base = omega (arith, div-add-mod' base (2 ^ j)) in
    ap (λ (t : ℕ). bit_or t offset) (sym e)
    ∙ or_shifted j (base / 2 ^ j) offset h
    ∙ omega (arith, e)

append-nil : (es : List Erase) → es ++ [] ≡ es
append-nil [] = refl
append-nil (e ∷ es) = ap (λ (t : List Erase). e ∷ t) (append-nil es)

module _ {S : Type 0} (r : Registers S) (polls : ℕ) where
  delete_blocks-run :
      (j base n k : ℕ) (s : S)
      → base % 2 ^ j ≡ 0
      → (k + n) * full_block_size ≤ 2 ^ j
      → delete_blocks r polls base n k s
        ≡ run_all r polls (blocks full full_block_size n (base + k * full_block_size)) s
  unfolding delete_blocks
  delete_blocks-run j base zero k s aligned fits = refl
  delete_blocks-run j base (suc n) k s aligned fits =
      let at : bit_or base (k * full_block_size) ≡ base + k * full_block_size =
        or-aligned j base (k * full_block_size) aligned (omega (arith, fits)) in
      let next : base + (k + 1) * full_block_size ≡ base + k * full_block_size + full_block_size =
        omega arith in
      ap (λ (b : ℕ). (block_erase r polls b true true >> delete_blocks r polls base n (k + 1)) s) at
      ∙ continue-ap r polls _ _ (block_erase r polls (base + k * full_block_size) true true s)
          (λ u t.
            delete_blocks-run j base n (k + 1) t aligned (omega (arith, fits))
            ∙ ap (λ (b : ℕ). run_all r polls (blocks full full_block_size n b) t) next)

  -- What delete_memory promises.
  pub record Deleted (addr_min addr_max : ℕ) : Type 0 where
    pub commands : List Erase
    pub sends : (s : S) → delete_memory r polls addr_min addr_max s ≡ run_all r polls commands s
    pub tiles : Tiles commands addr_min (addr_max - addr_min)

  -- For whole blocks of 64 KiB from a multiple of a power of two on that is not below their size, whatever the
  -- device answers: delete_memory sends the commands of a list, one after the other, and ends with the
  -- first one that raises; their blocks lie one after the other and make up the range.
  pub delete_memory-Deleted :
      (j addr_min addr_max : ℕ)
      → addr_min % 2 ^ j ≡ 0
      → (addr_max - addr_min) % full_block_size ≡ 0
      → addr_max - addr_min ≤ 2 ^ j
      → Deleted addr_min addr_max
  unfolding delete_memory
  delete_memory-Deleted j addr_min addr_max aligned whole fits =
      let n = (addr_max - addr_min) / full_block_size in
      let zero_at : addr_min + 0 * full_block_size ≡ addr_min = omega arith in
      record {
        commands = blocks full full_block_size n addr_min ++ [];
        sends = λ s.
            delete_blocks-run j addr_min n 0 s aligned (omega (arith, fits))
            ∙ ap (λ (b : ℕ). run_all r polls (blocks full full_block_size n b) s) zero_at
            ∙ ap (λ (es : List Erase). run_all r polls es s)
                (sym (append-nil (blocks full full_block_size n addr_min)));
        tiles =
            blocks-Tiles full full_block_size n addr_min (addr_max - addr_min) [] (λ b. refl)
              (λ b. refl) (omega arith) (omega (arith, whole));
      }

  -- Where the file has more than 4 MiB, or the partition ends beyond 4 MiB, update_fpga and update_lcm
  -- raise ValueError, and nothing is sent to the device.
  pub update_too_large :
      (file : List ℕ) (p : Partition) (s : S)
      → (default_mem_size < length file) ⊎ (default_mem_size < p.addr_base + p.size)
      → (update_fpga r polls file p s ≡ (err value_error, s))
        × (update_lcm r polls file p s ≡ (err value_error, s))
  unfolding update_fpga update_lcm make_bin_reader rewrite_partition
  update_too_large file p s (inl h) = rw (lt→ltb default_mem_size (length file) h) (refl, refl)
  update_too_large file p s (inr h) = elim (Bool-cases (ltb default_mem_size (length file))) [
    | inl large ↦ rw large (refl, refl)
    | inr small ↦
        let padded = file ++ replicate (default_mem_size - length file) 0xff in
        let n : length padded ≡ default_mem_size = omega (
          arith,
          length-append file (replicate (default_mem_size - length file) 0xff),
          length-replicate {A = ℕ} (default_mem_size - length file) 0xff,
          not_above small,
        ) in
        let beyond : ltb (length padded) (p.addr_base + p.size) ≡ true =
          lt→ltb (length padded) (p.addr_base + p.size) (omega (arith, n, h)) in
        rw (small, beyond) (refl, refl)
  ]
    where
      not_above : {a b : ℕ} → ltb a b ≡ false → b ≤ a
      not_above {a = a} {b = b} e = ground arith
