-- ===== src/Flash/Partition/Verify.antt =====
-- `read_and_verify` and `program_partition` of spi_flash.py at the ends of the memory, whatever the
-- device answers.
use m.Common.{
  ℕ, zero, suc, ◌+◌, ◌-◌, ◌/◌, ◌≤◌, ◌<◌, ◌≡◌, ◌≢◌, refl, sym, ap, ◌∙◌, Bool, false, ◌||◌, ◌&&◌, not,
  none, some, List, ltb, leb, Exception, Result, ok, err, index_error, arith, Bool-cases, inl, inr,
}
use m.Common.Action.{Action, continue}
use m.Mcs.Binary.{BinMcsReader, getitem_slice, get_slice}
use m.Flash.Qspi.{Registers, fifo_depth, fast_read_data, page_size}
use m.Flash.Partition.{
  Partition, verify_rounds, read_and_verify, program_partition, program_pages, at_most,
}

ok-is-not-err : {A : Type 0} {x : A} {e : Exception} → ok x ≢ err e
ok-is-not-err h = cc

-- An action that returns has got past its first part.
pub past_first :
    {S A B : Type 0} (x : Result A × S) (next : A → Action S B) {y : B} {t : S}
    → continue next x ≡ (ok y, t)
    → (a : A) × (u : S) × (x ≡ (ok a, u)) × (next a u ≡ (ok y, t))
past_first (ok a, u) next h = (a, u, refl, h)
past_first (err e, u) next h = cc

start_ok : (a n : ℕ) → 0 < n → (ltb a a || not (ltb (a - a) n)) ≡ false
start_ok a n h = ground arith

stop_ok : (a n : ℕ) → 0 < n → not (ltb a (a + n) && leb (a + n) (a + n)) ≡ false
stop_ok a n h = ground arith

module _ {S : Type 0} (r : Registers S) (polls : ℕ) (reader : BinMcsReader) where
  -- Whatever the device: a partition whose address is at least its size is not programmed;
  -- program_partition returns and sends nothing.
  pub program_partition-eq-return :
      (p : Partition) (skip_empty : Bool) (s : S)
      → p.size ≤ p.addr_base
      → program_partition r polls reader p skip_empty s ≡ (ok tt, s)
  unfolding program_partition program_pages
  program_partition-eq-return p skip_empty s h =
      let none_left : (p.size - p.addr_base + (page_size - 1)) / page_size ≡ 0 = omega arith in
      rw none_left refl

  getitem_slice_top :
      (a : ℕ) → a < reader.mem_size → getitem_slice reader a reader.mem_size ≡ err index_error
  unfolding get_slice
  getitem_slice_top a h = ground arith

  verify_rounds_top :
      (fuel a size : ℕ) {ms : List (ℕ × (ℕ × ℕ))} (s : S) {t : S}
      → 0 < size
      → size ≤ fuel
      → a + size ≡ reader.mem_size
      → verify_rounds r polls reader fuel a size s ≢ (ok ms, t)
  unfolding verify_rounds
  verify_rounds_top zero a size s pos enough end e = absurd (omega arith)
  verify_rounds_top (suc fuel) a zero s pos enough end e = absurd (omega arith)
  verify_rounds_top (suc fuel) a (suc size) s pos enough end e =
      let n = at_most r polls (suc size) fifo_depth in
      let (mem, u, reads, e1) = past_first (fast_read_data r polls a (some n) s) _ e in
      let (mcs, u', got, e2) = past_first (getitem_slice reader a (a + n), u) _ e1 in
      let (rest, u'', more, e3) =
        past_first (verify_rounds r polls reader fuel (a + n) (suc size - n) u') _ e2 in
      elim (Bool-cases (leb (suc size) fifo_depth)) [
        | inl last ↦
            let end' : a + n ≡ reader.mem_size = ground arith in
            let refused : getitem_slice reader a (a + n) ≡ err index_error =
              ap (getitem_slice reader a) end' ∙ getitem_slice_top a (omega arith) in
            let returned : getitem_slice reader a (a + n) ≡ ok mcs =
              ap (λ (x : Result (List ℕ) × S). x.0) got in
            ok-is-not-err (sym returned ∙ refused)
        | inr longer ↦
            let full : n ≡ fifo_depth = ground arith in
            let more_left : fifo_depth < suc size = ground arith in
            verify_rounds_top fuel (a + n) (suc size - n) u' (omega arith) (omega arith)
              (omega arith) more
      ]

  -- Whatever the device answers: read_and_verify of a whole partition that ends exactly at the end of the
  -- reader's memory never returns.
  pub read_and_verify_top :
      (p : Partition) (s t : S) (ms : List (ℕ × (ℕ × ℕ)))
      → 0 < p.size
      → p.addr_base + p.size ≡ reader.mem_size
      → read_and_verify r polls reader p none none s ≢ (ok ms, t)
  unfolding read_and_verify
  read_and_verify_top p s t ms pos end e =
      let n : p.addr_base + p.size - p.addr_base ≡ p.size = omega arith in
      let runs : read_and_verify r polls reader p none none s
          ≡ verify_rounds r polls reader (p.addr_base + p.size - p.addr_base) p.addr_base
              (p.addr_base + p.size - p.addr_base) s =
        rw (start_ok p.addr_base p.size pos, stop_ok p.addr_base p.size pos) refl in
      verify_rounds_top (p.addr_base + p.size - p.addr_base) p.addr_base
        (p.addr_base + p.size - p.addr_base) s (omega arith) (omega arith) (omega arith)
        (sym runs ∙ e)
