-- ===== src/Flash/Registers/Laws.antt =====
-- What `QspiController` reads of the flash memory through `Device` of device.py.
use Prim.Native.String.{String}
use m.Common.{
  ℕ, zero, suc, ◌+◌, ◌*◌, ◌^◌, bit_and, ◌≡◌, ◌≢◌, refl, sym, ap, ◌∙◌, Bool, true, false, ◌||◌,
  Option, none, some, List, [], ◌∷◌, ◌++◌, ◌==◌, if◌then◌else◌, Result, ok, err, ok-injective, ◌⊎◌,
  key_error, arith, inl, inr,
}
use mathlib.Core.Path.{subst}
use m.Common.All.{All, All-append}
use m.Common.Action.{◌>>=◌, return}
use m.Device.Fx3.{Libusb}
use m.Device.Usb.{Usb, UsbDevice, callbacks}
use m.Device.Usb.Laws.{device_read-eq-zero}
use m.MemoryMap.Field.{Field}
use m.MemoryMap.Periph.{Periph, lookup, read_fields}
use m.MemoryMap.Periph.Zeros.{read_field-zero}
use m.Flash.Qspi.{
  Registers, from_big_endian, has_length, receive_rounds, qspi_receive, status_register,
  flash_is_busy, fifo_depth, qspi_send, cmd_read_sr_1,
}
use m.Flash.Registers.{device_registers}
use m.Flash.Partition.Verify.{past_first}

module _ {S : Type 0} (lib : Libusb S) (d : UsbDevice) (p : Periph) where
  abbrev r : Registers (Usb S)
  r = device_registers lib d p

  field_read :
      (field_name : String) (f : Field) (u : Usb S)
      → lookup field_name p.fields ≡ some f
      → r.read_field field_name u ≡ (ok 0, u)
  unfolding device_registers read_fields
  field_read field_name f u found =
      rw
        (
          read_fields,
          found,
          read_field-zero (callbacks d) p (λ a t. rw (device_read-eq-zero d a) refl) f u,
        )
        refl

  field_missing :
      (field_name : String) (u : Usb S)
      → lookup field_name p.fields ≡ none
      → r.read_field field_name u ≡ (err key_error, u)
  unfolding device_registers read_fields
  field_missing field_name u missing = rw (read_fields, missing) refl

  found_or_not : (o : Option Field) → (o ≡ none) ⊎ ((f : Field) × (o ≡ some f))
  found_or_not none = inl refl
  found_or_not (some f) = inr (f, refl)

  -- Every field that can be read reads 0.
  reads_zero :
      (field_name : String) (u t : Usb S) (v : ℕ) → r.read_field field_name u ≡ (ok v, t) → v ≡ 0
  reads_zero field_name u t v e = elim (found_or_not (lookup field_name p.fields)) [
    | inl missing ↦
        let raised : err key_error ≡ ok v =
          ap (λ (x : Result ℕ × Usb S). x.0) (sym (field_missing field_name u missing) ∙ e) in
        cc
    | inr (f, found) ↦
        ok-injective (ap (λ (x : Result ℕ × Usb S). x.0) (sym e ∙ field_read field_name f u found))
  ]

  from_big_endian_zero :
      (acc : ℕ) (bytes : List ℕ) → acc ≡ 0 → All (λ b. b ≡ 0) bytes → from_big_endian acc bytes ≡ 0
  from_big_endian_zero acc [] z h = z
  from_big_endian_zero acc (b ∷ bytes) z h =
      from_big_endian_zero (acc * 2 ^ 8 + b) bytes (omega (arith, ap (λ (t : ℕ). t * 2 ^ 8) z, h.0))
        h.1

  module _ (polls : ℕ) where
    rounds-zero :
        (n : ℕ) (bytes got : List ℕ) (u t : Usb S)
        → All (λ b. b ≡ 0) bytes
        → receive_rounds r polls none n bytes u ≡ (ok got, t)
        → All (λ b. b ≡ 0) got
    unfolding receive_rounds
    rounds-zero zero bytes got u t h e =
        subst (All (λ b. b ≡ 0)) (ok-injective (ap (λ (x : Result (List ℕ) × Usb S). x.0) e)) h
    rounds-zero (suc n) bytes got u t h e =
        let (empty, u1, read, e1) = past_first (r.read_field "fifo_rx_empty" u) _ e in
        let none_empty : (empty == 1) ≡ false =
          let z = reads_zero "fifo_rx_empty" u u1 empty read in ground arith in
        let next =
          r.read_field "fifo_rx_rdata" >>= λ b. receive_rounds r polls none n (bytes ++ b ∷ []) in
        let goes_on : (if (empty == 1) || has_length none bytes then return bytes else next) u1
            ≡ next u1 =
          rw none_empty refl in
        let (b, u2, read', e2) =
          past_first (r.read_field "fifo_rx_rdata" u1) _ (sym goes_on ∙ e1) in
        rounds-zero n (bytes ++ b ∷ []) got u2 t
          (All-append (λ b. b ≡ 0) bytes (b ∷ []) h (reads_zero "fifo_rx_rdata" u1 u2 b read', tt))
          e2

    status-zero : (u t : Usb S) (v : ℕ) → status_register r polls u ≡ (ok v, t) → v ≡ 0
    unfolding status_register qspi_receive
    status-zero u t v e =
        let (sent, u1, sends, e1) = past_first (qspi_send r polls (cmd_read_sr_1 ∷ []) u) _ e in
        let (bytes, u2, received, e2) = past_first (qspi_receive r polls none u1) _ e1 in
        let (got, u3, rounds, e3) =
          past_first (receive_rounds r polls none fifo_depth [] u1) _ received in
        let (done, u4, reset, e4) = past_first (r.write_field "reset" 2 u3) _ e3 in
        let zeros = rounds-zero fifo_depth [] got u1 u3 tt rounds in
        let same : got ≡ bytes = ok-injective (ap (λ (x : Result (List ℕ) × Usb S). x.0) e4) in
        sym (ok-injective (ap (λ (x : Result ℕ × Usb S). x.0) e2))
        ∙ ap (from_big_endian 0) (sym same)
        ∙ from_big_endian_zero 0 got refl zeros

    -- Over the device of device.py, whose reads never reach the hardware, flash_is_busy never says that the
    -- flash is busy, whatever the link does.
    pub flash_never_busy : (u t : Usb S) → flash_is_busy r polls u ≢ (ok true, t)
    unfolding flash_is_busy
    flash_never_busy u t e =
        let (v, u1, reads, e1) = past_first (status_register r polls u) _ e in
        let z = status-zero u u1 v reads in
        let busy : (bit_and v 0x1 == 1) ≡ true =
          ok-injective (ap (λ (x : Result Bool × Usb S). x.0) e1) in
        let clear : (bit_and v 0x1 == 1) ≡ false = ap (λ (n : ℕ). bit_and n 0x1 == 1) z in cc
