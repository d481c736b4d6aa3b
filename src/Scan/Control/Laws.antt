-- ===== src/Scan/Control/Laws.antt =====
-- Stopping the scan controller, `Scan.stop` of
-- cobra_system_control/cobra_system_control/scan_control.py, over the USB device.
use m.Common.{ℕ, ◌≡◌, ◌≢◌, refl, false, some, [], ◌∷◌, ok, err, timeout_error}
use m.Common.Action.{Action, continue-eq-ok, ◌>>◌}
use m.Common.Int.{pos}
use Prim.Native.String.{String}
use m.Device.Poll.Laws.{wait_for_true_never}
use m.Device.Usb.{UsbDevice, callbacks}
use m.Device.Usb.Laws.{device_read-eq-zero}
use m.MemoryMap.Bus.{Bus}
use m.MemoryMap.Field.{Field}
use m.MemoryMap.Periph.{Periph, lookup, read_fields, WriteValue, key, number, write_fields}
use m.MemoryMap.Periph.Zeros.{read_field-zero}
use m.Scan.Control.{n_tries, scan_is_idle, wait_for_scan_idle, stop}

-- Over a bus that reads 0 everywhere, the controller never looks idle.
module _ {S : Type 0} (bus : Bus S) (p : Periph)
    (zeros : (a : ℕ) (s : S) → bus.read a s ≡ (0, s)) where
  scan_never_idle :
      (f : Field) (s : S)
      → lookup "scan_is_idle" p.fields ≡ some f
      → scan_is_idle bus p s ≡ (ok false, s)
  unfolding scan_is_idle read_fields
  scan_never_idle f s found = rw (read_fields, found, read_field-zero bus p zeros f s) refl

  never_idle :
      (f : Field) (s : S)
      → lookup "scan_is_idle" p.fields ≡ some f
      → wait_for_scan_idle bus p s ≡ (err timeout_error, s)
  unfolding wait_for_scan_idle
  never_idle f s found =
      wait_for_true_never (scan_is_idle bus p) s n_tries (scan_never_idle f s found)

  never_stops :
      (f : Field) (s t : S) → lookup "scan_is_idle" p.fields ≡ some f → stop bus p s ≢ (ok tt, t)
  unfolding stop
  never_stops f s t found stopped =
      let set : String → WriteValue → Action S (Unit {0}) =
        λ k v. write_fields bus p ((k, v) ∷ []) in
      let halted = set "reset" (key "fifo_reset") >> set "scan_halt" (number (pos 1)) in
      let idle = halted >> wait_for_scan_idle bus p in
      let reset = idle >> set "reset" (key "all_reset") in
      let r = continue-eq-ok (λ done. set "scan_halt" (number (pos 0))) (reset s) stopped in
      let q = continue-eq-ok (λ done. set "reset" (key "all_reset")) (idle s) r.1.1.0 in
      let w = continue-eq-ok (λ done. wait_for_scan_idle bus p) (halted s) q.1.1.0 in
      let waits = w.1.1.1 in let times_out = never_idle f w.1.0 found in cc

-- Over the callbacks of USBDevice, whose reads never reach the hardware, and a peripheral with the
-- field scan_is_idle: wait_for_scan_idle raises TimeoutError, and stop never returns.
pub stop_times_out :
    {S : Type 0} (d : UsbDevice) (p : Periph) (f : Field) (s : S)
    → lookup "scan_is_idle" p.fields ≡ some f
    → (wait_for_scan_idle (callbacks d) p s ≡ (err timeout_error, s))
      × ((t : S) → stop (callbacks d) p s ≢ (ok tt, t))
stop_times_out d p f s found = (
  never_idle (callbacks d) p (λ a t. rw (device_read-eq-zero d a) refl) f s found,
  λ t. never_stops (callbacks d) p (λ a t. rw (device_read-eq-zero d a) refl) f s t found,
)
