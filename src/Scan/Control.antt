-- ===== src/Scan/Control.antt =====
-- `Scan` of cobra_system_control/cobra_system_control/scan_control.py: stopping the scan controller
-- through the fields of its peripheral.
pub mod Laws
use m.Common.{ℕ, Bool, true, false, List, [], ◌∷◌, ◌==◌, Result, ok, err, index_error}
use m.Common.Action.{Action, return, ◌>>=◌, ◌>>◌}
use m.Common.Int.{ℤ, pos}
use m.Device.Poll.{wait_for_true}
use m.MemoryMap.Bus.{Bus}
use m.MemoryMap.Periph.{
  Periph, WriteValue, number, key, ReadValue, plain, encapsulated, raw, name, write_fields,
  read_fields,
}
use Prim.Native.String.{String}

abbrev pub n_tries : ℕ
n_tries = 20

module _ {S : Type 0} (bus : Bus S) (p : Periph) where
  -- `self.read_fields('scan_is_idle') == 1`: the value of a single field is returned by itself, and a
  -- mnemonic or a pair is not 1.
  abbrev pub reads_one : Result (List (String × ReadValue)) → Result Bool
  reads_one (err e) = err e
  reads_one (ok ((k, plain (raw n)) ∷ [])) = ok (n == 1)
  reads_one (ok other) = ok false

  unfoldable pub scan_is_idle : Action S Bool
  scan_is_idle s =
      let (r, s') = read_fields bus p ("scan_is_idle" ∷ []) false s in (reads_one r, s')

  unfoldable pub wait_for_scan_idle : Action S (Unit {0})
  wait_for_scan_idle = wait_for_true scan_is_idle n_tries

  unfoldable pub stop : Action S (Unit {0})
  stop =
      write_fields bus p (("reset", key "fifo_reset") ∷ [])
      >> write_fields bus p (("scan_halt", number (pos 1)) ∷ [])
      >> wait_for_scan_idle
      >> write_fields bus p (("reset", key "all_reset") ∷ [])
      >> write_fields bus p (("scan_halt", number (pos 0)) ∷ [])
