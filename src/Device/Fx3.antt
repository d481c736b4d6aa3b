-- ===== src/Device/Fx3.antt =====
-- cobra_system_control/cobra_system_control/fx3_transfer.cpp. The calls of libusb are a parameter. A
-- `USBException` leaves the library through ctypes and ends the program; it is a value here.
use m.Common.{
  ℕ, Bool, true, false, Option, none, some, List, ◌++◌, ltb, length, take, replicate, ok, err,
  usb_exception,
}
use m.Common.Action.{Action, ◌>>◌, check, return}

-- A test is `false` where the call gives a negative code or no handle; what is received is the bytes
-- that came before the timeout.
pub record Libusb (S : Type 0) : Type 0 where
  pub init : S → Bool × S
  pub open_device : ℕ → ℕ → S → Bool × S
  pub claim_interface : S → Bool × S
  pub find_endpoints : S → Bool × S
  pub bulk_out : List ℕ → S → Bool × S
  pub bulk_in : ℕ → S → Option (List ℕ) × S
  pub close : S → S

abbrev pub buffer_size : ℕ
buffer_size = 1024

-- A call that has to succeed.
abbrev pub succeeds : {S : Type 0} → (S → Bool × S) → Action S (Unit {0})
succeeds call s =
    let (done, t) = call s in elim done [ true ↦ (ok tt, t) | false ↦ (err usb_exception, t) ]

module _ {S : Type 0} (lib : Libusb S) where
  -- `connectFX3`
  unfoldable pub connect_fx3 : ℕ → ℕ → Action S ℕ
  connect_fx3 vendor_id product_id = do
    succeeds lib.init
    succeeds (lib.open_device vendor_id product_id)
    succeeds lib.claim_interface
    succeeds lib.find_endpoints
    return 0

  -- `writeData`
  unfoldable pub write_data : List ℕ → Action S ℕ
  write_data bytes = do
    check (ltb buffer_size (length bytes)) usb_exception
    succeeds (lib.bulk_out bytes)
    return (length bytes)

  -- `readData` into a buffer of zeros.
  unfoldable pub read_data : ℕ → Action S (ℕ × List ℕ)
  read_data n = check (ltb buffer_size n) usb_exception >> λ s.
      let (received, t) = lib.bulk_in n s in
      elim received [
        | none ↦ (err usb_exception, t)
        | some bytes ↦ (ok (length bytes, take n (bytes ++ replicate n 0)), t)
      ]

  -- `disconnectFX3`
  abbrev pub disconnect_fx3 : S → S
  disconnect_fx3 = lib.close
