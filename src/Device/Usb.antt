-- ===== src/Device/Usb.antt =====
-- `USB` and `USBDevice` of cobra_system_control/cobra_system_control/device.py. The functions of
-- libfx3_transfer.so are parameters. A keyboard interrupt, which ends the program, is not modelled.
pub mod Laws
use m.Common.{
  ℕ, zero, suc, ◌+◌, ◌-◌, Bool, true, false, Option, none, some, List, [], ◌∷◌, ◌++◌, ltb, ◌==◌,
  if◌then◌else◌, length, take, replicate, Result, ok, err, system_exit, not_ended,
}
use m.Common.Action.{Action, return, lift, ◌>>=◌, ◌>>◌}
use m.Common.Raise.{◌>>=◌ as then_do}
use m.Device.Fx3.{Libusb, connect_fx3, write_data, read_data, disconnect_fx3}
use m.Device.Crc.{calculate_crc16}
use m.Device.Pack.{pack, unpack}
use m.MemoryMap.Bus.{Bus}

pub record Usb (S : Type 0) : Type 0 where
  pub vendor_id : ℕ
  pub product_id : ℕ
  pub is_connected : Bool
  pub wire : S

abbrev pub with_wire : {S : Type 0} → S → Usb S → Usb S
with_wire w u = record {
  vendor_id = u.vendor_id;
  product_id = u.product_id;
  is_connected = u.is_connected;
  wire = w;
}

abbrev set_connected : {S : Type 0} → Bool → S → Usb S → Usb S
set_connected b w u = record {
  vendor_id = u.vendor_id;
  product_id = u.product_id;
  is_connected = b;
  wire = w;
}

-- What is done on the wire.
abbrev pub on_wire : {S A : Type 0} → Action S A → Action (Usb S) A
on_wire action u = let (r, w) = action u.wire in (r, with_wire w u)

module _ {S : Type 0} (lib : Libusb S) where
  unfoldable pub connect : Action (Usb S) (Unit {0})
  connect u =
      let opened =
        (on_wire (connect_fx3 lib u.vendor_id u.product_id) >>= λ code v.
        if code == 0 then (ok tt, set_connected true v.wire v) else (err system_exit, v)) in
      if u.is_connected then (ok tt, u) else opened u

  unfoldable pub disconnect : Action (Usb S) (Unit {0})
  disconnect u =
      if u.is_connected
      then (ok tt, set_connected false (disconnect_fx3 lib u.wire) u)
      else (ok tt, u)

  abbrev pub write : List ℕ → Action (Usb S) (Unit {0})
  write bytes = on_wire (write_data lib bytes) >>= λ sent. return tt

  -- `read(length, ba)`; `none` for an argument that is left out.
  abbrev pub read_now : ℕ → Option (List ℕ) → Action (Usb S) (List ℕ)
  read_now n none = on_wire (read_data lib n) >>= λ answer.
      let (received, buffer) = answer in return (take received buffer)
  read_now n (some ba) = on_wire (write_data lib ba) >>= λ sent.
      on_wire (read_data lib sent) >>= λ answer.
      let (received, buffer) = answer in return (take n buffer)

  unfoldable pub read : Option ℕ → Option (List ℕ) → Action (Usb S) (List ℕ)
  read none ba = read_now 1 ba
  read (some n) ba = read_now n ba

  -- The loop of `USBDevice.read_bytes`, for at most 512 bytes a round. The address is counted up and
  -- not used.
  abbrev pub read_loop : ℕ → ℕ → List ℕ → Action (Usb S) (List ℕ)
  read_loop zero n acc = if n == 0 then return acc else lift (err not_ended)
  read_loop (suc fuel) n acc =
      let bytes_to_read = if ltb 512 n then 512 else n in
      if n == 0
      then return acc
      else (read (some bytes_to_read) none >>= λ rb. read_loop fuel (n - bytes_to_read) (acc ++ rb))

  unfoldable pub read_bytes : ℕ → ℕ → Action (Usb S) (List ℕ)
  read_bytes a n = read_loop n n []

-- The settings of a device: its address, and the widths and byte orders of addresses and data.
pub record UsbDevice : Type 0 where
  pub device_addr : ℕ
  pub addr_nbytes : ℕ
  pub data_nbytes : ℕ
  pub addr_bigendian : Bool
  pub data_bigendian : Bool

module _ (d : UsbDevice) where
  abbrev pub addr_pack : ℕ → Result (List ℕ)
  addr_pack v = pack d.addr_bigendian d.addr_nbytes v

  abbrev pub data_pack : ℕ → Result (List ℕ)
  data_pack v = pack d.data_bigendian d.data_nbytes v

  -- `USBDevice.write` packs its arguments; the line that would send them is a comment.
  unfoldable pub device_write : ℕ → ℕ → Result (Unit {0})
  device_write a v = then_do (addr_pack a) (λ addr. then_do (data_pack v) (λ word. ok tt))

  -- `USBDevice.read` unpacks a fresh buffer of zeros.
  unfoldable pub device_read : ℕ → ℕ
  device_read a = unpack d.data_bigendian (replicate d.data_nbytes 0)

  -- The two as the callbacks that `Device.connect` registers, for addresses and words that their
  -- formats hold.
  abbrev pub callbacks : {S : Type 0} → Bus S
  callbacks = record { read = λ a s. (device_read a, s); write = λ a v s. s }

  unfoldable pub write_bytes : {S : Type 0} → Libusb S → ℕ → List ℕ → Action (Usb S) (Unit {0})
  write_bytes lib a bytes = lift (addr_pack a) >>= λ addr. write lib (addr ++ bytes)
