-- ===== src/Scan/Params.antt =====
-- `ScanParams` of cobra_system_control/cobra_system_control/scan_control.py: writing the scan table to
-- the scan parameter memory of the FPGA, one message for an entry.
pub mod Message
use m.Common.{
  ℕ, bit_and, bit_or, Bool, true, false, Option, none, some, List, [], ◌∷◌, ◌++◌, Result, ok, err,
  ◌>>=◌,
}
use m.Common.Action.{Action, return, lift, ◌>>=◌ as then_do, ◌>>◌}
use m.Common.Bits.{◌>>>◌}
use m.Device.Crc.{calculate_crc16}
use m.Device.Fx3.{Libusb}
use m.Device.Usb.{Usb, UsbDevice, addr_pack, data_pack, write, read}
use m.Scan.Entry.{ScanEntry, addr, data_words}
use m.Scan.Table.{ScanTable, valid_ptr_range as table_ptr_range}

-- The constructor's arguments for the device: addresses of two bytes, the highest first, and words
-- of four, the lowest first.
abbrev pub scan_params_device : ℕ → UsbDevice
scan_params_device device_addr = record {
  device_addr = device_addr;
  addr_nbytes = 2;
  data_nbytes = 4;
  addr_bigendian = true;
  data_bigendian = false;
}

pub record ScanParams (S : Type 0) : Type 0 where
  pub scan_table : Option ScanTable
  pub usb : Usb S

-- `for d in e.data_words: ba.extend(struct.pack(...))`
abbrev pub pack_words : UsbDevice → List ℕ → Result (List ℕ)
pack_words d [] = ok []
pack_words d (w ∷ ws) = data_pack d w >>= λ word. pack_words d ws >>= λ rest. ok (word ++ rest)

-- The two bytes of the checksum after the message.
abbrev pub with_crc : List ℕ → List ℕ
with_crc ba = ba ++ bit_and (calculate_crc16 ba >>> 8) 0xFF ∷ bit_and (calculate_crc16 ba) 0xFF ∷ []

-- The message of an entry, for a peripheral at `addr_base`.
unfoldable pub entry_message : UsbDevice → ℕ → ScanEntry → Result (List ℕ)
entry_message d addr_base e = do
  at ← addr_pack d (bit_or (addr e) addr_base)
  device ← addr_pack d d.device_addr
  words ← pack_words d (data_words e)
  ok (with_crc (at ++ (device ++ words)))

module _ {S : Type 0} (lib : Libusb S) (d : UsbDevice) (addr_base : ℕ) where
  -- `for e in table.scan_entries`
  abbrev pub write_entries : List ScanEntry → Action (Usb S) (Unit {0})
  write_entries [] = return tt
  write_entries (e ∷ entries) =
      then_do (lift (entry_message d addr_base e))
        (λ ba. write lib ba >> then_do (read lib none none) (λ answer. write_entries entries))

  -- The table is remembered once all its entries are written.
  abbrev pub remember :
      ScanTable → ScanParams S → Result (Unit {0}) × Usb S → Result (Unit {0}) × ScanParams S
  remember table p (err e, u) = (err e, record { scan_table = p.scan_table; usb = u })
  remember table p (ok done, u) = (ok tt, record { scan_table = some table; usb = u })

  unfoldable pub write_scan_table : ScanTable → Action (ScanParams S) (Unit {0})
  write_scan_table table p = remember table p (write_entries table.scan_entries p.usb)

module _ {S : Type 0} where
  unfoldable pub valid_ptr_range : ScanParams S → Option (ℕ × ℕ)
  valid_ptr_range p = elim p.scan_table [ none ↦ none | some table ↦ some (table_ptr_range table) ]

  unfoldable pub disconnect : Action (ScanParams S) (Unit {0})
  disconnect p = (ok tt, record { scan_table = none; usb = p.usb })
