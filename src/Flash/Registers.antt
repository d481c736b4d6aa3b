-- ===== src/Flash/Registers.antt =====
-- The registers of `QspiController` as `Device` of device.py reaches them: the fields through the
-- callbacks of `USBDevice`, the bytes through the USB link.
pub mod Laws
use Prim.Native.String.{String}
use m.Common.{ℕ, false, none, some, List, [], ◌∷◌, Result, ok, err, key_error, type_error}
use m.Common.Action.{lift, ◌>>=◌}
use m.Common.Int.{pos}
use m.Device.Fx3.{Libusb}
use m.Device.Usb.{Usb, UsbDevice, callbacks, write_bytes, read_bytes}
use m.MemoryMap.Periph.{
  Periph, ReadValue, plain, raw, number, lookup, write_fields, read_fields, get_field_addr,
}
use m.Flash.Qspi.{Registers}

-- `get_field_addr(name)`
abbrev pub field_address : Periph → String → Result ℕ
field_address p field_name = elim (lookup field_name p.fields) [
  | none ↦ err key_error
  | some f ↦ ok (get_field_addr p f)
]

-- `read_fields` of one field gives its value.
abbrev pub only_value : List (String × ReadValue) → Result ℕ
only_value ((k, plain (raw n)) ∷ []) = ok n
only_value other = err type_error

unfoldable pub device_registers : {S : Type 0} → Libusb S → UsbDevice → Periph → Registers (Usb S)
device_registers lib d p = record {
  write_field = λ field_name v. write_fields (callbacks d) p ((field_name, number (pos v)) ∷ []);
  read_field = λ field_name.
      read_fields (callbacks d) p (field_name ∷ []) false >>= λ vs. lift (only_value vs);
  write_bytes =
      λ field_name bytes. lift (field_address p field_name) >>= λ a. write_bytes d lib a bytes;
  read_bytes = λ field_name n. lift (field_address p field_name) >>= λ a. read_bytes lib a n;
}
