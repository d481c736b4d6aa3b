-- ===== src/Metadata/Buffer.antt =====
-- `MetadataBuffer` of cobra_system_control/cobra_system_control/metadata.py: writing the metadata to
-- the peripheral of the FPGA, while the scan peripheral enables the access. What is read is not
-- modelled.
pub mod Laws
use Prim.Native.String.{String, ◌++◌ as str_append}
use m.Common.{
  ℕ, suc, ◌+◌, Option, none, some, List, [], ◌∷◌, ◌++◌, Result, ok, err, key_error, struct_error,
}
use m.Common.Action.{Action, lift, ◌>>=◌, ◌>>◌}
use m.Common.Int.{pos}
use m.Common.Raise.{◌>>=◌ as then_do}
use m.Device.Usb.{UsbDevice, addr_pack, device_write}
use m.MemoryMap.Bus.{Bus}
use m.MemoryMap.Build.{decimal}
use m.MemoryMap.Periph.{Periph, lookup, number, write_fields, get_field_addr}
use m.Scan.Params.{pack_words}
use m.Metadata.Sender.{
  PerVirtualSensorMetadata, StaticMetadata, virtual_sensor_data_words, static_data_words,
}

-- What is given to `USBDevice.write` as its data.
pub data Data : Type 0 where
  word : ℕ → Data
  byte_array : List ℕ → Data

-- `USBDevice.write(addr, data)`: `struct.pack` of a byte array raises.
pub usb_write : UsbDevice → ℕ → Data → Result (Unit {0})
usb_write d a (word v) = device_write d a v
usb_write d a (byte_array bytes) = then_do (addr_pack d a) (λ addr. err struct_error)

-- `get_abs_addr`
pub get_abs_addr : Periph → String → Result ℕ
get_abs_addr p field_name = elim (lookup field_name p.fields) [
  | none ↦ err key_error
  | some f ↦ ok (get_field_addr p f)
]

-- The lines between the writes of `scan_lmmi_meta_en`, for one message.
pub send_message : UsbDevice → Periph → String → List ℕ → Result (Unit {0})
send_message d p field_name data_words = then_do (get_abs_addr p field_name) (λ addr.
    then_do (addr_pack d addr) (λ head.
      then_do (pack_words d data_words)
        (λ words. usb_write d d.device_addr (byte_array (head ++ words)))))

-- The rounds of the loop over the virtual sensors, from `i` on.
pub send_all : UsbDevice → Periph → ℕ → List PerVirtualSensorMetadata → Result (Unit {0})
send_all d p i [] = ok tt
send_all d p i (v ∷ rest) =
    then_do
      (send_message d p (str_append "virtual_sensor_" (decimal i i)) (virtual_sensor_data_words v))
      (λ done. send_all d p (suc i) rest)

-- The object's state, with that of the hardware.
pub record MetadataBuffer (S : Type 0) : Type 0 where
  pub virtual_sensor_metadata : Option (List PerVirtualSensorMetadata)
  pub static_metadata : Option StaticMetadata
  pub hardware : S

abbrev pub with_hardware : {S : Type 0} → S → MetadataBuffer S → MetadataBuffer S
with_hardware s b = record {
  virtual_sensor_metadata = b.virtual_sensor_metadata;
  static_metadata = b.static_metadata;
  hardware = s;
}

module _ {S : Type 0} (bus : Bus S) (lmmi_scan : Periph) where
  -- `self._lmmi_scan.write_fields(scan_lmmi_meta_en=en)`
  pub enable_access : ℕ → Action (MetadataBuffer S) (Unit {0})
  enable_access en b =
      let (r, s) =
        write_fields bus lmmi_scan (("scan_lmmi_meta_en", number (pos en)) ∷ []) b.hardware in
      (r, with_hardware s b)

module _ {S : Type 0} (bus : Bus S) (lmmi_scan : Periph) (d : UsbDevice) (p : Periph) where
  unfoldable pub write_metadata_buffer_virtual_sensor_data :
      List PerVirtualSensorMetadata → Action (MetadataBuffer S) (Unit {0})
  write_metadata_buffer_virtual_sensor_data vs =
      enable_access bus lmmi_scan 1
      >> lift (send_all d p 0 vs)
      >> enable_access bus lmmi_scan 0
      >> λ b. (
        ok tt,
        record {
          virtual_sensor_metadata = some vs;
          static_metadata = b.static_metadata;
          hardware = b.hardware;
        },
      )

  unfoldable pub write_metadata_buffer_static :
      StaticMetadata → Action (MetadataBuffer S) (Unit {0})
  write_metadata_buffer_static m =
      enable_access bus lmmi_scan 1
      >> lift (send_message d p "static" (static_data_words m))
      >> enable_access bus lmmi_scan 0
      >> λ b. (
        ok tt,
        record {
          virtual_sensor_metadata = b.virtual_sensor_metadata;
          static_metadata = some m;
          hardware = b.hardware;
        },
      )
