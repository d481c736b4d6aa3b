-- ===== src/Metadata/Buffer/Laws.antt =====
-- What `MetadataBuffer` of metadata.py does with metadata that is written to it.
use Prim.Native.String.{String, ◌++◌ as str_append}
use m.Common.{ℕ, ◌≡◌, refl, ap, List, ◌∷◌, ◌++◌, Exception, Result, ok, err}
use m.Common.Action.{Action, continue, lift, ◌>>◌}
use m.Common.Raise.{◌>>=◌ as then_do}
use m.Device.Usb.{UsbDevice, addr_pack}
use m.MemoryMap.Bus.{Bus}
use m.MemoryMap.Build.{decimal}
use m.MemoryMap.Periph.{Periph}
use m.Scan.Params.{pack_words}
use m.Metadata.Sender.{
  PerVirtualSensorMetadata, StaticMetadata, virtual_sensor_data_words, static_data_words,
}
use m.Metadata.Buffer.{
  byte_array, usb_write, get_abs_addr, send_message, send_all, MetadataBuffer, enable_access,
  write_metadata_buffer_virtual_sensor_data, write_metadata_buffer_static,
}

abbrev Raises : {A : Type 0} → Result A → Type 0
Raises r = (e : Exception) × (r ≡ err e)

-- What is followed by code that raises, raises.
then-Raises :
    {A B : Type 0} (first : Result A) (next : A → Result B)
    → ((x : A) → Raises (next x))
    → Raises (then_do first next)
then-Raises (ok x) next h = h x
then-Raises (err e) next h = (e, refl)

first-Raises :
    {A B : Type 0} (first : Result A) (next : A → Result B)
    → Raises first
    → Raises (then_do first next)
first-Raises first next (e, h) = (e, ap (λ r. then_do r next) h)

byte_array-Raises :
    (d : UsbDevice) (a : ℕ) (bytes : List ℕ) → Raises (usb_write d a (byte_array bytes))
unfolding usb_write
byte_array-Raises d a bytes = then-Raises (addr_pack d a) _ (λ addr. (_, refl))

send_message-Raises :
    (d : UsbDevice) (p : Periph) (field_name : String) (ws : List ℕ)
    → Raises (send_message d p field_name ws)
unfolding send_message
send_message-Raises d p field_name ws = then-Raises (get_abs_addr p field_name) _ (λ addr.
    then-Raises (addr_pack d addr) _ (λ head.
      then-Raises (pack_words d ws) _ (λ words. byte_array-Raises d d.device_addr (head ++ words))))

-- The action raises, and all that it has done is to enable the access.
pub record LeftEnabled {S : Type 0} (bus : Bus S) (lmmi_scan : Periph)
    (action : Action (MetadataBuffer S) (Unit {0})) (b : MetadataBuffer S) : Type 0 where
  pub raised : Exception
  pub runs : action b ≡ (err raised, (enable_access bus lmmi_scan 1 b).1)
  pub remembers_static : (enable_access bus lmmi_scan 1 b).1.static_metadata ≡ b.static_metadata
  pub remembers_virtual_sensors :
      (enable_access bus lmmi_scan 1 b).1.virtual_sensor_metadata ≡ b.virtual_sensor_metadata

module _ {S : Type 0} (bus : Bus S) (lmmi_scan : Periph) where
  from_enabled :
      (t : Result (Unit {0}) × MetadataBuffer S) (r : Result (Unit {0}))
      (rest : Action (MetadataBuffer S) (Unit {0}))
      → Raises r
      → (e : Exception) × (continue
            (λ done. rest)
            (continue (λ done. enable_access bus lmmi_scan 0) (continue (λ done. lift r) t))
          ≡ (err e, t.1))
  from_enabled (err raised, s) r rest h = (raised, refl)
  from_enabled (ok done, s) r rest (e, h) = (e, rw h refl)

  stops :
      (r : Result (Unit {0})) (rest : Action (MetadataBuffer S) (Unit {0})) (b : MetadataBuffer S)
      → Raises r
      → LeftEnabled bus lmmi_scan
          (enable_access bus lmmi_scan 1 >> lift r >> enable_access bus lmmi_scan 0 >> rest)
          b
  stops r rest b h =
      let (e, runs) = from_enabled (enable_access bus lmmi_scan 1 b) r rest h in
      record {
        raised = e;
        runs = runs;
        remembers_static = unfold enable_access in refl;
        remembers_virtual_sensors = unfold enable_access in refl;
      }

module _ {S : Type 0} (bus : Bus S) (lmmi_scan : Periph) (d : UsbDevice) (p : Periph) where
  write_metadata_buffer_static-LeftEnabled :
      (m : StaticMetadata) (b : MetadataBuffer S)
      → LeftEnabled bus lmmi_scan (write_metadata_buffer_static bus lmmi_scan d p m) b
  unfolding write_metadata_buffer_static
  write_metadata_buffer_static-LeftEnabled m b =
      stops bus lmmi_scan (send_message d p "static" (static_data_words m)) _ b
        (send_message-Raises d p "static" (static_data_words m))

  write_metadata_buffer_virtual_sensor_data-LeftEnabled :
      (v : PerVirtualSensorMetadata) (vs : List PerVirtualSensorMetadata) (b : MetadataBuffer S)
      → LeftEnabled bus lmmi_scan
          (write_metadata_buffer_virtual_sensor_data bus lmmi_scan d p (v ∷ vs))
          b
  unfolding write_metadata_buffer_virtual_sensor_data send_all
  write_metadata_buffer_virtual_sensor_data-LeftEnabled v vs b =
      let field_name = str_append "virtual_sensor_" (decimal 0 0) in
      stops bus lmmi_scan (send_all d p 0 (v ∷ vs)) _ b (
        first-Raises (send_message d p field_name (virtual_sensor_data_words v)) _
          (send_message-Raises d p field_name (virtual_sensor_data_words v)))

  -- Writing metadata for the frame, or for a first virtual sensor, always raises. The state is then
  -- the one that the write that enables the access has led to: nothing is sent, the access is not
  -- disabled again, and the metadata that the object remembers are as before.
  pub write_metadata_buffer-LeftEnabled :
      (m : StaticMetadata) (v : PerVirtualSensorMetadata) (vs : List PerVirtualSensorMetadata)
      (b : MetadataBuffer S)
      → LeftEnabled bus lmmi_scan (write_metadata_buffer_static bus lmmi_scan d p m) b
        × LeftEnabled bus lmmi_scan
            (write_metadata_buffer_virtual_sensor_data bus lmmi_scan d p (v ∷ vs))
            b
  write_metadata_buffer-LeftEnabled m v vs b = (
    write_metadata_buffer_static-LeftEnabled m b,
    write_metadata_buffer_virtual_sensor_data-LeftEnabled v vs b,
  )
