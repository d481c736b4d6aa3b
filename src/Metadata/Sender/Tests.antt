-- ===== src/Metadata/Sender/Tests.antt =====
-- Metadata of metadata.py at concrete values, and its laws there.
use m.Common.{
  ℕ, ◌+◌, ◌≡◌, refl, none, [], ◌∷◌, ◌++◌, replicate, true, false, arith, if◌then◌else◌, ◌==◌,
}
use m.Device.Usb.{UsbDevice}
use m.MemoryMap.Bus.{Bus}
use m.MemoryMap.Field.{Field}
use m.MemoryMap.Periph.{Periph}
use m.Metadata.{item, fov_word}
use m.Metadata.Buffer.{
  MetadataBuffer, write_metadata_buffer_static, write_metadata_buffer_virtual_sensor_data,
}
use m.Metadata.Buffer.Laws.{LeftEnabled, write_metadata_buffer-LeftEnabled}
use m.Metadata.Received.{fov_word-virtual_sensor_data_words, item-static_data_words}
use m.Mipi.{ptob_raw12, btop_raw12}
use m.Metadata.Sender.{
  fill, PerVirtualSensorMetadata, StaticMetadata, empty_virtual_sensor, virtual_sensor_data_words,
  static_data_words, static_memmap,
}
use m.Metadata.Sender.Laws.{Decodes, values, virtual_sensor_values, static_data_words-Decodes}

abbrev sensor : PerVirtualSensorMetadata
sensor = record empty_virtual_sensor { user_tag = 0xabc; nn_level = 7; snr_threshold = 0x123 }

abbrev frame : StaticMetadata
frame = record {
  rtd_output = 1;
  reduce_mode = 0;
  sensor_sn = 0xfff;
  test_mode = 3;
  quant_mode = 2;
  mipi_raw_mode = 5;
  hdr_threshold = 4095;
  system_type = 30;
  rx_pcb_type = 1;
  tx_pcb_type = 2;
  lcm_type = 3;
  range_cal_offset_mm_lo_0807 = 4;
  range_cal_offset_mm_hi_0807 = 5;
  range_cal_mm_per_volt_lo_0807 = 6;
  range_cal_mm_per_volt_hi_0807 = 7;
  range_cal_mm_per_celsius_lo_0807 = 8;
  range_cal_mm_per_celsius_hi_0807 = 9;
  range_cal_offset_mm_lo_0908 = 10;
  range_cal_offset_mm_hi_0908 = 11;
  range_cal_mm_per_volt_lo_0908 = 12;
  range_cal_mm_per_volt_hi_0908 = 13;
  range_cal_mm_per_celsius_lo_0908 = 14;
  range_cal_mm_per_celsius_hi_0908 = 15;
  adc_cal_gain = 16;
  adc_cal_offset = 17;
  random_scan_table_tag = 0xabc;
}

sensor_bytes :
    virtual_sensor_data_words sensor
    ≡ 0xab ∷ 0 ∷ 0x0c ∷ 0 ∷ 0 ∷ 0x07 ∷ 0 ∷ 0 ∷ 0 ∷ 0 ∷ 0x12 ∷ 0x30 ∷ 0 ∷ 0 ∷ 0 ∷ 0 ∷ 0 ∷ 0 ∷ 0 ∷ 0
      ∷ 0 ∷ []
unfolding virtual_sensor_data_words ptob_raw12 fill
sensor_bytes = refl

frame-Decodes : Decodes (static_data_words frame) (values (static_memmap frame)) 39
frame-Decodes = static_data_words-Decodes frame refl

-- The place of the second virtual sensor.
fov_word-virtual_sensor_data_words_example :
    fov_word (btop_raw12 (replicate 348 7 ++ (virtual_sensor_data_words sensor ++ (9 ∷ [])))) 1 7
    ≡ item (virtual_sensor_values sensor ++ (0 ∷ [])) 7
fov_word-virtual_sensor_data_words_example =
    fov_word-virtual_sensor_data_words sensor (replicate 348 7) (9 ∷ []) 1 7 refl refl (omega arith)

item-static_data_words_example :
    item (btop_raw12 (replicate 72 7 ++ (static_data_words frame ++ (9 ∷ [])))) (48 + 6)
    ≡ item (values (static_memmap frame)) 6
item-static_data_words_example =
    item-static_data_words frame (replicate 72 7) (9 ∷ []) 6 refl refl (omega arith)

-- A device that keeps its words, with the periphery that the two classes use.
abbrev words_bus : Bus (ℕ → ℕ)
words_bus = record { read = λ a s. (s a, s); write = λ a v s. λ b. if a == b then v else s b }

abbrev one_bit : ℕ → ℕ → Field
one_bit o p = record { offset = o; position = p; size = 1; n_words = 1; mnemonic = [] }

abbrev scan_registers : Periph
scan_registers = record {
  addr_base = 0;
  word_size = 8;
  fields = ("scan_lmmi_meta_en", one_bit 1 4) ∷ [];
}

abbrev meta_registers : Periph
meta_registers = record {
  addr_base = 0;
  word_size = 8;
  fields = ("static", one_bit 0x48 0) ∷ ("virtual_sensor_0", one_bit 0x12c 0) ∷ [];
}

abbrev meta_device : UsbDevice
meta_device = record {
  device_addr = 0x10;
  addr_nbytes = 2;
  data_nbytes = 1;
  addr_bigendian = true;
  data_bigendian = false;
}

abbrev buffer : MetadataBuffer (ℕ → ℕ)
buffer = record { virtual_sensor_metadata = none; static_metadata = none; hardware = λ a. 0 }

write_metadata_buffer-LeftEnabled_example :
    LeftEnabled words_bus scan_registers
      (write_metadata_buffer_static words_bus scan_registers meta_device meta_registers frame)
      buffer
    × LeftEnabled words_bus scan_registers
        (write_metadata_buffer_virtual_sensor_data words_bus scan_registers meta_device
          meta_registers
          (sensor ∷ []))
        buffer
write_metadata_buffer-LeftEnabled_example =
    write_metadata_buffer-LeftEnabled words_bus scan_registers meta_device meta_registers frame
      sensor [] buffer
