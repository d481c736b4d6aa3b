-- ===== src/Metadata/Sender.antt =====
-- `PerVirtualSensorMetadata` and `StaticMetadata` of
-- cobra_system_control/cobra_system_control/metadata.py: the metadata that the system sends with its
-- frames, and the RAW12 bytes that they are packed into. What `random.randrange` draws is an argument.
pub mod Laws
mod Tests
use m.Common.{
  ℕ, ◌*◌, ◌^◌, bit_or, Bool, Option, none, some, List, [], ◌∷◌, ◌==◌, if◌then◌else◌, get_or, set,
  replicate,
}
use m.Common.Bits.{◌<<◌}
use m.Mipi.{ptob_raw12}
use m.Scan.Entry.{Register, at_word}

pub record PerVirtualSensorMetadata : Type 0 where
  pub user_tag : ℕ
  pub binning : ℕ
  pub nn_level : ℕ
  pub s_rows : ℕ
  pub n_rows : ℕ
  pub n_rois : ℕ
  pub rtd_algorithm_common : ℕ
  pub snr_threshold : ℕ
  pub random_virtual_sensor_tag : ℕ
  pub rtd_algorithm_grid_mode : ℕ
  pub rtd_algorithm_stripe_mode : ℕ

pub record StaticMetadata : Type 0 where
  pub rtd_output : ℕ
  pub reduce_mode : ℕ
  pub sensor_sn : ℕ
  pub test_mode : ℕ
  pub quant_mode : ℕ
  pub mipi_raw_mode : ℕ
  pub hdr_threshold : ℕ
  pub system_type : ℕ
  pub rx_pcb_type : ℕ
  pub tx_pcb_type : ℕ
  pub lcm_type : ℕ
  pub range_cal_offset_mm_lo_0807 : ℕ
  pub range_cal_offset_mm_hi_0807 : ℕ
  pub range_cal_mm_per_volt_lo_0807 : ℕ
  pub range_cal_mm_per_volt_hi_0807 : ℕ
  pub range_cal_mm_per_celsius_lo_0807 : ℕ
  pub range_cal_mm_per_celsius_hi_0807 : ℕ
  pub range_cal_offset_mm_lo_0908 : ℕ
  pub range_cal_offset_mm_hi_0908 : ℕ
  pub range_cal_mm_per_volt_lo_0908 : ℕ
  pub range_cal_mm_per_volt_hi_0908 : ℕ
  pub range_cal_mm_per_celsius_lo_0908 : ℕ
  pub range_cal_mm_per_celsius_hi_0908 : ℕ
  pub adc_cal_gain : ℕ
  pub adc_cal_offset : ℕ
  pub random_scan_table_tag : ℕ

-- `tag or random.randrange(2**12-1)`: a tag that is left out or is 0 is drawn.
abbrev pub tag_or_random : Option ℕ → ℕ → ℕ
tag_or_random none drawn = drawn
tag_or_random (some tag) drawn = if tag == 0 then drawn else tag

-- `RAW12_WORDS` of the two classes.
abbrev pub virtual_sensor_raw12_words : ℕ
virtual_sensor_raw12_words = 13

abbrev pub static_raw12_words : ℕ
static_raw12_words = 26

-- `memmap()` of the two classes: the registers in the order of the class, each with the value of its
-- name.
abbrev pub virtual_sensor_memmap : PerVirtualSensorMetadata → List (Register × ℕ)
virtual_sensor_memmap v =
    (at_word 0 0 12, v.user_tag)
    ∷ (at_word 1 0 12, v.binning)
    ∷ (at_word 2 0 3, v.nn_level)
    ∷ (at_word 3 0 12, v.s_rows)
    ∷ (at_word 4 0 12, v.n_rows)
    ∷ (at_word 5 0 12, v.n_rois)
    ∷ (at_word 6 0 12, v.rtd_algorithm_common)
    ∷ (at_word 7 0 12, v.snr_threshold)
    ∷ (at_word 10 0 12, v.random_virtual_sensor_tag)
    ∷ (at_word 11 0 12, v.rtd_algorithm_grid_mode)
    ∷ (at_word 12 0 12, v.rtd_algorithm_stripe_mode)
    ∷ []

abbrev pub static_memmap : StaticMetadata → List (Register × ℕ)
static_memmap s =
    (at_word 0 0 1, s.rtd_output)
    ∷ (at_word 1 0 1, s.reduce_mode)
    ∷ (at_word 2 0 12, s.sensor_sn)
    ∷ (at_word 3 0 2, s.test_mode)
    ∷ (at_word 4 0 2, s.quant_mode)
    ∷ (at_word 5 0 3, s.mipi_raw_mode)
    ∷ (at_word 6 0 12, s.hdr_threshold)
    ∷ (at_word 7 0 12, s.system_type)
    ∷ (at_word 8 0 12, s.rx_pcb_type)
    ∷ (at_word 9 0 12, s.tx_pcb_type)
    ∷ (at_word 10 0 12, s.lcm_type)
    ∷ (at_word 11 0 12, s.range_cal_offset_mm_lo_0807)
    ∷ (at_word 12 0 12, s.range_cal_offset_mm_hi_0807)
    ∷ (at_word 13 0 12, s.range_cal_mm_per_volt_lo_0807)
    ∷ (at_word 14 0 12, s.range_cal_mm_per_volt_hi_0807)
    ∷ (at_word 15 0 12, s.range_cal_mm_per_celsius_lo_0807)
    ∷ (at_word 16 0 12, s.range_cal_mm_per_celsius_hi_0807)
    ∷ (at_word 17 0 12, s.range_cal_offset_mm_lo_0908)
    ∷ (at_word 18 0 12, s.range_cal_offset_mm_hi_0908)
    ∷ (at_word 19 0 12, s.range_cal_mm_per_volt_lo_0908)
    ∷ (at_word 20 0 12, s.range_cal_mm_per_volt_hi_0908)
    ∷ (at_word 21 0 12, s.range_cal_mm_per_celsius_lo_0908)
    ∷ (at_word 22 0 12, s.range_cal_mm_per_celsius_hi_0908)
    ∷ (at_word 23 0 12, s.adc_cal_gain)
    ∷ (at_word 24 0 12, s.adc_cal_offset)
    ∷ (at_word 25 0 12, s.random_scan_table_tag)
    ∷ []

-- The loop of `data_words`: `raw_words[param_def.offset] |= (val << param_def.position)`
unfoldable pub fill : List (Register × ℕ) → List ℕ → List ℕ
fill [] raw_words = raw_words
fill ((param_def, val) ∷ rest) raw_words = fill rest (
    set raw_words param_def.offset
      (bit_or (get_or raw_words param_def.offset 0) (val << param_def.position)))

unfoldable pub virtual_sensor_data_words : PerVirtualSensorMetadata → List ℕ
virtual_sensor_data_words v =
    ptob_raw12 (fill (virtual_sensor_memmap v) (replicate virtual_sensor_raw12_words 0))

unfoldable pub static_data_words : StaticMetadata → List ℕ
static_data_words s = ptob_raw12 (fill (static_memmap s) (replicate static_raw12_words 0))

-- `empty()`
abbrev pub empty_virtual_sensor : PerVirtualSensorMetadata
empty_virtual_sensor = record {
  user_tag = 0;
  binning = 0;
  nn_level = 0;
  s_rows = 0;
  n_rows = 0;
  n_rois = 0;
  rtd_algorithm_common = 0;
  snr_threshold = 0;
  random_virtual_sensor_tag = 0;
  rtd_algorithm_grid_mode = 0;
  rtd_algorithm_stripe_mode = 0;
}

-- `empty_array()`
abbrev pub empty_array : List PerVirtualSensorMetadata
empty_array = replicate 8 empty_virtual_sensor
