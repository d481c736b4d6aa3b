-- ===== src/Scan/Tests.antt =====
-- The laws of the scan table on concrete entries.
use m.Common.{
  ℕ, ◌≡◌, ◌↔◌, ◌≢◌, refl, true, false, List, [], ◌∷◌, length, ok, err, timeout_error, value_error,
}
use m.Common.All.{All}
use m.Device.Usb.{UsbDevice, callbacks}
use m.MemoryMap.Field.{Field}
use m.MemoryMap.Periph.{Periph, lookup}
use m.Scan.Control.{wait_for_scan_idle, stop}
use m.Scan.Control.Laws.{stop_times_out}
use m.Scan.Entry.{ScanEntry, memmap, data_words, data_nwords, at_word}
use m.Scan.Entry.Laws.{register_value-data_words, data_words-Words, data_only}
use m.Scan.Entry.Words.{register_value, Word}
use m.Scan.Table.{ScanTable, make_table, sorted_roi_sel}
use m.Scan.Table.Accepted.{Contiguous, make_table_iff}

abbrev entry : ℕ → ScanEntry
entry n = record {
  roi_sel = n;
  roi_id = 5;
  virtual_sensor_bitmask = 3;
  start_stop_flags = 0x12;
  min_frm_length = 1000;
  laser_ci_hdr = 7;
  laser_ci = 4095;
  npulse_group_f1 = 1;
  npulse_group_f0 = 1;
  mod_freq1_opt = 1;
  mod_freq0_opt = 1;
  sensor_mode = 1;
  rwin0_l = 1;
  rwin0_s = 1;
  dpulse_group_f1 = 1;
  dpulse_group_f0 = 1;
  sync_laser_lvds_mg = 42;
  inte_burst_length_f1 = 1;
  inte_burst_length_f0 = 1;
  inte_burst_length_f1_hdr = 1;
  inte_burst_length_f0_hdr = 1;
  steering_idx = 1;
  pol_cnt_tc_1 = 1;
  pol_cnt_tc_0 = 1;
  tp1_period_1 = 1;
  tp1_period_0 = 1;
  ito_phase_tc_1 = 1;
  ito_phase_tc_0 = 1;
  ito_toggle_tc_1 = 1;
  ito_toggle_tc_0 = 1;
  scan_fetch_delay = 1;
  scan_trigger_delay = 1;
}

register_value-data_words_example :
    All (λ rv. register_value rv.0 (data_words (entry 3)) ≡ rv.1) (data_only (memmap (entry 3)))
register_value-data_words_example = register_value-data_words (entry 3) refl

words_of_entry : (length (data_words (entry 3)) ≡ data_nwords) × All Word (data_words (entry 3))
words_of_entry = data_words-Words (entry 3) refl

-- A value that is too large for its register goes into the next one: nothing checks it.
abbrev too_bright : ScanEntry
too_bright = record (entry 3) { laser_ci = 4096; laser_ci_hdr = 6 }

laser_ci_spills : register_value (at_word 4 12 12) (data_words too_bright) ≡ 7
unfolding data_words
laser_ci_spills = refl

abbrev two_entries : List ScanEntry
two_entries = entry 3 ∷ entry 2 ∷ []

abbrev two_table : ScanTable
two_table = record { scan_entries = two_entries; first_ptr = 2; last_ptr = 3 }

two_made : make_table two_entries ≡ ok two_table
unfolding make_table sorted_roi_sel
two_made = refl

make_table_iff_example : (make_table two_entries ≡ ok two_table) ↔ Contiguous two_entries 2 3
make_table_iff_example = make_table_iff two_entries 2 3

gap_refused : make_table (entry 3 ∷ entry 1 ∷ []) ≡ err value_error
unfolding make_table sorted_roi_sel
gap_refused = refl

abbrev scan_device : UsbDevice
scan_device = record {
  device_addr = 0x10;
  addr_nbytes = 2;
  data_nbytes = 1;
  addr_bigendian = true;
  data_bigendian = false;
}

abbrev idle_field : Field
idle_field = record { offset = 4; position = 0; size = 1; n_words = 1; mnemonic = [] }

abbrev scan_periph : Periph
scan_periph = record { addr_base = 0; word_size = 8; fields = ("scan_is_idle", idle_field) ∷ [] }

stop_times_out_example :
    (wait_for_scan_idle {S = ℕ} (callbacks scan_device) scan_periph 0 ≡ (err timeout_error, 0))
    × ((t : ℕ) → stop {S = ℕ} (callbacks scan_device) scan_periph 0 ≢ (ok tt, t))
unfolding lookup
stop_times_out_example = stop_times_out scan_device scan_periph idle_field 0 refl
