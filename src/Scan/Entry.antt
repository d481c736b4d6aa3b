-- ===== src/Scan/Entry.antt =====
-- `ScanEntry` of cobra_system_control/cobra_system_control/scan_control.py: the parameters of an entry
-- of the scan table and the words that they are packed into. The values are the integers that
-- `build` passes; the conversion of floats in `data_words` is not modelled.
pub mod Words
pub mod Laws
use m.Common.{
  ℕ, ◌+◌, ◌*◌, ◌^◌, bit_or, Bool, true, ◌&&◌, List, [], ◌∷◌, ◌==◌, ltb, if◌then◌else◌, get_or, set,
  replicate,
}
use m.Common.Bits.{◌<<◌}

-- `Register` of validation_utilities.py: the place of a parameter among the words.
pub record Register : Type 0 where
  pub offset : ℕ
  pub position : ℕ
  pub size : ℕ

abbrev pub at_word : ℕ → ℕ → ℕ → Register
at_word o p s = record { offset = o; position = p; size = s }

-- `==` of the data class.
abbrev pub same_register : Register → Register → Bool
same_register r q = (r.offset == q.offset) && (r.position == q.position) && (r.size == q.size)

pub record ScanEntry : Type 0 where
  pub roi_sel : ℕ
  pub roi_id : ℕ
  pub virtual_sensor_bitmask : ℕ
  pub start_stop_flags : ℕ
  pub min_frm_length : ℕ
  pub laser_ci_hdr : ℕ
  pub laser_ci : ℕ
  pub npulse_group_f1 : ℕ
  pub npulse_group_f0 : ℕ
  pub mod_freq1_opt : ℕ
  pub mod_freq0_opt : ℕ
  pub sensor_mode : ℕ
  pub rwin0_l : ℕ
  pub rwin0_s : ℕ
  pub dpulse_group_f1 : ℕ
  pub dpulse_group_f0 : ℕ
  pub sync_laser_lvds_mg : ℕ
  pub inte_burst_length_f1 : ℕ
  pub inte_burst_length_f0 : ℕ
  pub inte_burst_length_f1_hdr : ℕ
  pub inte_burst_length_f0_hdr : ℕ
  pub steering_idx : ℕ
  pub pol_cnt_tc_1 : ℕ
  pub pol_cnt_tc_0 : ℕ
  pub tp1_period_1 : ℕ
  pub tp1_period_0 : ℕ
  pub ito_phase_tc_1 : ℕ
  pub ito_phase_tc_0 : ℕ
  pub ito_toggle_tc_1 : ℕ
  pub ito_toggle_tc_0 : ℕ
  pub scan_fetch_delay : ℕ
  pub scan_trigger_delay : ℕ

abbrev pub roi_sel_register : Register
roi_sel_register = at_word 0 6 9

-- `LaserMgSync(value).field` of itof.py; an entry has that of 1 where the argument is left out.
abbrev pub laser_mg_sync_field : ℕ → ℕ
laser_mg_sync_field value = (value + 1) * 21

abbrev pub default_sync_laser_lvds_mg : ℕ
default_sync_laser_lvds_mg = laser_mg_sync_field 1

-- `memmap()`: the registers in the order of the class, each with the entry's value of its name.
abbrev pub memmap : ScanEntry → List (Register × ℕ)
memmap e =
    (roi_sel_register, e.roi_sel)
    ∷ (at_word 0 0 12, e.roi_id)
    ∷ (at_word 1 24 8, e.virtual_sensor_bitmask)
    ∷ (at_word 2 0 32, e.start_stop_flags)
    ∷ (at_word 3 16 16, e.min_frm_length)
    ∷ (at_word 4 12 12, e.laser_ci_hdr)
    ∷ (at_word 4 0 12, e.laser_ci)
    ∷ (at_word 5 20 12, e.npulse_group_f1)
    ∷ (at_word 5 8 12, e.npulse_group_f0)
    ∷ (at_word 5 4 3, e.mod_freq1_opt)
    ∷ (at_word 5 0 3, e.mod_freq0_opt)
    ∷ (at_word 6 30 2, e.sensor_mode)
    ∷ (at_word 6 21 9, e.rwin0_l)
    ∷ (at_word 6 12 9, e.rwin0_s)
    ∷ (at_word 6 6 6, e.dpulse_group_f1)
    ∷ (at_word 6 0 6, e.dpulse_group_f0)
    ∷ (at_word 7 24 6, e.sync_laser_lvds_mg)
    ∷ (at_word 7 12 12, e.inte_burst_length_f1)
    ∷ (at_word 7 0 12, e.inte_burst_length_f0)
    ∷ (at_word 8 12 12, e.inte_burst_length_f1_hdr)
    ∷ (at_word 8 0 12, e.inte_burst_length_f0_hdr)
    ∷ (at_word 9 16 9, e.steering_idx)
    ∷ (at_word 9 8 8, e.pol_cnt_tc_1)
    ∷ (at_word 9 0 8, e.pol_cnt_tc_0)
    ∷ (at_word 10 16 16, e.tp1_period_1)
    ∷ (at_word 10 0 16, e.tp1_period_0)
    ∷ (at_word 11 16 16, e.ito_phase_tc_1)
    ∷ (at_word 11 0 16, e.ito_phase_tc_0)
    ∷ (at_word 12 16 16, e.ito_toggle_tc_1)
    ∷ (at_word 12 0 16, e.ito_toggle_tc_0)
    ∷ (at_word 13 16 16, e.scan_fetch_delay)
    ∷ (at_word 13 0 16, e.scan_trigger_delay)
    ∷ []

-- `addr`
abbrev pub addr : ScanEntry → ℕ
addr e = e.roi_sel << roi_sel_register.position

-- A round of the loop of `data_words`.
abbrev pub place : Register → ℕ → List ℕ → List ℕ
place r val words =
    if same_register r roi_sel_register
    then words
    else set words r.offset (bit_or (get_or words r.offset 0) (val << r.position))

abbrev pub place_all : List (Register × ℕ) → List ℕ → List ℕ
place_all [] words = words
place_all ((r, val) ∷ rest) words = place_all rest (place r val words)

abbrev pub data_nwords : ℕ
data_nwords = 16

unfoldable pub data_words : ScanEntry → List ℕ
data_words e = place_all (memmap e) (replicate data_nwords 0)

-- The check that is a comment in `Register.__set__`, made of every value.
abbrev pub all_in_bounds : List (Register × ℕ) → Bool
all_in_bounds [] = true
all_in_bounds ((r, val) ∷ rest) = ltb val (2 ^ r.size) && all_in_bounds rest

abbrev pub in_bounds : ScanEntry → Bool
in_bounds e = all_in_bounds (memmap e)
