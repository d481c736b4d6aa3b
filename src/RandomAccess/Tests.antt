-- ===== src/RandomAccess/Tests.antt =====
-- The laws of random access scanning on concrete scans.
use m.Common.{
  Bool, leb, ltb, ℕ, ◌≡◌, refl, List, [], ◌∷◌, ◌==◌, if◌then◌else◌, ok, arith, replicate,
}
use m.Common.Int.{ℤ, pos, negsuc}
use m.RandomAccess.Schedule.{Item, column, setting, schedule_scan}
use m.RandomAccess.Schedule.Laws.{
  HasEntries, no_items, kept_item, list_item, Scheduled, schedule_scan-Scheduled,
}
use m.RandomAccess.Schedule.Order.{IsOrder}
use m.RandomAccess.Settings.{
  single, sequence, RandomAccessSettings, VirtualSensors, check_settings, get_common_length,
  cast_to_sequence,
}
use m.RandomAccess.Settings.Accepted.{Accepted, check_settings-Accepted}
use Prim.Native.String.{String}
use m.RandomAccess.Flags.{flag_of, replace_flag, flag_equalizer}
use m.RandomAccess.Flags.Laws.{flag_of-replace_flag}
use m.RandomAccess.Flags.Settled.{Equalized, flag_equalizer-Equalized}

-- `np.round(np.linspace(0, 4, 3))`, whatever is asked.
abbrev halves : ℕ → ℕ → List ℕ
halves n k = 0 ∷ 2 ∷ 4 ∷ []

-- Two sensors that share their entries: one needs new flags, the other the reversed ones.
abbrev shared_flags : List ℕ
shared_flags = 0x20 ∷ 0x01 ∷ 0x00 ∷ 0x11 ∷ []

equalized :
    flag_equalizer halves shared_flags (3 ∷ 3 ∷ 3 ∷ 3 ∷ []) (2 ∷ 1 ∷ [])
    ≡ ok (0x11 ∷ 0x02 ∷ 0x01 ∷ 0x22 ∷ [])
unfolding flag_equalizer replace_flag
equalized = refl

flag_equalizer-Equalized_example :
    Equalized halves (3 ∷ 3 ∷ 3 ∷ 3 ∷ []) 0 2 shared_flags (0x11 ∷ 0x02 ∷ 0x01 ∷ 0x22 ∷ [])
flag_equalizer-Equalized_example =
    flag_equalizer-Equalized halves shared_flags (3 ∷ 3 ∷ 3 ∷ 3 ∷ []) (2 ∷ 1 ∷ [])
      (0x11 ∷ 0x02 ∷ 0x01 ∷ 0x22 ∷ []) equalized

replaced_flag : flag_of 0 (replace_flag 0x21 3 1) ≡ (if 1 == 0 then 3 else flag_of 0 0x21)
replaced_flag = flag_of-replace_flag 0x21 3 1 0 (omega arith)

-- Whole degrees.
abbrev within_45 : ℤ → Bool
within_45 (pos n) = leb n 45
within_45 (negsuc n) = ltb n 45

abbrev two_sensors : RandomAccessSettings ℤ
two_sensors = record {
  angle_range = (negsuc 44 ∷ pos 45 ∷ pos 1 ∷ []) ∷ (pos 0 ∷ pos 10 ∷ pos 1 ∷ []) ∷ [];
  fps_multiple = sequence (0 ∷ 2 ∷ []);
  laser_power_percent = single 100;
  inte_time_us = single 15;
  frame_rate_hz = single 840;
  max_range_m = single 252;
  user_tag = single 7;
  binning = single 2;
  nn_level = single 0;
  rtd_algorithm_common = single 0;
  rtd_algorithm_grid_mode = single 0;
  rtd_algorithm_stripe_mode = single 0;
  snr_threshold = single 160;
  hdr_threshold = single 4095;
  hdr_laser_power_percent = single 40;
  hdr_inte_time_us = single 5;
}

abbrev two_checked : VirtualSensors ℤ
two_checked = record {
  angles = (negsuc 44, pos 45, pos 1) ∷ (pos 0, pos 10, pos 1) ∷ [];
  fps = 1 ∷ 2 ∷ [];
  powers = replicate 2 100;
  inte_times = replicate 2 15;
  frame_rates = replicate 2 840;
  max_ranges = replicate 2 252;
  user_tags = replicate 2 7;
  binnings = replicate 2 2;
  nn_levels = replicate 2 0;
  algorithms_common = replicate 2 0;
  algorithms_grid = replicate 2 0;
  algorithms_stripe = replicate 2 0;
  snr_thresholds = replicate 2 160;
  hdr_powers = replicate 2 40;
  hdr_inte_times = replicate 2 5;
}

two_pass : check_settings within_45 (λ x. ok x) two_sensors ≡ ok two_checked
unfolding check_settings get_common_length cast_to_sequence
two_pass = refl

check_settings-Accepted_example : Accepted within_45 (λ x. ok x) two_sensors two_checked
check_settings-Accepted_example =
    check_settings-Accepted within_45 (λ x. ok x) two_sensors two_checked two_pass

-- One triplet of angles and a multiple for each of nine sensors get past the limit of eight.
abbrev nine_sensors : RandomAccessSettings ℤ
nine_sensors = record {
  angle_range = (negsuc 44 ∷ pos 45 ∷ pos 1 ∷ []) ∷ [];
  fps_multiple = sequence (1 ∷ 2 ∷ 3 ∷ 4 ∷ 5 ∷ 6 ∷ 7 ∷ 8 ∷ 9 ∷ []);
  laser_power_percent = single 100;
  inte_time_us = single 15;
  frame_rate_hz = single 840;
  max_range_m = single 252;
  user_tag = single 7;
  binning = single 2;
  nn_level = single 0;
  rtd_algorithm_common = single 0;
  rtd_algorithm_grid_mode = single 0;
  rtd_algorithm_stripe_mode = single 0;
  snr_threshold = single 160;
  hdr_threshold = single 4095;
  hdr_laser_power_percent = single 40;
  hdr_inte_time_us = single 5;
}

abbrev nine_checked : VirtualSensors ℤ
nine_checked = record {
  angles = replicate 9 (negsuc 44, pos 45, pos 1);
  fps = 1 ∷ 2 ∷ 3 ∷ 4 ∷ 5 ∷ 6 ∷ 7 ∷ 8 ∷ 9 ∷ [];
  powers = replicate 9 100;
  inte_times = replicate 9 15;
  frame_rates = replicate 9 840;
  max_ranges = replicate 9 252;
  user_tags = replicate 9 7;
  binnings = replicate 9 2;
  nn_levels = replicate 9 0;
  algorithms_common = replicate 9 0;
  algorithms_grid = replicate 9 0;
  algorithms_stripe = replicate 9 0;
  snr_thresholds = replicate 9 160;
  hdr_powers = replicate 9 40;
  hdr_inte_times = replicate 9 5;
}

nine_pass : check_settings within_45 (λ x. ok x) nine_sensors ≡ ok nine_checked
unfolding check_settings get_common_length cast_to_sequence
nine_pass = refl

-- Three entries in the order of their sorting values.
abbrev order_of_three : List ℕ → List ℕ
order_of_three sorting = 2 ∷ 0 ∷ 1 ∷ []

three-IsOrder : IsOrder 3 (order_of_three (20 ∷ 30 ∷ 10 ∷ []))
three-IsOrder k = ground arith

abbrev three_entries : List (String × Item)
three_entries = ("orders", column (5 ∷ 6 ∷ 7 ∷ [])) ∷ ("dsp_mode", setting 1) ∷ []

three-HasEntries : HasEntries 3 three_entries
three-HasEntries = list_item refl refl (kept_item refl no_items)

schedule_scan-Scheduled_example :
    Scheduled
      (order_of_three (20 ∷ 30 ∷ 10 ∷ []))
      three_entries
      (schedule_scan order_of_three three_entries (20 ∷ 30 ∷ 10 ∷ []))
schedule_scan-Scheduled_example =
    schedule_scan-Scheduled order_of_three three_entries (20 ∷ 30 ∷ 10 ∷ []) three-IsOrder
      three-HasEntries
