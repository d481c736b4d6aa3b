-- ===== src/RandomAccess/Settings.antt =====
-- The checks of `RandomAccessScanning.__post_init__` of
-- cobra_system_control/cobra_system_control/random_access_scanning.py, with `get_common_length` of
-- functional_utilities.py and `cast_to_sequence` of validation_utilities.py. Angles are
-- numbers of a type `F`, which is a parameter with the test that one lies within 45 degrees; ranges are
-- tenths of a metre, signal thresholds eighths. A parameter that is neither a number nor a
-- sequence of numbers is not modelled, and user tags are given.
pub mod Cast
pub mod Accepted
use m.Common.{
  ℕ, zero, suc, ◌+◌, ◌*◌, ◌/◌, ◌%◌, ◌≤◌, Bool, true, false, ◌&&◌, ◌||◌, not, Option, none, some,
  List, [], ◌∷◌, ◌++◌, map, ◌==◌, ltb, leb, if◌then◌else◌, length, replicate, Result, ok, err,
  ◌>>=◌, ◌>>◌, raise_if, value_error, scan_pattern_value_error, scan_pattern_size_error,
}

-- A number, or a sequence.
pub data Param {ℓ} (A : Type ℓ) : Type ℓ where
  single : A → Param A
  sequence : List A → Param A

module _ {ℓ} {A : Type ℓ} where
  -- The length of a sequence of more than one.
  abbrev pub long : Param A → List ℕ
  long (single x) = []
  long (sequence xs) = if ltb 1 (length xs) then length xs ∷ [] else []

-- `get_common_length` of the lengths of the sequences of more than one.
abbrev pub others_equal : ℕ → List ℕ → Bool
others_equal n [] = true
others_equal n (k ∷ ks) = (k == n) && others_equal n ks

unfoldable pub get_common_length : List ℕ → Result ℕ
get_common_length [] = ok 1
get_common_length (n ∷ ns) = if others_equal n ns then ok n else err scan_pattern_size_error

module _ {ℓ κ} {A : Type ℓ} {B : Type κ} where
  -- `list(map(func, val))`, where `func` may raise.
  abbrev pub map_all : (A → Result B) → List A → Result (List B)
  map_all func [] = ok []
  map_all func (x ∷ xs) = func x >>= λ y. map_all func xs >>= λ ys. ok (y ∷ ys)

  unfoldable pub cast_to_sequence : Param A → ℕ → (A → Result B) → Result (List B)
  cast_to_sequence (single x) n func = func x >>= λ y. ok (replicate n y)
  cast_to_sequence (sequence []) n func = if 0 == n then ok [] else err value_error
  cast_to_sequence (sequence (x ∷ [])) n func = func x >>= λ y. ok (replicate n y)
  cast_to_sequence (sequence (x ∷ y ∷ xs)) n func =
      if length (x ∷ y ∷ xs) == n then map_all func (x ∷ y ∷ xs) else err value_error

-- The constructor of an `OptionValue`: the value has to be one of the options.
abbrev pub option : (ℕ → Bool) → ℕ → Result ℕ
option is_option x = if is_option x then ok x else err value_error

abbrev pub fps_option : ℕ → Bool
fps_option x = leb 1 x && ltb x 32

abbrev pub inte_time_option : ℕ → Bool
inte_time_option x = leb 1 x && leb x 20

abbrev pub frame_rate_option : ℕ → Bool
frame_rate_option x = leb 30 (x / 10) && (leb (x / 10) 96 && (x % 10 == 0))

abbrev pub max_range_option : ℕ → Bool
max_range_option x = (x == 252) || (x == 324)

abbrev pub binning_option : ℕ → Bool
binning_option x = (x == 1) || (x == 2) || (x == 4)

abbrev pub nn_level_option : ℕ → Bool
nn_level_option x = ltb x 6

-- `SnrThresholdBv`, from 0 to 511.875.
abbrev pub snr_in_bounds : ℕ → Bool
snr_in_bounds x = leb x 4095

-- `np.clip(x, 1, None)`
abbrev pub clip_one : Param ℕ → Param ℕ
clip_one (single x) = single (if ltb x 1 then 1 else x)
clip_one (sequence xs) = sequence (map (λ x. if ltb x 1 then 1 else x) xs)

-- `idx, tup in enumerate(self.angle_range)`
module _ {F : Type 0} (within_45 : F → Bool) where
  abbrev pub check_angles : List (List F) → Result (List (F × F × F))
  check_angles [] = ok []
  check_angles ((start ∷ stop ∷ step ∷ []) ∷ rest) =
      if within_45 start && within_45 stop
      then (check_angles rest >>= λ others. ok ((start, stop, step) ∷ others))
      else err scan_pattern_value_error
  check_angles (other ∷ rest) = err scan_pattern_size_error

pub record RandomAccessSettings (F : Type 0) : Type 0 where
  pub angle_range : List (List F)
  pub fps_multiple : Param ℕ
  pub laser_power_percent : Param ℕ
  pub inte_time_us : Param ℕ
  pub frame_rate_hz : Param ℕ
  pub max_range_m : Param ℕ
  pub user_tag : Param ℕ
  pub binning : Param ℕ
  pub nn_level : Param ℕ
  pub rtd_algorithm_common : Param ℕ
  pub rtd_algorithm_grid_mode : Param ℕ
  pub rtd_algorithm_stripe_mode : Param ℕ
  pub snr_threshold : Param ℕ
  pub hdr_threshold : Param ℕ
  pub hdr_laser_power_percent : Param ℕ
  pub hdr_inte_time_us : Param ℕ

-- The same, a sequence for each parameter.
pub record VirtualSensors (F : Type 0) : Type 0 where
  pub angles : List (F × F × F)
  pub fps : List ℕ
  pub powers : List ℕ
  pub inte_times : List ℕ
  pub frame_rates : List ℕ
  pub max_ranges : List ℕ
  pub user_tags : List ℕ
  pub binnings : List ℕ
  pub nn_levels : List ℕ
  pub algorithms_common : List ℕ
  pub algorithms_grid : List ℕ
  pub algorithms_stripe : List ℕ
  pub snr_thresholds : List ℕ
  pub hdr_powers : List ℕ
  pub hdr_inte_times : List ℕ

abbrev pub lengths : {F : Type 0} → RandomAccessSettings F → List (F × F × F) → List ℕ
lengths s angles =
    long (sequence angles)
    ++ (long s.fps_multiple
        ++ (long s.laser_power_percent
            ++ (long s.inte_time_us
                ++ (long s.frame_rate_hz
                    ++ (long s.max_range_m
                        ++ (long s.user_tag
                            ++ (long s.binning
                                ++ (long s.nn_level
                                    ++ (long s.snr_threshold
                                        ++ (long s.rtd_algorithm_common
                                            ++ (long s.rtd_algorithm_grid_mode
                                                ++ (long s.rtd_algorithm_stripe_mode
                                                    ++ (long s.hdr_threshold
                                                        ++ (long s.hdr_laser_power_percent
                                                            ++ long s.hdr_inte_time_us))))))))))))))

-- `len(set(xs)) != 1`
abbrev pub mixed : List ℕ → Bool
mixed [] = true
mixed (x ∷ xs) = not (others_equal x xs)

-- `if hdri > inte` of the loop over the virtual sensors.
abbrev pub check_hdr : List ℕ → List ℕ → Result (Unit {0})
check_hdr (inte ∷ intes) (hdri ∷ hdris) =
    raise_if (ltb inte hdri) scan_pattern_value_error >> check_hdr intes hdris
check_hdr intes hdris = ok tt

-- `laser_power` is the constructor of the class of laser powers that the scan is given.
module _ {F : Type 0} (within_45 : F → Bool) (laser_power : ℕ → Result ℕ) where
  unfoldable pub check_settings : RandomAccessSettings F → Result (VirtualSensors F)
  check_settings s = do
    raise_if (length s.angle_range == 0) scan_pattern_size_error
    raise_if (ltb 8 (length s.angle_range)) scan_pattern_size_error
    triplets ← check_angles within_45 s.angle_range
    n ← get_common_length (lengths s triplets)
    angles ← cast_to_sequence (sequence triplets) n (λ t. ok t)
    fps ← cast_to_sequence (clip_one s.fps_multiple) n (option fps_option)
    powers ← cast_to_sequence s.laser_power_percent n (λ x. ok x)
    inte_times ← cast_to_sequence s.inte_time_us n (option inte_time_option)
    frame_rates ← cast_to_sequence s.frame_rate_hz n (option frame_rate_option)
    max_ranges ← cast_to_sequence s.max_range_m n (option max_range_option)
    raise_if (mixed max_ranges) scan_pattern_value_error
    user_tags ← cast_to_sequence s.user_tag n (λ x. ok x)
    binnings ← cast_to_sequence s.binning n (option binning_option)
    nn_levels ← cast_to_sequence s.nn_level n (option nn_level_option)
    algorithms_common ← cast_to_sequence s.rtd_algorithm_common n (λ x. ok x)
    algorithms_grid ← cast_to_sequence s.rtd_algorithm_grid_mode n (λ x. ok x)
    algorithms_stripe ← cast_to_sequence s.rtd_algorithm_stripe_mode n (λ x. ok x)
    snr_thresholds ← cast_to_sequence s.snr_threshold n (option snr_in_bounds)
    hdr_powers ← cast_to_sequence s.hdr_laser_power_percent n (λ x. ok x)
    hdr_inte_times ← cast_to_sequence s.hdr_inte_time_us n (option inte_time_option)
    _ ← map_all laser_power powers
    _ ← map_all laser_power hdr_powers
    check_hdr inte_times hdr_inte_times
    ok (record {
      angles = angles;
      fps = fps;
      powers = powers;
      inte_times = inte_times;
      frame_rates = frame_rates;
      max_ranges = max_ranges;
      user_tags = user_tags;
      binnings = binnings;
      nn_levels = nn_levels;
      algorithms_common = algorithms_common;
      algorithms_grid = algorithms_grid;
      algorithms_stripe = algorithms_stripe;
      snr_thresholds = snr_thresholds;
      hdr_powers = hdr_powers;
      hdr_inte_times = hdr_inte_times;
    })
