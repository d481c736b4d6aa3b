-- ===== src/RandomAccess/Settings/Accepted.antt =====
-- Which settings the checks of `RandomAccessScanning.__post_init__` of
-- cobra_system_control/cobra_system_control/random_access_scanning.py let through.
use m.Common.{
  ℕ, ◌≤◌, ◌<◌, ◌≡◌, refl, sym, ◌∙◌, inl, inr, Bool, true, false, ◌&&◌, List, [], ◌∷◌, ◌++◌, ◌==◌,
  ltb, ltb→lt, if◌then◌else◌, length, Result, ok, err, ◌>>=◌, raise_if, if_ok, ok-injective,
  scan_pattern_value_error, scan_pattern_size_error, arith, Bool-cases, ==_iff, and_true,
}
use mathlib.Core.Path.{subst}
use m.Common.All.{All, ◌and◌, All-append}
use m.RandomAccess.Settings.{
  Param, single, sequence, long, others_equal, get_common_length, map_all, cast_to_sequence, option,
  fps_option, inte_time_option, frame_rate_option, max_range_option, binning_option,
  nn_level_option, snr_in_bounds, clip_one, check_angles, RandomAccessSettings, VirtualSensors,
  lengths, mixed, check_hdr, check_settings,
}
use m.RandomAccess.Settings.Cast.{
  past◌of◌take◌, after, length-cast_to_sequence, option_cast, All-cast_same,
}

-- Both ends of a sensor lie within 45 degrees.
abbrev pub Angle : {F : Type 0} → (F → Bool) → F × F × F → Type 0
Angle within_45 (start, stop, step) = (within_45 start ≡ true) × (within_45 stop ≡ true)

module _ {F : Type 0} (within_45 : F → Bool) where
  check_angles-All :
      (ts : List (List F)) {out : List (F × F × F)}
      → check_angles within_45 ts ≡ ok out
      → All (Angle within_45) out
  check_angles-All [] e = subst (All (Angle within_45)) (ok-injective e) tt
  check_angles-All ([] ∷ ts) e = cc
  check_angles-All ((a ∷ []) ∷ ts) e = cc
  check_angles-All ((a ∷ b ∷ []) ∷ ts) e = cc
  check_angles-All ((a ∷ b ∷ c ∷ []) ∷ ts) {out = out} e =
      let (near, e') =
        if_ok (within_45 a && within_45 b)
          (check_angles within_45 ts >>= λ others. ok ((a, b, c) ∷ others)) scan_pattern_value_error
          out e in
      after (check_angles within_45 ts) _ e' (λ others rest done.
        subst (All (Angle within_45)) (ok-injective done)
          (and_true (within_45 a) (within_45 b) near, check_angles-All ts rest))
  check_angles-All ((a ∷ b ∷ c ∷ d ∷ more) ∷ ts) e = cc

-- What `map_all` returns for, the function returns for.
Returns-map_all :
    {A : Type 0} (func : ℕ → Result A) (xs : List ℕ) {ys : List A}
    → map_all func xs ≡ ok ys
    → All (λ x. (y : A) × (func x ≡ ok y)) xs
Returns-map_all func [] e = tt
Returns-map_all func (x ∷ xs) e = after (func x) _ e (λ y this e'.
    after (map_all func xs) _ e' (λ ys rest done. ((y, this), Returns-map_all func xs rest)))

fits : (b : Bool) (u : Unit {0}) → raise_if b scan_pattern_size_error ≡ ok u → b ≡ false
fits true u e = cc
fits false u e = refl

long_lem :
    {A : Type 0} (xs : List A) → All (λ n. 1 < n) (if ltb 1 (length xs) then length xs ∷ [] else [])
long_lem xs = elim (Bool-cases (ltb 1 (length xs))) [
  | inl several ↦ rw several (ltb→lt 1 (length xs) several, tt)
  | inr few ↦ rw few tt
]

long-All : {A : Type 0} (p : Param A) → All (λ n. 1 < n) (long p)
long-All (single x) = tt
long-All (sequence xs) = long_lem xs

others_same : (x : ℕ) (xs : List ℕ) → others_equal x xs ≡ true → All (λ y. y ≡ x) xs
others_same x [] h = tt
others_same x (y ∷ ys) h =
    let (this, rest) = and_true (y == x) (others_equal x ys) h in
    ((==_iff y x).0 this, others_same x ys rest)

-- The HDR time of each sensor is not above its integration time.
abbrev pub HdrBelow : List ℕ → List ℕ → Type 0
HdrBelow [] hdris = Unit
HdrBelow (inte ∷ intes) [] = Unit
HdrBelow (inte ∷ intes) (hdri ∷ hdris) = (hdri ≤ inte) × HdrBelow intes hdris

check_hdr-HdrBelow : (intes hdris : List ℕ) → check_hdr intes hdris ≡ ok tt → HdrBelow intes hdris
check_hdr-HdrBelow [] hdris e = tt
check_hdr-HdrBelow (inte ∷ intes) [] e = tt
check_hdr-HdrBelow (inte ∷ intes) (hdri ∷ hdris) e = elim (Bool-cases (ltb inte hdri)) [
  | inl above ↦
      let refused : check_hdr (inte ∷ intes) (hdri ∷ hdris) ≡ err scan_pattern_value_error =
        rw above refl in
      cc
  | inr below ↦
      let rest : check_hdr (inte ∷ intes) (hdri ∷ hdris) ≡ check_hdr intes hdris = rw below refl in
      let le : hdri ≤ inte = ground arith in (le, check_hdr-HdrBelow intes hdris (sym rest ∙ e))
]

get_common_length-pos :
    (ns : List ℕ) (n : ℕ) → All (λ k. 1 < k) ns → get_common_length ns ≡ ok n → 0 < n
unfolding get_common_length
get_common_length-pos [] n h e = let one : 1 ≡ n = ok-injective e in omega (arith, one)
get_common_length-pos (k ∷ ks) n h e =
    let (same, done) = if_ok (others_equal k ks) (ok k) scan_pattern_size_error n e in
    let k_eq : k ≡ n = ok-injective done in omega (arith, h.0, k_eq)

one_range :
    (xs : List ℕ)
    → raise_if (mixed xs) scan_pattern_value_error ≡ ok tt
    → (x : ℕ) × All (λ y. y ≡ x) xs
one_range [] e = cc
one_range (x ∷ xs) e = elim (Bool-cases (others_equal x xs)) [
  | inl same ↦ (x, (refl, others_same x xs same))
  | inr other ↦
      let refused : raise_if (mixed (x ∷ xs)) scan_pattern_value_error
          ≡ err scan_pattern_value_error =
        rw other refl in
      cc
]

-- The other lists of the sensors.
abbrev pub parameters : {F : Type 0} → VirtualSensors F → List (List ℕ)
parameters v =
    v.fps ∷ v.powers ∷ v.inte_times ∷ v.frame_rates ∷ v.max_ranges ∷ v.user_tags ∷ v.binnings
    ∷ v.nn_levels ∷ v.algorithms_common ∷ v.algorithms_grid ∷ v.algorithms_stripe ∷ v.snr_thresholds
    ∷ v.hdr_powers ∷ v.hdr_inte_times ∷ []

abbrev pub Options : (ℕ → Bool) → List ℕ → Type 0
Options is_option xs = All (λ x. is_option x ≡ true) xs

pub record Accepted {F : Type 0} (within_45 : F → Bool) (laser_power : ℕ → Result ℕ)
    (s : RandomAccessSettings F) (v : VirtualSensors F) : Type 0 where
  pub some_angles : 0 < length s.angle_range
  pub at_most_eight : length s.angle_range ≤ 8
  pub some_sensor : 0 < length v.angles
  pub one_each : All (λ xs. length xs ≡ length v.angles) (parameters v)
  pub near : All (Angle within_45) v.angles
  pub fps_options : Options fps_option v.fps
  pub inte_time_options : Options inte_time_option v.inte_times
  pub frame_rate_options : Options frame_rate_option v.frame_rates
  pub max_range_options : Options max_range_option v.max_ranges
  pub same_range : (x : ℕ) × All (λ y. y ≡ x) v.max_ranges
  pub binning_options : Options binning_option v.binnings
  pub nn_level_options : Options nn_level_option v.nn_levels
  pub snr_fits : Options snr_in_bounds v.snr_thresholds
  pub powers_fit : All (λ x. (y : ℕ) × (laser_power x ≡ ok y)) v.powers
  pub hdr_powers_fit : All (λ x. (y : ℕ) × (laser_power x ≡ ok y)) v.hdr_powers
  pub hdr_inte_time_options : Options inte_time_option v.hdr_inte_times
  pub hdr_below : HdrBelow v.inte_times v.hdr_inte_times

and_long :
    {A : Type 0} (p : Param A) (ns : List ℕ) → All (λ k. 1 < k) ns → All (λ k. 1 < k) (long p ++ ns)
and_long p ns h = All-append (λ k. 1 < k) (long p) ns (long-All p) h

lengths-All :
    {F : Type 0} (s : RandomAccessSettings F) (ts : List (F × F × F))
    → All (λ k. 1 < k) (lengths s ts)
lengths-All s ts = and_long (sequence ts) _ (
    and_long s.fps_multiple _ (
      and_long s.laser_power_percent _ (
        and_long s.inte_time_us _ (
          and_long s.frame_rate_hz _ (
            and_long s.max_range_m _ (
              and_long s.user_tag _ (
                and_long s.binning _ (
                  and_long s.nn_level _ (
                    and_long s.snr_threshold _ (
                      and_long s.rtd_algorithm_common _ (
                        and_long s.rtd_algorithm_grid_mode _ (
                          and_long s.rtd_algorithm_stripe_mode _ (
                            and_long s.hdr_threshold _ (
                              and_long s.hdr_laser_power_percent _
                                (long-All s.hdr_inte_time_us)))))))))))))))

as_many :
    {A : Type 0} (f : ℕ → Result ℕ) (p : Param ℕ) {n : ℕ} (angles : List A) {ys : List ℕ}
    → length angles ≡ n
    → cast_to_sequence p n f ≡ ok ys
    → length ys ≡ length angles
as_many f p {n = n} angles count made = length-cast_to_sequence f p n made ∙ sym count

-- Where the checks pass: from one to eight ranges of angles are given; there is a sensor, and every
-- parameter has one value for each; the angles lie within 45 degrees; every fps multiple, integration
-- time, HDR integration time, frame rate, range, binning and neighbour level is one of its options; the
-- signal thresholds are in their bounds; the class of laser powers takes every laser power and HDR laser
-- power; all sensors have the same range; and no HDR integration time is above the integration time.
pub check_settings-Accepted :
    {F : Type 0} (within_45 : F → Bool) (laser_power : ℕ → Result ℕ) (s : RandomAccessSettings F)
    (v : VirtualSensors F)
    → check_settings within_45 laser_power s ≡ ok v
    → Accepted within_45 laser_power s v
unfolding check_settings
check_settings-Accepted within_45 laser_power s v e =
    past raise_if (length s.angle_range == 0) scan_pattern_size_error of e take λ u1 some e.
    past raise_if (ltb 8 (length s.angle_range)) scan_pattern_size_error of e take λ u2 few e.
    past check_angles within_45 s.angle_range of e take λ triplets checked e.
    past get_common_length (lengths s triplets) of e take λ n common e.
    past cast_to_sequence (sequence triplets) n (λ t. ok t) of e take λ angles c_angles e.
    past cast_to_sequence (clip_one s.fps_multiple) n (option fps_option) of e take λ fps c_fps e.
    past cast_to_sequence s.laser_power_percent n (λ x. ok x) of e take λ pws c_pws e.
    past cast_to_sequence s.inte_time_us n (option inte_time_option) of e take λ its c_its e.
    past cast_to_sequence s.frame_rate_hz n (option frame_rate_option) of e take λ frs c_frs e.
    past cast_to_sequence s.max_range_m n (option max_range_option) of e take λ mrs c_mrs e.
    past raise_if (mixed mrs) scan_pattern_value_error of e take λ u3 same e.
    past cast_to_sequence s.user_tag n (λ x. ok x) of e take λ uts c_uts e.
    past cast_to_sequence s.binning n (option binning_option) of e take λ bns c_bns e.
    past cast_to_sequence s.nn_level n (option nn_level_option) of e take λ nns c_nns e.
    past cast_to_sequence s.rtd_algorithm_common n (λ x. ok x) of e take λ acs c_acs e.
    past cast_to_sequence s.rtd_algorithm_grid_mode n (λ x. ok x) of e take λ ags c_ags e.
    past cast_to_sequence s.rtd_algorithm_stripe_mode n (λ x. ok x) of e take λ ass c_ass e.
    past cast_to_sequence s.snr_threshold n (option snr_in_bounds) of e take λ sts c_sts e.
    past cast_to_sequence s.hdr_laser_power_percent n (λ x. ok x) of e take λ hps c_hps e.
    past cast_to_sequence s.hdr_inte_time_us n (option inte_time_option) of e take λ hts c_hts e.
    past map_all laser_power pws of e take λ u4 ci e.
    past map_all laser_power hps of e take λ u5 hdr_ci e.
    past check_hdr its hts of e take λ u6 hdr e.
    let count = length-cast_to_sequence (λ t. ok t) (sequence triplets) n c_angles in
    subst (Accepted within_45 laser_power s) (ok-injective e) (record {
      some_angles = let some' = fits (length s.angle_range == 0) u1 some in ground arith;
      at_most_eight = let few' = fits (ltb 8 (length s.angle_range)) u2 few in ground arith;
      some_sensor = omega (
        arith,
        count,
        get_common_length-pos (lengths s triplets) n (lengths-All s triplets) common,
      );
      one_each =
          as_many (option fps_option) (clip_one s.fps_multiple) angles count c_fps
          and as_many (λ x. ok x) s.laser_power_percent angles count c_pws
          and as_many (option inte_time_option) s.inte_time_us angles count c_its
          and as_many (option frame_rate_option) s.frame_rate_hz angles count c_frs
          and as_many (option max_range_option) s.max_range_m angles count c_mrs
          and as_many (λ x. ok x) s.user_tag angles count c_uts
          and as_many (option binning_option) s.binning angles count c_bns
          and as_many (option nn_level_option) s.nn_level angles count c_nns
          and as_many (λ x. ok x) s.rtd_algorithm_common angles count c_acs
          and as_many (λ x. ok x) s.rtd_algorithm_grid_mode angles count c_ags
          and as_many (λ x. ok x) s.rtd_algorithm_stripe_mode angles count c_ass
          and as_many (option snr_in_bounds) s.snr_threshold angles count c_sts
          and as_many (λ x. ok x) s.hdr_laser_power_percent angles count c_hps
          and as_many (option inte_time_option) s.hdr_inte_time_us angles count c_hts
          and tt;
      near =
          All-cast_same (Angle within_45) triplets n
            (check_angles-All within_45 s.angle_range checked) c_angles;
      fps_options = option_cast fps_option (clip_one s.fps_multiple) n c_fps;
      inte_time_options = option_cast inte_time_option s.inte_time_us n c_its;
      frame_rate_options = option_cast frame_rate_option s.frame_rate_hz n c_frs;
      max_range_options = option_cast max_range_option s.max_range_m n c_mrs;
      binning_options = option_cast binning_option s.binning n c_bns;
      nn_level_options = option_cast nn_level_option s.nn_level n c_nns;
      snr_fits = option_cast snr_in_bounds s.snr_threshold n c_sts;
      same_range = one_range mrs same;
      powers_fit = Returns-map_all laser_power pws ci;
      hdr_powers_fit = Returns-map_all laser_power hps hdr_ci;
      hdr_inte_time_options = option_cast inte_time_option s.hdr_inte_time_us n c_hts;
      hdr_below = check_hdr-HdrBelow its hts hdr;
    })
