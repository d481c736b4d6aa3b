-- ===== src/Metadata.antt =====
-- cobra_raw2depth/cobra_raw2depth/src/M30Metadata.py: the words of the metadata that a sensor sends,
-- for the frame and for each field of view. The slices of the array are views: what is written to one
-- is written to the array.
pub mod Laws
pub mod Buffer
pub mod Received
pub mod Sender
mod Tests
use m.Common.{
  ℕ, zero, suc, ◌+◌, ◌-◌, ◌*◌, ◌/◌, ◌%◌, ◌^◌, bit_and, bit_or, Bool, true, false, not, Option, none,
  some, List, [], ◌∷◌, ◌==◌, if◌then◌else◌, Result, ok, err, ◌>>=◌, index_error, get_elem?, set,
  take, drop,
}
use m.Common.Bits.{◌>>>◌, bit_andnot}

abbrev pub item : List ℕ → ℕ → Result ℕ
item words i = elim (get_elem? words i) [ none ↦ err index_error | some w ↦ ok w ]

abbrev pub per_fov_idx : ℕ
per_fov_idx = 200

abbrev pub per_fov_md_size : ℕ
per_fov_md_size = 32

-- `getPerFovMetadata`
unfoldable pub get_per_fov_metadata : List ℕ → ℕ → List ℕ
get_per_fov_metadata metadata fov_idx =
    take per_fov_md_size (drop (per_fov_idx + fov_idx * per_fov_md_size) metadata)

-- `getPerFovMetadata(metadata, fov_idx)[idx]`
unfoldable pub fov_word : List ℕ → ℕ → ℕ → Result ℕ
fov_word metadata fov_idx idx = item (get_per_fov_metadata metadata fov_idx) idx

-- `getPerFovMetadata(metadata, fov_idx)[idx] = change(old)`; the words of the array have 16 bits.
unfoldable pub update_word : List ℕ → ℕ → ℕ → (ℕ → ℕ) → Result (List ℕ)
update_word metadata fov_idx idx change = do
  w ← fov_word metadata fov_idx idx
  ok (set metadata (per_fov_idx + fov_idx * per_fov_md_size + idx) (change w % 2 ^ 16))

-- `setSnrThresh`, `setStripeWindow`, `enableRtd`, `enableStripeModeRangeMedian`
unfoldable pub set_snr_thresh : List ℕ → ℕ → ℕ → Result (List ℕ)
set_snr_thresh metadata fov_idx thresh = update_word metadata fov_idx 7 (λ w. thresh)

unfoldable pub set_stripe_window : List ℕ → ℕ → ℕ → Result (List ℕ)
set_stripe_window metadata fov_idx val = do
  cleared ← update_word metadata fov_idx 12 (λ w. bit_and w 0xfff8)
  update_word cleared fov_idx 12 (λ w. bit_or w val)

unfoldable pub enable_rtd : List ℕ → ℕ → Result (List ℕ)
enable_rtd metadata fov_idx = update_word metadata fov_idx 6 (λ w. bit_andnot w 0x800)

unfoldable pub enable_stripe_mode_range_median : List ℕ → ℕ → Result (List ℕ)
enable_stripe_mode_range_median metadata fov_idx = update_word metadata fov_idx 12 (λ w. bit_or w 8)

-- The tests of one bit of a word of a field of view.
unfoldable pub fov_flag : ℕ → ℕ → List ℕ → ℕ → Result Bool
fov_flag idx mask metadata fov_idx =
    fov_word metadata fov_idx idx >>= λ w. ok (not (bit_and w mask == 0))

abbrev pub get_stripe_mode_enabled : List ℕ → ℕ → Result Bool
get_stripe_mode_enabled = fov_flag 6 0x1

abbrev pub get_disable_range_masking : List ℕ → ℕ → Result Bool
get_disable_range_masking = fov_flag 6 0x2

abbrev pub get_enabled_max_range_limit : List ℕ → ℕ → Result Bool
get_enabled_max_range_limit = fov_flag 6 0x4

abbrev pub get_enable_range_temp_range_adjustment : List ℕ → ℕ → Result Bool
get_enable_range_temp_range_adjustment = fov_flag 6 0x8

abbrev pub get_rtd_disabled : List ℕ → ℕ → Result Bool
get_rtd_disabled = fov_flag 6 0x800

abbrev pub get_perform_ghost_median : List ℕ → ℕ → Result Bool
get_perform_ghost_median = fov_flag 11 0x2

abbrev pub get_perform_min_max_filter : List ℕ → ℕ → Result Bool
get_perform_min_max_filter = fov_flag 11 0x4

abbrev pub get_stripe_mode_snr_weighted_sum : List ℕ → ℕ → Result Bool
get_stripe_mode_snr_weighted_sum = fov_flag 12 0x1

abbrev pub get_stripe_mode_rect_sum : List ℕ → ℕ → Result Bool
get_stripe_mode_rect_sum = fov_flag 12 0x2

abbrev pub get_stripe_mode_gaussian_sum : List ℕ → ℕ → Result Bool
get_stripe_mode_gaussian_sum = fov_flag 12 0x4

abbrev pub get_stripe_mode_range_median_enabled : List ℕ → ℕ → Result Bool
get_stripe_mode_range_median_enabled = fov_flag 12 0x8

-- `getIsFovEnabled`
unfoldable pub get_is_fov_enabled : List ℕ → ℕ → Result Bool
get_is_fov_enabled metadata fov_idx = do w ← item metadata 14; ok (bit_and (w >>> fov_idx) 1 == 1)

-- `n` rounds of the loop of `getActiveFovs`, from `fov_idx` on.
unfoldable pub active_from : List ℕ → ℕ → ℕ → Result (List ℕ)
active_from metadata zero fov_idx = ok []
active_from metadata (suc n) fov_idx = do
  enabled ← get_is_fov_enabled metadata fov_idx
  rest ← active_from metadata n (fov_idx + 1)
  ok (if enabled then fov_idx ∷ rest else rest)

-- `getActiveFovs`
abbrev pub get_active_fovs : List ℕ → Result (List ℕ)
get_active_fovs metadata = active_from metadata 8 0
