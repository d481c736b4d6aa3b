-- ===== src/Metadata/Sender/Laws.antt =====
-- The RAW12 bytes of the metadata of metadata.py give its values back.
use m.Common.{
  ℕ, replicate, ◌+◌, ◌*◌, ◌/◌, ◌^◌, leb, leb→le, bit_or, ◌≡◌, refl, sym, ap₂, Bool, true, ◌&&◌,
  List, [], ◌∷◌, ◌++◌, length, map, arith, ltb, ltb→lt, and_true,
}
use m.Common.Bits.{◌<<◌, or_shifted'}
use mathlib.Core.Path.{subst}
use native.Mathlib.Nat.{lt_of_lt_of_le, pow-le-pow_right}
use m.Mipi.{btop_raw12, ptob_raw12}
use m.Mipi.Laws.{Pixels, pad_even, btop-ptob_raw12, ptob_raw12-Bytes}
use m.Scan.Entry.{all_in_bounds, Register}
use m.Metadata.Sender.{
  PerVirtualSensorMetadata, StaticMetadata, virtual_sensor_memmap, static_memmap, fill,
  virtual_sensor_data_words, static_data_words, static_raw12_words, virtual_sensor_raw12_words,
}

-- The values of a memory map, in its order.
abbrev pub values : List (Register × ℕ) → List ℕ
values [] = []
values ((r, v) ∷ ps) = v ∷ values ps

-- The raw words of a virtual sensor: words 8 and 9 are not used.
abbrev pub virtual_sensor_values : PerVirtualSensorMetadata → List ℕ
virtual_sensor_values v =
    v.user_tag ∷ v.binning ∷ v.nn_level ∷ v.s_rows ∷ v.n_rows ∷ v.n_rois ∷ v.rtd_algorithm_common
    ∷ v.snr_threshold ∷ 0 ∷ 0 ∷ v.random_virtual_sensor_tag ∷ v.rtd_algorithm_grid_mode
    ∷ v.rtd_algorithm_stripe_mode ∷ []

abbrev in_zero : ℕ → ℕ
in_zero v = bit_or 0 (v << 0)

in_zero-eq : (v : ℕ) → in_zero v ≡ v
in_zero-eq v = omega (arith, or_shifted' 0 v 0 (omega arith))

all_in_zero : (vs : List ℕ) → map in_zero vs ≡ vs
all_in_zero [] = refl
all_in_zero (v ∷ vs) = ap₂ ◌∷◌ (in_zero-eq v) (all_in_zero vs)

-- The registers are at most as wide as the pixels.
abbrev narrow : List (Register × ℕ) → Bool
narrow [] = true
narrow ((r, v) ∷ ps) = leb r.size 12 && narrow ps

values-Pixels :
    (ps : List (Register × ℕ)) → narrow ps ≡ true → all_in_bounds ps ≡ true → Pixels 12 (values ps)
values-Pixels [] h k = tt
values-Pixels ((r, v) ∷ ps) h k =
    let (size, rest) = and_true (leb r.size 12) (narrow ps) h in
    let (small, smalls) = and_true (ltb v (2 ^ r.size)) (all_in_bounds ps) k in
    (
      lt_of_lt_of_le (ltb→lt v (2 ^ r.size) small)
          (pow-le-pow_right {n = 2} (omega arith) (leb→le r.size 12 size)),
      values-Pixels ps rest smalls,
    )

static_raw_words :
    (s : StaticMetadata)
    → fill (static_memmap s) (replicate static_raw12_words 0) ≡ values (static_memmap s)
unfolding fill
static_raw_words s = all_in_zero (values (static_memmap s))

virtual_sensor_raw_words :
    (v : PerVirtualSensorMetadata)
    → fill (virtual_sensor_memmap v) (replicate virtual_sensor_raw12_words 0)
      ≡ virtual_sensor_values v
unfolding fill
virtual_sensor_raw_words v = all_in_zero (virtual_sensor_values v)

-- What is decoded from the bytes, and the bytes themselves.
abbrev pub Decodes : List ℕ → List ℕ → ℕ → Type 0
Decodes bytes pixels n = (btop_raw12 bytes ≡ pixels) × (length bytes ≡ n) × Pixels 8 bytes

packed-Decodes :
    (ps : List ℕ) → Pixels 12 ps → Decodes (ptob_raw12 ps) (pad_even ps) ((length ps + 1) / 2 * 3)
packed-Decodes ps h =
    let (bytes, count) = ptob_raw12-Bytes ps h in (btop-ptob_raw12 ps h, count, bytes)

-- The static metadata whose values are in the bounds of their registers is sent as 39 bytes, which
-- decode to its 26 values in the order of the class.
pub static_data_words-Decodes :
    (s : StaticMetadata)
    → all_in_bounds (static_memmap s) ≡ true
    → Decodes (static_data_words s) (values (static_memmap s)) 39
unfolding static_data_words
static_data_words-Decodes s h =
    subst (λ (ws : List ℕ). Decodes (ptob_raw12 ws) (values (static_memmap s)) 39)
      (sym (static_raw_words s))
      (packed-Decodes (values (static_memmap s)) (values-Pixels (static_memmap s) refl h))

-- The metadata of a virtual sensor whose values are in the bounds of their registers is sent as 21
-- bytes, which decode to its values with zeros in the two unused words and after the last one.
pub virtual_sensor_data_words-Decodes :
    (v : PerVirtualSensorMetadata)
    → all_in_bounds (virtual_sensor_memmap v) ≡ true
    → Decodes (virtual_sensor_data_words v) (virtual_sensor_values v ++ (0 ∷ [])) 21
unfolding virtual_sensor_data_words
virtual_sensor_data_words-Decodes v h =
    subst (λ (ws : List ℕ). Decodes (ptob_raw12 ws) (virtual_sensor_values v ++ (0 ∷ [])) 21)
      (sym (virtual_sensor_raw_words v))
      (packed-Decodes (virtual_sensor_values v)
        (let fits = values-Pixels (virtual_sensor_memmap v) refl h in omega (arith, fits)))
