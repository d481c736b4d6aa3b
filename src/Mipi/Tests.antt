-- ===== src/Mipi/Tests.antt =====
-- Runs of the packings of numerical_utilities.py, and their laws at concrete pixels.
use m.Common.{ℕ, ◌*◌, ◌+◌, ◌/◌, ◌≡◌, refl, true, List, [], ◌∷◌, length, arith}
use m.Mipi.{ptob_raw12, btop_raw12, ptob_raw16, btop_raw16, ptob_raw8, btop_raw8}
use m.Mipi.Laws.{
  Pixels, btop-ptob_raw12, ptob-btop_raw12, ptob_raw12-Bytes, btop-ptob_raw16,
  ptob_raw8-little_endian,
}

abbrev three_pixels : List ℕ
three_pixels = 0xabc ∷ 0x123 ∷ 0xfff ∷ []

raw12_bytes : ptob_raw12 three_pixels ≡ 0xab ∷ 0x12 ∷ 0x3c ∷ 0xff ∷ 0x00 ∷ 0x0f ∷ []
unfolding ptob_raw12
raw12_bytes = refl

raw8_bytes : ptob_raw8 (0x1234 ∷ []) ≡ 0x34 ∷ 0x12 ∷ []
unfolding ptob_raw8
raw8_bytes = refl

three_pixels-fit : Pixels 12 three_pixels
three_pixels-fit = omega arith

btop-ptob_raw12_example : btop_raw12 (ptob_raw12 three_pixels) ≡ 0xabc ∷ 0x123 ∷ 0xfff ∷ 0 ∷ []
btop-ptob_raw12_example = btop-ptob_raw12 three_pixels three_pixels-fit

ptob-btop_raw12_example :
    ptob_raw12 (btop_raw12 (0xab ∷ 0x12 ∷ 0x3c ∷ [])) ≡ 0xab ∷ 0x12 ∷ 0x3c ∷ []
ptob-btop_raw12_example = ptob-btop_raw12 (0xab ∷ 0x12 ∷ 0x3c ∷ []) refl (omega arith)

ptob_raw12-Bytes_example :
    Pixels 8 (ptob_raw12 three_pixels)
    × (length (ptob_raw12 three_pixels) ≡ (length three_pixels + 1) / 2 * 3)
ptob_raw12-Bytes_example = ptob_raw12-Bytes three_pixels three_pixels-fit

three_pixels-raw16 : btop_raw16 (ptob_raw16 three_pixels true) true ≡ three_pixels
three_pixels-raw16 = btop-ptob_raw16 three_pixels true (omega arith)

ptob_raw8-little_endian_example :
    (ptob_raw8 (0x1234 ∷ []) ≡ 0x34 ∷ 0x12 ∷ [])
    × (btop_raw8 (ptob_raw8 (0x1234 ∷ [])) ≡ 0x1234 ∷ [])
ptob_raw8-little_endian_example = ptob_raw8-little_endian (0x1234 ∷ []) (omega arith)
