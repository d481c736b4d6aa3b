-- ===== src/Mipi.antt =====
-- The MIPI CSI-2 packings of cobra_system_control/cobra_system_control/numerical_utilities.py:
-- pixels to bytes and back. The loops over `range(0, len(l), n)` are recursions that take `n`
-- elements a round, with a clause for each short last round.
pub mod Laws
mod Tests
use m.Common.{
  ℕ, ◌*◌, ◌/◌, ◌^◌, bit_and, bit_or, Bool, true, false, List, [], ◌∷◌, ◌++◌, map, if◌then◌else◌,
}
use m.Common.Bits.{◌<<◌, ◌>>>◌}

-- The three bytes of two pixels, and the two pixels of three bytes.
pub pack_raw12 : ℕ → ℕ → List ℕ
pack_raw12 lo hi = (lo >>> 4) ∷ (hi >>> 4) ∷ bit_or (bit_and hi 0xf << 4) (bit_and lo 0xf) ∷ []

pub unpack_raw12 : ℕ → ℕ → ℕ → List ℕ
unpack_raw12 lo mi hi =
    bit_or (lo << 4) (bit_and hi 0xf) ∷ bit_or (mi << 4) (bit_and (hi >>> 4) 0xf) ∷ []

unfoldable pub ptob_raw12 : List ℕ → List ℕ
unfolding pack_raw12
ptob_raw12 [] = []
ptob_raw12 (lo ∷ []) = pack_raw12 lo 0
ptob_raw12 (lo ∷ hi ∷ rest) = pack_raw12 lo hi ++ ptob_raw12 rest

unfoldable pub btop_raw12 : List ℕ → List ℕ
unfolding unpack_raw12
btop_raw12 [] = []
btop_raw12 (lo ∷ []) = unpack_raw12 lo 0 0
btop_raw12 (lo ∷ mi ∷ []) = unpack_raw12 lo mi 0
btop_raw12 (lo ∷ mi ∷ hi ∷ rest) = unpack_raw12 lo mi hi ++ btop_raw12 rest

-- `(p & 0xff) << 8 | (p >> 8)`
pub swap_pixel : ℕ → ℕ
swap_pixel p = bit_or (bit_and p 0xff << 8) (p >>> 8)

pub split_pixels : List ℕ → List ℕ
split_pixels [] = []
split_pixels (p ∷ rest) = (p >>> 8) ∷ bit_and p 0xff ∷ split_pixels rest

pub join_bytes : List ℕ → List ℕ
join_bytes [] = []
join_bytes (lo ∷ []) = bit_or (lo << 8) 0 ∷ []
join_bytes (lo ∷ hi ∷ rest) = bit_or (lo << 8) hi ∷ join_bytes rest

unfoldable pub ptob_raw16 : List ℕ → Bool → List ℕ
unfolding swap_pixel split_pixels
ptob_raw16 pixels swap_bytes = split_pixels (if swap_bytes then map swap_pixel pixels else pixels)

unfoldable pub btop_raw16 : List ℕ → Bool → List ℕ
unfolding swap_pixel join_bytes
btop_raw16 bytes swap_bytes =
    if swap_bytes then map swap_pixel (join_bytes bytes) else join_bytes bytes

unfoldable pub ptob_raw8 : List ℕ → List ℕ
unfolding ptob_raw16
ptob_raw8 pixels = ptob_raw16 pixels true

unfoldable pub btop_raw8 : List ℕ → List ℕ
unfolding btop_raw16
btop_raw8 bytes = btop_raw16 bytes true
