-- ===== src/Mipi/Laws.antt =====
-- The packings of numerical_utilities.py lose nothing of pixels that fit, and give bytes.
use m.Common.{
  ℕ, ◌+◌, ◌*◌, ◌/◌, ◌%◌, ◌^◌, ◌<◌, bit_and, bit_or, ◌≡◌, refl, ap, ap₂, ◌∙◌, Bool, true, false,
  List, [], ◌∷◌, ◌++◌, map, length, arith,
}
use m.Common.All.{All, All-append}
use m.Common.Bits.{◌<<◌, ◌>>>◌, or_shifted, and_mask}
use m.Mipi.{
  pack_raw12, unpack_raw12, ptob_raw12, btop_raw12, swap_pixel, split_pixels, join_bytes,
  ptob_raw16, btop_raw16, ptob_raw8, btop_raw8,
}

abbrev pub Pixels : ℕ → List ℕ → Type 0
Pixels bits = All (λ p. p < 2 ^ bits)

-- The list filled up with a zero to an even length.
abbrev pub pad_even : List ℕ → List ℕ
pad_even [] = []
pad_even (x ∷ []) = x ∷ 0 ∷ []
pad_even (x ∷ y ∷ rest) = x ∷ y ∷ pad_even rest

unpack-pack_raw12 :
    (lo hi : ℕ)
    → lo < 4096
    → hi < 4096
    → unpack_raw12 (lo >>> 4) (hi >>> 4) (bit_or (bit_and hi 0xf << 4) (bit_and lo 0xf))
      ≡ lo ∷ hi ∷ []
unfolding unpack_raw12
unpack-pack_raw12 lo hi hlo hhi = ground (
  arith,
  and_mask 4 lo,
  and_mask 4 hi,
  or_shifted 4 (hi % 16) (lo % 16) (omega arith),
  and_mask 4 (hi % 16 * 16 + lo % 16),
  and_mask 4 ((hi % 16 * 16 + lo % 16) / 16),
  or_shifted 4 (lo / 16) (lo % 16) (omega arith),
  or_shifted 4 (hi / 16) (hi % 16) (omega arith),
)

-- Decoding what was encoded gives 12-bit pixels back, with a zero after an odd number of them.
pub btop-ptob_raw12 : (ps : List ℕ) → Pixels 12 ps → btop_raw12 (ptob_raw12 ps) ≡ pad_even ps
unfolding btop_raw12 ptob_raw12
btop-ptob_raw12 [] h = refl
btop-ptob_raw12 (x ∷ []) h = unpack-pack_raw12 x 0 h.0 (omega arith)
btop-ptob_raw12 (x ∷ y ∷ rest) h =
    ap₂ ◌++◌ (unpack-pack_raw12 x y h.0 (h.1.0)) (btop-ptob_raw12 rest (h.1.1))

pack-unpack_raw12 :
    (lo mi hi : ℕ)
    → lo < 256
    → mi < 256
    → hi < 256
    → pack_raw12 (bit_or (lo << 4) (bit_and hi 0xf)) (bit_or (mi << 4) (bit_and (hi >>> 4) 0xf))
      ≡ lo ∷ mi ∷ hi ∷ []
unfolding pack_raw12
pack-unpack_raw12 lo mi hi hlo hmi hhi = ground (
  arith,
  and_mask 4 hi,
  and_mask 4 (hi / 16),
  or_shifted 4 lo (hi % 16) (omega arith),
  or_shifted 4 mi (hi / 16 % 16) (omega arith),
  and_mask 4 (lo * 16 + hi % 16),
  and_mask 4 (mi * 16 + hi / 16 % 16),
  or_shifted 4 (hi / 16) (hi % 16) (omega arith),
)

-- Encoding what was decoded gives the bytes back, where they are whole triples.
pub ptob-btop_raw12 :
    (bs : List ℕ) → length bs % 3 ≡ 0 → Pixels 8 bs → ptob_raw12 (btop_raw12 bs) ≡ bs
unfolding btop_raw12 ptob_raw12
ptob-btop_raw12 [] whole h = refl
ptob-btop_raw12 (x ∷ []) whole h = absurd (omega arith)
ptob-btop_raw12 (x ∷ y ∷ []) whole h = absurd (omega arith)
ptob-btop_raw12 (x ∷ y ∷ z ∷ rest) whole h =
    ap₂ ◌++◌ (pack-unpack_raw12 x y z h.0 (h.1.0) (h.1.1.0))
      (ptob-btop_raw12 rest (omega arith) (h.1.1.1))

-- Whole triples of bytes are decoded on their own.
pub btop-append :
    (bs cs : List ℕ) → length bs % 3 ≡ 0 → btop_raw12 (bs ++ cs) ≡ btop_raw12 bs ++ btop_raw12 cs
unfolding btop_raw12 unpack_raw12
btop-append [] cs h = refl
btop-append (x ∷ []) cs h = absurd (omega arith)
btop-append (x ∷ y ∷ []) cs h = absurd (omega arith)
btop-append (x ∷ y ∷ z ∷ bs) cs h =
    ap (λ (ps : List ℕ). unpack_raw12 x y z ++ ps) (btop-append bs cs (omega arith))

pub length-btop : (bs : List ℕ) → length bs % 3 ≡ 0 → length (btop_raw12 bs) * 3 ≡ length bs * 2
unfolding btop_raw12 unpack_raw12
length-btop [] h = refl
length-btop (x ∷ []) h = absurd (omega arith)
length-btop (x ∷ y ∷ []) h = absurd (omega arith)
length-btop (x ∷ y ∷ z ∷ bs) h = omega (arith, length-btop bs (omega arith))

pack_raw12-Bytes : (lo hi : ℕ) → lo < 4096 → hi < 4096 → Pixels 8 (pack_raw12 lo hi)
unfolding pack_raw12
pack_raw12-Bytes lo hi hlo hhi =
    let third : bit_or (bit_and hi 0xf << 4) (bit_and lo 0xf) < 256 =
      ground
        (arith, and_mask 4 lo, and_mask 4 hi, or_shifted 4 (hi % 16) (lo % 16) (omega arith)) in
    (omega arith, (omega arith, (third, tt)))

-- Three bytes for every two pixels, the last of an odd number counting as two, and every one of
-- them a byte.
pub ptob_raw12-Bytes :
    (ps : List ℕ)
    → Pixels 12 ps
    → Pixels 8 (ptob_raw12 ps) × (length (ptob_raw12 ps) ≡ (length ps + 1) / 2 * 3)
unfolding ptob_raw12
ptob_raw12-Bytes [] h = (tt, refl)
ptob_raw12-Bytes (x ∷ []) h = (pack_raw12-Bytes x 0 h.0 (omega arith), unfold pack_raw12 in refl)
ptob_raw12-Bytes (x ∷ y ∷ rest) h =
    let (bytes, len) = ptob_raw12-Bytes rest (h.1.1) in
    (
      All-append _ (pack_raw12 x y) (ptob_raw12 rest) (pack_raw12-Bytes x y h.0 (h.1.0)) bytes,
      unfold pack_raw12 in omega (arith, len),
    )

join-split : (ps : List ℕ) → Pixels 16 ps → join_bytes (split_pixels ps) ≡ ps
unfolding join_bytes split_pixels
join-split [] h = refl
join-split (p ∷ rest) h =
    let e : bit_or (p >>> 8 << 8) (bit_and p 0xff) ≡ p =
      ground (arith, and_mask 8 p, or_shifted 8 (p / 256) (p % 256) (omega arith)) in
    ap₂ ◌∷◌ e (join-split rest h.1)

swap_pixel-eq : (p : ℕ) → p < 65536 → swap_pixel p ≡ p % 256 * 256 + p / 256
unfolding swap_pixel
swap_pixel-eq p h = ground (arith, and_mask 8 p, or_shifted 8 (p % 256) (p / 256) (omega arith))

map_swap : (ps : List ℕ) → Pixels 16 ps → Pixels 16 (map swap_pixel ps)
map_swap [] h = tt
map_swap (p ∷ rest) h = (omega (arith, swap_pixel-eq p h.0), map_swap rest h.1)

swap_twice : (ps : List ℕ) → Pixels 16 ps → map swap_pixel (map swap_pixel ps) ≡ ps
swap_twice [] h = refl
swap_twice (p ∷ rest) h =
    let e = swap_pixel-eq p h.0 in
    ap₂ ◌∷◌ (omega (arith, e, swap_pixel-eq (swap_pixel p) (omega (arith, e))))
      (swap_twice rest h.1)

-- Decoding what was encoded gives 16-bit pixels back, with the bytes swapped or not.
pub btop-ptob_raw16 :
    (ps : List ℕ) (swap_bytes : Bool)
    → Pixels 16 ps
    → btop_raw16 (ptob_raw16 ps swap_bytes) swap_bytes ≡ ps
unfolding btop_raw16 ptob_raw16
btop-ptob_raw16 ps true h =
    ap (map swap_pixel) (join-split (map swap_pixel ps) (map_swap ps h)) ∙ swap_twice ps h
btop-ptob_raw16 ps false h = join-split ps h

-- The bytes of 16-bit numbers, the low byte first.
abbrev pub little_endian : List ℕ → List ℕ
little_endian [] = []
little_endian (p ∷ rest) = p % 256 ∷ p / 256 ∷ little_endian rest

split-swap : (ps : List ℕ) → Pixels 16 ps → split_pixels (map swap_pixel ps) ≡ little_endian ps
unfolding split_pixels
split-swap [] h = refl
split-swap (p ∷ rest) h =
    let e = swap_pixel-eq p h.0 in
    let high : swap_pixel p / 2 ^ 8 ≡ p % 256 = omega (arith, e) in
    let low : bit_and (swap_pixel p) 0xff ≡ p / 256 = omega (arith, e, and_mask 8 (swap_pixel p)) in
    ap₂ ◌∷◌ high (ap₂ ◌∷◌ low (split-swap rest h.1))

-- RAW8 sends 16-bit pixels as their little-endian bytes, and decoding gives the pixels back.
pub ptob_raw8-little_endian :
    (ps : List ℕ)
    → Pixels 16 ps
    → (ptob_raw8 ps ≡ little_endian ps) × (btop_raw8 (ptob_raw8 ps) ≡ ps)
unfolding ptob_raw8 btop_raw8
ptob_raw8-little_endian ps h = (split-swap ps h, btop-ptob_raw16 ps true h)
