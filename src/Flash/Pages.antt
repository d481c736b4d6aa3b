-- ===== src/Flash/Pages.antt =====
-- The helpers at the end of spi_flash.py: sizes in pages, reads and sectors, and bytes as pages.
use m.Common.{
  ℕ, zero, suc, ◌+◌, ◌-◌, ◌*◌, ◌/◌, ◌%◌, ◌≡◌, refl, ap, ◌∙◌, List, [], ◌∷◌, ◌++◌, arith, take, drop,
  length, replicate, length-append, length-replicate, take-append-drop, length-drop, length-take,
}
use m.Common.All.{All}
use m.Flash.Qspi.{page_size, fast_read_size, sector_size}

-- `int(np.ceil(size / n))`
abbrev ceil_size : ℕ → ℕ → ℕ
ceil_size size n = (size + (n - 1)) / n

unfoldable pub pages_from_size : ℕ → ℕ
pages_from_size size_bytes = ceil_size size_bytes page_size

unfoldable pub reads_from_size : ℕ → ℕ
reads_from_size size_bytes = ceil_size size_bytes fast_read_size

unfoldable pub sectors_from_size : ℕ → ℕ
sectors_from_size size_bytes = ceil_size size_bytes sector_size

-- The slices `[page * 256:(page + 1) * 256]` of `count` pages, the first one at the head.
unfoldable pub slices : ℕ → List ℕ → List (List ℕ)
slices zero bs = []
slices (suc count) bs = take page_size bs ∷ slices count (drop page_size bs)

-- `ba_to_pages`
unfoldable pub ba_to_pages : List ℕ → List (List ℕ)
ba_to_pages ba =
    let missing_bytes = page_size - length ba % page_size in
    let cal_array = ba ++ replicate missing_bytes 0 in
    slices (pages_from_size (length cal_array)) cal_array

abbrev pub concat : List (List ℕ) → List ℕ
concat [] = []
concat (p ∷ ps) = p ++ concat ps

slices-whole :
    (count : ℕ) (bs : List ℕ)
    → length bs ≡ count * 256
    → All (λ p. length p ≡ 256) (slices count bs) × (concat (slices count bs) ≡ bs)
unfolding slices
slices-whole zero [] h = (tt, refl)
slices-whole zero (b ∷ bs) h = absurd (omega arith)
slices-whole (suc count) bs h =
    let ih = slices-whole count (drop 256 bs) (omega (arith, length-drop 256 bs)) in
    (
      (omega (arith, length-take 256 bs), ih.0),
      ap (λ (t : List ℕ). take 256 bs ++ t) ih.1 ∙ take-append-drop 256 bs,
    )

length-slices : (count : ℕ) (bs : List ℕ) → length (slices count bs) ≡ count
unfolding slices
length-slices zero bs = refl
length-slices (suc count) bs = ap suc (length-slices count (drop 256 bs))

-- `ba_to_pages` gives pages of 256 bytes whose bytes, one after the other, are the given ones and then
-- zeros; it makes one page more than the whole pages of the given bytes, so a last page of zeros where
-- their number is a multiple of 256.
pub ba_to_pages_lem :
    (ba : List ℕ)
    → All (λ p. length p ≡ 256) (ba_to_pages ba)
      × (concat (ba_to_pages ba) ≡ ba ++ replicate (256 - length ba % 256) 0)
      × (length (ba_to_pages ba) ≡ length ba / 256 + 1)
unfolding ba_to_pages pages_from_size
ba_to_pages_lem ba =
    let cal = ba ++ replicate (256 - length ba % 256) 0 in
    let n : length cal ≡ (length ba / 256 + 1) * 256 = omega (
      arith,
      length-append ba (replicate (256 - length ba % 256) 0),
      length-replicate {A = ℕ} (256 - length ba % 256) 0,
    ) in
    let count : (length cal + 255) / 256 ≡ length ba / 256 + 1 = omega arith in
    let whole = slices-whole ((length cal + 255) / 256) cal (omega arith) in
    (whole.0, whole.1, length-slices ((length cal + 255) / 256) cal ∙ count)
