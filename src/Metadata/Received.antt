-- ===== src/Metadata/Received.antt =====
-- The metadata that metadata.py packs, in the words that M30Metadata.py of
-- cobra_raw2depth/cobra_raw2depth/src reads, at the addresses of
-- cobra_system_control/cobra_system_control/resources/metadata_map.yml: the bytes from 72 on are the
-- static metadata, and those from 300 + 48 * i on a virtual sensor's.
use m.Common.{
  ℕ, zero, suc, ◌+◌, ◌*◌, ◌%◌, ◌<◌, ◌≡◌, refl, ap, ap₂, ◌∙◌, true, List, [], ◌∷◌, ◌++◌, length,
  get_elem?, arith,
}
use m.Mipi.{btop_raw12}
use m.Mipi.Laws.{btop-append, length-btop}
use m.Scan.Entry.{all_in_bounds}
use m.Metadata.{item, fov_word}
use m.Metadata.Laws.{as_item, fov_word-item}
use m.Metadata.Sender.{
  PerVirtualSensorMetadata, StaticMetadata, virtual_sensor_memmap, static_memmap,
  virtual_sensor_data_words, static_data_words,
}
use m.Metadata.Sender.Laws.{
  values, virtual_sensor_values, static_data_words-Decodes, virtual_sensor_data_words-Decodes,
}

after : (xs ys : List ℕ) (i : ℕ) → get_elem? (xs ++ ys) (length xs + i) ≡ get_elem? ys i
after [] ys i = let e : 0 + i ≡ i = omega arith in ap (get_elem? ys) e
after (x ∷ xs) ys i =
    let e : suc (length xs) + i ≡ suc (length xs + i) = omega arith in
    ap (get_elem? (x ∷ (xs ++ ys))) e ∙ after xs ys i

within : (xs ys : List ℕ) (i : ℕ) → i < length xs → get_elem? (xs ++ ys) i ≡ get_elem? xs i
within [] ys i h = absurd (omega arith)
within (x ∷ xs) ys zero h = refl
within (x ∷ xs) ys (suc i) h = within xs ys i (omega arith)

-- A pixel of a block of bytes that begins at the pixel `k`.
block_pixel :
    (pre bytes post pixels : List ℕ) (n k i : ℕ)
    → length pre ≡ 3 * n
    → k ≡ 2 * n
    → length bytes % 3 ≡ 0
    → btop_raw12 bytes ≡ pixels
    → i < length pixels
    → get_elem? (btop_raw12 (pre ++ (bytes ++ post))) (k + i) ≡ get_elem? pixels i
block_pixel pre bytes post pixels n k i at begin whole decodes h =
    let e : btop_raw12 (pre ++ (bytes ++ post)) ≡ btop_raw12 pre ++ (pixels ++ btop_raw12 post) =
      btop-append pre (bytes ++ post) (omega arith)
      ∙ ap (λ (ps : List ℕ). btop_raw12 pre ++ ps)
          (btop-append bytes post whole ∙ ap (λ (ps : List ℕ). ps ++ btop_raw12 post) decodes) in
    let place : k + i ≡ length (btop_raw12 pre) + i =
      omega (arith, length-btop pre (omega arith)) in
    ap₂ get_elem? e place
    ∙ after (btop_raw12 pre) (pixels ++ btop_raw12 post) i
    ∙ within pixels (btop_raw12 post) i h

-- What the receiver reads in the words of a field of view are the values of the virtual sensor whose
-- bytes the sender has put at that sensor's place of the buffer, if they are in the bounds of their
-- registers, whatever the rest of the buffer holds.
pub fov_word-virtual_sensor_data_words :
    (v : PerVirtualSensorMetadata) (pre post : List ℕ) (fov idx : ℕ)
    → all_in_bounds (virtual_sensor_memmap v) ≡ true
    → length pre ≡ 300 + 48 * fov
    → idx < 13
    → fov_word (btop_raw12 (pre ++ (virtual_sensor_data_words v ++ post))) fov idx
      ≡ item (virtual_sensor_values v ++ (0 ∷ [])) idx
fov_word-virtual_sensor_data_words v pre post fov idx bounds at h =
    let (decodes, count, bytes) = virtual_sensor_data_words-Decodes v bounds in
    fov_word-item (btop_raw12 (pre ++ (virtual_sensor_data_words v ++ post))) fov idx (omega arith)
    ∙ ap as_item (
        block_pixel pre (virtual_sensor_data_words v) post (virtual_sensor_values v ++ (0 ∷ []))
          (100 + 16 * fov) (200 + fov * 32) idx (omega arith) (omega arith) (omega (arith, count))
          decodes (omega arith))

-- What the receiver reads in the 26 words from 48 on are the values of the static metadata whose bytes
-- the sender has put at their place of the buffer, if they are in the bounds of their registers,
-- whatever the rest of the buffer holds.
pub item-static_data_words :
    (s : StaticMetadata) (pre post : List ℕ) (idx : ℕ)
    → all_in_bounds (static_memmap s) ≡ true
    → length pre ≡ 72
    → idx < 26
    → item (btop_raw12 (pre ++ (static_data_words s ++ post))) (48 + idx)
      ≡ item (values (static_memmap s)) idx
item-static_data_words s pre post idx bounds at h =
    let (decodes, count, bytes) = static_data_words-Decodes s bounds in
    ap as_item (
      block_pixel pre (static_data_words s) post (values (static_memmap s)) 24 48 idx (omega arith)
        (omega arith) (omega (arith, count)) decodes (omega arith))
