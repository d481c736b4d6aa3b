-- ===== src/Metadata/Tests.antt =====
-- The metadata of a small frame.
use m.Common.{
  ℕ, ◌+◌, ◌*◌, ◌%◌, ◌^◌, ◌<◌, ◌≡◌, ◌≢◌, refl, List, ok, true, ◌>>=◌, replicate, set, arith, bit_and,
}
use m.Metadata.{get_per_fov_metadata, fov_word, update_word, fov_flag, get_rtd_disabled}
use m.Metadata.Laws.{fov_word-update_word}

abbrev frame : List ℕ
frame = replicate 300 0xfff

abbrev cleared : List ℕ
cleared = set frame 244 0xff8

update_word-frame : update_word frame 1 12 (λ w. bit_and w 0xfff8) ≡ ok cleared
unfolding update_word fov_word get_per_fov_metadata
update_word-frame = refl

get_rtd_disabled-frame : get_rtd_disabled frame 1 ≡ ok true
unfolding fov_flag fov_word get_per_fov_metadata
get_rtd_disabled-frame = refl

cleared-word :
    (fov_word cleared 1 12 ≡ (fov_word frame 1 12 >>= λ w. ok (bit_and w 0xfff8 % 2 ^ 16)))
    × ((fov' idx' : ℕ)
        → idx' < 32
        → fov' * 32 + idx' ≢ 1 * 32 + 12
        → fov_word cleared fov' idx' ≡ fov_word frame fov' idx')
cleared-word =
    fov_word-update_word frame cleared 1 12 (λ w. bit_and w 0xfff8) (omega arith) update_word-frame
