-- ===== src/Device/Tests.antt =====
-- The laws of the checksum, the link and the polling loop on concrete data.
use m.Common.{
  ℕ, ◌-◌, ◌/◌, ◌%◌, ◌^◌, ◌≡◌, ◌≢◌, refl, ◌↔◌, Bool, List, [], ◌∷◌, ◌++◌, ◌==◌, ok, arith,
}
use m.Common.Action.{Action}
use m.Device.Crc.{calculate_crc16, crc_step}
use m.Device.Crc.Ccitt.{crc_ccitt, calculate_crc16-crc_ccitt}
use m.Device.Crc.Laws.{calculate_crc16-residue, calculate_crc16_detects}
use m.Device.Poll.{wait_for_true}
use m.Device.Poll.Laws.{HoldsWithin, wait_for_true_iff}

abbrev digits_text : List ℕ
digits_text = 0x31 ∷ 0x32 ∷ 0x33 ∷ 0x34 ∷ 0x35 ∷ 0x36 ∷ 0x37 ∷ 0x38 ∷ 0x39 ∷ []

-- The check value of this CRC.
check_value : calculate_crc16 digits_text ≡ 0x31C3
unfolding calculate_crc16 crc_step
check_value = refl

calculate_crc16-crc_ccitt_example :
    calculate_crc16 (0x31 ∷ 0x32 ∷ []) ≡ crc_ccitt 0 (0x31 ∷ 0x32 ∷ [])
calculate_crc16-crc_ccitt_example =
    calculate_crc16-crc_ccitt (0x31 ∷ 0x32 ∷ []) (omega arith, (omega arith, tt))

calculate_crc16_detects_example :
    calculate_crc16 (1 ∷ 2 ∷ 3 ∷ []) ≢ calculate_crc16 (1 ∷ 7 ∷ 3 ∷ [])
calculate_crc16_detects_example =
    calculate_crc16_detects (1 ∷ []) (3 ∷ []) 2 7 (omega arith, tt) (omega arith, tt) (omega arith)
      (omega arith) (omega arith)

residue_of_two :
    calculate_crc16 (
      (1 ∷ 2 ∷ [])
      ++ calculate_crc16 (1 ∷ 2 ∷ []) / 2 ^ 8 ∷ calculate_crc16 (1 ∷ 2 ∷ []) % 2 ^ 8 ∷ [])
    ≡ 0
residue_of_two = calculate_crc16-residue (1 ∷ 2 ∷ []) (omega arith, (omega arith, tt))

-- A counter that is polled until it is 0.
abbrev counts_down : Action ℕ Bool
counts_down n = (ok (n == 0), n - 1)

wait_for_true_iff_example :
    (wait_for_true counts_down 5 3 ≡ (ok tt, 0)) ↔ HoldsWithin counts_down 0 5 3
wait_for_true_iff_example = wait_for_true_iff counts_down 0 5 3
