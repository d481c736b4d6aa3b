-- ===== src/Scan/Params/Message.antt =====
-- The messages of `ScanParams.write_scan_table` of
-- cobra_system_control/cobra_system_control/scan_control.py, and what a receiver makes of them.
use m.Common.{
  ℕ, zero, suc, ◌*◌, bit_and, ◌≡◌, true, false, ◌&&◌, Option, none, some, List, [], ◌∷◌, ◌++◌, ◌==◌,
  if◌then◌else◌, length, take, drop, ok,
}
use m.Common.All.{All}
use m.Common.Bits.{◌>>>◌}
use m.Device.Crc.{calculate_crc16}
use m.Device.Crc.Ccitt.{Byte}
use m.Device.Pack.{unpack}
use m.Device.Usb.{UsbDevice}
use m.Scan.Entry.{ScanEntry, data_words, data_nwords}
use m.Scan.Params.{pack_words, entry_message}

-- The words of `n` groups of four bytes.
pub unpack_words : ℕ → List ℕ → List ℕ
unpack_words zero bytes = []
unpack_words (suc n) bytes = unpack false (take 4 bytes) ∷ unpack_words n (drop 4 bytes)

-- What a message says: where, to which device, and the words. One of another length or with a wrong
-- checksum says nothing.
pub decode : List ℕ → Option (ℕ × ℕ × List ℕ)
decode m =
    if (length m == 70) && (calculate_crc16 m == 0)
    then some (
      unpack true (take 2 m),
      unpack true (take 2 (drop 2 m)),
      unpack_words data_nwords (drop 2 (drop 2 m)),
    )
    else none

-- Words that are packed one after the other.
record PacksWords (d : UsbDevice) (ws : List ℕ) : Type 0 where
  bytes : List ℕ
  packs : pack_words d ws ≡ ok bytes
  count : length bytes ≡ 4 * length ws
  each : All Byte bytes
  unpacks : (rest : List ℕ) → unpack_words (length ws) (bytes ++ rest) ≡ ws

-- A message of whole parts.
module _ (at device words : List ℕ) (n_at : length at ≡ 2) (n_device : length device ≡ 2)
    (n_words : length words ≡ 64) (b_at : All Byte at) (b_device : All Byte device)
    (b_words : All Byte words) where
  abbrev body : List ℕ
  body = at ++ (device ++ words)

  tail : List ℕ
  tail = bit_and (calculate_crc16 body >>> 8) 0xFF ∷ bit_and (calculate_crc16 body) 0xFF ∷ []

-- A message that says these words at this address.
pub record Says (d : UsbDevice) (addr_base : ℕ) (e : ScanEntry) (at : ℕ) : Type 0 where
  pub message : List ℕ
  pub packs : entry_message d addr_base e ≡ ok message
  pub says : decode message ≡ some (at, d.device_addr, data_words e)
