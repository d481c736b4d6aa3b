-- ===== src/Flash/Qspi.antt =====
-- `QspiController` of spi_flash.py: the commands that erase, program and read the flash memory. What
-- the chip does is not modelled.
use m.Common.{
  ℕ, zero, suc, ◌+◌, ◌*◌, ◌/◌, ◌%◌, ◌^◌, Bool, true, false, ◌&&◌, not, Option, none, some, List, [],
  ◌∷◌, ◌++◌, bit_and, ◌||◌, ltb, leb, ◌==◌, if◌then◌else◌, Result, ok, err, runtime_error,
  overflow_error, not_ended, length,
}
use m.Common.Action.{Action, ◌>>=◌, ◌>>◌, lift, check, return, raise}
use m.Common.Bits.{◌>>>◌}
use Prim.Native.String.{String}

abbrev pub page_size : ℕ
page_size = 256

abbrev pub sector_size : ℕ
sector_size = 4 * 1024

abbrev pub full_block_size : ℕ
full_block_size = 64 * 1024

abbrev pub half_block_size : ℕ
half_block_size = 32 * 1024

abbrev pub fast_read_size : ℕ
fast_read_size = 1024

abbrev pub fifo_depth : ℕ
fifo_depth = 1024

-- `wb.QSPI_CMD_...`
abbrev pub cmd_wr_en : ℕ
cmd_wr_en = 0x06

abbrev pub cmd_fast_read : ℕ
cmd_fast_read = 0x0b

abbrev pub cmd_page_program : ℕ
cmd_page_program = 0x02

abbrev pub cmd_sector_erase : ℕ
cmd_sector_erase = 0x20

abbrev pub cmd_block_erase_half : ℕ
cmd_block_erase_half = 0x52

abbrev pub cmd_block_erase_full : ℕ
cmd_block_erase_full = 0xd8

abbrev pub cmd_read_sr_1 : ℕ
cmd_read_sr_1 = 0x05

abbrev pub cmd_write_disable : ℕ
cmd_write_disable = 0x04

abbrev pub cmd_jedec_id : ℕ
cmd_jedec_id = 0x9f

-- What the controller uses of `Device`: writing and reading a field of its peripheral by name, and
-- sending or receiving bytes at the address of a field. `Flash.Registers` is `Device`'s own.
pub record Registers (S : Type 0) : Type 0 where
  pub write_field : String → ℕ → Action S (Unit {0})
  pub read_field : String → Action S ℕ
  pub write_bytes : String → List ℕ → Action S (Unit {0})
  pub read_bytes : String → ℕ → Action S (List ℕ)

-- `address.to_bytes(3, byteorder='big')`
abbrev pub big_endian : ℕ → List ℕ
big_endian a = a / 2 ^ 16 ∷ a / 2 ^ 8 % 2 ^ 8 ∷ a % 2 ^ 8 ∷ []

unfoldable pub address_to_bytearray : ℕ → Result (List ℕ)
address_to_bytearray a = if ltb a (2 ^ 24) then ok (big_endian a) else err overflow_error

-- `length or QspiController.RX_FIFO_DEPTH`
abbrev pub length_or_all : Option ℕ → ℕ
length_or_all none = fifo_depth
length_or_all (some n) = if n == 0 then fifo_depth else n

-- `int.from_bytes(..., byteorder='big')`
abbrev pub from_big_endian : ℕ → List ℕ → ℕ
from_big_endian acc [] = acc
from_big_endian acc (b ∷ bytes) = from_big_endian (acc * 2 ^ 8 + b) bytes

abbrev pub too_long : Option ℕ → Bool
too_long none = false
too_long (some n) = ltb fifo_depth n

abbrev pub has_length : Option ℕ → List ℕ → Bool
has_length none bytes = false
has_length (some n) bytes = length bytes == n

abbrev pub lacks_length : Option ℕ → List ℕ → Bool
lacks_length none bytes = false
lacks_length (some n) bytes = not (length bytes == n)

-- The loops that poll take at most `polls` rounds; `not_ended` stands for a loop that has not ended.
module _ {S : Type 0} (r : Registers S) (polls : ℕ) where
  -- `while self.read_fields('spi_busy'): continue`
  unfoldable pub wait_spi : ℕ → Action S (Unit {0})
  wait_spi zero = raise not_ended
  wait_spi (suc n) = do busy ← r.read_field "spi_busy"; if busy == 0 then return tt else wait_spi n

  -- `_qspi_send`
  unfoldable pub qspi_send : List ℕ → Action S (Unit {0})
  qspi_send wdata = do
    check (ltb fifo_depth (length wdata)) runtime_error
    r.write_field "fifo_tx_release" 0
    r.write_field "reset" 3
    r.write_bytes "fifo_tx_wdata" wdata
    r.write_field "fifo_tx_release" 1
    wait_spi polls
    r.write_field "fifo_tx_release" 0

  -- `n` rounds of the loop of `_qspi_receive`.
  unfoldable pub receive_rounds : Option ℕ → ℕ → List ℕ → Action S (List ℕ)
  receive_rounds count zero bytes = return bytes
  receive_rounds count (suc n) bytes = do
    empty ← r.read_field "fifo_rx_empty"
    let next = r.read_field "fifo_rx_rdata" >>= λ b. receive_rounds count n (bytes ++ b ∷ [])
    if empty == 1 || has_length count bytes then return bytes else next

  -- `_qspi_receive`, as a byte array; a length of 0 is not checked.
  unfoldable pub qspi_receive : Option ℕ → Action S (List ℕ)
  qspi_receive count = do
    check (too_long count) runtime_error
    bytes ← receive_rounds count fifo_depth []
    check (lacks_length count bytes) runtime_error
    r.write_field "reset" 2
    return bytes

  unfoldable pub status_register : Action S ℕ
  status_register = do
    qspi_send (cmd_read_sr_1 ∷ [])
    bytes ← qspi_receive none
    return (from_big_endian 0 bytes)

  -- `flash_is_busy`
  unfoldable pub flash_is_busy : Action S Bool
  flash_is_busy = status_register >>= λ rdata. return (bit_and rdata 0x1 == 1)

  unfoldable pub get_write_enable : Action S Bool
  get_write_enable = status_register >>= λ rdata. return (bit_and (rdata >>> 1) 0x1 == 1)

  unfoldable pub set_write_enable : Bool → Action S (Unit {0})
  set_write_enable val = qspi_send ((if val then cmd_wr_en else cmd_write_disable) ∷ [])

  unfoldable pub read_jedec_id : Action S ℕ
  read_jedec_id = do
    qspi_send (cmd_jedec_id ∷ [])
    bytes ← qspi_receive none
    return (from_big_endian 0 bytes)

  -- `while blocking and self.flash_is_busy: continue`
  unfoldable pub wait_ready : Bool → ℕ → Action S (Unit {0})
  wait_ready false n = return tt
  wait_ready true zero = raise not_ended
  wait_ready true (suc n) = do busy ← flash_is_busy; if busy then wait_ready true n else return tt

  -- The end of every command that changes the memory.
  unfoldable pub enabled_command : ℕ → ℕ → List ℕ → Bool → Action S (Unit {0})
  enabled_command command address bytes blocking = do
    qspi_send (cmd_wr_en ∷ [])
    a ← lift (address_to_bytearray address)
    qspi_send (command ∷ (a ++ bytes))
    wait_ready blocking polls

  -- `page_program`
  unfoldable pub page_program : ℕ → List ℕ → Bool → Action S (Unit {0})
  page_program address bytes blocking = do
    let n = length bytes
    check (not (ltb 0 n && leb n page_size)) runtime_error
    check (ltb page_size (address % page_size + n)) runtime_error
    enabled_command cmd_page_program address bytes blocking

  -- `sector_erase`
  unfoldable pub sector_erase : ℕ → Bool → Action S (Unit {0})
  sector_erase address blocking = do
    check (not (address % sector_size == 0)) runtime_error
    enabled_command cmd_sector_erase address [] blocking

  -- `block_erase`
  unfoldable pub block_erase : ℕ → Bool → Bool → Action S (Unit {0})
  block_erase address full_block blocking = do
    let command = if full_block then cmd_block_erase_full else cmd_block_erase_half
    let size = if full_block then full_block_size else half_block_size
    check (not (address % size == 0)) runtime_error
    enabled_command command address [] blocking

  -- `fast_read_data`, where a length of 0 means the whole FIFO.
  unfoldable pub fast_read_data : ℕ → Option ℕ → Action S (List ℕ)
  fast_read_data address count = do
    a ← lift (address_to_bytearray address)
    qspi_send (cmd_fast_read ∷ a)
    bytes ← r.read_bytes "fifo_rx_rdata" (length_or_all count)
    r.write_field "reset" 2
    return bytes
