-- ===== src/Flash/Tests.antt =====
-- The flash code over a device that notes the bytes that are sent to it and is never busy.
use text.Mathlib.Text.{◌==◌ as str_eq}
use m.Common.{
  ℕ, ◌+◌, ◌≡◌, ◌≢◌, refl, inr, true, false, List, [], ◌∷◌, ◌++◌, if◌then◌else◌, arith, length,
  replicate, some, none, ok, err, value_error,
}
use m.Common.All.{All}
use m.Mcs.Binary.{BinMcsReader}
use m.Flash.Qspi.{
  Registers, flash_is_busy, qspi_send, qspi_receive, receive_rounds, wait_spi, status_register,
}
use m.Flash.Partition.{Partition, make_partition, program_partition, read_and_verify}
use m.Flash.Partition.Erase.{Planned, erase_partition-Planned}
use m.Flash.Partition.Verify.{program_partition-eq-return, read_and_verify_top}
use m.Flash.Updater.{update_fpga, update_lcm}
use m.Flash.Updater.Laws.{Deleted, delete_memory-Deleted, update_too_large}
use m.Device.Fx3.{Libusb}
use m.Device.Usb.{Usb, UsbDevice}
use m.MemoryMap.Field.{Field}
use m.MemoryMap.Periph.{Periph}
use m.Flash.Registers.{device_registers}
use m.Flash.Registers.Laws.{flash_never_busy}
use m.Flash.Pages.{ba_to_pages, concat, ba_to_pages_lem}

abbrev noted : Registers (List (List ℕ))
noted = record {
  write_field = λ field_name v s. (ok tt, s);
  read_field = λ field_name s. (ok (if str_eq field_name "fifo_rx_empty" then 1 else 0), s);
  write_bytes = λ field_name bytes s. (ok tt, s ++ (bytes ∷ []));
  read_bytes = λ field_name n s. (ok (replicate n 0), s);
}

not_busy : flash_is_busy noted 1 [] ≡ (ok false, (5 ∷ []) ∷ [])
unfolding flash_is_busy status_register qspi_send qspi_receive receive_rounds wait_spi
not_busy = refl

abbrev partition : Partition
partition = record { addr_base = 0x10000; size = 0x19000 }

partition_made : make_partition 0x10000 0x19000 ≡ ok partition
unfolding make_partition
partition_made = refl

erase_partition-Planned_example : Planned noted 1 partition
erase_partition-Planned_example =
    erase_partition-Planned noted 1 0x10000 0x19000 partition partition_made

abbrev reader : BinMcsReader
reader = record { mem_size = 0x29000; padding = 0xff; bytes = [] }

program_partition-eq-return_example :
    program_partition noted 1 reader (record { addr_base = 0x20000; size = 0x10000 }) true []
    ≡ (ok tt, [])
program_partition-eq-return_example =
    program_partition-eq-return noted 1 reader (record { addr_base = 0x20000; size = 0x10000 }) true
      [] (omega arith)

read_and_verify_top_example : read_and_verify noted 1 reader partition none none [] ≢ (ok [], [])
read_and_verify_top_example =
    read_and_verify_top noted 1 reader partition [] [] [] (omega arith) refl

delete_memory-Deleted_example : Deleted noted 1 0x20000 0x40000
delete_memory-Deleted_example =
    delete_memory-Deleted noted 1 17 0x20000 0x40000 refl refl (omega arith)

update_too_large_example :
    (update_fpga noted 1 [] (record { addr_base = 0x3f0000; size = 0x20000 }) []
      ≡ (err value_error, []))
    × (update_lcm noted 1 [] (record { addr_base = 0x3f0000; size = 0x20000 }) []
        ≡ (err value_error, []))
update_too_large_example =
    update_too_large noted 1 [] (record { addr_base = 0x3f0000; size = 0x20000 }) []
      (inr (omega arith))

-- A link that takes everything and gives zeros.
abbrev zeros_lib : Libusb ℕ
zeros_lib = record {
  init = λ s. (true, s);
  open_device = λ v p s. (true, s);
  claim_interface = λ s. (true, s);
  find_endpoints = λ s. (true, s);
  bulk_out = λ bytes s. (true, s + length bytes);
  bulk_in = λ n s. (some (replicate n 0), s);
  close = λ s. s;
}

abbrev qspi_device : UsbDevice
qspi_device = record {
  device_addr = 0x10;
  addr_nbytes = 2;
  data_nbytes = 1;
  addr_bigendian = true;
  data_bigendian = true;
}

abbrev one_bit : ℕ → ℕ → ℕ → Field
one_bit o k n = record { offset = o; position = k; size = n; n_words = 1; mnemonic = [] }

abbrev qspi_periph : Periph
qspi_periph = record {
  addr_base = 0;
  word_size = 8;
  fields =
      ("reset", one_bit 0 0 3)
      ∷ ("fifo_tx_release", one_bit 1 0 1)
      ∷ ("fifo_tx_wdata", one_bit 2 0 8)
      ∷ ("fifo_rx_rdata", one_bit 4 0 8)
      ∷ ("fifo_rx_empty", one_bit 5 3 1)
      ∷ ("spi_busy", one_bit 6 4 1)
      ∷ [];
}

abbrev link : Usb ℕ
link = record { vendor_id = 1; product_id = 2; is_connected = true; wire = 0 }

flash_never_busy_example :
    flash_is_busy (device_registers zeros_lib qspi_device qspi_periph) 1 link ≢ (ok true, link)
flash_never_busy_example = flash_never_busy zeros_lib qspi_device qspi_periph 1 link link

ba_to_pages_lem_example :
    All (λ p. length p ≡ 256) (ba_to_pages (1 ∷ 2 ∷ []))
    × (concat (ba_to_pages (1 ∷ 2 ∷ [])) ≡ (1 ∷ 2 ∷ []) ++ replicate 254 0)
    × (length (ba_to_pages (1 ∷ 2 ∷ [])) ≡ 1)
ba_to_pages_lem_example = ba_to_pages_lem (1 ∷ 2 ∷ [])
