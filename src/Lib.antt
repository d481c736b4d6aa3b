-- ===== src/Lib.antt =====
-- Verification of the control software of the M30 lidar (cobra_system_control).
--
-- MemoryMap models cobra_system_control/cobra_system_control/memory_map.py. `MemoryMap.Field` is
-- `MemoryMapField`: `make_field` is `__init__` with its checks, `get_field_mask` and
-- `get_field_value` are the methods of those names. `MemoryMap.Periph` is `MemoryMapPeriph` with
-- `write_fields` and `read_fields`: the hardware behind the two callbacks is a parameter
-- (`MemoryMap.Bus.Bus`), and where a law needs it to behave as memory this is the hypothesis
-- `IsMemory`. `MemoryMap.Build` is the constructor of a peripheral, from
-- what the YAML file says; reading that file is a library's work.
--
-- Mipi models the RAW12, RAW16 and RAW8 packings of
-- cobra_system_control/cobra_system_control/numerical_utilities.py. Fixed point (`SignalVec`) works on
-- floating point arrays and is not modelled.
--
-- Mcs models cobra_system_control/cobra_system_control/mcs_reader.py: `Mcs.Text` has what the file
-- uses of Python's texts, `Mcs.Record` the Intel Hex records, `Mcs.Reader` `McsReader` (`Mcs.Reader.Parse` is the
-- loop of its constructor, one function per branch; files are a parameter), `Mcs.Binary` `BinMcsReader`, `Mcs.Writer`
-- `LcmMcsWriter`.
--
-- Flash models cobra_system_control/cobra_system_control/spi_flash.py: `Flash.Qspi` is `QspiController`, down
-- to the fields of its registers, over the interface of its `Device` (`Flash.Qspi.Registers`), which
-- `Flash.Registers` fills with that of device.py; `Flash.Partition` erasing, programming and verifying a
-- partition with the image of a `BinMcsReader` (`Mcs.Binary`); `Flash.Pages` the page helpers; `Flash.Updater`
-- models cobra_system_control/cobra_system_control/mcs_updater.py on top of them. What the chip does is not
-- modelled. A loop that polls has a number of polls as fuel, and `not_ended` stands for one that has not ended by
-- then; the loop over what is left to verify has the number of bytes.
--
-- Metadata models cobra_raw2depth/cobra_raw2depth/src/M30Metadata.py: the words of the metadata of each
-- field of view. `Metadata.Sender` models the metadata of cobra_system_control/cobra_system_control/metadata.py
-- that are sent, `Metadata.Buffer` writing them, and `Metadata.Received` joins the two at the addresses of
-- resources/metadata_map.yml. What is drawn at random is an argument.
--
-- Device models cobra_system_control/cobra_system_control/device.py: `Device.Usb` is `USB` and `USBDevice`
-- over `Device.Fx3`, which models cobra_system_control/cobra_system_control/fx3_transfer.cpp (the calls of libusb
-- are a parameter); `Device.Crc` the checksum
-- of the messages; `Device.Pack` the packing of a number; `Device.Poll` the polling loop of
-- cobra_system_control/cobra_system_control/functional_utilities.py. Reading some bytes has their number as fuel,
-- which is enough since every round asks for at least one.
--
-- Scan models cobra_system_control/cobra_system_control/scan_control.py: `Scan.Entry` the registers and words of
-- an entry, `Scan.Table` the table and its check, `Scan.Params` writing it over the link of `Device.Usb` (what the
-- memory of the FPGA does with a message is not modelled), `Scan.Control` stopping the
-- controller through the fields of `MemoryMap.Periph`. The time constants of an entry are computed in floating point
-- and are not modelled; an entry's values are integers.
--
-- RandomAccess models cobra_system_control/cobra_system_control/random_access_scanning.py:
-- `RandomAccess.Settings` the checks of a scan's settings, `RandomAccess.Flags` the start and stop flags,
-- `RandomAccess.Schedule` the order of the entries. What numpy computes in floating point or sorts is a
-- parameter; the tables of angles, and the sharing of entries by several sensors, are not modelled.
--
-- Common has the shared notation: exceptions as values (`Common.Raise`), Python's `&`, `|`, `~`, `<<`
-- and `>>` on non-negative integers (`Common.Bits`), and fields of words (`Common.Fields`).
--
-- Beyond those, the search for a logarithm (`ceil_log2`) has its argument as fuel, and so have the digits
-- of a number (`format_hex`, `decimal`); that this is enough is proved for the first two.
--
-- Not modelled: the drivers and set-up of the sensor head, which are sequences of register writes with delays
-- (cobra_system_control/cobra_system_control/sensor_head.py, cobra.py and the drivers beside them); the
-- processing of images in floating point (cobra_raw2depth but for the metadata); the web interface
-- (cobra_lidar_api); the recipes of the Linux image (meta-lumotive); scripts, tests, printing and logging.
pub mod Common
pub mod MemoryMap
pub mod Mipi
pub mod Mcs
pub mod Flash
pub mod Metadata
pub mod Device
pub mod Scan
pub mod RandomAccess
