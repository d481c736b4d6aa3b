-- ===== src/Mcs.antt =====
-- cobra_system_control/cobra_system_control/mcs_reader.py: Intel Hex records, and the files of them
-- that describe the contents of the SPI flash.
pub mod Text
pub mod Record
pub mod Reader
pub mod Writer
mod Tests
pub mod Binary
