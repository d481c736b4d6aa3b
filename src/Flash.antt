-- ===== src/Flash.antt =====
-- The SPI flash: cobra_system_control/cobra_system_control/spi_flash.py and w25q32jw_const.py.
pub mod Qspi
pub mod Registers
pub mod Partition
pub mod Pages
pub mod Updater
mod Tests
