-- ===== src/Device.antt =====
-- cobra_system_control/cobra_system_control/device.py: the checksum of the messages, the packing of
-- numbers, and the USB device behind the callbacks of a peripheral; with the polling loop of
-- functional_utilities.py.
pub mod Crc
pub mod Pack
pub mod Fx3
pub mod Usb
pub mod Poll
pub mod Tests
