-- ===== src/Scan.antt =====
-- cobra_system_control/cobra_system_control/scan_control.py: the scan table and the peripherals that it
-- is written to.
pub mod Entry
pub mod Table
pub mod Params
pub mod Control
pub mod Tests
