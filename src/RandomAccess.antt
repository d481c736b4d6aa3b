-- ===== src/RandomAccess.antt =====
-- cobra_system_control/cobra_system_control/random_access_scanning.py: virtual sensors made into the
-- entries of a scan.
pub mod Flags
pub mod Schedule
pub mod Settings
pub mod Tests
