-- ===== src/MemoryMap.antt =====
-- cobra_system_control/cobra_system_control/memory_map.py.
pub mod Field
pub mod Bus
pub mod Periph
pub mod Build
mod Tests
