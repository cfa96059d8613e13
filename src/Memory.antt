-- ===== src/Memory.antt =====
-- NEO6502_MMU_V3/memory_config.h and memory_config.cpp: the memory models, layouts and context
-- bindings read from /memory.ini, their validation, and the physical pages given to them.
-- A name is the list of its bytes; an array with its count is the list of its used entries.
pub mod Config
pub mod Validate
pub mod Allocate
pub mod Scan
pub mod Sections
pub mod Parse
pub mod Coverage
pub mod Checked
pub mod Written
pub mod Bounds
mod Tests
pub mod Pages
pub mod Fuel
pub mod Sharing
pub mod Giving
pub mod Owner
pub mod Filling
pub mod Isolation
