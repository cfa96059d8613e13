-- ===== src/FsPath.antt =====
-- NEO6502_MMU_V3/rp_fs_path.h and rp_fs_path.cpp: NEOX 8.3 paths and the current directory of each
-- process. A C string is the list of its bytes before the NUL, and a buffer of `n` bytes holds a
-- string of fewer than `n`. Null pointers are not modelled: every caller passes a buffer.
pub mod Text
pub mod Cwd
pub mod Component
pub mod Canonical
pub mod Grammar
pub mod Valid
pub mod Resolve
pub mod Table
pub mod Spec
pub mod Refine
pub mod Home
pub mod Begins
pub mod Resolution
pub mod RoundTrip
mod Tests
