-- ===== src/RpFs.antt =====
-- NEO6502_MMU_V3/rp_fs.cpp and usb_fatfs.cpp: the file and directory handles of the RP, and the
-- mounted drives. FatFs, which these files call, is an argument.
pub mod FatFs
pub mod Names
pub mod Storage
pub mod Files
pub mod Folders
pub mod Agree
pub mod Handover
pub mod Handles
pub mod Consistent
pub mod Run
pub mod Tests
