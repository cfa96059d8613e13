-- ===== src/RpFs/FatFs.antt =====
-- The functions of FatFs and of the USB storage layer that NEO6502_MMU_V3/rp_fs.cpp and usb_fatfs.cpp
-- call. `Disk` is the state behind them, `File` a FIL object and `Folder` a DIR object. A call
-- answers with FRESULT, where 0 is FR_OK.
use neo6502_mmu_v.Base.{ℕ, Bool, List}

-- `FILINFO`
pub record FileInfo : Type 0 where
  pub fname : List ℕ
  pub altname : List ℕ
  pub fattrib : ℕ
  pub fsize : ℕ

pub record FatFs (Disk File Folder : Type 0) : Type 0 where
  pub storage_mounted : ℕ → Disk → Bool
  pub f_mount : ℕ → Disk → ℕ × Disk
  pub f_unmount : ℕ → Disk → Disk
  pub f_open : File → List ℕ → ℕ → Disk → ℕ × File × Disk
  pub f_close : File → Disk → ℕ × File × Disk
  pub f_read : File → ℕ → Disk → ℕ × List ℕ × File × Disk
  pub f_write : File → List ℕ → Disk → ℕ × ℕ × File × Disk
  pub f_lseek : File → ℕ → Disk → ℕ × File × Disk
  pub f_size : File → ℕ
  pub f_tell : File → ℕ
  pub f_unlink : List ℕ → Disk → ℕ × Disk
  pub f_rename : List ℕ → List ℕ → Disk → ℕ × Disk
  pub f_mkdir : List ℕ → Disk → ℕ × Disk
  pub f_opendir : Folder → List ℕ → Disk → ℕ × Folder × Disk
  pub f_readdir : Folder → Disk → ℕ × FileInfo × Folder × Disk
  pub f_closedir : Folder → Disk → ℕ × Folder × Disk
