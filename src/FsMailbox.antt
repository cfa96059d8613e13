-- ===== src/FsMailbox.antt =====
-- NEO6502_MMU_V3/rp_fs_mailbox.cpp: fs.exec, the file system requests of the 6502. Its state is the
-- part `fs` of the mailbox's state.
use neo6502_mmu_v.Base.{ℕ, ◌+◌, ◌%◌, ◌^◌, Bool, ◌==◌, if◌then◌else◌}
use neo6502_mmu_v.FsPath.Cwd.{Table}
use neo6502_mmu_v.RpFs.Storage.{Storage}
use neo6502_mmu_v.Mailbox.{Mailbox, set_error}
pub mod Op
pub mod Action
pub mod Access
pub mod Paths
pub mod Handles
pub mod Bulk
pub mod Exec
mod Tests
pub mod Proper
pub mod Ending
pub mod BulkEnding
pub mod Completed
pub mod Ranges
pub mod PathRead
pub mod Seek

-- The storage, the table of working directories, the context that the MMU shows (mmu.cpp,
-- `gCurrentContext`), the memory that it does not show, the statistics by operation, and
-- `gFSCompletionPending` of scheduler.cpp.
pub record FsState (Disk File Folder Hidden : Type 0) : Type 0 where
  pub storage : Storage Disk File Folder
  pub cwd : Table
  pub context : ℕ
  pub hidden : Hidden
  pub counts : ℕ → ℕ
  pub completion_pending : Bool

module _ {Disk File Folder Hidden : Type 0} where
  -- `gFSOpenCount++` and its like.
  abbrev pub bump :
      ℕ → Mailbox (FsState Disk File Folder Hidden) → Mailbox (FsState Disk File Folder Hidden)
  bump operation s = record s {
    fs = record s.fs {
      counts = λ n. if n == operation then (s.fs.counts n + 1) % 2 ^ 32 else s.fs.counts n;
    };
  }

  -- `rp_fs_mb_set_error`; `gFSErrorCount` has the place 255.
  unfoldable pub fs_error :
      ℕ → ℕ → Mailbox (FsState Disk File Folder Hidden) → Mailbox (FsState Disk File Folder Hidden)
  fs_error err part s = set_error err part (bump 255 s)
