-- ===== src/FsMailbox/Exec.antt =====
-- NEO6502_MMU_V3/rp_fs_mailbox.cpp: `rp_fs_mailbox_handle_exec` and `rp_fs_mailbox_reset`.
use neo6502_mmu_v.Base.{ℕ, Bool, true, false, not, ◌||◌, leb, ◌==◌, if◌then◌else◌}
use neo6502_mmu_v.Ram.{Ram, read, rp_read16}
use neo6502_mmu_v.FsPath.Text.{max_procs}
use neo6502_mmu_v.FsPath.Cwd.{Table, reset_all, init_root, clone_cwd}
use neo6502_mmu_v.Memory.Config.{max_memory_contexts}
use neo6502_mmu_v.RpFs.FatFs.{FatFs}
use neo6502_mmu_v.RpFs.Storage.{close_all}
use neo6502_mmu_v.Mailbox.{MailboxState, mb_done, Mailbox, set_done, set_done32}
use neo6502_mmu_v.Mailbox.Rp
use neo6502_mmu_v.Mailbox.Rp.{err_einval}
use neo6502_mmu_v.FsMailbox.{FsState, bump, fs_error}
use neo6502_mmu_v.FsMailbox.Op.{
  op_status, op_open, op_read, op_close, op_write, op_load, op_save, op_seek, op_tell, op_delete,
  op_rename, op_opendir, op_readdir, op_closedir, op_mkdir, op_rmdir, op_cwd_init_root,
  op_cwd_clone, op_chdir, op_getcwd,
}
use neo6502_mmu_v.FsMailbox.Action.{Reply, value, refused, Action, ◌>>◌, pure, true_or_error_in}
use neo6502_mmu_v.FsMailbox.Paths.{
  Completion, done, exec_open, exec_single_path, exec_rename, exec_opendir, exec_chdir, exec_getcwd,
}
use neo6502_mmu_v.FsMailbox.Handles.{
  exec_read, exec_write, exec_seek, exec_tell, exec_readdir, exec_status, exec_close, exec_closedir,
}
use neo6502_mmu_v.FsMailbox.Bulk.{exec_bulk}

module _ {Disk File Folder Hidden : Type 0} where
  -- How an operation ends: `rp_fs_mb_set_done`, `rp_fs_mb_set_done32` or `rp_fs_mb_set_error`.
  unfoldable pub finish :
      Reply Completion × Mailbox (FsState Disk File Folder Hidden)
      → Mailbox (FsState Disk File Folder Hidden)
  finish (value c, s) = record s { ram = set_done c.result c.flags s.ram; mmuio_trigger = false }
  finish (refused err part, s) = fs_error err part s

  unfoldable pub finish32 :
      Reply ℕ × Mailbox (FsState Disk File Folder Hidden)
      → Mailbox (FsState Disk File Folder Hidden)
  finish32 (value result, s) = record s { ram = set_done32 result 0 s.ram; mmuio_trigger = false }
  finish32 (refused err part, s) = fs_error err part s

  abbrev pub on_cwd :
      (Table → Bool × Table)
      → Mailbox (FsState Disk File Folder Hidden)
      → Bool × Mailbox (FsState Disk File Folder Hidden)
  on_cwd f s = let (b, t) = f s.fs.cwd in (b, record s { fs = record s.fs { cwd = t } })

  -- The two operations that the `switch` holds itself.
  unfoldable pub exec_cwd :
      (Table → Bool × Table) → Action (Mailbox (FsState Disk File Folder Hidden)) Completion
  exec_cwd f = do true_or_error_in (λ s. err_einval) (on_cwd f); pure (done 0 0)

  -- `requestFSCompletionIRQ` of scheduler.cpp.
  abbrev pub request_completion :
      ℕ → Mailbox (FsState Disk File Folder Hidden) → Mailbox (FsState Disk File Folder Hidden)
  request_completion pid s =
      if not (pid == 0) then record s { fs = record s.fs { completion_pending = true } } else s

module _ {Disk File Folder Hidden : Type 0} (fat : FatFs Disk File Folder)
    (select : ℕ → Ram → Hidden → Ram × Hidden) where
  -- The `switch (operation)`.
  unfoldable pub execute :
      ℕ
      → ℕ
      → ℕ
      → Mailbox (FsState Disk File Folder Hidden)
      → Mailbox (FsState Disk File Folder Hidden)
  execute operation pid context s =
      let args = rp_read16 s.ram Rp.rp_arg0l in
      let low = read s.ram Rp.rp_arg2l in
      let high = read s.ram Rp.rp_arg2h in
      if operation == op_status
      then finish (exec_status fat select s)
      else if operation == op_open
      then finish (exec_open fat select pid context args s)
      else if operation == op_read
      then finish (exec_read fat select context args low s)
      else if operation == op_write
      then finish (exec_write fat select context args low s)
      else if operation == op_close
      then finish (exec_close fat select low s)
      else if operation == op_load || operation == op_save
      then finish (exec_bulk fat select operation pid context args s)
      else if operation == op_delete || operation == op_mkdir || operation == op_rmdir
      then finish (exec_single_path fat select operation pid context args s)
      else if operation == op_rename
      then finish (exec_rename fat select pid context args s)
      else if operation == op_opendir
      then finish (exec_opendir fat select pid context args s)
      else if operation == op_seek
      then finish32 (exec_seek fat select context args low s)
      else if operation == op_tell
      then finish32 (exec_tell fat select context args low s)
      else if operation == op_readdir
      then finish (exec_readdir fat select context args low s)
      else if operation == op_closedir
      then finish (exec_closedir fat select low s)
      else if operation == op_chdir
      then finish (exec_chdir fat select pid context args s)
      else if operation == op_getcwd
      then finish (exec_getcwd fat select pid context args s)
      else if operation == op_cwd_init_root
      then finish (exec_cwd (λ t. init_root t low high) s)
      else if operation == op_cwd_clone
      then finish (exec_cwd (λ t. clone_cwd t low high) s)
      else fs_error err_einval 0 s

  -- `rp_fs_mailbox_handle_exec`; `gFSCommandCount` has the place 0.
  unfoldable pub fs_handle_exec :
      Mailbox (FsState Disk File Folder Hidden)
      → MailboxState × Mailbox (FsState Disk File Folder Hidden)
  fs_handle_exec s =
      let s = bump 0 s in
      let operation = read s.ram Rp.rp_state in
      let pid = read s.ram Rp.rp_arg1l in
      let context = read s.ram Rp.rp_arg1h in
      let t =
        if leb max_procs pid || leb max_memory_contexts context
        then fs_error err_einval 0 s
        else execute operation pid context s in
      (mb_done, request_completion pid t)

  -- `rp_fs_mailbox_reset`
  unfoldable pub fs_mailbox_reset :
      FsState Disk File Folder Hidden → FsState Disk File Folder Hidden
  fs_mailbox_reset fs = record fs { storage = close_all fat fs.storage; cwd = reset_all }
