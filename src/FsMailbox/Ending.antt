-- ===== src/FsMailbox/Ending.antt =====
-- Each operation of NEO6502_MMU_V3/rp_fs_mailbox.cpp, by how it ends.
use neo6502_mmu_v.Base.{
  ℕ, ◌<◌, refl, arith, inl, inr, Bool, Option, List, length, Bool-cases, Option-cases,
}
use neo6502_mmu_v.Ram.{Ram}
use neo6502_mmu_v.FsPath.Text.{path_max}
use neo6502_mmu_v.FsPath.Cwd.{Table, ResolvedPath}
use neo6502_mmu_v.FsMailbox.Exec.{on_cwd, exec_cwd}
use neo6502_mmu_v.RpFs.FatFs.{FatFs}
use neo6502_mmu_v.RpFs.Storage.{Storage, ready}
use neo6502_mmu_v.RpFs.Folders.{Entry, entry, at_end, unreadable, running, readdir}
use neo6502_mmu_v.Mailbox.{Mailbox}
use neo6502_mmu_v.Mailbox.Rp.{err_einval}
use neo6502_mmu_v.FsMailbox.{FsState}
use neo6502_mmu_v.FsMailbox.Op.{err_eio, err_enomem}
use neo6502_mmu_v.FsMailbox.Action.{calls, or_error, or_error_in, require, true_or_error_in}
use neo6502_mmu_v.FsMailbox.Access.{read_context_block, write_context_block, read_context_path}
use neo6502_mmu_v.FsMailbox.Paths.{
  done, on_storage, missing, arguments, resolved, path_argument, change_cwd, store,
  resolve_arg_path, exec_open, exec_single_path, exec_rename, exec_opendir, exec_chdir, exec_getcwd,
}
use neo6502_mmu_v.FsMailbox.Handles.{
  dir_fuel, publish_entry, read_some, write_some, exec_read, exec_write, exec_seek, exec_tell,
  exec_readdir, exec_status, exec_close, exec_closedir,
}
use neo6502_mmu_v.FsMailbox.Proper.{
  IsProper, Keeps, bind-IsProper, then-IsProper, if-IsProper, pure-IsProper, gets-IsProper,
  calls-IsProper, bump-IsProper, require-IsProper, or_error-IsProper, or_error_in-IsProper,
  true_or_error_in-IsProper, read_context_block-Keeps, write_context_block-Keeps,
  read_context_path-Keeps,
}

module _ {Disk File Folder Hidden : Type 0} where
  -- The steps that the operations are made of.
  pub valid :
      (f : Mailbox (FsState Disk File Folder Hidden) → Bool) → IsProper (require err_einval f)
  valid f = require-IsProper err_einval f (omega arith) (omega arith)

  code_of-missing :
      (device : ℕ) (s : Mailbox (FsState Disk File Folder Hidden))
      → (0 < missing device s) × (missing device s < 8)
  code_of-missing device s = elim (Bool-cases (ready device s.fs.storage)) [
    | inl e ↦ rw e (omega arith, omega arith)
    | inr e ↦ rw e (omega arith, omega arith)
  ]

  pub present :
      {A : Type 0} (device : ℕ) (f : Storage Disk File Folder → Option A × Storage Disk File Folder)
      → IsProper {Hidden = Hidden} (or_error_in (missing device) (on_storage f))
  present device f =
      or_error_in-IsProper (missing device) (on_storage f) (code_of-missing device) (λ s. refl)

  present_true :
      (device : ℕ) (f : Storage Disk File Folder → Bool × Storage Disk File Folder)
      → IsProper {Hidden = Hidden} (true_or_error_in (missing device) (on_storage f))
  present_true device f =
      true_or_error_in-IsProper (missing device) (on_storage f) (code_of-missing device) (λ s. refl)

  transferred :
      {A : Type 0} (f : Storage Disk File Folder → Option A × Storage Disk File Folder)
      → IsProper {Hidden = Hidden} (or_error err_eio (on_storage f))
  transferred f = or_error-IsProper err_eio (on_storage f) (omega arith) (omega arith) (λ s. refl)

  performed :
      (f : Mailbox (FsState Disk File Folder Hidden)
        → Bool × Mailbox (FsState Disk File Folder Hidden))
      → Keeps f
      → IsProper (true_or_error_in (λ s. err_eio) f)
  performed f k = true_or_error_in-IsProper (λ s. err_eio) f (λ s. (omega arith, omega arith)) k

  performed_by :
      (f : Storage Disk File Folder → Bool × Storage Disk File Folder)
      → IsProper {Hidden = Hidden} (true_or_error_in (λ s. err_eio) (on_storage f))
  performed_by f = performed (on_storage f) (λ s. refl)

  room : (f : Mailbox (FsState Disk File Folder Hidden) → Bool) → IsProper (require err_enomem f)
  room f = require-IsProper err_enomem f (omega arith) (omega arith)

  given :
      {A : Type 0} (f : Mailbox (FsState Disk File Folder Hidden) → Option A)
      → IsProper (or_error err_einval (λ s. (f s, s)))
  given f = or_error-IsProper err_einval (λ s. (f s, s)) (omega arith) (omega arith) (λ s. refl)

module _ {Disk File Folder Hidden : Type 0} (fat : FatFs Disk File Folder)
    (select : ℕ → Ram → Hidden → Ram × Hidden) where
  pub arguments-IsProper :
      (context args_ptr len : ℕ) → IsProper (arguments fat select context args_ptr len)
  arguments-IsProper context args_ptr len =
      or_error-IsProper err_einval (read_context_block select context args_ptr len) (omega arith)
        (omega arith) (read_context_block-Keeps select context args_ptr len)

  pub resolve_arg_path-Keeps :
      (pid context path_ptr max_len fallback : ℕ)
      → Keeps (resolve_arg_path fat select pid context path_ptr max_len fallback)
  unfolding resolve_arg_path
  resolve_arg_path-Keeps pid context path_ptr max_len fallback s =
      elim (Option-cases (read_context_path select context path_ptr max_len path_max s).0) [
        | inl e ↦
            rw (e, resolve_arg_path)
              (read_context_path-Keeps select context path_ptr max_len path_max s)
        | inr (p, e) ↦
            rw (e, resolve_arg_path)
              (read_context_path-Keeps select context path_ptr max_len path_max s)
      ]

  pub resolved-IsProper :
      (pid context path_ptr max_len fallback : ℕ)
      → IsProper (resolved fat select pid context path_ptr max_len fallback)
  resolved-IsProper pid context path_ptr max_len fallback =
      or_error-IsProper err_einval
        (resolve_arg_path fat select pid context path_ptr max_len fallback) (omega arith)
        (omega arith) (resolve_arg_path-Keeps pid context path_ptr max_len fallback)

  store-IsProper :
      (context address : ℕ) (bytes : List ℕ) → IsProper (store fat select context address bytes)
  store-IsProper context address bytes =
      true_or_error_in-IsProper (λ s. err_einval) (write_context_block select context address bytes)
        (λ s. (omega arith, omega arith)) (write_context_block-Keeps select context address bytes)

  path_argument-IsProper :
      (pid context args_ptr : ℕ) → IsProper (path_argument fat select pid context args_ptr)
  path_argument-IsProper pid context args_ptr =
      search (bind-IsProper, then-IsProper, valid, arguments-IsProper, resolved-IsProper)

  change_cwd-Keeps : (pid : ℕ) (path : ResolvedPath) → Keeps (change_cwd fat select pid path)
  change_cwd-Keeps pid path s = refl

  cwd_changed :
      (pid : ℕ) (path : ResolvedPath)
      → IsProper (true_or_error_in (λ s. err_eio) (change_cwd fat select pid path))
  cwd_changed pid path = performed (change_cwd fat select pid path) (change_cwd-Keeps pid path)

  read_bytes-IsProper :
      (context src len : ℕ)
      → IsProper {Disk = Disk} {File = File} {Folder = Folder}
          (or_error err_einval (read_context_block select context src len))
  read_bytes-IsProper context src len =
      or_error-IsProper err_einval (read_context_block select context src len) (omega arith)
        (omega arith) (read_context_block-Keeps select context src len)

  next_found :
      (handle : ℕ)
      → IsProper {Hidden = Hidden} (calls (on_storage (readdir fat dir_fuel handle 13)))
  next_found handle = calls-IsProper (on_storage (readdir fat dir_fuel handle 13)) (λ s. refl)

  ruleset steps = (
    bind-IsProper, then-IsProper, if-IsProper, pure-IsProper, gets-IsProper, bump-IsProper, valid,
    room, present, present_true, transferred, performed_by, given, arguments-IsProper,
    resolved-IsProper, path_argument-IsProper, store-IsProper, cwd_changed, read_bytes-IsProper,
    next_found,
  )

  pub exec_open-IsProper :
      (pid context args_ptr : ℕ)
      → IsProper {Hidden = Hidden} (exec_open fat select pid context args_ptr)
  unfolding exec_open
  exec_open-IsProper pid context args_ptr = search (steps) depth 20

  pub exec_single_path-IsProper :
      (operation pid context args_ptr : ℕ)
      → IsProper {Hidden = Hidden} (exec_single_path fat select operation pid context args_ptr)
  unfolding exec_single_path
  exec_single_path-IsProper operation pid context args_ptr = search (steps) depth 20

  pub exec_rename-IsProper :
      (pid context args_ptr : ℕ)
      → IsProper {Hidden = Hidden} (exec_rename fat select pid context args_ptr)
  unfolding exec_rename
  exec_rename-IsProper pid context args_ptr = search (steps) depth 20

  pub exec_opendir-IsProper :
      (pid context args_ptr : ℕ)
      → IsProper {Hidden = Hidden} (exec_opendir fat select pid context args_ptr)
  unfolding exec_opendir
  exec_opendir-IsProper pid context args_ptr = search (steps) depth 20

  pub exec_chdir-IsProper :
      (pid context args_ptr : ℕ)
      → IsProper {Hidden = Hidden} (exec_chdir fat select pid context args_ptr)
  unfolding exec_chdir
  exec_chdir-IsProper pid context args_ptr = search (steps) depth 20

  pub exec_getcwd-IsProper :
      (pid context args_ptr : ℕ)
      → IsProper {Hidden = Hidden} (exec_getcwd fat select pid context args_ptr)
  unfolding exec_getcwd
  exec_getcwd-IsProper pid context args_ptr = search (steps) depth 20

  read_some-IsProper :
      (context handle dst len : ℕ) → IsProper (read_some fat select context handle dst len)
  read_some-IsProper context handle dst len = search steps depth 20

  pub exec_read-IsProper :
      (context args_ptr handle : ℕ)
      → IsProper {Hidden = Hidden} (exec_read fat select context args_ptr handle)
  unfolding exec_read
  exec_read-IsProper context args_ptr handle = search (steps, read_some-IsProper) depth 20

  write_some-IsProper :
      (context handle src len : ℕ) → IsProper (write_some fat select context handle src len)
  write_some-IsProper context handle src len = search steps depth 20

  pub exec_write-IsProper :
      (context args_ptr handle : ℕ)
      → IsProper {Hidden = Hidden} (exec_write fat select context args_ptr handle)
  unfolding exec_write
  exec_write-IsProper context args_ptr handle = search (steps, write_some-IsProper) depth 20

  pub exec_seek-IsProper :
      (context args_ptr handle : ℕ)
      → IsProper {Hidden = Hidden} (exec_seek fat select context args_ptr handle)
  unfolding exec_seek
  exec_seek-IsProper context args_ptr handle = search (steps) depth 20

  pub exec_tell-IsProper :
      (context args_ptr handle : ℕ)
      → IsProper {Hidden = Hidden} (exec_tell fat select context args_ptr handle)
  unfolding exec_tell
  exec_tell-IsProper context args_ptr handle = search (steps) depth 20

  publish_entry-IsProper :
      (context dst : ℕ) (e : Entry) → IsProper (publish_entry fat select context dst e)
  publish_entry-IsProper context dst unreadable = record {
    ends = λ s. (refl, omega arith, omega arith);
  }
  publish_entry-IsProper context dst running = record {
    ends = λ s. (refl, omega arith, omega arith);
  }
  publish_entry-IsProper context dst at_end = search steps depth 20
  publish_entry-IsProper context dst (entry name attr length) = search steps depth 20

  pub exec_readdir-IsProper :
      (context args_ptr handle : ℕ)
      → IsProper {Hidden = Hidden} (exec_readdir fat select context args_ptr handle)
  unfolding exec_readdir
  exec_readdir-IsProper context args_ptr handle = search (steps, publish_entry-IsProper) depth 20

  pub exec_status-IsProper : IsProper {Hidden = Hidden} (exec_status fat select)
  unfolding exec_status
  exec_status-IsProper = search (steps) depth 20

  pub exec_close-IsProper : (handle : ℕ) → IsProper {Hidden = Hidden} (exec_close fat select handle)
  unfolding exec_close
  exec_close-IsProper handle = search (steps) depth 20

  pub exec_closedir-IsProper :
      (handle : ℕ) → IsProper {Hidden = Hidden} (exec_closedir fat select handle)
  unfolding exec_closedir
  exec_closedir-IsProper handle = search (steps) depth 20

module _ {Disk File Folder Hidden : Type 0} where
  pub exec_cwd-IsProper :
      (f : Table → Bool × Table)
      → IsProper {Disk = Disk} {File = File} {Folder = Folder} {Hidden = Hidden} (exec_cwd f)
  unfolding exec_cwd
  exec_cwd-IsProper f =
      then-IsProper (true_or_error_in (λ s. err_einval) (on_cwd f)) _
        (true_or_error_in-IsProper (λ s. err_einval) (on_cwd f) (λ s. (omega arith, omega arith))
          (λ s. refl))
        (pure-IsProper (done 0 0))
