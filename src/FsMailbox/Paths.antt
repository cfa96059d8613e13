-- ===== src/FsMailbox/Paths.antt =====
-- NEO6502_MMU_V3/rp_fs_mailbox.cpp: the operations on paths. An operation gives the result and the
-- flags that `rp_fs_mb_set_done` publishes.
use neo6502_mmu_v.Base.{
  ℕ, ◌+◌, ◌/◌, ◌%◌, ◌^◌, Bool, false, not, ◌&&◌, Option, none, some, List, [], ◌∷◌, ◌++◌, leb, ◌==◌,
  if◌then◌else◌,
}
use neo6502_mmu_v.Ram.{Ram}
use neo6502_mmu_v.FsPath.Text.{path_max}
use neo6502_mmu_v.FsPath.Cwd.{ResolvedPath, set_cwd, format}
use neo6502_mmu_v.FsPath.Resolve.{
  PathResult, ok, invalid_pid, invalid_device, invalid_path, too_long, out_of_fuel, resolve,
}
use neo6502_mmu_v.RpFs.FatFs.{FatFs}
use neo6502_mmu_v.RpFs.Storage.{Storage, ready, free_handle_count}
use neo6502_mmu_v.RpFs.Files.{
  open_readonly, open_write_truncate, open_write_existing, open_rw_existing, open_rw_create,
  delete_file, rename_file, make_folder, remove_folder,
}
use neo6502_mmu_v.RpFs.Folders.{opendir, closedir}
use neo6502_mmu_v.Mailbox.{Mailbox}
use neo6502_mmu_v.Mailbox.Rp.{err_einval}
use neo6502_mmu_v.FsMailbox.{FsState, bump}
use neo6502_mmu_v.FsMailbox.Op.{
  op_open, op_delete, op_rename, op_opendir, op_mkdir, op_rmdir, err_enoent, err_eio, err_enomem,
}
use neo6502_mmu_v.FsMailbox.Action.{
  Action, ◌>>=◌, ◌>>◌, pure, or_error, or_error_in, require, true_or_error_in, changes,
}
use neo6502_mmu_v.FsMailbox.Access.{
  byte_at, u16_at, read_context_block, write_context_block, read_context_path,
}

-- The result and the flags.
pub record Completion : Type 0 where
  pub result : ℕ
  pub flags : ℕ

abbrev pub done : ℕ → ℕ → Completion
done r f = record { result = r; flags = f }

abbrev path_of : PathResult ResolvedPath → Option ResolvedPath
path_of (ok p) = some p
path_of invalid_pid = none
path_of invalid_device = none
path_of invalid_path = none
path_of too_long = none
path_of out_of_fuel = none

module _ {Disk File Folder Hidden : Type 0} where
  -- A call of rp_fs.cpp.
  abbrev pub on_storage :
      {A : Type 0}
      → (Storage Disk File Folder → A × Storage Disk File Folder)
      → Mailbox (FsState Disk File Folder Hidden)
      → A × Mailbox (FsState Disk File Folder Hidden)
  on_storage f s = let (a, t) = f s.fs.storage in (a, record s { fs = record s.fs { storage = t } })

  -- `rp_fs_ready(device) ? RP_ERR_ENOENT : RP_ERR_EIO`
  abbrev pub missing : ℕ → Mailbox (FsState Disk File Folder Hidden) → ℕ
  missing device s = if ready device s.fs.storage then err_enoent else err_eio

module _ {Disk File Folder Hidden : Type 0} (fat : FatFs Disk File Folder)
    (select : ℕ → Ram → Hidden → Ram × Hidden) where
  abbrev pub Act : Type 0 → Type 0
  Act A = Action (Mailbox (FsState Disk File Folder Hidden)) A

  -- `rp_fs_mb_resolve_arg_path`
  unfoldable pub resolve_arg_path :
      ℕ
      → ℕ
      → ℕ
      → ℕ
      → ℕ
      → Mailbox (FsState Disk File Folder Hidden)
      → Option ResolvedPath × Mailbox (FsState Disk File Folder Hidden)
  resolve_arg_path pid context path_ptr max_len fallback s =
      let (input, s) = read_context_path select context path_ptr max_len path_max s in
      elim input [
        | none ↦ (none, s)
        | some path ↦ (path_of (resolve s.fs.cwd pid fallback path), s)
      ]

  -- The block of arguments.
  abbrev pub arguments : ℕ → ℕ → ℕ → Act (List ℕ)
  arguments context args_ptr len =
      or_error err_einval (read_context_block select context args_ptr len)

  abbrev pub resolved : ℕ → ℕ → ℕ → ℕ → ℕ → Act ResolvedPath
  resolved pid context path_ptr max_len fallback =
      or_error err_einval (resolve_arg_path pid context path_ptr max_len fallback)

  -- The `switch (mode)` of `rp_fs_mb_exec_open`.
  abbrev pub open_by :
      ℕ → ℕ → List ℕ → Storage Disk File Folder → Option ℕ × Storage Disk File Folder
  open_by mode device path s =
      if mode == 0
      then open_readonly fat device path s
      else if mode == 1
      then open_write_truncate fat device path s
      else if mode == 2
      then open_write_existing fat device path s
      else if mode == 3
      then open_rw_existing fat device path s
      else if mode == 4
      then open_rw_create fat device path s
      else (none, s)

  -- `rp_fs_mb_exec_open`
  unfoldable pub exec_open : ℕ → ℕ → ℕ → Act Completion
  exec_open pid context args_ptr = do
    raw ← arguments context args_ptr 6
    require err_einval (λ s. leb (byte_at raw 4) 4 && leb (byte_at raw 5) 9)
    path ← resolved pid context (u16_at raw 0) (u16_at raw 2) (byte_at raw 5)
    require err_enomem (λ s. not (free_handle_count s.fs.storage == 0))
    handle ←
        or_error_in (missing path.device)
          (on_storage (open_by (byte_at raw 4) path.device path.path))
    changes (bump op_open)
    pure (done handle path.device)

  -- The path that most operations take: pointer, length and device, and a reserved byte.
  abbrev pub path_argument : ℕ → ℕ → ℕ → Act ResolvedPath
  path_argument pid context args_ptr = do
    raw ← arguments context args_ptr 6
    require err_einval (λ s. byte_at raw 5 == 0)
    resolved pid context (u16_at raw 0) (u16_at raw 2) (byte_at raw 4)

  abbrev pub change_by : ℕ → ℕ → List ℕ → Storage Disk File Folder → Bool × Storage Disk File Folder
  change_by operation device path s =
      if operation == op_delete
      then delete_file fat device path s
      else if operation == op_mkdir
      then make_folder fat device path s
      else if operation == op_rmdir
      then remove_folder fat device path s
      else (false, s)

  -- `rp_fs_mb_exec_single_path`
  unfoldable pub exec_single_path : ℕ → ℕ → ℕ → ℕ → Act Completion
  exec_single_path operation pid context args_ptr = do
    path ← path_argument pid context args_ptr
    true_or_error_in (missing path.device) (on_storage (change_by operation path.device path.path))
    changes (
        bump (
          if operation == op_delete
          then op_delete
          else if operation == op_mkdir
          then op_mkdir
          else op_rmdir))
    pure (done 0 path.device)

  -- `rp_fs_mb_exec_rename`
  unfoldable pub exec_rename : ℕ → ℕ → ℕ → Act Completion
  exec_rename pid context args_ptr = do
    raw ← arguments context args_ptr 8
    require err_einval (λ s. byte_at raw 7 == 0)
    old_path ← resolved pid context (u16_at raw 0) (u16_at raw 4) (byte_at raw 6)
    new_path ← resolved pid context (u16_at raw 2) (u16_at raw 4) (byte_at raw 6)
    require err_einval (λ s. old_path.device == new_path.device)
    true_or_error_in (missing old_path.device)
        (on_storage (rename_file fat old_path.device old_path.path new_path.path))
    changes (bump op_rename)
    pure (done 0 old_path.device)

  -- `rp_fs_mb_exec_opendir`
  unfoldable pub exec_opendir : ℕ → ℕ → ℕ → Act Completion
  exec_opendir pid context args_ptr = do
    path ← path_argument pid context args_ptr
    handle ← or_error_in (missing path.device) (on_storage (opendir fat path.device path.path))
    changes (bump op_opendir)
    pure (done handle path.device)

  abbrev pub change_cwd :
      ℕ
      → ResolvedPath
      → Mailbox (FsState Disk File Folder Hidden)
      → Bool × Mailbox (FsState Disk File Folder Hidden)
  change_cwd pid path s =
      let (b, t) = set_cwd s.fs.cwd pid path in (b, record s { fs = record s.fs { cwd = t } })

  -- `rp_fs_mb_exec_chdir`
  unfoldable pub exec_chdir : ℕ → ℕ → ℕ → Act Completion
  exec_chdir pid context args_ptr = do
    path ← path_argument pid context args_ptr
    handle ← or_error_in (missing path.device) (on_storage (opendir fat path.device path.path))
    true_or_error_in (λ s. err_eio) (on_storage (closedir fat handle))
    true_or_error_in (λ s. err_eio) (change_cwd pid path)
    pure (done 0 path.device)

  abbrev pub store : ℕ → ℕ → List ℕ → Act (Unit {0})
  store context address bytes =
      true_or_error_in (λ s. err_einval) (write_context_block select context address bytes)

  -- `rp_fs_mb_exec_getcwd`
  unfoldable pub exec_getcwd : ℕ → ℕ → ℕ → Act Completion
  exec_getcwd pid context args_ptr = do
    raw ← arguments context args_ptr 8
    require err_einval (λ s. byte_at raw 6 == 0 && byte_at raw 7 == 0)
    (cwd, result_len) ← or_error err_einval (λ s. (format s.fs.cwd pid path_max, s))
    require err_einval (λ s. leb (result_len + 1) (u16_at raw 2))
    store context (u16_at raw 0) (cwd ++ 0 ∷ [])
    store context ((args_ptr + 4) % 2 ^ 16) (result_len % 2 ^ 8 ∷ result_len / 2 ^ 8 % 2 ^ 8 ∷ [])
    pure (done (result_len % 2 ^ 16) 0)
