-- ===== src/FsMailbox/Bulk.antt =====
-- NEO6502_MMU_V3/rp_fs_mailbox.cpp: fs.load and fs.save, a whole file in one request.
use neo6502_mmu_v.Base.{
  ℕ, zero, suc, ◌+◌, ◌-◌, ◌%◌, ◌^◌, Bool, true, false, not, ◌||◌, Option, none, some, List, length,
  ltb, leb, ◌==◌, if◌then◌else◌,
}
use neo6502_mmu_v.Ram.{Ram}
use neo6502_mmu_v.FsPath.Text.{path_max}
use neo6502_mmu_v.FsPath.Cwd.{ResolvedPath}
use neo6502_mmu_v.RpFs.FatFs.{FatFs}
use neo6502_mmu_v.RpFs.Storage.{Storage}
use neo6502_mmu_v.RpFs.Files.{
  open_readonly, open_write_truncate, close, read_file, write_file, file_size,
}
use neo6502_mmu_v.Mailbox.{Mailbox}
use neo6502_mmu_v.Mailbox.Rp.{err_einval}
use neo6502_mmu_v.FsMailbox.{FsState, bump}
use neo6502_mmu_v.FsMailbox.Op.{op_load, op_save, err_eio, mailbox_chunk}
use neo6502_mmu_v.FsMailbox.Action.{
  Reply, value, refused, Action, ◌>>=◌, ◌>>◌, gets, or_error, or_error_in, require,
}
use neo6502_mmu_v.FsMailbox.Access.{
  byte_at, u16_at, effective_16bit_size, valid_64k_range, read_context_bytes, write_context_bytes,
  begin_access, end_access,
}
use neo6502_mmu_v.FsMailbox.Paths.{
  Completion, done, on_storage, missing, arguments, resolve_arg_path,
}

-- `chunk` of the loop.
abbrev pub chunk_of : ℕ → ℕ
chunk_of remaining = if ltb mailbox_chunk remaining then mailbox_chunk else remaining

-- How the loop ended: `failed` and `total`.
pub record Progress : Type 0 where
  pub failed : Bool
  pub total : ℕ

abbrev pub progress : Bool → ℕ → Progress
progress f t = record { failed = f; total = t }

module _ {Disk File Folder Hidden : Type 0} (fat : FatFs Disk File Folder)
    (select : ℕ → Ram → Hidden → Ram × Hidden) where
  -- The loop of `rp_fs_mb_exec_bulk`, at `total` bytes. Each round but the last moves a byte at least,
  -- so as many rounds as bytes are left are all rounds there are.
  unfoldable pub load_loop :
      ℕ
      → ℕ
      → ℕ
      → ℕ
      → ℕ
      → Mailbox (FsState Disk File Folder Hidden)
      → Progress × Mailbox (FsState Disk File Folder Hidden)
  load_loop zero handle mem_ptr size total s = (progress false total, s)
  load_loop (suc fuel) handle mem_ptr size total s =
      let (bytes, s') = on_storage (read_file fat handle (chunk_of (size - total))) s in
      let next = λ (bs : List ℕ).
        load_loop fuel handle mem_ptr size (total + length bs)
          (record s' { ram = write_context_bytes s'.ram ((mem_ptr + total) % 2 ^ 16) bs }) in
      if leb size total then (progress false total, s) else elim bytes [
        | none ↦ (progress true total, s')
        | some bs ↦ if length bs == 0 then (progress true total, s') else next bs
      ]

  unfoldable pub save_loop :
      ℕ
      → ℕ
      → ℕ
      → ℕ
      → ℕ
      → Mailbox (FsState Disk File Folder Hidden)
      → Progress × Mailbox (FsState Disk File Folder Hidden)
  save_loop zero handle mem_ptr size total s = (progress false total, s)
  save_loop (suc fuel) handle mem_ptr size total s =
      let chunk = chunk_of (size - total) in
      let (count, s') =
        on_storage
          (write_file fat handle (read_context_bytes s.ram ((mem_ptr + total) % 2 ^ 16) chunk)) s in
      let next = λ (n : ℕ). save_loop fuel handle mem_ptr size (total + n) s' in
      if leb size total then (progress false total, s) else elim count [
        | none ↦ (progress true total, s')
        | some n ↦ if n == chunk then next n else (progress true (total + n), s')
      ]

  abbrev pub give_up : ℕ → Action (Mailbox (FsState Disk File Folder Hidden)) Completion
  give_up handle s = (refused err_einval 0, (on_storage (close fat handle) s).1)

  -- Behind the loop.
  unfoldable pub close_transfer :
      ℕ
      → ℕ
      → ℕ
      → ℕ
      → ℕ
      → Progress × Mailbox (FsState Disk File Folder Hidden)
      → Reply Completion × Mailbox (FsState Disk File Folder Hidden)
  close_transfer operation device handle size saved (p, s) =
      let (close_ok, s) = on_storage (close fat handle) (end_access select saved s) in
      if p.failed || not close_ok || not (p.total == size)
      then (refused err_eio (p.total % 2 ^ 16), s)
      else (
        value (done (p.total % 2 ^ 16) device),
        bump (if operation == op_load then op_load else op_save) s,
      )

  -- With the caller's context, or without it.
  unfoldable pub in_context :
      ℕ
      → ℕ
      → ℕ
      → ℕ
      → ℕ
      → Option ℕ × Mailbox (FsState Disk File Folder Hidden)
      → Reply Completion × Mailbox (FsState Disk File Folder Hidden)
  in_context operation device handle mem_ptr size (none, s) = give_up handle s
  in_context operation device handle mem_ptr size (some saved, s) =
      close_transfer operation device handle size saved (
        if operation == op_load
        then load_loop size handle mem_ptr size 0 s
        else save_loop size handle mem_ptr size 0 s)

  -- From the open file on.
  unfoldable pub transfer_file :
      ℕ → ℕ → ℕ → ℕ → ℕ → ℕ → Action (Mailbox (FsState Disk File Folder Hidden)) Completion
  transfer_file operation context device handle mem_ptr size s =
      if not (valid_64k_range mem_ptr size)
      then give_up handle s
      else in_context operation device handle mem_ptr size (begin_access select context s)

  abbrev pub open_for :
      ℕ → ResolvedPath → Storage Disk File Folder → Option ℕ × Storage Disk File Folder
  open_for operation path s =
      if operation == op_load
      then open_readonly fat path.device path.path s
      else open_write_truncate fat path.device path.path s

  -- `transfer_size`
  abbrev pub size_for : ℕ → ℕ → ℕ → Mailbox (FsState Disk File Folder Hidden) → ℕ
  size_for operation requested handle s =
      if operation == op_load
      then (if ltb (file_size fat handle s.fs.storage) requested
          then file_size fat handle s.fs.storage
          else requested)
      else requested

  -- `rp_fs_mb_exec_bulk`
  unfoldable pub exec_bulk :
      ℕ → ℕ → ℕ → ℕ → Action (Mailbox (FsState Disk File Folder Hidden)) Completion
  exec_bulk operation pid context args_ptr = do
    raw ← arguments fat select context args_ptr 8
    require err_einval (λ s. byte_at raw 7 == 0)
    path ←
        or_error err_einval
          (resolve_arg_path fat select pid context (u16_at raw 0) (path_max - 1) (byte_at raw 6))
    handle ← or_error_in (missing path.device) (on_storage (open_for operation path))
    size ← gets (size_for operation (effective_16bit_size (u16_at raw 4)) handle)
    transfer_file operation context path.device handle (u16_at raw 2) size
