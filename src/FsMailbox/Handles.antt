-- ===== src/FsMailbox/Handles.antt =====
-- NEO6502_MMU_V3/rp_fs_mailbox.cpp: the operations on open handles.
use neo6502_mmu_v.Base.{
  ℕ, ◌+◌, ◌-◌, ◌*◌, ◌/◌, ◌%◌, ◌^◌, Bool, not, ◌&&◌, Option, none, some, List, [], ◌∷◌, ◌++◌, length,
  take, replicate, ltb, leb, ◌==◌, if◌then◌else◌,
}
use neo6502_mmu_v.Ram.{Ram}
use neo6502_mmu_v.RpFs.FatFs.{FatFs}
use neo6502_mmu_v.RpFs.Storage.{is_open, dir_is_open, mounted_mask, mounted_count}
use neo6502_mmu_v.RpFs.Files.{close, read_file, write_file, seek_file, file_size, file_position}
use neo6502_mmu_v.RpFs.Folders.{Entry, entry, at_end, unreadable, running, readdir, closedir}
use neo6502_mmu_v.Mailbox.{Mailbox}
use neo6502_mmu_v.Mailbox.Rp.{err_einval}
use neo6502_mmu_v.FsMailbox.{FsState, bump}
use neo6502_mmu_v.FsMailbox.Op.{
  op_status, op_read, op_close, op_write, op_seek, op_tell, op_readdir, op_closedir, err_eio,
  flag_eof, mailbox_chunk, dirent_size,
}
use neo6502_mmu_v.FsMailbox.Action.{
  Action, ◌>>=◌, ◌>>◌, pure, gets, calls, or_error, require, true_or_error_in, changes,
}
use neo6502_mmu_v.FsMailbox.Access.{byte_at, u16_at, private_range, read_context_block}
use neo6502_mmu_v.FsMailbox.Paths.{Completion, done, on_storage, arguments, store}

-- `result[4]` of seek and tell, and the size in a directory entry.
abbrev pub little_endian : ℕ → List ℕ
little_endian n = n % 2 ^ 8 ∷ n / 2 ^ 8 % 2 ^ 8 ∷ n / 2 ^ 16 % 2 ^ 8 ∷ n / 2 ^ 24 % 2 ^ 8 ∷ []

-- `base + (int32_t)offset_bits` in 64 bits, if it fits 32 unsigned ones.
unfoldable pub seek_target : ℕ → ℕ → Option ℕ
seek_target base offset_bits =
    if ltb offset_bits (2 ^ 31)
    then (if ltb (base + offset_bits) (2 ^ 32) then some (base + offset_bits) else none)
    else (if ltb base (2 ^ 32 - offset_bits) then none else some (base - (2 ^ 32 - offset_bits)))

-- The 18 bytes of a directory entry.
unfoldable pub dirent : List ℕ → ℕ → ℕ → List ℕ
dirent name attr size =
    let copied = take 12 name in
    copied ++ (replicate (13 - length copied) 0 ++ (attr ∷ little_endian size))

-- FAT allows 65,536 entries in a directory, and the end comes behind them.
abbrev pub dir_fuel : ℕ
dir_fuel = 65537

module _ {Disk File Folder Hidden : Type 0} (fat : FatFs Disk File Folder)
    (select : ℕ → Ram → Hidden → Ram × Hidden) where
  abbrev pub Act : Type 0 → Type 0
  Act A = Action (Mailbox (FsState Disk File Folder Hidden)) A

  abbrev pub opened : ℕ → Mailbox (FsState Disk File Folder Hidden) → Bool
  opened handle s = is_open handle s.fs.storage

  abbrev pub dir_opened : ℕ → Mailbox (FsState Disk File Folder Hidden) → Bool
  dir_opened handle s = dir_is_open handle s.fs.storage

  abbrev pub position : ℕ → Mailbox (FsState Disk File Folder Hidden) → ℕ
  position handle s = file_position fat handle s.fs.storage

  abbrev pub size : ℕ → Mailbox (FsState Disk File Folder Hidden) → ℕ
  size handle s = file_size fat handle s.fs.storage

  -- `rp_fs_position(handle) >= rp_fs_size(handle) ? RP_FS_FLAG_EOF : 0`
  abbrev pub eof : ℕ → Mailbox (FsState Disk File Folder Hidden) → ℕ
  eof handle s = if leb (size handle s) (position handle s) then flag_eof else 0

  -- The end of `rp_fs_mb_exec_read`, for a length that is not 0.
  abbrev pub read_some : ℕ → ℕ → ℕ → ℕ → Act Completion
  read_some context handle dst len = do
    require err_einval (λ s. private_range dst len)
    bytes ← or_error err_eio (on_storage (read_file fat handle len))
    if length bytes == 0 then pure tt else store fat select context dst bytes
    flag ← gets (eof handle)
    changes (bump op_read)
    pure (done (length bytes % 2 ^ 16) flag)

  -- `rp_fs_mb_exec_read`
  unfoldable pub exec_read : ℕ → ℕ → ℕ → Act Completion
  exec_read context args_ptr handle = do
    raw ← arguments fat select context args_ptr 6
    require err_einval (opened handle)
    require err_einval (λ s. not (u16_at raw 2 == 0))
    if u16_at raw 4 == 0
        then (do flag ← gets (eof handle); pure (done 0 flag))
        else read_some context handle (u16_at raw 2)
            (if ltb mailbox_chunk (u16_at raw 4) then mailbox_chunk else u16_at raw 4)

  abbrev pub write_some : ℕ → ℕ → ℕ → ℕ → Act Completion
  write_some context handle src len = do
    bytes ← or_error err_einval (read_context_block select context src len)
    count ← or_error err_eio (on_storage (write_file fat handle bytes))
    changes (bump op_write)
    pure (done (count % 2 ^ 16) 0)

  -- `rp_fs_mb_exec_write`
  unfoldable pub exec_write : ℕ → ℕ → ℕ → Act Completion
  exec_write context args_ptr handle = do
    raw ← arguments fat select context args_ptr 6
    require err_einval (opened handle)
    require err_einval (λ s. not (u16_at raw 2 == 0))
    if u16_at raw 4 == 0
        then pure (done 0 0)
        else write_some context handle (u16_at raw 2)
            (if ltb mailbox_chunk (u16_at raw 4) then mailbox_chunk else u16_at raw 4)

  -- `base` of the `switch (raw[1])`.
  abbrev pub seek_base : ℕ → ℕ → Mailbox (FsState Disk File Folder Hidden) → Option ℕ
  seek_base whence handle s =
      if whence == 0
      then some 0
      else if whence == 1
      then some (position handle s)
      else if whence == 2
      then some (size handle s)
      else none

  -- `rp_fs_mb_exec_seek`, whose result is a 32-bit one.
  unfoldable pub exec_seek : ℕ → ℕ → ℕ → Act ℕ
  exec_seek context args_ptr handle = do
    raw ← arguments fat select context args_ptr 10
    require err_einval (opened handle)
    base ← or_error err_einval (λ s. (seek_base (byte_at raw 1) handle s, s))
    target ← or_error err_einval (λ s. (seek_target base (u16_at raw 2 + u16_at raw 4 * 2 ^ 16), s))
    true_or_error_in (λ s. err_eio) (on_storage (seek_file fat handle target))
    reached ← gets (position handle)
    store fat select context ((args_ptr + 6) % 2 ^ 16) (little_endian reached)
    changes (bump op_seek)
    pure reached

  -- `rp_fs_mb_exec_tell`
  unfoldable pub exec_tell : ℕ → ℕ → ℕ → Act ℕ
  exec_tell context args_ptr handle = do
    raw ← arguments fat select context args_ptr 6
    require err_einval (opened handle)
    reached ← gets (position handle)
    store fat select context ((args_ptr + 2) % 2 ^ 16) (little_endian reached)
    changes (bump op_tell)
    pure reached

  abbrev pub publish_entry : ℕ → ℕ → Entry → Act Completion
  publish_entry context dst unreadable s = or_error {A = Completion} err_eio (λ t. (none, t)) s
  publish_entry context dst running s = or_error {A = Completion} err_eio (λ t. (none, t)) s
  publish_entry context dst at_end s = (changes (bump op_readdir) >> pure (done 0 flag_eof)) s
  publish_entry context dst (entry name attr length) s =
      (store fat select context dst (dirent name attr length)
          >> changes (bump op_readdir)
          >> pure (done 1 0))
        s

  -- `rp_fs_mb_exec_readdir`
  unfoldable pub exec_readdir : ℕ → ℕ → ℕ → Act Completion
  exec_readdir context args_ptr handle = do
    raw ← arguments fat select context args_ptr 6
    require err_einval (dir_opened handle)
    require err_einval
        (λ s. leb dirent_size (u16_at raw 4) && private_range (u16_at raw 2) dirent_size)
    found ← calls (on_storage (readdir fat dir_fuel handle 13))
    publish_entry context (u16_at raw 2) found

  -- `rp_fs_mb_exec_status`
  unfoldable pub exec_status : Act Completion
  exec_status = do
    mask ← gets (λ s. mounted_mask s.fs.storage)
    count ← gets (λ s. mounted_count s.fs.storage)
    changes (bump op_status)
    pure (done ((if mask == 0 then 0 else 1) + count * 2 ^ 8) mask)

  -- `rp_fs_mb_exec_close` and `rp_fs_mb_exec_closedir`
  unfoldable pub exec_close : ℕ → Act Completion
  exec_close handle = do
    require err_einval (opened handle)
    true_or_error_in (λ s. err_eio) (on_storage (close fat handle))
    changes (bump op_close)
    pure (done 0 0)

  unfoldable pub exec_closedir : ℕ → Act Completion
  exec_closedir handle = do
    require err_einval (dir_opened handle)
    true_or_error_in (λ s. err_eio) (on_storage (closedir fat handle))
    changes (bump op_closedir)
    pure (done 0 0)
