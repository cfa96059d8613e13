-- ===== src/RpFs/Folders.antt =====
-- The operations of NEO6502_MMU_V3/rp_fs.cpp on directories.
use neo6502_mmu_v.Base.{
  ℕ, zero, suc, ◌%◌, ◌^◌, Bool, true, false, not, ◌&&◌, ◌||◌, Option, none, some, List, [], ◌∷◌,
  length, ltb, leb, ◌==◌, if◌then◌else◌, get_elem?, set, find_index?,
}
use neo6502_mmu_v.Base.Strings.{str_eq}
use neo6502_mmu_v.RpFs.FatFs.{FatFs, FileInfo}
use neo6502_mmu_v.RpFs.Names.{make_dir_path, is_valid_83_name}
use neo6502_mmu_v.RpFs.Storage.{FolderHandle, Storage, open_folder, dir_freed}
use neo6502_mmu_v.RpFs.Files.{fat_path_max, ensure_mounted}

-- What `rp_fs_readdir` answers with: 1 and an entry, 0, or -1. FatFs ends every directory, so the
-- loop ends; `running` stands for a loop that has not.
pub data Entry : Type 0 where
  entry : List ℕ → ℕ → ℕ → Entry
  at_end : Entry
  unreadable : Entry
  running : Entry

-- The name that an entry is shown by, if it is shown.
unfoldable pub entry_name : FileInfo → Option (List ℕ)
entry_name info =
    if is_valid_83_name info.fname
    then some info.fname
    else if not (length info.altname == 0) && is_valid_83_name info.altname
    then some info.altname
    else none

abbrev is_dots : List ℕ → Bool
is_dots name = str_eq name (b'.' ∷ []) || str_eq name (b'.' ∷ b'.' ∷ [])

abbrev pub dir_not_in_use : {Folder : Type 0} → FolderHandle Folder → Bool
dir_not_in_use h = not h.dir_in_use

module _ {Disk File Folder : Type 0} (fat : FatFs Disk File Folder) where
  -- The end of `rp_fs_opendir_83`, for a free slot.
  unfoldable pub open_folder_slot :
      ℕ
      → FolderHandle Folder
      → ℕ
      → List ℕ
      → Storage Disk File Folder
      → Option ℕ × Storage Disk File Folder
  open_folder_slot slot h device dirname s = elim (make_dir_path device dirname fat_path_max) [
    | none ↦ (none, s)
    | some path ↦
        let (fr, dir, disk) = fat.f_opendir h.dir path s.disk in
        if not (fr == 0)
        then (none, record s { disk = disk; folders = set s.folders slot (record h { dir = dir }) })
        else (
          some slot,
          record s {
            disk = disk;
            folders =
                set s.folders slot (record { dir_in_use = true; dir_device = device; dir = dir });
          },
        )
  ]

  -- `rp_fs_opendir_83`
  unfoldable pub opendir :
      ℕ → List ℕ → Storage Disk File Folder → Option ℕ × Storage Disk File Folder
  opendir device dirname s =
      let (ok, s) = ensure_mounted fat device s in
      if not ok then (none, s) else elim (find_index? dir_not_in_use s.folders) [
        | none ↦ (none, s)
        | some slot ↦ elim (get_elem? s.folders slot) [
          | none ↦ (none, s)
          | some h ↦ open_folder_slot slot h device dirname s
        ]
      ]

  -- The loop of `rp_fs_readdir`.
  unfoldable pub next_entry : ℕ → ℕ → Folder → Disk → Entry × Folder × Disk
  next_entry zero name_len dir disk = (running, dir, disk)
  next_entry (suc fuel) name_len dir disk =
      let (fr, info, dir, disk) = fat.f_readdir dir disk in
      let rest = next_entry fuel name_len dir disk in
      if not (fr == 0)
      then (unreadable, dir, disk)
      else if length info.fname == 0
      then (at_end, dir, disk)
      else if is_dots info.fname
      then rest
      else elim (entry_name info) [
        | none ↦ rest
        | some name ↦
            if leb name_len (length name)
            then (unreadable, dir, disk)
            else (entry name (info.fattrib % 2 ^ 8) (info.fsize % 2 ^ 32), dir, disk)
      ]

  -- `rp_fs_readdir`
  unfoldable pub readdir : ℕ → ℕ → ℕ → Storage Disk File Folder → Entry × Storage Disk File Folder
  readdir fuel handle name_len s = elim (open_folder handle s) [
    | none ↦ (unreadable, s)
    | some h ↦
        if ltb name_len 13
        then (unreadable, s)
        else let (e, dir, disk) = next_entry fuel name_len h.dir s.disk in
          (e, record s { disk = disk; folders = set s.folders handle (record h { dir = dir }) })
  ]

  -- `rp_fs_closedir`
  unfoldable pub closedir : ℕ → Storage Disk File Folder → Bool × Storage Disk File Folder
  closedir handle s = elim (open_folder handle s) [
    | none ↦ (false, s)
    | some h ↦
        let (fr, dir, disk) = fat.f_closedir h.dir s.disk in
        (fr == 0, record s { disk = disk; folders = set s.folders handle (dir_freed h dir) })
  ]
