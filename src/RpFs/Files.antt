-- ===== src/RpFs/Files.antt =====
-- The operations of NEO6502_MMU_V3/rp_fs.cpp on files. A handle is `none` where the source has -1, and
-- so is a count.
use neo6502_mmu_v.Base.{
  ℕ, ◌%◌, ◌^◌, Bool, true, false, not, Option, none, some, List, [], length, ◌==◌, if◌then◌else◌,
  get_elem?, set, find_index?, bit_or,
}
use neo6502_mmu_v.RpFs.FatFs.{FatFs}
use neo6502_mmu_v.RpFs.Names.{valid_device, make_path, make_dir_path, is_root_dir_path}
use neo6502_mmu_v.RpFs.Storage.{FileHandle, Storage, open_handle, is_mounted, mount, freed}

-- `char path[96]`
abbrev pub fat_path_max : ℕ
fat_path_max = 96

-- FatFs's mode flags, ff.h.
abbrev fa_read : ℕ
fa_read = 0x01

abbrev fa_write : ℕ
fa_write = 0x02

abbrev fa_open_existing : ℕ
fa_open_existing = 0x00

abbrev fa_create_always : ℕ
fa_create_always = 0x08

abbrev fa_open_always : ℕ
fa_open_always = 0x10

abbrev pub not_in_use : {File : Type 0} → FileHandle File → Bool
not_in_use h = not h.in_use

module _ {Disk File Folder : Type 0} (fat : FatFs Disk File Folder) where
  -- The beginning that the operations share: the device is valid and is mounted if need be.
  unfoldable pub ensure_mounted : ℕ → Storage Disk File Folder → Bool × Storage Disk File Folder
  ensure_mounted device s =
      if not (valid_device device)
      then (false, s)
      else if is_mounted device s
      then (true, s)
      else mount fat device s

  -- The end of `rp_fs_open_mode_83`, for a free slot.
  unfoldable pub open_slot :
      ℕ
      → FileHandle File
      → ℕ
      → List ℕ
      → ℕ
      → Bool
      → Bool
      → Storage Disk File Folder
      → Option ℕ × Storage Disk File Folder
  open_slot slot h device filename mode can_read can_write s =
      elim (make_path device filename fat_path_max) [
        | none ↦ (none, s)
        | some path ↦
            let (fr, file, disk) = fat.f_open h.file path mode s.disk in
            if not (fr == 0)
            then (
              none,
              record s { disk = disk; handles = set s.handles slot (record h { file = file }) },
            )
            else (
              some slot,
              record s {
                disk = disk;
                handles = set s.handles slot (record {
                  in_use = true;
                  device = device;
                  can_read = can_read;
                  can_write = can_write;
                  file = file;
                });
              },
            )
      ]

  -- `rp_fs_open_mode_83`
  unfoldable pub open_mode :
      ℕ → List ℕ → ℕ → Bool → Bool → Storage Disk File Folder → Option ℕ × Storage Disk File Folder
  open_mode device filename mode can_read can_write s =
      let (ok, s) = ensure_mounted device s in
      if not ok then (none, s) else elim (find_index? not_in_use s.handles) [
        | none ↦ (none, s)
        | some slot ↦ elim (get_elem? s.handles slot) [
          | none ↦ (none, s)
          | some h ↦ open_slot slot h device filename mode can_read can_write s
        ]
      ]

  -- `rp_fs_open_readonly_83` to `rp_fs_open_rw_create_83`
  abbrev pub open_readonly :
      ℕ → List ℕ → Storage Disk File Folder → Option ℕ × Storage Disk File Folder
  open_readonly device filename s = open_mode device filename fa_read true false s

  abbrev pub open_write_truncate :
      ℕ → List ℕ → Storage Disk File Folder → Option ℕ × Storage Disk File Folder
  open_write_truncate device filename s =
      open_mode device filename (bit_or fa_write fa_create_always) false true s

  abbrev pub open_write_existing :
      ℕ → List ℕ → Storage Disk File Folder → Option ℕ × Storage Disk File Folder
  open_write_existing device filename s =
      open_mode device filename (bit_or (bit_or fa_read fa_write) fa_open_existing) false true s

  abbrev pub open_rw_existing :
      ℕ → List ℕ → Storage Disk File Folder → Option ℕ × Storage Disk File Folder
  open_rw_existing device filename s =
      open_mode device filename (bit_or (bit_or fa_read fa_write) fa_open_existing) true true s

  abbrev pub open_rw_create :
      ℕ → List ℕ → Storage Disk File Folder → Option ℕ × Storage Disk File Folder
  open_rw_create device filename s =
      open_mode device filename (bit_or (bit_or fa_read fa_write) fa_open_always) true true s

  -- `rp_fs_close`
  unfoldable pub close : ℕ → Storage Disk File Folder → Bool × Storage Disk File Folder
  close handle s = elim (open_handle handle s) [
    | none ↦ (false, s)
    | some h ↦
        let (fr, file, disk) = fat.f_close h.file s.disk in
        (fr == 0, record s { disk = disk; handles = set s.handles handle (freed h file) })
  ]

  abbrev pub with_file :
      ℕ → FileHandle File → File → Disk → Storage Disk File Folder → Storage Disk File Folder
  with_file handle h file disk s = record s {
    disk = disk;
    handles = set s.handles handle (record h { file = file });
  }

  -- `rp_fs_read`: the bytes read.
  unfoldable pub read_file :
      ℕ → ℕ → Storage Disk File Folder → Option (List ℕ) × Storage Disk File Folder
  read_file handle len s = elim (open_handle handle s) [
    | none ↦ (none, s)
    | some h ↦
        if not h.can_read
        then (none, s)
        else if len == 0
        then (some [], s)
        else let (fr, bytes, file, disk) = fat.f_read h.file len s.disk in
          let s = with_file handle h file disk s in
          if not (fr == 0) then (none, s) else (some bytes, s)
  ]

  -- `rp_fs_write`: how many bytes were written.
  unfoldable pub write_file :
      ℕ → List ℕ → Storage Disk File Folder → Option ℕ × Storage Disk File Folder
  write_file handle src s = elim (open_handle handle s) [
    | none ↦ (none, s)
    | some h ↦
        if not h.can_write
        then (none, s)
        else if length src == 0
        then (some 0, s)
        else let (fr, bw, file, disk) = fat.f_write h.file src s.disk in
          let s = with_file handle h file disk s in
          if not (fr == 0) then (none, s) else (some bw, s)
  ]

  -- `rp_fs_seek`
  unfoldable pub seek_file : ℕ → ℕ → Storage Disk File Folder → Bool × Storage Disk File Folder
  seek_file handle position s = elim (open_handle handle s) [
    | none ↦ (false, s)
    | some h ↦
        let (fr, file, disk) = fat.f_lseek h.file position s.disk in
        (fr == 0, with_file handle h file disk s)
  ]

  -- `rp_fs_size` and `rp_fs_position`
  unfoldable pub file_size : ℕ → Storage Disk File Folder → ℕ
  file_size handle s = elim (open_handle handle s) [
    | none ↦ 0
    | some h ↦ fat.f_size h.file % 2 ^ 32
  ]

  unfoldable pub file_position : ℕ → Storage Disk File Folder → ℕ
  file_position handle s = elim (open_handle handle s) [
    | none ↦ 0
    | some h ↦ fat.f_tell h.file % 2 ^ 32
  ]

  -- One call of FatFs on a path, once the drive is mounted.
  abbrev pub on_path :
      Option (List ℕ)
      → (List ℕ → Disk → ℕ × Disk)
      → Storage Disk File Folder
      → Bool × Storage Disk File Folder
  on_path none f s = (false, s)
  on_path (some path) f s = let (fr, disk) = f path s.disk in (fr == 0, record s { disk = disk })

  -- `rp_fs_delete_83`
  unfoldable pub delete_file :
      ℕ → List ℕ → Storage Disk File Folder → Bool × Storage Disk File Folder
  delete_file device filename s =
      let (ok, s) = ensure_mounted device s in
      if not ok then (false, s) else on_path (make_path device filename fat_path_max) fat.f_unlink s

  -- `rp_fs_rename_83`
  unfoldable pub rename_file :
      ℕ → List ℕ → List ℕ → Storage Disk File Folder → Bool × Storage Disk File Folder
  rename_file device old_filename new_filename s =
      let (ok, s) = ensure_mounted device s in
      if not ok then (false, s) else elim (make_path device old_filename fat_path_max) [
        | none ↦ (false, s)
        | some old_path ↦
            on_path (make_path device new_filename fat_path_max) (fat.f_rename old_path) s
      ]

  abbrev pub below_root : Option (List ℕ) → Option (List ℕ)
  below_root none = none
  below_root (some path) = if is_root_dir_path path then none else some path

  -- `rp_fs_mkdir_83` and `rp_fs_rmdir_83`
  unfoldable pub make_folder :
      ℕ → List ℕ → Storage Disk File Folder → Bool × Storage Disk File Folder
  make_folder device dirname s =
      let (ok, s) = ensure_mounted device s in
      if not ok
      then (false, s)
      else on_path (below_root (make_dir_path device dirname fat_path_max)) fat.f_mkdir s

  unfoldable pub remove_folder :
      ℕ → List ℕ → Storage Disk File Folder → Bool × Storage Disk File Folder
  remove_folder device dirname s =
      let (ok, s) = ensure_mounted device s in
      if not ok
      then (false, s)
      else on_path (below_root (make_dir_path device dirname fat_path_max)) fat.f_unlink s
