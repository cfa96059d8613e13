-- ===== src/RpFs/Storage.antt =====
-- The state of NEO6502_MMU_V3/rp_fs.cpp and usb_fatfs.cpp: the handles, which drives are mounted, and
-- how drives come and go.
use neo6502_mmu_v.Base.{
  ℕ, zero, suc, ◌+◌, ◌^◌, Bool, true, false, not, ◌&&◌, Option, none, some, List, [], ◌∷◌, leb,
  ◌==◌, if◌then◌else◌, get_elem?, set,
}
use neo6502_mmu_v.FsPath.Text.{max_devices}
use neo6502_mmu_v.RpFs.FatFs.{FatFs}
use neo6502_mmu_v.RpFs.Names.{valid_device}

-- `RPFSHandle` and `RPFSDirHandle`
pub record FileHandle (File : Type 0) : Type 0 where
  pub in_use : Bool
  pub device : ℕ
  pub can_read : Bool
  pub can_write : Bool
  pub file : File

pub record FolderHandle (Folder : Type 0) : Type 0 where
  pub dir_in_use : Bool
  pub dir_device : ℕ
  pub dir : Folder

abbrev pub max_handles : ℕ
max_handles = 4

abbrev pub max_dir_handles : ℕ
max_dir_handles = 4

-- `gRPFSHandles`, `gRPFSDirHandles`, `gUSBFatFsMounted` and the state behind FatFs. The bits of
-- `flags` are the two fields `can_read` and `can_write`.
pub record Storage (Disk File Folder : Type 0) : Type 0 where
  pub handles : List (FileHandle File)
  pub folders : List (FolderHandle Folder)
  pub mounted : List Bool
  pub disk : Disk

abbrev count_free : {File : Type 0} → List (FileHandle File) → ℕ
count_free [] = 0
count_free (h ∷ hs) = if not h.in_use then suc (count_free hs) else count_free hs

-- A handle that is given back.
abbrev pub freed : {File : Type 0} → FileHandle File → File → FileHandle File
freed h f = record h { in_use = false; device = 0; can_read = false; can_write = false; file = f }

abbrev pub dir_freed : {Folder : Type 0} → FolderHandle Folder → Folder → FolderHandle Folder
dir_freed h d = record h { dir_in_use = false; dir_device = 0; dir = d }

module _ {Disk File Folder : Type 0} where
  -- `rp_fs_valid_handle`, `rp_fs_is_open`: the open handle of this number.
  unfoldable pub open_handle : ℕ → Storage Disk File Folder → Option (FileHandle File)
  open_handle handle s =
      if leb max_handles handle then none else elim (get_elem? s.handles handle) [
        | none ↦ none
        | some h ↦ if h.in_use then some h else none
      ]

  abbrev pub is_open : ℕ → Storage Disk File Folder → Bool
  is_open handle s = elim (open_handle handle s) [ none ↦ false | some h ↦ true ]

  unfoldable pub open_folder : ℕ → Storage Disk File Folder → Option (FolderHandle Folder)
  open_folder handle s =
      if leb max_dir_handles handle then none else elim (get_elem? s.folders handle) [
        | none ↦ none
        | some h ↦ if h.dir_in_use then some h else none
      ]

  abbrev pub dir_is_open : ℕ → Storage Disk File Folder → Bool
  dir_is_open handle s = elim (open_folder handle s) [ none ↦ false | some h ↦ true ]

  -- `rp_fs_free_handle_count`
  abbrev pub free_handle_count : Storage Disk File Folder → ℕ
  free_handle_count s = count_free s.handles

  -- `usb_fatfs_mounted`
  unfoldable pub is_mounted : ℕ → Storage Disk File Folder → Bool
  is_mounted device s =
      valid_device device && elim (get_elem? s.mounted device) [ none ↦ false | some b ↦ b ]

  -- `rp_fs_ready`
  abbrev pub ready : ℕ → Storage Disk File Folder → Bool
  ready device s = valid_device device && is_mounted device s

  -- `usb_fatfs_mounted_mask` and `usb_fatfs_mounted_count`, from one drive on.
  abbrev mask_from : ℕ → ℕ → Storage Disk File Folder → ℕ
  mask_from device zero s = 0
  mask_from device (suc left) s =
      (if is_mounted device s then 2 ^ device else 0) + mask_from (device + 1) left s

  abbrev count_from : ℕ → ℕ → Storage Disk File Folder → ℕ
  count_from device zero s = 0
  count_from device (suc left) s =
      (if is_mounted device s then 1 else 0) + count_from (device + 1) left s

  abbrev pub mounted_mask : Storage Disk File Folder → ℕ
  mounted_mask = mask_from 0 max_devices

  abbrev pub mounted_count : Storage Disk File Folder → ℕ
  mounted_count = count_from 0 max_devices

module _ {Disk File Folder : Type 0} (fat : FatFs Disk File Folder) where
  -- `usb_fatfs_mount`
  unfoldable pub mount : ℕ → Storage Disk File Folder → Bool × Storage Disk File Folder
  mount device s =
      if not (valid_device device)
      then (false, s)
      else if is_mounted device s
      then (true, s)
      else if not (fat.storage_mounted device s.disk)
      then (false, s)
      else let (fr, disk) = fat.f_mount device s.disk in
        if not (fr == 0)
        then (false, record s { disk = disk })
        else (true, record s { disk = disk; mounted = set s.mounted device true })

  -- The loops of `rp_fs_close_all` and `rp_fs_close_all_for_device`: the handles that pass the test
  -- are closed, whatever FatFs answers.
  unfoldable pub close_files :
      (ℕ → Bool) → List (FileHandle File) → Disk → List (FileHandle File) × Disk
  close_files which [] disk = ([], disk)
  close_files which (h ∷ hs) disk =
      if h.in_use && which h.device
      then (let (fr, file, disk) = fat.f_close h.file disk in
          let (rest, disk) = close_files which hs disk in (freed h file ∷ rest, disk))
      else let (rest, disk) = close_files which hs disk in (h ∷ rest, disk)

  unfoldable pub close_folders :
      (ℕ → Bool) → List (FolderHandle Folder) → Disk → List (FolderHandle Folder) × Disk
  close_folders which [] disk = ([], disk)
  close_folders which (h ∷ hs) disk =
      if h.dir_in_use && which h.dir_device
      then (let (fr, dir, disk) = fat.f_closedir h.dir disk in
          let (rest, disk) = close_folders which hs disk in (dir_freed h dir ∷ rest, disk))
      else let (rest, disk) = close_folders which hs disk in (h ∷ rest, disk)

  abbrev pub close_where : (ℕ → Bool) → Storage Disk File Folder → Storage Disk File Folder
  close_where which s =
      let (files, disk) = close_files which s.handles s.disk in
      let (folders, disk) = close_folders which s.folders disk in
      record s { handles = files; folders = folders; disk = disk }

  -- `rp_fs_close_all`
  unfoldable pub close_all : Storage Disk File Folder → Storage Disk File Folder
  close_all s = close_where (λ d. true) s

  -- `rp_fs_close_all_for_device`
  unfoldable pub close_all_for_device : ℕ → Storage Disk File Folder → Storage Disk File Folder
  close_all_for_device device s =
      if not (valid_device device) then s else close_where (λ d. d == device) s

  -- `usb_fatfs_unmount`
  unfoldable pub unmount : ℕ → Storage Disk File Folder → Storage Disk File Folder
  unmount device s =
      if not (is_mounted device s)
      then s
      else let s = close_all_for_device device s in
        record s { disk = fat.f_unmount device s.disk; mounted = set s.mounted device false }
