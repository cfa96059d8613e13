-- ===== src/RpFs/Run.antt =====
-- The calls of NEO6502_MMU_V3/rp_fs.cpp and usb_fatfs.cpp, one after the other, in any order.
use neo6502_mmu_v.Base.{
  ℕ, ◌==◌, if◌then◌else◌, Bool, true, false, not, Option, none, some, List, [], ◌∷◌, refl, inl, inr,
  Bool-cases, Option-cases,
}
use neo6502_mmu_v.RpFs.FatFs.{FatFs}
use neo6502_mmu_v.RpFs.Names.{valid_device, make_path, make_dir_path}
use neo6502_mmu_v.RpFs.Storage.{
  Storage, is_mounted, mount, close_where, close_all, close_all_for_device, unmount,
}
use neo6502_mmu_v.RpFs.Files.{
  fat_path_max, ensure_mounted, open_mode, close, read_file, write_file, seek_file, on_path,
  below_root, delete_file, rename_file, make_folder, remove_folder,
}
use neo6502_mmu_v.RpFs.Folders.{opendir, readdir, closedir}
use neo6502_mmu_v.RpFs.Handles.{
  IsConsistent, same_drives, mount-Mounting, unmount-IsConsistent, close_files-All,
  close_folders-All,
}
use neo6502_mmu_v.RpFs.Consistent.{
  ensure_mounted-Mounting, open_mode-IsConsistent, close-IsConsistent, read_file-IsConsistent,
  write_file-IsConsistent, seek_file-IsConsistent, opendir-IsConsistent, readdir-IsConsistent,
  closedir-IsConsistent,
}

-- A call that changes the storage, or a drive that comes or goes.
pub data StorageCall : Type 0 where
  mounts unmounts closes closes_dir closes_drive : ℕ → StorageCall
  closes_all : StorageCall
  opens : ℕ → List ℕ → ℕ → Bool → Bool → StorageCall
  opens_dir deletes makes removes : ℕ → List ℕ → StorageCall
  renames : ℕ → List ℕ → List ℕ → StorageCall
  reads seeks : ℕ → ℕ → StorageCall
  writes : ℕ → List ℕ → StorageCall
  lists : ℕ → ℕ → ℕ → StorageCall

module _ {Disk File Folder : Type 0} (fat : FatFs Disk File Folder) where
  unfoldable pub perform : StorageCall → Storage Disk File Folder → Storage Disk File Folder
  perform (mounts device) s = (mount fat device s).1
  perform (unmounts device) s = unmount fat device s
  perform (closes handle) s = (close fat handle s).1
  perform (closes_dir handle) s = (closedir fat handle s).1
  perform (closes_drive device) s = close_all_for_device fat device s
  perform closes_all s = close_all fat s
  perform (opens device name mode r w) s = (open_mode fat device name mode r w s).1
  perform (opens_dir device name) s = (opendir fat device name s).1
  perform (deletes device name) s = (delete_file fat device name s).1
  perform (makes device name) s = (make_folder fat device name s).1
  perform (removes device name) s = (remove_folder fat device name s).1
  perform (renames device name new_name) s = (rename_file fat device name new_name s).1
  perform (reads handle len) s = (read_file fat handle len s).1
  perform (seeks handle position) s = (seek_file fat handle position s).1
  perform (writes handle src) s = (write_file fat handle src s).1
  perform (lists fuel handle name_len) s = (readdir fat fuel handle name_len s).1

  unfoldable pub perform_all :
      List StorageCall → Storage Disk File Folder → Storage Disk File Folder
  perform_all [] s = s
  perform_all (c ∷ cs) s = perform_all cs (perform c s)

  on_path-IsConsistent :
      (p : Option (List ℕ)) (f : List ℕ → Disk → ℕ × Disk) (s : Storage Disk File Folder)
      → IsConsistent s
      → IsConsistent (on_path fat p f s).1
  on_path-IsConsistent none f s h = h
  on_path-IsConsistent (some path) f s h = same_drives fat s _ h refl refl refl

  -- A call behind `ensure_mounted`.
  behind_mount :
      (device : ℕ) (p : Option (List ℕ)) (f : List ℕ → Disk → ℕ × Disk)
      (s : Storage Disk File Folder)
      → IsConsistent s
      → (let (ok, t) = ensure_mounted fat device s in
          IsConsistent (if not ok then (false, t) else on_path fat p f t).1)
  behind_mount device p f s h =
      let (k, m) = ensure_mounted-Mounting fat device s h in
      elim (Bool-cases (ensure_mounted fat device s).0) [
        | inl good ↦ rw good (on_path-IsConsistent p f (ensure_mounted fat device s).1 k)
        | inr bad ↦ rw bad k
      ]

  rename_file-IsConsistent :
      (device : ℕ) (name new_name : List ℕ) (s : Storage Disk File Folder)
      → IsConsistent s
      → IsConsistent (rename_file fat device name new_name s).1
  unfolding rename_file
  rename_file-IsConsistent device name new_name s h =
      let (k, m) = ensure_mounted-Mounting fat device s h in
      elim (Bool-cases (ensure_mounted fat device s).0) [
        | inr bad ↦ rw (bad, rename_file) k
        | inl good ↦ elim (Option-cases (make_path device name fat_path_max)) [
          | inl n ↦ rw (good, n, rename_file) k
          | inr (path, e) ↦
              rw (good, e, rename_file)
                (on_path-IsConsistent (make_path device new_name fat_path_max) (fat.f_rename path)
                  (ensure_mounted fat device s).1 k)
        ]
      ]

  close_where-IsConsistent :
      (which : ℕ → Bool) (s : Storage Disk File Folder)
      → IsConsistent s
      → IsConsistent (close_where fat which s)
  unfolding is_mounted
  close_where-IsConsistent which s h = record {
    drives = h.drives;
    files =
        close_files-All fat which (λ d. is_mounted d s) (λ d. is_mounted d s) s.handles s.disk
          (λ d e k. k) h.files;
    folders =
        close_folders-All fat which (λ d. is_mounted d s) (λ d. is_mounted d s) s.folders _
          (λ d e k. k) h.folders;
  }

  perform-IsConsistent :
      (c : StorageCall) (s : Storage Disk File Folder) → IsConsistent s → IsConsistent (perform c s)
  unfolding perform close_all close_all_for_device delete_file make_folder remove_folder
  perform-IsConsistent (mounts device) s h = (mount-Mounting fat device s h).0
  perform-IsConsistent (unmounts device) s h = unmount-IsConsistent fat device s h
  perform-IsConsistent (closes handle) s h = close-IsConsistent fat handle s h
  perform-IsConsistent (closes_dir handle) s h = closedir-IsConsistent fat handle s h
  perform-IsConsistent (closes_drive device) s h = elim (Bool-cases (valid_device device)) [
    | inl v ↦ rw v (close_where-IsConsistent (λ d. d == device) s h)
    | inr v ↦ rw v h
  ]
  perform-IsConsistent closes_all s h = close_where-IsConsistent (λ d. true) s h
  perform-IsConsistent (opens device name mode r w) s h =
      open_mode-IsConsistent fat device name mode r w s h
  perform-IsConsistent (opens_dir device name) s h = opendir-IsConsistent fat device name s h
  perform-IsConsistent (deletes device name) s h =
      behind_mount device (make_path device name fat_path_max) fat.f_unlink s h
  perform-IsConsistent (makes device name) s h =
      behind_mount device (below_root fat (make_dir_path device name fat_path_max)) fat.f_mkdir s h
  perform-IsConsistent (removes device name) s h =
      behind_mount device (below_root fat (make_dir_path device name fat_path_max)) fat.f_unlink s h
  perform-IsConsistent (renames device name new_name) s h =
      rename_file-IsConsistent device name new_name s h
  perform-IsConsistent (reads handle len) s h = read_file-IsConsistent fat handle len s h
  perform-IsConsistent (seeks handle position) s h = seek_file-IsConsistent fat handle position s h
  perform-IsConsistent (writes handle src) s h = write_file-IsConsistent fat handle src s h
  perform-IsConsistent (lists fuel handle name_len) s h =
      readdir-IsConsistent fat fuel handle name_len s h

  -- Whatever is called, and whichever drives come and go, an open handle belongs to a mounted drive.
  pub perform_all-IsConsistent :
      (cs : List StorageCall) (s : Storage Disk File Folder)
      → IsConsistent s
      → IsConsistent (perform_all cs s)
  unfolding perform_all
  perform_all-IsConsistent [] s h = h
  perform_all-IsConsistent (c ∷ cs) s h =
      perform_all-IsConsistent cs (perform c s) (perform-IsConsistent c s h)
