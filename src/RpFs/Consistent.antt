-- ===== src/RpFs/Consistent.antt =====
-- Every operation of NEO6502_MMU_V3/rp_fs.cpp on the handles, by what it leaves.
use neo6502_mmu_v.Base.{
  ℕ, ◌≡◌, arith, inl, inr, Bool, true, some, List, length, get_elem?, set, find_index?, ltb, ◌==◌,
  Bool-cases, Option-cases,
}
use neo6502_mmu_v.FsPath.Table.{All-set, All-get_elem?}
use neo6502_mmu_v.RpFs.FatFs.{FatFs}
use neo6502_mmu_v.RpFs.Names.{valid_device, make_path, make_dir_path}
use neo6502_mmu_v.RpFs.Storage.{
  FileHandle, FolderHandle, Storage, is_mounted, open_handle, open_folder,
}
use neo6502_mmu_v.RpFs.Files.{
  fat_path_max, ensure_mounted, open_slot, open_mode, close, read_file, write_file, seek_file,
  not_in_use,
}
use neo6502_mmu_v.RpFs.Folders.{open_folder_slot, opendir, readdir, closedir, dir_not_in_use}
use neo6502_mmu_v.RpFs.Handles.{Belongs, DirBelongs, IsConsistent, Mounting, mount-Mounting}

module _ {Disk File Folder : Type 0} where
  -- A handle is put in its place.
  set_file :
      (s : Storage Disk File Folder) (i : ℕ) (v : FileHandle File) (disk : Disk)
      → IsConsistent s
      → Belongs (λ d. is_mounted d s) v
      → IsConsistent (record s { disk = disk; handles = set s.handles i v })
  unfolding is_mounted
  set_file s i v disk h k = record {
    drives = h.drives;
    files = All-set (Belongs (λ d. is_mounted d s)) s.handles i v h.files k;
    folders = h.folders;
  }

  set_folder :
      (s : Storage Disk File Folder) (i : ℕ) (v : FolderHandle Folder) (disk : Disk)
      → IsConsistent s
      → DirBelongs (λ d. is_mounted d s) v
      → IsConsistent (record s { disk = disk; folders = set s.folders i v })
  unfolding is_mounted
  set_folder s i v disk h k = record {
    drives = h.drives;
    files = h.files;
    folders = All-set (DirBelongs (λ d. is_mounted d s)) s.folders i v h.folders k;
  }

  of_file :
      (s : Storage Disk File Folder) (i : ℕ) (v : FileHandle File)
      → IsConsistent s
      → get_elem? s.handles i ≡ some v
      → Belongs (λ d. is_mounted d s) v
  of_file s i v h e = All-get_elem? (Belongs (λ d. is_mounted d s)) s.handles i v h.files e

  of_folder :
      (s : Storage Disk File Folder) (i : ℕ) (v : FolderHandle Folder)
      → IsConsistent s
      → get_elem? s.folders i ≡ some v
      → DirBelongs (λ d. is_mounted d s) v
  of_folder s i v h e = All-get_elem? (DirBelongs (λ d. is_mounted d s)) s.folders i v h.folders e

  of_open :
      (s : Storage Disk File Folder) (i : ℕ) (v : FileHandle File)
      → IsConsistent s
      → open_handle i s ≡ some v
      → Belongs (λ d. is_mounted d s) v
  unfolding open_handle
  of_open s i v h e = of_file s i v h (ground (arith, e))

  of_open_folder :
      (s : Storage Disk File Folder) (i : ℕ) (v : FolderHandle Folder)
      → IsConsistent s
      → open_folder i s ≡ some v
      → DirBelongs (λ d. is_mounted d s) v
  unfolding open_folder
  of_open_folder s i v h e = of_folder s i v h (ground (arith, e))

module _ {Disk File Folder : Type 0} (fat : FatFs Disk File Folder) where
  pub ensure_mounted-Mounting :
      (device : ℕ) (s : Storage Disk File Folder)
      → IsConsistent s
      → Mounting fat device (ensure_mounted fat device s)
  unfolding ensure_mounted
  ensure_mounted-Mounting device s h = elim (Bool-cases (valid_device device)) [
    | inr v ↦ rw (v, ensure_mounted) (h, λ e. cc)
    | inl v ↦ elim (Bool-cases (is_mounted device s)) [
      | inl m ↦ rw (v, m, ensure_mounted) (h, λ e. m)
      | inr m ↦ rw (v, m, ensure_mounted) (mount-Mounting fat device s h)
    ]
  ]

  open_slot-IsConsistent :
      (slot : ℕ) (h : FileHandle File) (device : ℕ) (filename : List ℕ) (mode : ℕ) (r w : Bool)
      (s : Storage Disk File Folder)
      → IsConsistent s
      → get_elem? s.handles slot ≡ some h
      → is_mounted device s ≡ true
      → IsConsistent (open_slot fat slot h device filename mode r w s).1
  unfolding open_slot
  open_slot-IsConsistent slot h device filename mode r w s k g m =
      elim (Option-cases (make_path device filename fat_path_max)) [
        | inl n ↦ rw (n, open_slot) k
        | inr (path, e) ↦ elim (Bool-cases ((fat.f_open h.file path mode s.disk).0 == 0)) [
          | inl good ↦ rw (e, good, open_slot) (set_file s slot _ _ k (λ u. m))
          | inr bad ↦ rw (e, bad, open_slot) (set_file s slot _ _ k (of_file s slot h k g))
        ]
      ]

  pub open_mode-IsConsistent :
      (device : ℕ) (filename : List ℕ) (mode : ℕ) (r w : Bool) (s : Storage Disk File Folder)
      → IsConsistent s
      → IsConsistent (open_mode fat device filename mode r w s).1
  unfolding open_mode
  open_mode-IsConsistent device filename mode r w s h =
      let (k, m) = ensure_mounted-Mounting device s h in
      elim (Bool-cases (ensure_mounted fat device s).0) [
        | inr bad ↦ rw (bad, open_mode) k
        | inl good ↦
            elim (Option-cases (find_index? not_in_use (ensure_mounted fat device s).1.handles)) [
              | inl n ↦ rw (good, n, open_mode) k
              | inr (slot, e) ↦
                  elim (Option-cases (get_elem? (ensure_mounted fat device s).1.handles slot)) [
                    | inl n ↦ rw (good, e, n, open_mode) k
                    | inr (x, f) ↦
                        rw (good, e, f, open_mode)
                          (open_slot-IsConsistent slot x device filename mode r w
                            (ensure_mounted fat device s).1 k f (m good))
                  ]
            ]
      ]

  pub close-IsConsistent :
      (handle : ℕ) (s : Storage Disk File Folder)
      → IsConsistent s
      → IsConsistent (close fat handle s).1
  unfolding close
  close-IsConsistent handle s h = elim (Option-cases (open_handle handle s)) [
    | inl n ↦ rw (n, close) h
    | inr (x, e) ↦ rw (e, close) (set_file s handle _ _ h (λ u. cc))
  ]

  pub read_file-IsConsistent :
      (handle len : ℕ) (s : Storage Disk File Folder)
      → IsConsistent s
      → IsConsistent (read_file fat handle len s).1
  unfolding read_file
  read_file-IsConsistent handle len s h = elim (Option-cases (open_handle handle s)) [
    | inl n ↦ rw (n, read_file) h
    | inr (x, e) ↦ elim (Bool-cases x.can_read) [
      | inr deny ↦ rw (e, deny, read_file) h
      | inl may ↦ elim (Bool-cases (len == 0)) [
        | inl z ↦ rw (e, may, z, read_file) h
        | inr z ↦ elim (Bool-cases ((fat.f_read x.file len s.disk).0 == 0)) [
          | inl good ↦
              rw (e, may, z, good, read_file) (set_file s handle _ _ h (of_open s handle x h e))
          | inr bad ↦
              rw (e, may, z, bad, read_file) (set_file s handle _ _ h (of_open s handle x h e))
        ]
      ]
    ]
  ]

  pub write_file-IsConsistent :
      (handle : ℕ) (src : List ℕ) (s : Storage Disk File Folder)
      → IsConsistent s
      → IsConsistent (write_file fat handle src s).1
  unfolding write_file
  write_file-IsConsistent handle src s h = elim (Option-cases (open_handle handle s)) [
    | inl n ↦ rw (n, write_file) h
    | inr (x, e) ↦ elim (Bool-cases x.can_write) [
      | inr deny ↦ rw (e, deny, write_file) h
      | inl may ↦ elim (Bool-cases (length src == 0)) [
        | inl z ↦ rw (e, may, z, write_file) h
        | inr z ↦ elim (Bool-cases ((fat.f_write x.file src s.disk).0 == 0)) [
          | inl good ↦
              rw (e, may, z, good, write_file) (set_file s handle _ _ h (of_open s handle x h e))
          | inr bad ↦
              rw (e, may, z, bad, write_file) (set_file s handle _ _ h (of_open s handle x h e))
        ]
      ]
    ]
  ]

  pub seek_file-IsConsistent :
      (handle position : ℕ) (s : Storage Disk File Folder)
      → IsConsistent s
      → IsConsistent (seek_file fat handle position s).1
  unfolding seek_file
  seek_file-IsConsistent handle position s h = elim (Option-cases (open_handle handle s)) [
    | inl n ↦ rw (n, seek_file) h
    | inr (x, e) ↦ rw (e, seek_file) (set_file s handle _ _ h (of_open s handle x h e))
  ]

  open_folder_slot-IsConsistent :
      (slot : ℕ) (h : FolderHandle Folder) (device : ℕ) (dirname : List ℕ)
      (s : Storage Disk File Folder)
      → IsConsistent s
      → get_elem? s.folders slot ≡ some h
      → is_mounted device s ≡ true
      → IsConsistent (open_folder_slot fat slot h device dirname s).1
  unfolding open_folder_slot
  open_folder_slot-IsConsistent slot h device dirname s k g m =
      elim (Option-cases (make_dir_path device dirname fat_path_max)) [
        | inl n ↦ rw (n, open_folder_slot) k
        | inr (path, e) ↦ elim (Bool-cases ((fat.f_opendir h.dir path s.disk).0 == 0)) [
          | inl good ↦ rw (e, good, open_folder_slot) (set_folder s slot _ _ k (λ u. m))
          | inr bad ↦
              rw (e, bad, open_folder_slot) (set_folder s slot _ _ k (of_folder s slot h k g))
        ]
      ]

  pub opendir-IsConsistent :
      (device : ℕ) (dirname : List ℕ) (s : Storage Disk File Folder)
      → IsConsistent s
      → IsConsistent (opendir fat device dirname s).1
  unfolding opendir
  opendir-IsConsistent device dirname s h =
      let (k, m) = ensure_mounted-Mounting device s h in
      elim (Bool-cases (ensure_mounted fat device s).0) [
        | inr bad ↦ rw (bad, opendir) k
        | inl good ↦
            elim (Option-cases
              (find_index? dir_not_in_use (ensure_mounted fat device s).1.folders)) [
                | inl n ↦ rw (good, n, opendir) k
                | inr (slot, e) ↦
                    elim (Option-cases (get_elem? (ensure_mounted fat device s).1.folders slot)) [
                      | inl n ↦ rw (good, e, n, opendir) k
                      | inr (x, f) ↦
                          rw (good, e, f, opendir)
                            (open_folder_slot-IsConsistent slot x device dirname
                              (ensure_mounted fat device s).1 k f (m good))
                    ]
              ]
      ]

  pub readdir-IsConsistent :
      (fuel handle name_len : ℕ) (s : Storage Disk File Folder)
      → IsConsistent s
      → IsConsistent (readdir fat fuel handle name_len s).1
  unfolding readdir
  readdir-IsConsistent fuel handle name_len s h = elim (Option-cases (open_folder handle s)) [
    | inl n ↦ rw (n, readdir) h
    | inr (x, e) ↦ elim (Bool-cases (ltb name_len 13)) [
      | inl short ↦ rw (e, short, readdir) h
      | inr fits ↦ rw (e, fits, readdir) (set_folder s handle _ _ h (of_open_folder s handle x h e))
    ]
  ]

  pub closedir-IsConsistent :
      (handle : ℕ) (s : Storage Disk File Folder)
      → IsConsistent s
      → IsConsistent (closedir fat handle s).1
  unfolding closedir
  closedir-IsConsistent handle s h = elim (Option-cases (open_folder handle s)) [
    | inl n ↦ rw (n, closedir) h
    | inr (x, e) ↦ rw (e, closedir) (set_folder s handle _ _ h (λ u. cc))
  ]
