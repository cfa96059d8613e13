-- ===== src/RpFs/Handles.antt =====
-- The handles of NEO6502_MMU_V3/rp_fs.cpp and the mounted drives of usb_fatfs.cpp: an open handle
-- belongs to a mounted drive.
use neo6502_mmu_v.Base.{
  ℕ, ◌≡◌, ◌≢◌, refl, sym, ap, ◌∙◌, arith, inl, inr, Bool, true, false, ◌&&◌, some, List, [], ◌∷◌,
  length, length-set, get_elem?, get_elem?-set_self, get_elem?-set_ne, set, ◌==◌, Bool-cases, subst,
}
use neo6502_mmu_v.FsPath.Component.{All}
use neo6502_mmu_v.FsPath.Text.{max_devices}
use neo6502_mmu_v.RpFs.FatFs.{FatFs}
use neo6502_mmu_v.RpFs.Names.{valid_device}
use neo6502_mmu_v.RpFs.Storage.{
  FileHandle, FolderHandle, Storage, is_mounted, mount, close_files, close_folders,
  close_all_for_device, unmount,
}

-- A handle in use belongs to a drive of which the test holds.
abbrev pub Belongs : {File : Type 0} → (ℕ → Bool) → FileHandle File → Type 0
Belongs mounted h = h.in_use ≡ true → mounted h.device ≡ true

abbrev pub DirBelongs : {Folder : Type 0} → (ℕ → Bool) → FolderHandle Folder → Type 0
DirBelongs mounted h = h.dir_in_use ≡ true → mounted h.dir_device ≡ true

module _ {Disk File Folder : Type 0} where
  pub record IsConsistent (s : Storage Disk File Folder) : Type 0 where
    pub drives : length s.mounted ≡ max_devices
    pub files : All (Belongs (λ d. is_mounted d s)) s.handles
    pub folders : All (DirBelongs (λ d. is_mounted d s)) s.folders

module _ {Disk File Folder : Type 0} (fat : FatFs Disk File Folder) where
  -- After the handles of some drives are closed, those in use belong to others.
  pub close_files-All :
      (which before after : ℕ → Bool) (hs : List (FileHandle File)) (disk : Disk)
      → ((d : ℕ) → which d ≡ false → before d ≡ true → after d ≡ true)
      → All (Belongs before) hs
      → All (Belongs after) (close_files fat which hs disk).0
  unfolding close_files
  close_files-All which before after [] disk k h = tt
  close_files-All which before after (x ∷ hs) disk k (h, rest) =
      elim (Bool-cases (x.in_use && which x.device)) [
        | inl e ↦ rw e (λ u. cc, close_files-All which before after hs _ k rest)
        | inr e ↦ rw e (
          λ u. k x.device (ground (arith, e, u)) (h u),
          close_files-All which before after hs _ k rest,
        )
      ]

  pub close_folders-All :
      (which before after : ℕ → Bool) (hs : List (FolderHandle Folder)) (disk : Disk)
      → ((d : ℕ) → which d ≡ false → before d ≡ true → after d ≡ true)
      → All (DirBelongs before) hs
      → All (DirBelongs after) (close_folders fat which hs disk).0
  unfolding close_folders
  close_folders-All which before after [] disk k h = tt
  close_folders-All which before after (x ∷ hs) disk k (h, rest) =
      elim (Bool-cases (x.dir_in_use && which x.dir_device)) [
        | inl e ↦ rw e (λ u. cc, close_folders-All which before after hs _ k rest)
        | inr e ↦ rw e (
          λ u. k x.dir_device (ground (arith, e, u)) (h u),
          close_folders-All which before after hs _ k rest,
        )
      ]

  -- The other drives stay as they are.
  others_stay :
      (s : Storage Disk File Folder) (device d : ℕ) (b : Bool) (t : Storage Disk File Folder)
      → t.mounted ≡ set s.mounted device b
      → (d == device) ≡ false
      → is_mounted d s ≡ true
      → is_mounted d t ≡ true
  unfolding is_mounted
  others_stay s device d b t e other h =
      let same : get_elem? t.mounted d ≡ get_elem? s.mounted d =
        ap (λ m. get_elem? m d) e
        ∙ get_elem?-set_ne s.mounted device d b (λ q. ground (arith, q, other)) in
      rw same h

  mounted_valid :
      (device : ℕ) (s : Storage Disk File Folder)
      → is_mounted device s ≡ true
      → valid_device device ≢ false
  unfolding is_mounted
  mounted_valid device s e v = ground (arith, e, v)

  -- Removing a drive closes its handles and no others.
  pub unmount-IsConsistent :
      (device : ℕ) (s : Storage Disk File Folder)
      → IsConsistent s
      → IsConsistent (unmount fat device s)
  unfolding unmount close_all_for_device
  unmount-IsConsistent device s h = elim (Bool-cases (is_mounted device s)) [
    | inr e ↦ rw (e, unmount) h
    | inl e ↦ elim (Bool-cases (valid_device device)) [
      | inr v ↦ absurd (mounted_valid device s e v)
      | inl v ↦
          rw (e, v, unmount, close_all_for_device)
            (record {
              drives = length-set s.mounted device false ∙ h.drives;
              files =
                  close_files-All (λ d. d == device) (λ d. is_mounted d s) _ s.handles s.disk
                    (λ d. others_stay s device d false _ refl) h.files;
              folders =
                  close_folders-All (λ d. d == device) (λ d. is_mounted d s) _ s.folders _
                    (λ d. others_stay s device d false _ refl) h.folders;
            })
    ]
  ]

  now_mounted :
      (s : Storage Disk File Folder) (device : ℕ) (t : Storage Disk File Folder)
      → length s.mounted ≡ max_devices
      → valid_device device ≡ true
      → t.mounted ≡ set s.mounted device true
      → is_mounted device t ≡ true
  unfolding is_mounted
  now_mounted s device t n v e =
      let there : get_elem? t.mounted device ≡ some true =
        ap (λ m. get_elem? m device) e
        ∙ get_elem?-set_self s.mounted device true (ground (arith, n, v)) in
      rw (v, there) refl

  all_stay :
      (s : Storage Disk File Folder) (device d : ℕ) (t : Storage Disk File Folder)
      → length s.mounted ≡ max_devices
      → valid_device device ≡ true
      → t.mounted ≡ set s.mounted device true
      → is_mounted d s ≡ true
      → is_mounted d t ≡ true
  all_stay s device d t n v e h = elim (Bool-cases (d == device)) [
    | inr other ↦ others_stay s device d true t e other h
    | inl same ↦
        subst (λ x. is_mounted x t ≡ true) (sym (ground (arith, same)))
          (now_mounted s device t n v e)
  ]

  All-map :
      {A : Type 0} (P Q : A → Type 0) (xs : List A) → ((x : A) → P x → Q x) → All P xs → All Q xs
  All-map P Q [] k h = tt
  All-map P Q (x ∷ xs) k (h, hs) = (k x h, All-map P Q xs k hs)

  pub same_drives :
      (s t : Storage Disk File Folder)
      → IsConsistent s
      → t.mounted ≡ s.mounted
      → t.handles ≡ s.handles
      → t.folders ≡ s.folders
      → IsConsistent t
  unfolding is_mounted
  same_drives s t h m f g = record {
    drives = ap length m ∙ h.drives;
    files = rw (f, m) h.files;
    folders = rw (g, m) h.folders;
  }

  -- `usb_fatfs_mount` answers true only for a drive that is mounted then.
  abbrev pub Mounting : ℕ → Bool × Storage Disk File Folder → Type 0
  Mounting device (b, t) = IsConsistent t × (b ≡ true → is_mounted device t ≡ true)

  pub mount-Mounting :
      (device : ℕ) (s : Storage Disk File Folder)
      → IsConsistent s
      → Mounting device (mount fat device s)
  unfolding mount
  mount-Mounting device s h = elim (Bool-cases (valid_device device)) [
    | inr v ↦ rw (v, mount) (h, λ e. cc)
    | inl v ↦ elim (Bool-cases (is_mounted device s)) [
      | inl m ↦ rw (v, m, mount) (h, λ e. m)
      | inr m ↦ elim (Bool-cases (fat.storage_mounted device s.disk)) [
        | inr u ↦ rw (v, m, u, mount) (h, λ e. cc)
        | inl u ↦ elim (Bool-cases ((fat.f_mount device s.disk).0 == 0)) [
          | inr f ↦ rw (v, m, u, f, mount) (same_drives s _ h refl refl refl, λ e. cc)
          | inl f ↦
              rw (v, m, u, f, mount)
                (
                  record {
                    drives = length-set s.mounted device true ∙ h.drives;
                    files =
                        All-map _ _ s.handles
                          (λ x k e. all_stay s device x.device _ h.drives v refl (k e)) h.files;
                    folders =
                        All-map _ _ s.folders
                          (λ x k e. all_stay s device x.dir_device _ h.drives v refl (k e))
                          h.folders;
                  },
                  λ e. now_mounted s device _ h.drives v refl,
                )
        ]
      ]
    ]
  ]
