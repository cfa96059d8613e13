-- ===== src/RpFs/Handover.antt =====
-- A path that rp_fs_path.cpp resolved, as NEO6502_MMU_V3/rp_fs.cpp takes it.
use neo6502_mmu_v.Base.{
  ℕ, ◌<◌, ◌≡◌, refl, sym, ◌∙◌, arith, inl, inr, true, false, none, some, List, [], ◌∷◌, length,
  ◌==◌, if◌then◌else◌, subst,
}
use neo6502_mmu_v.FsPath.Text.{has_drive_prefix, max_devices, path_max}
use neo6502_mmu_v.FsPath.Cwd.{Table, ResolvedPath, shown}
use neo6502_mmu_v.FsPath.Resolve.{ok, resolve}
use neo6502_mmu_v.FsPath.Component.{All, Is83}
use neo6502_mmu_v.FsPath.Canonical.{join}
use neo6502_mmu_v.FsPath.Valid.{
  IsLogical, IsLogical-no_drive, path_valid_83_iff, join-head, All-IsPiece,
}
use neo6502_mmu_v.FsPath.Table.{IsTable}
use neo6502_mmu_v.FsPath.Resolution.{IsResolved, resolve-IsResolved}
use neo6502_mmu_v.RpFs.Names.{
  is_valid_83_path, past_slash, is_root, on_drive, make_path, make_dir_path,
}
use neo6502_mmu_v.RpFs.Files.{fat_path_max}
use neo6502_mmu_v.RpFs.Agree.{path_checkers_agree}

shown-IsLogical : (s : List (List ℕ)) → All Is83 s → (p : List ℕ) → p ≡ join s → IsLogical (shown p)
shown-IsLogical s h [] e = inr ([], refl, record { stack = []; named = tt; joined = refl })
shown-IsLogical s h (c ∷ p) e = inl (record { stack = s; named = h; joined = e })

checked : (p : List ℕ) → IsLogical p → is_valid_83_path p ≡ true
checked p h =
    let drive = IsLogical-no_drive h in
    let valid = (path_valid_83_iff p).1 (inl h) in sym (rw drive at (path_checkers_agree p)) ∙ valid

-- The name behind the drive, and whether it is a root.
plain_name : (s : List (List ℕ)) → All Is83 s → (p : List ℕ) → p ≡ join s → past_slash (shown p) ≡ p
plain_name s h [] e = refl
plain_name s h (c ∷ p) e = rw (join-head s (All-IsPiece s h) c p (sym e)) refl

not_root :
    (s : List (List ℕ))
    → All Is83 s
    → (c : ℕ) (p : List ℕ) → c ∷ p ≡ join s
    → is_root (c ∷ p) ≡ false
not_root s h c [] e = join-head s (All-IsPiece s h) c [] (sym e)
not_root s h c (d ∷ p) e = refl

module _ (device : ℕ) (s : List (List ℕ)) (h : All Is83 s) (known : device < max_devices) where
  dir_path :
      (p : List ℕ)
      → p ≡ join s
      → length p < path_max
      → make_dir_path device (shown p) fat_path_max ≡ some (on_drive device p)
  unfolding make_dir_path
  dir_path [] e short =
      let good = checked (shown []) (shown-IsLogical s h [] e) in
      let plain = IsLogical-no_drive (shown-IsLogical s h [] e) in
      ground (arith, good, plain, known)
  dir_path (c ∷ p) e short =
      let good = checked (shown (c ∷ p)) (shown-IsLogical s h (c ∷ p) e) in
      let plain = IsLogical-no_drive (shown-IsLogical s h (c ∷ p) e) in
      ground (arith, good, plain, known, not_root s h c p e, plain_name s h (c ∷ p) e, short)

  file_path :
      (c : ℕ) (p : List ℕ)
      → c ∷ p ≡ join s
      → length (c ∷ p) < path_max
      → make_path device (c ∷ p) fat_path_max ≡ some (on_drive device (c ∷ p))
  unfolding make_path
  file_path c p e short =
      let good = checked (shown (c ∷ p)) (shown-IsLogical s h (c ∷ p) e) in
      let plain = IsLogical-no_drive (shown-IsLogical s h (c ∷ p) e) in
      ground (arith, good, plain, known, not_root s h c p e, plain_name s h (c ∷ p) e, short)

root_path : (device : ℕ) → make_path device (shown []) fat_path_max ≡ none
unfolding make_path has_drive_prefix
root_path device = ground arith

-- What the two functions make of a resolved path.
abbrev pub IsAccepted : ResolvedPath → Type 0
IsAccepted r =
    (q : List ℕ) × (r.path ≡ shown q)
    × (make_dir_path r.device r.path fat_path_max ≡ some (on_drive r.device q))
    × (make_path r.device r.path fat_path_max
        ≡ (if length q == 0 then none else some (on_drive r.device q)))

IsAccepted-by :
    (r : ResolvedPath) (s : List (List ℕ)) (q : List ℕ)
    → All Is83 s
    → r.device < max_devices
    → r.path ≡ shown q
    → q ≡ join s
    → length q < path_max
    → IsAccepted r
IsAccepted-by r s [] h known e j short =
    ([], e, rw e (dir_path r.device s h known [] j short), rw e (root_path r.device))
IsAccepted-by r s (c ∷ p) h known e j short = (
  c ∷ p,
  e,
  rw e (dir_path r.device s h known (c ∷ p) j short),
  rw e (file_path r.device s h known c p j short ∙ ground arith),
)

-- Each path that rp_fs_resolve_process_path resolves is accepted by the path makers of rp_fs.cpp, for
-- the same drive: as a directory always, as a file unless it is a root. The FatFs path is the drive,
-- a slash and the same name, and it fits the 96 bytes.
pub resolve-IsAccepted :
    (t : Table) (pid fallback : ℕ) (input : List ℕ) (r : ResolvedPath)
    → IsTable t
    → resolve t pid fallback input ≡ ok r
    → IsAccepted r
resolve-IsAccepted t pid fallback input r h e =
    let (known, (s, named, shape, short)) =
      subst IsResolved e (resolve-IsResolved t pid fallback input h) in
    IsAccepted-by r s (join s) named known shape refl short
