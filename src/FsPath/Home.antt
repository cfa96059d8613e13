-- ===== src/FsPath/Home.antt =====
-- Where a path of NEO6502_MMU_V3/rp_fs_path.cpp starts: at the root of a drive that it names, at the root
-- of the process's drive, or in the process's directory as rp_fs_cwd_get tells it.
use neo6502_mmu_v.Base.{
  ℕ, ◌+◌, ◌≤◌, not, Option, none, some, List, [], ◌∷◌, ◌≡◌, ◌≢◌, refl, ap, subst, ◌∙◌, arith,
  if◌then◌else◌, Bool-cases, inl, inr,
}
use neo6502_mmu_v.FsPath.Text.{has_drive_prefix}
use neo6502_mmu_v.FsPath.Cwd.{ProcessCwd, ResolvedPath, Table, cwd_slot, shown, get}
use neo6502_mmu_v.FsPath.Canonical.{join}

-- A path that begins with `N:/`.
abbrev pub HasDrive : List ℕ → Type 0
HasDrive input = (d : ℕ) × (rest : List ℕ) × (d ≤ 9) × (input ≡ (b'0' + d) ∷ b':' ∷ b'/' ∷ rest)

-- The directory of a process; without one, the root of the fallback drive.
abbrev pub or_root : ℕ → Option ResolvedPath → ResolvedPath
or_root fallback none = record { device = fallback; path = b'/' ∷ [] }
or_root fallback (some cwd) = cwd

abbrev pub home : Table → ℕ → ℕ → ResolvedPath
home t pid fallback = or_root fallback (get t pid)

-- The drive, the components of the directory, and the text that is left to follow.
pub data IsStart (cwd : ResolvedPath) : List ℕ → ℕ → List (List ℕ) → List ℕ → Type 0 where
  on_drive :
      {d : ℕ} {rest : List ℕ} → d ≤ 9 → IsStart cwd ((b'0' + d) ∷ b':' ∷ b'/' ∷ rest) d [] rest
  from_root : {cs : List ℕ} → IsStart cwd (b'/' ∷ cs) cwd.device [] cs
  from_home :
      {c : ℕ} {cs : List ℕ} {stack : List (List ℕ)}
      → ¬ HasDrive (c ∷ cs)
      → c ≢ b'/'
      → cwd.path ≡ shown (join stack)
      → IsStart cwd (c ∷ cs) cwd.device stack (c ∷ cs)

pub has_drive_prefix-HasDrive :
    (input : List ℕ) (d : ℕ)
    → has_drive_prefix input ≡ some d
    → (rest : List ℕ) × (d ≤ 9) × (input ≡ (b'0' + d) ∷ b':' ∷ b'/' ∷ rest)
unfolding has_drive_prefix
has_drive_prefix-HasDrive [] d e = cc
has_drive_prefix-HasDrive (a ∷ []) d e = cc
has_drive_prefix-HasDrive (a ∷ b ∷ []) d e = cc
has_drive_prefix-HasDrive (a ∷ b ∷ c ∷ rest) d e = (rest, ground (arith, e), same)
  where
    first : a ≡ b'0' + d
    first = ground (arith, e)

    colon : b ≡ b':'
    colon = ground (arith, e)

    slash : c ≡ b'/'
    slash = ground (arith, e)

    same : a ∷ b ∷ c ∷ rest ≡ (b'0' + d) ∷ b':' ∷ b'/' ∷ rest
    same = rw (first, colon, slash) refl

pub none-HasDrive : (input : List ℕ) → has_drive_prefix input ≡ none → ¬ HasDrive input
unfolding has_drive_prefix
none-HasDrive input e (d, rest, low, at) = impossible (subst (λ p. has_drive_prefix p ≡ none) at e)
  where
    impossible : has_drive_prefix ((b'0' + d) ∷ b':' ∷ b'/' ∷ rest) ≡ none → ⊥
    impossible f = ground (arith, f, low)

-- What `start_in` and `start_root` see of the process's slot.
abbrev pub home_of : Option ProcessCwd → ℕ → ResolvedPath
home_of none fallback = record { device = fallback; path = b'/' ∷ [] }
home_of (some s) fallback =
    if s.valid
    then record { device = s.device; path = shown s.path }
    else record { device = fallback; path = b'/' ∷ [] }

directory_of : Option ProcessCwd → Option ResolvedPath
directory_of none = none
directory_of (some s) =
    if not s.valid then none else some (record { device = s.device; path = shown s.path })

get-cwd_slot :
    (t : Table) (pid : ℕ) (o : Option ProcessCwd) → cwd_slot t pid ≡ o → get t pid ≡ directory_of o
unfolding get directory_of
get-cwd_slot t pid none n = rw (n, get) refl
get-cwd_slot t pid (some s) e = rw (e, get) refl

or_root-directory_of :
    (o : Option ProcessCwd) (fallback : ℕ) → or_root fallback (directory_of o) ≡ home_of o fallback
unfolding directory_of
or_root-directory_of none fallback = refl
or_root-directory_of (some s) fallback = elim (Bool-cases s.valid) [
  | inl on ↦ rw on refl
  | inr off ↦ rw off refl
]

pub home-cwd_slot :
    (t : Table) (pid fallback : ℕ) → home t pid fallback ≡ home_of (cwd_slot t pid) fallback
home-cwd_slot t pid fallback =
    ap (or_root fallback) (get-cwd_slot t pid (cwd_slot t pid) refl)
    ∙ or_root-directory_of (cwd_slot t pid) fallback
