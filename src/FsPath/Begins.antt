-- ===== src/FsPath/Begins.antt =====
-- NEO6502_MMU_V3/rp_fs_path.cpp: what rp_fs_resolve_process_path makes of the beginning of a path.
use neo6502_mmu_v.Base.{
  ℕ, ◌<◌, inl, inr, Option, none, some, List, [], ◌∷◌, ◌≡◌, ◌≢◌, refl, sym, ap, subst, arith,
  length, ◌==◌, Bool-cases, Option-cases,
}
use neo6502_mmu_v.FsPath.Text.{path_max, has_drive_prefix, skip_prefix}
use neo6502_mmu_v.FsPath.Cwd.{ProcessCwd, ResolvedPath, shown}
use neo6502_mmu_v.FsPath.Component.{All, Is83}
use neo6502_mmu_v.FsPath.Canonical.{join}
use neo6502_mmu_v.FsPath.Table.{IsValid}
use neo6502_mmu_v.FsPath.Resolve.{Start, start_in, start_root, path_start}
use neo6502_mmu_v.FsPath.Home.{HasDrive, home_of, IsStart, has_drive_prefix-HasDrive, none-HasDrive}

-- A start from a well-formed slot: it joins components, and it is where the path starts.
pub record Begins (cwd : ResolvedPath) (input : List ℕ) (s : Start) : Type 0 where
  pub stack : List (List ℕ)
  pub named : All Is83 stack
  pub joined : s.canonical ≡ join stack
  pub short : length s.canonical < path_max
  pub starts : IsStart cwd input s.device stack s.cursor

drive-Begins :
    (cwd : ResolvedPath) (input : List ℕ) (d : ℕ)
    → has_drive_prefix input ≡ some d
    → Begins cwd input (record { device = d; canonical = []; cursor = skip_prefix input })
drive-Begins cwd input d e =
    let (rest, low, at) = has_drive_prefix-HasDrive input d e in
    subst (λ p. Begins cwd p (record { device = d; canonical = []; cursor = skip_prefix p }))
      (sym at)
      (record {
        stack = [];
        named = tt;
        joined = refl;
        short = omega arith;
        starts = IsStart.on_drive low;
      })

root-Begins :
    (o : Option ProcessCwd) (fallback : ℕ) (cs : List ℕ)
    → Begins (home_of o fallback) (b'/' ∷ cs) (start_root o fallback cs)
root-Begins none fallback cs = record {
  stack = [];
  named = tt;
  joined = refl;
  short = omega arith;
  starts = IsStart.from_root;
}
root-Begins (some s) fallback cs = elim (Bool-cases s.valid) [
  | inl on ↦ rw on (record {
    stack = [];
    named = tt;
    joined = refl;
    short = omega arith;
    starts = IsStart.from_root;
  })
  | inr off ↦ rw off (record {
    stack = [];
    named = tt;
    joined = refl;
    short = omega arith;
    starts = IsStart.from_root;
  })
]

home-Begins :
    (o : Option ProcessCwd) (fallback c : ℕ) (cs : List ℕ)
    → ((s : ProcessCwd) → o ≡ some s → IsValid s)
    → ¬ HasDrive (c ∷ cs)
    → c ≢ b'/'
    → Begins (home_of o fallback) (c ∷ cs) (start_in o fallback (c ∷ cs))
home-Begins none fallback c cs v n k = record {
  stack = [];
  named = tt;
  joined = refl;
  short = omega arith;
  starts = IsStart.from_home n k refl;
}
home-Begins (some s) fallback c cs v n k = elim (Bool-cases s.valid) [
  | inr off ↦ rw off (record {
    stack = [];
    named = tt;
    joined = refl;
    short = omega arith;
    starts = IsStart.from_home n k refl;
  })
  | inl on ↦ rw on (record {
    stack = (v s refl).canonical.stack;
    named = (v s refl).canonical.named;
    joined = (v s refl).canonical.joined;
    short = omega (arith, (v s refl).fits);
    starts = IsStart.from_home n k (ap shown (v s refl).canonical.joined);
  })
]

pub start-Begins :
    (o : Option ProcessCwd) (fallback c : ℕ) (cs : List ℕ)
    → ((s : ProcessCwd) → o ≡ some s → IsValid s)
    → Begins (home_of o fallback) (c ∷ cs) (path_start o fallback (c ∷ cs))
unfolding path_start
start-Begins o fallback c cs v = elim (Option-cases (has_drive_prefix (c ∷ cs))) [
  | inr (d, e) ↦ rw (e, path_start) (drive-Begins (home_of o fallback) (c ∷ cs) d e)
  | inl e ↦ elim (Bool-cases (c == b'/')) [
    | inl slash ↦
        rw (e, path_start, slash)
          (subst (λ x. Begins (home_of o fallback) (x ∷ cs) (start_root o fallback cs))
            (ground (arith, slash)) (root-Begins o fallback cs))
    | inr char ↦
        rw (e, path_start, char)
          (home-Begins o fallback c cs v (none-HasDrive (c ∷ cs) e) (λ f. ground (arith, f, char)))
  ]
]
