-- ===== src/FsPath/Table.antt =====
-- The well-formed tables of current directories of NEO6502_MMU_V3/rp_fs_path.cpp.
use neo6502_mmu_v.Base.{
  ℕ, zero, suc, ◌<◌, inl, inr, some, List, [], ◌∷◌, ◌≡◌, refl, sym, subst, ◌∙◌, arith, length,
  length-set, get_elem?, set, leb, Bool-cases, Option-cases,
}
use neo6502_mmu_v.FsPath.Text.{
  max_procs, max_devices, cwd_max, device_valid, has_drive_prefix, path_valid_83,
}
use neo6502_mmu_v.FsPath.Cwd.{
  ProcessCwd, ResolvedPath, Table, cwd_slot, root_of, reset_all, init_root, clone_cwd, set_cwd,
  without_slash, Call, call, calls,
}
use neo6502_mmu_v.FsPath.Component.{All}
use neo6502_mmu_v.FsPath.Valid.{
  IsCanonical, IsLogical, IsPath-no_drive, path_valid_83_iff, join-head, All-IsPiece,
}

-- A slot names a drive and a canonical path that fits its buffer.
pub record IsValid (s : ProcessCwd) : Type 0 where
  pub drive : s.device < max_devices
  pub canonical : IsCanonical s.path
  pub fits : length s.path < cwd_max

pub record IsTable (t : Table) : Type 0 where
  pub slots : length t ≡ max_procs
  pub all : All IsValid t

root_of-IsValid : (d : ℕ) → d < max_devices → IsValid (root_of d)
root_of-IsValid d h = record {
  drive = h;
  canonical = record { stack = []; named = tt; joined = refl };
  fits = omega arith;
}

pub All-set :
    {A : Type 0} (P : A → Type 0) (xs : List A) (i : ℕ) (v : A)
    → All P xs
    → P v
    → All P (set xs i v)
All-set P [] i v h p = tt
All-set P (x ∷ xs) zero v (h, t) p = (p, t)
All-set P (x ∷ xs) (suc i) v (h, t) p = (h, All-set P xs i v t p)

pub All-get_elem? :
    {A : Type 0} (P : A → Type 0) (xs : List A) (i : ℕ) (v : A)
    → All P xs
    → get_elem? xs i ≡ some v
    → P v
All-get_elem? P [] i v h e = cc
All-get_elem? P (x ∷ xs) zero v (h, t) e = let same : x ≡ v = cc in subst P same h
All-get_elem? P (x ∷ xs) (suc i) v (h, t) e = All-get_elem? P xs i v t e

set-IsTable : {t : Table} (pid : ℕ) {s : ProcessCwd} → IsTable t → IsValid s → IsTable (set t pid s)
set-IsTable {t} pid {s} h v = record {
  slots = length-set t pid s ∙ h.slots;
  all = All-set IsValid t pid s h.all v;
}

pub slot-IsValid :
    {t : Table} (pid : ℕ) {s : ProcessCwd} → IsTable t → cwd_slot t pid ≡ some s → IsValid s
unfolding cwd_slot
slot-IsValid {t} pid {s} h e = All-get_elem? IsValid t pid s h.all (ground arith)

-- After `rp_fs_cwd_reset_all` the table is well formed.
pub reset_all-IsTable : IsTable reset_all
unfolding reset_all
reset_all-IsTable =
    let r = root_of-IsValid 0 (omega arith) in
    record { slots = refl; all = (r, (r, (r, (r, (r, (r, (r, (r, tt)))))))) }

pub init_root-IsTable :
    {t : Table} (pid device : ℕ) → IsTable t → IsTable (init_root t pid device).1
unfolding init_root device_valid
init_root-IsTable {t} pid device h = elim (Option-cases (cwd_slot t pid)) [
  | inl e ↦ rw (e, init_root) h
  | inr (s, e) ↦ elim (Bool-cases (device_valid device)) [
    | inl good ↦ rw (e, init_root, good) (set-IsTable pid h (root_of-IsValid device (ground arith)))
    | inr bad ↦ rw (e, init_root, bad) h
  ]
]

pub clone_cwd-IsTable :
    {t : Table} (child parent : ℕ) → IsTable t → IsTable (clone_cwd t child parent).1
unfolding clone_cwd
clone_cwd-IsTable {t} child parent h = elim (Option-cases (cwd_slot t child)) [
  | inl e ↦ rw (e, clone_cwd) h
  | inr (c, e) ↦ elim (Option-cases (cwd_slot t parent)) [
    | inl f ↦ rw (e, clone_cwd, f) h
    | inr (p, f) ↦ elim (Bool-cases p.valid) [
      | inl good ↦ simp (e, clone_cwd, f, good) (set-IsTable child h (slot-IsValid parent h f))
      | inr bad ↦ rw (e, clone_cwd, f, bad) h
    ]
  ]
]

-- What a logical path keeps without its leading slash is canonical.
without_slash-IsCanonical : (p : List ℕ) → IsLogical p → IsCanonical (without_slash p)
without_slash-IsCanonical [] (inl c) = c
without_slash-IsCanonical (x ∷ p) (inl c) =
    rw (join-head c.stack (All-IsPiece c.stack c.named) x p (sym c.joined)) c
without_slash-IsCanonical [] (inr (q, e, c)) = cc
without_slash-IsCanonical (x ∷ p) (inr (q, e, c)) =
    subst (λ r. IsCanonical (without_slash r)) (sym e) c

set_cwd-IsTable :
    {t : Table} (pid : ℕ) (cwd : ResolvedPath) → IsTable t → IsTable (set_cwd t pid cwd).1
unfolding set_cwd device_valid
set_cwd-IsTable {t} pid cwd h = elim (Option-cases (cwd_slot t pid)) [
  | inl e ↦ rw (e, set_cwd) h
  | inr (s, e) ↦ elim (Bool-cases (device_valid cwd.device)) [
    | inr bad ↦ simp (e, set_cwd, bad) h
    | inl good ↦ elim (Option-cases (has_drive_prefix cwd.path)) [
      | inr (d, f) ↦ simp (e, set_cwd, good, f) h
      | inl f ↦ elim (Bool-cases (path_valid_83 cwd.path)) [
        | inr bad ↦ simp (e, set_cwd, good, f, bad) h
        | inl fine ↦ elim (Bool-cases (leb cwd_max (length (without_slash cwd.path)))) [
          | inl long ↦ simp (e, set_cwd, good, f, fine, long) h
          | inr short ↦
              simp (e, set_cwd, good, f, fine, short)
                (set-IsTable pid h (record {
                  drive = ground arith;
                  canonical =
                      without_slash-IsCanonical cwd.path
                        (IsPath-no_drive ((path_valid_83_iff cwd.path).0 fine) f);
                  fits = ground arith;
                }))
        ]
      ]
    ]
  ]
]

-- No call makes the table ill formed.
pub call-IsTable : (c : Call) {t : Table} → IsTable t → IsTable (call c t)
unfolding call
call-IsTable Call.reset h = reset_all-IsTable
call-IsTable (Call.init pid device) h = init_root-IsTable pid device h
call-IsTable (Call.clone child parent) h = clone_cwd-IsTable child parent h
call-IsTable (Call.chdir pid cwd) h = set_cwd-IsTable pid cwd h

-- Whatever calls follow `rp_fs_cwd_reset_all`, each of the eight slots names one of the four
-- drives and a canonical 8.3 path that fits its 32 bytes with the NUL.
pub calls-IsTable : (cs : List Call) {t : Table} → IsTable t → IsTable (calls cs t)
unfolding calls
calls-IsTable [] h = h
calls-IsTable (c ∷ cs) h = calls-IsTable cs (call-IsTable c h)
