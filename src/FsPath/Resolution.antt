-- ===== src/FsPath/Resolution.antt =====
-- rp_fs_resolve_process_path of NEO6502_MMU_V3/rp_fs_path.cpp as a whole: its errors and its results.
use neo6502_mmu_v.Base.{
  ℕ, suc, ◌<◌, ◌||◌, inl, inr, List, [], ◌∷◌, ◌++◌, ◌≡◌, refl, sym, ap, subst, ◌∙◌, arith, length,
  drop_last, leb, ◌==◌, if◌then◌else◌, Bool-cases,
}
use neo6502_mmu_v.FsPath.Text.{max_procs, max_devices, path_max, device_valid, component_valid_83}
use neo6502_mmu_v.FsPath.Cwd.{ResolvedPath, Table, cwd_slot, shown}
use neo6502_mmu_v.FsPath.Component.{All, Is83, component_valid_83_iff}
use neo6502_mmu_v.FsPath.Canonical.{join, All-concat, All-drop_last, length-join-drop_last}
use neo6502_mmu_v.FsPath.Valid.{All-IsPiece}
use neo6502_mmu_v.FsPath.Table.{IsTable, slot-IsValid}
use neo6502_mmu_v.FsPath.Resolve.{
  PathResult, ok, invalid_pid, invalid_device, invalid_path, too_long, out_of_fuel, map_ok, is_dot,
  is_dot_dot, walk, Start, path_start, resolve_from, resolve,
}
use neo6502_mmu_v.FsPath.Spec.{pieces, follow}
use neo6502_mmu_v.FsPath.Refine.{walk_refines}
use neo6502_mmu_v.FsPath.Begins.{start-Begins}
use neo6502_mmu_v.FsPath.Home.{home, home-cwd_slot, IsStart}

abbrev Stack : Type 0
Stack = List (List ℕ)

-- What resolution means from a device and a stack.
abbrev pub Meaning : ℕ → Stack → List ℕ → PathResult ResolvedPath
Meaning device stack cursor =
    if device_valid device
    then map_ok (λ s. record { device = device; path = shown (join s) })
        (follow stack (pieces cursor))
    else invalid_device

map_ok-map_ok :
    {A B C : Type 0} (f : B → C) (g : A → B) (r : PathResult A)
    → map_ok f (map_ok g r) ≡ map_ok (λ a. f (g a)) r
map_ok-map_ok f g (ok a) = refl
map_ok-map_ok f g invalid_pid = refl
map_ok-map_ok f g invalid_device = refl
map_ok-map_ok f g invalid_path = refl
map_ok-map_ok f g too_long = refl
map_ok-map_ok f g out_of_fuel = refl

-- From any start whose path joins components, the check and the loop of
-- `rp_fs_resolve_process_path` give what the pieces mean.
pub resolve_from_refines :
    (s : Start) (stack : Stack)
    → All Is83 stack
    → s.canonical ≡ join stack
    → length s.canonical < path_max
    → resolve_from s ≡ Meaning s.device stack s.cursor
unfolding resolve_from
resolve_from_refines s stack named e short = ground (arith, same)
  where
    result : List ℕ → ResolvedPath
    result canonical = record { device = s.device; path = shown canonical }

    same :
        map_ok result (walk (suc (length s.cursor)) s.canonical s.cursor)
        ≡ map_ok (λ t. result (join t)) (follow stack (pieces s.cursor))
    same =
        ap (λ c. map_ok result (walk (suc (length s.cursor)) c s.cursor)) e
        ∙ ap (map_ok result) (
            walk_refines (suc (length s.cursor)) s.cursor stack (omega arith)
              (All-IsPiece stack named))
        ∙ map_ok-map_ok result join (follow stack (pieces s.cursor))

-- What `follow` reaches: components, and a path that fits.
abbrev Reached : PathResult Stack → Type 0
Reached (ok s) = All Is83 s × (length (join s) < path_max)
Reached out_of_fuel = ⊥
Reached invalid_pid = Unit
Reached invalid_device = Unit
Reached invalid_path = Unit
Reached too_long = Unit

follow-Reached :
    (ps stack : Stack) → All Is83 stack → length (join stack) < path_max → Reached (follow stack ps)
unfolding follow
follow-Reached [] stack named short = (named, short)
follow-Reached (p ∷ ps) stack named short = elim (Bool-cases (length p == 0 || is_dot p)) [
  | inl e ↦ rw e (follow-Reached ps stack named short)
  | inr e ↦ elim (Bool-cases (is_dot_dot p)) [
    | inl f ↦
        rw (e, f)
          (follow-Reached ps (drop_last stack) (All-drop_last Is83 stack named)
            (omega (arith, length-join-drop_last stack)))
    | inr f ↦ elim (Bool-cases (component_valid_83 p)) [
      | inr bad ↦ rw (e, f, bad) tt
      | inl good ↦ elim (Bool-cases (leb path_max (length (join (stack ++ p ∷ []))))) [
        | inl long ↦ rw (e, f, good, long) tt
        | inr fits ↦
            rw (e, f, good, fits)
              (follow-Reached ps (stack ++ p ∷ [])
                (All-concat Is83 stack named ((component_valid_83_iff p).0 good)) (ground arith))
      ]
    ]
  ]
]

-- What resolution may return: an error, or a drive and a canonical path of fewer than 64
-- characters, `/` for the root.
abbrev pub IsResolved : PathResult ResolvedPath → Type 0
IsResolved (ok r) =
    (r.device < max_devices)
    × ((s : Stack) × All Is83 s × (r.path ≡ shown (join s)) × (length (join s) < path_max))
IsResolved out_of_fuel = ⊥
IsResolved invalid_pid = Unit
IsResolved invalid_device = Unit
IsResolved invalid_path = Unit
IsResolved too_long = Unit

Reached-IsResolved :
    (d : ℕ) (r : PathResult Stack)
    → d < max_devices
    → Reached r
    → IsResolved (map_ok (λ s. record { device = d; path = shown (join s) }) r)
Reached-IsResolved d (ok s) h (named, short) = (h, (s, named, refl, short))
Reached-IsResolved d invalid_pid h r = tt
Reached-IsResolved d invalid_device h r = tt
Reached-IsResolved d invalid_path h r = tt
Reached-IsResolved d too_long h r = tt
Reached-IsResolved d out_of_fuel h r = r

Meaning-IsResolved :
    (d : ℕ) (stack : Stack) (cursor : List ℕ)
    → All Is83 stack
    → length (join stack) < path_max
    → IsResolved (Meaning d stack cursor)
unfolding device_valid
Meaning-IsResolved d stack cursor named short = elim (Bool-cases (device_valid d)) [
  | inl good ↦ rw good (
      Reached-IsResolved d (follow stack (pieces cursor)) (ground arith)
        (follow-Reached (pieces cursor) stack named short))
  | inr bad ↦ rw bad tt
]

-- Over a well-formed table a path means what following its pieces gives, from the root of the drive
-- that it names, else from the root of the drive or from the directory that rp_fs_cwd_get tells for the
-- process, or the root of the fallback drive if it tells none; errors included.
pub resolve_refines :
    (t : Table) (pid fallback c : ℕ) (cs : List ℕ)
    → IsTable t
    → pid < max_procs
    → (device : ℕ) × (stack : Stack) × (cursor : List ℕ) × IsStart
        (home t pid fallback)
        (c ∷ cs)
        device
        stack
        cursor
      × All Is83 stack
      × (length (join stack) < path_max)
      × (resolve t pid fallback (c ∷ cs) ≡ Meaning device stack cursor)
unfolding resolve
resolve_refines t pid fallback c cs h lt =
    let b = start-Begins (cwd_slot t pid) fallback c cs (λ s e. slot-IsValid pid h e) in
    let s = path_start (cwd_slot t pid) fallback (c ∷ cs) in
    (
      s.device,
      b.stack,
      s.cursor,
      subst (λ cwd. IsStart cwd (c ∷ cs) s.device b.stack s.cursor)
          (sym (home-cwd_slot t pid fallback)) b.starts,
      b.named,
      subst (λ p. length p < path_max) b.joined b.short,
      ground (arith, resolve_from_refines s b.stack b.named b.joined b.short),
    )

-- Over a well-formed table resolution always ends, with an error or with one of the four drives
-- and a canonical 8.3 path that fits its 64 bytes.
pub resolve-IsResolved :
    (t : Table) (pid fallback : ℕ) (input : List ℕ)
    → IsTable t
    → IsResolved (resolve t pid fallback input)
resolve-IsResolved t pid fallback [] h =
    unfold resolve in
    elim (Bool-cases (leb max_procs pid)) [ inl far ↦ rw far tt | inr near ↦ rw near tt ]
resolve-IsResolved t pid fallback (c ∷ cs) h = elim (Bool-cases (leb max_procs pid)) [
  | inl far ↦ unfold resolve in rw far tt
  | inr near ↦
      let (device, stack, cursor, _, named, short, same) =
        resolve_refines t pid fallback c cs h (ground arith) in
      subst IsResolved (sym same) (Meaning-IsResolved device stack cursor named short)
]
