-- ===== src/FsPath/Resolve.antt =====
-- rp_fs_path.cpp: `rp_fs_resolve_process_path`.
use neo6502_mmu_v.Base.{
  ℕ, zero, suc, Bool, false, not, ◌&&◌, Option, none, some, List, [], ◌∷◌, length, leb, ◌==◌,
  if◌then◌else◌,
}
use neo6502_mmu_v.FsPath.Text.{
  max_procs, path_max, has_drive_prefix, skip_prefix, device_valid, component_valid_83,
  pop_component, append_component,
}
use neo6502_mmu_v.FsPath.Cwd.{ProcessCwd, ResolvedPath, Table, cwd_slot, shown}

-- `rp_fs_path_result_t`; `ok` carries what is stored through `resolved`, and `out_of_fuel` is no
-- value of the source.
pub data PathResult {ℓ} (A : Type ℓ) : Type ℓ where
  ok : A → PathResult A
  invalid_pid invalid_device invalid_path too_long out_of_fuel : PathResult A

abbrev pub map_ok {ℓ κ} : {A : Type ℓ} {B : Type κ} → (A → B) → PathResult A → PathResult B
map_ok f (ok a) = ok (f a)
map_ok f invalid_pid = invalid_pid
map_ok f invalid_device = invalid_device
map_ok f invalid_path = invalid_path
map_ok f too_long = too_long
map_ok f out_of_fuel = out_of_fuel

-- `while (*cursor == '/') cursor++`
unfoldable pub skip_slashes : List ℕ → List ℕ
skip_slashes [] = []
skip_slashes (c ∷ cs) = let rest = skip_slashes cs in if c == b'/' then rest else c ∷ cs

-- `while (*cursor != '\0' && *cursor != '/') cursor++`: what it passes, and where it stops.
unfoldable pub take_component : List ℕ → List ℕ × List ℕ
take_component [] = ([], [])
take_component (c ∷ cs) =
    let (component, rest) = take_component cs in
    if c == b'/' then ([], c ∷ cs) else (c ∷ component, rest)

abbrev pub is_dot : List ℕ → Bool
is_dot (c ∷ []) = c == b'.'
is_dot _ = false

abbrev pub is_dot_dot : List ℕ → Bool
is_dot_dot (c ∷ d ∷ []) = c == b'.' && d == b'.'
is_dot_dot _ = false

-- One component of the main loop; `next` goes on from the path that it makes.
unfoldable pub round : (List ℕ → PathResult (List ℕ)) → List ℕ → List ℕ → PathResult (List ℕ)
round next canonical component =
    if is_dot component
    then next canonical
    else if is_dot_dot component
    then next (pop_component canonical)
    else if not (component_valid_83 component)
    then invalid_path
    else elim (append_component canonical path_max component) [
      | none ↦ too_long
      | some longer ↦ next longer
    ]

-- The main loop; each round passes at least one character, so the length is fuel enough.
unfoldable pub walk : ℕ → List ℕ → List ℕ → PathResult (List ℕ)
walk zero canonical cursor = out_of_fuel
walk (suc fuel) canonical cursor = elim (skip_slashes cursor) [
  | [] ↦ ok canonical
  | c ∷ cs ↦
      let (component, rest) = take_component (c ∷ cs) in
      round (λ path. walk fuel path rest) canonical component
]

-- Where resolution starts: the device, the canonical path and the characters left to read.
pub record Start : Type 0 where
  pub device : ℕ
  pub canonical : List ℕ
  pub cursor : List ℕ

abbrev pub start_in : Option ProcessCwd → ℕ → List ℕ → Start
start_in (some cwd) fallback input =
    if cwd.valid
    then record { device = cwd.device; canonical = cwd.path; cursor = input }
    else record { device = fallback; canonical = []; cursor = input }
start_in none fallback input = record { device = fallback; canonical = []; cursor = input }

abbrev pub start_root : Option ProcessCwd → ℕ → List ℕ → Start
start_root (some cwd) fallback rest = record {
  device = if cwd.valid then cwd.device else fallback;
  canonical = [];
  cursor = rest;
}
start_root none fallback rest = record { device = fallback; canonical = []; cursor = rest }

-- The three kinds of input: `N:/…`, `/…` and a relative path.
unfoldable pub path_start : Option ProcessCwd → ℕ → List ℕ → Start
path_start cwd fallback [] = record { device = fallback; canonical = []; cursor = [] }
path_start cwd fallback (c ∷ cs) = elim (has_drive_prefix (c ∷ cs)) [
  | some device ↦ record { device = device; canonical = []; cursor = skip_prefix (c ∷ cs) }
  | none ↦ if c == b'/' then start_root cwd fallback cs else start_in cwd fallback (c ∷ cs)
]

-- The check of the device and the loop.
unfoldable pub resolve_from : Start → PathResult ResolvedPath
resolve_from s =
    if leb path_max (length s.canonical)
    then too_long
    else if not (device_valid s.device)
    then invalid_device
    else map_ok (λ canonical. record { device = s.device; path = shown canonical })
        (walk (suc (length s.cursor)) s.canonical s.cursor)

-- `rp_fs_resolve_process_path`
unfoldable pub resolve : Table → ℕ → ℕ → List ℕ → PathResult ResolvedPath
resolve t pid fallback_device [] = if leb max_procs pid then invalid_pid else invalid_path
resolve t pid fallback_device (c ∷ cs) =
    if leb max_procs pid
    then invalid_pid
    else resolve_from (path_start (cwd_slot t pid) fallback_device (c ∷ cs))
