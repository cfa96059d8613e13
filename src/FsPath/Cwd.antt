-- ===== src/FsPath/Cwd.antt =====
-- rp_fs_path.cpp: the table of current directories, one slot for each process.
use neo6502_mmu_v.Base.{
  ℕ, ◌+◌, Bool, true, false, not, ◌||◌, Option, none, some, List, [], ◌∷◌, length, get_elem?, set,
  replicate, ltb, leb, ◌==◌, if◌then◌else◌,
}
use neo6502_mmu_v.FsPath.Text.{max_procs, cwd_max, has_drive_prefix, device_valid, path_valid_83}

-- `RPFSProcessCwd`
pub record ProcessCwd : Type 0 where
  pub valid : Bool
  pub device : ℕ
  pub path : List ℕ

-- `RPFSResolvedPath`
pub record ResolvedPath : Type 0 where
  pub device : ℕ
  pub path : List ℕ

-- `gRPFSProcessCwd`
abbrev pub Table : Type 0
Table = List ProcessCwd

-- `rp_fs_cwd_slot` and `rp_fs_cwd_slot_const`
unfoldable pub cwd_slot : Table → ℕ → Option ProcessCwd
cwd_slot t pid = if ltb pid max_procs then get_elem? t pid else none

abbrev pub root_of : ℕ → ProcessCwd
root_of device = record { valid = true; device = device; path = [] }

-- `rp_fs_cwd_reset_all`
unfoldable pub reset_all : Table
reset_all = replicate max_procs (root_of 0)

-- `rp_fs_cwd_init_root`
unfoldable pub init_root : Table → ℕ → ℕ → Bool × Table
init_root t pid device = elim (cwd_slot t pid) [
  | none ↦ (false, t)
  | some s ↦ if not (device_valid device) then (false, t) else (true, set t pid (root_of device))
]

-- `rp_fs_cwd_clone`
unfoldable pub clone_cwd : Table → ℕ → ℕ → Bool × Table
clone_cwd t child_pid parent_pid = elim (cwd_slot t child_pid) [
  | none ↦ (false, t)
  | some child ↦ elim (cwd_slot t parent_pid) [
    | none ↦ (false, t)
    | some parent ↦ if not parent.valid then (false, t) else (true, set t child_pid parent)
  ]
]

-- A canonical path as the callers see it: `/` for the root.
abbrev pub shown : List ℕ → List ℕ
shown [] = b'/' ∷ []
shown (c ∷ cs) = c ∷ cs

-- `rp_fs_cwd_get`; `none` is its `false`.
unfoldable pub get : Table → ℕ → Option ResolvedPath
get t pid = elim (cwd_slot t pid) [
  | none ↦ none
  | some s ↦ if not s.valid then none else some (record { device = s.device; path = shown s.path })
]

-- `source` of `rp_fs_cwd_set`: the path without a leading slash.
abbrev pub without_slash : List ℕ → List ℕ
without_slash [] = []
without_slash (c ∷ cs) = if c == b'/' then cs else c ∷ cs

-- `rp_fs_cwd_set`
unfoldable pub set_cwd : Table → ℕ → ResolvedPath → Bool × Table
set_cwd t pid cwd = elim (cwd_slot t pid) [
  | none ↦ (false, t)
  | some s ↦
      if not (device_valid cwd.device) then (false, t) else elim (has_drive_prefix cwd.path) [
        | some qualified_device ↦ (false, t)
        | none ↦
            if not (path_valid_83 cwd.path)
            then (false, t)
            else let source = without_slash cwd.path in
              if leb cwd_max (length source)
              then (false, t)
              else (true, set t pid (record { valid = true; device = cwd.device; path = source }))
      ]
]

-- `rp_fs_cwd_format`: the text and its length, for a buffer of `out_len` bytes.
unfoldable pub format : Table → ℕ → ℕ → Option (List ℕ × ℕ)
format t pid out_len = elim (cwd_slot t pid) [
  | none ↦ none
  | some s ↦
      if not s.valid || not (device_valid s.device)
      then none
      else let visible_len = 3 + length s.path in
        if ltb out_len (visible_len + 1)
        then none
        else some ((b'0' + s.device) ∷ b':' ∷ b'/' ∷ s.path, visible_len)
]

-- The calls that change the table, in the order that the mailbox makes them.
pub data Call : Type 0 where
  reset : Call
  init : ℕ → ℕ → Call
  clone : ℕ → ℕ → Call
  chdir : ℕ → ResolvedPath → Call

unfoldable pub call : Call → Table → Table
call Call.reset t = reset_all
call (Call.init pid device) t = (init_root t pid device).1
call (Call.clone child parent) t = (clone_cwd t child parent).1
call (Call.chdir pid cwd) t = (set_cwd t pid cwd).1

unfoldable pub calls : List Call → Table → Table
calls [] t = t
calls (c ∷ cs) t = calls cs (call c t)
