-- ===== src/FsPath/Text.antt =====
-- rp_fs_path.cpp: drive prefixes, components, and the edits of a canonical path.
use neo6502_mmu_v.Base.{
  ℕ, ◌+◌, ◌-◌, ◌%◌, ◌^◌, Bool, true, false, not, ◌&&◌, ◌||◌, Option, none, some, List, [], ◌∷◌,
  ◌++◌, length, ltb, leb, ◌==◌, if◌then◌else◌,
}

-- `RP_FS_NEOX_MAX_PROCS`, `RP_FS_NEOX_PATH_MAX`, `RP_FS_NEOX_CWD_MAX` and, of usb_storage.h,
-- `USB_STORAGE_MAX_DEVICES`.
abbrev pub max_procs : ℕ
max_procs = 8

abbrev pub path_max : ℕ
path_max = 64

abbrev pub cwd_max : ℕ
cwd_max = 32

abbrev pub max_devices : ℕ
max_devices = 4

-- `rp_fs_path_has_drive_prefix`: the drive of a path that begins with `N:/`.
unfoldable pub has_drive_prefix : List ℕ → Option ℕ
has_drive_prefix [] = none
has_drive_prefix (a ∷ []) = none
has_drive_prefix (a ∷ b ∷ []) = none
has_drive_prefix (a ∷ b ∷ c ∷ rest) =
    if ltb a b'0' || ltb b'9' a || not (b == b':') || not (c == b'/')
    then none
    else some ((a - b'0') % 2 ^ 8)

unfoldable pub device_valid : ℕ → Bool
device_valid device = ltb device max_devices && leb device 9

-- The loop of `rp_fs_path_component_valid_83`, from one character on; the lengths are `uint8_t`.
unfoldable pub component_scan : ℕ → ℕ → Bool → List ℕ → Bool
component_scan base_len ext_len in_ext [] =
    not (base_len == 0) && (not in_ext || not (ext_len == 0))
component_scan base_len ext_len in_ext (c ∷ cs) =
    let at_dot = component_scan base_len ext_len true cs in
    let longer_ext = (ext_len + 1) % 2 ^ 8 in
    let longer_base = (base_len + 1) % 2 ^ 8 in
    let after_ext = component_scan base_len longer_ext true cs in
    let after_base = component_scan longer_base ext_len false cs in
    if c == b'/' || c == b'\\' || c == b':' || ltb c 33 || leb 127 c
    then false
    else if leb b'a' c && leb c b'z'
    then false
    else if c == b'.'
    then (if in_ext || base_len == 0 then false else at_dot)
    else if not (leb b'A' c && leb c b'Z')
        && not (leb b'0' c && leb c b'9')
        && not (c == b'_')
        && not (c == b'-')
        && not (c == b'$')
        && not (c == b'~')
    then false
    else if in_ext
    then (if ltb 3 longer_ext then false else after_ext)
    else (if ltb 8 longer_base then false else after_base)

unfoldable pub component_valid_83 : List ℕ → Bool
component_valid_83 [] = false
component_valid_83 (c ∷ cs) = component_scan 0 0 false (c ∷ cs)

-- The loop of `rp_fs_path_valid_83` over the characters left, with the component read so far.
unfoldable pub components_valid : List ℕ → List ℕ → Bool
components_valid component [] = component_valid_83 component
components_valid component (c ∷ p) =
    let next = components_valid [] p in
    let longer = components_valid (component ++ c ∷ []) p in
    if c == b'/'
    then (if not (component_valid_83 component)
        then false
        else if length p == 0
        then false
        else next)
    else longer

-- `rp_fs_path_valid_83` behind the drive prefix.
unfoldable pub logical_valid : List ℕ → Bool
logical_valid [] = true
logical_valid (c ∷ []) = if c == b'/' then true else components_valid [] (c ∷ [])
logical_valid (c ∷ d ∷ p) =
    if c == b'/' then components_valid [] (d ∷ p) else components_valid [] (c ∷ d ∷ p)

-- The string from its fourth character on, `path + 3`.
abbrev pub skip_prefix : List ℕ → List ℕ
skip_prefix (a ∷ b ∷ c ∷ rest) = rest
skip_prefix _ = []

unfoldable pub path_valid_83 : List ℕ → Bool
path_valid_83 path = elim (has_drive_prefix path) [
  | none ↦ logical_valid path
  | some device ↦ if not (device_valid device) then false else logical_valid (skip_prefix path)
]

-- What stands before the last `/`, as `strrchr` finds it.
unfoldable pub before_last_slash : List ℕ → Option (List ℕ)
before_last_slash [] = none
before_last_slash (c ∷ cs) = elim (before_last_slash cs) [
  | none ↦ if c == b'/' then some [] else none
  | some before ↦ some (c ∷ before)
]

unfoldable pub pop_component : List ℕ → List ℕ
pop_component path = elim (before_last_slash path) [ none ↦ [] | some before ↦ before ]

-- `rp_fs_path_append_component`; `none` is its `false`.
unfoldable pub append_component : List ℕ → ℕ → List ℕ → Option (List ℕ)
append_component path path_len component =
    let current_len = length path in
    let separator_len = if current_len == 0 then 0 else 1 in
    if path_len == 0 || length component == 0
    then none
    else if leb path_len (current_len + separator_len + length component)
    then none
    else if separator_len == 0
    then some (path ++ component)
    else some (path ++ (b'/' ∷ component))
