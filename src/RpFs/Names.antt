-- ===== src/RpFs/Names.antt =====
-- The names that NEO6502_MMU_V3/rp_fs.cpp accepts, and the FatFs paths that it makes of them.
use neo6502_mmu_v.Base.{
  ℕ, ◌+◌, ◌%◌, ◌^◌, Bool, true, false, not, ◌&&◌, ◌||◌, Option, none, some, List, [], ◌∷◌, ◌++◌,
  length, ltb, leb, ◌==◌, if◌then◌else◌,
}
use neo6502_mmu_v.FsPath.Text.{max_devices, skip_prefix, has_drive_prefix}

-- `rp_fs_valid_device`
abbrev pub valid_device : ℕ → Bool
valid_device device = ltb device max_devices

-- The first refusals in the loops of `rp_fs_is_valid_83_name` and `rp_fs_is_valid_83_component`.
abbrev pub outside_name : ℕ → Bool
outside_name c = c == b'/' || c == b'\\' || c == b':' || ltb c 33 || leb 127 c

abbrev pub outside_component : ℕ → Bool
outside_component c = c == b'\\' || c == b':' || ltb c 33 || leb 127 c

-- What these loops have in common, from one character on.
unfoldable pub scan_83 : (ℕ → Bool) → ℕ → ℕ → Bool → List ℕ → Bool
scan_83 outside base_len ext_len in_ext [] =
    not (base_len == 0) && (not in_ext || not (ext_len == 0))
scan_83 outside base_len ext_len in_ext (c ∷ cs) =
    let at_dot = scan_83 outside base_len ext_len true cs in
    let longer_ext = (ext_len + 1) % 2 ^ 8 in
    let longer_base = (base_len + 1) % 2 ^ 8 in
    let after_ext = scan_83 outside base_len longer_ext true cs in
    let after_base = scan_83 outside longer_base ext_len false cs in
    if outside c
    then false
    else if leb b'a' c && leb c b'z'
    then false
    else if c == b'.'
    then (if in_ext || base_len == 0 then false else at_dot)
    else if not (leb b'A' c && leb c b'Z')
        && not (leb b'0' c && leb c b'9')
        && not (c == b'_')
        && not (c == b'-')
        && not (c == b'$')
        && not (c == b'~')
    then false
    else if in_ext
    then (if ltb 3 longer_ext then false else after_ext)
    else (if ltb 8 longer_base then false else after_base)

-- The path without its drive.
abbrev pub without_drive : List ℕ → List ℕ
without_drive path = elim (has_drive_prefix path) [ none ↦ path | some d ↦ skip_prefix path ]

-- `rp_fs_is_valid_83_name`
unfoldable pub is_valid_83_name : List ℕ → Bool
is_valid_83_name filename =
    if length filename == 0 then false else scan_83 outside_name 0 0 false (without_drive filename)

-- `rp_fs_is_valid_83_component`
unfoldable pub is_valid_83_component : List ℕ → Bool
is_valid_83_component [] = false
is_valid_83_component (c ∷ cs) = scan_83 outside_component 0 0 false (c ∷ cs)

-- The loop of `rp_fs_is_valid_83_path` over the characters left, with the component read so far.
unfoldable pub scan_components : List ℕ → List ℕ → Bool
scan_components component [] = is_valid_83_component component
scan_components component (c ∷ p) =
    let next = scan_components [] p in
    let longer = scan_components (component ++ c ∷ []) p in
    if c == b'/'
    then (if not (is_valid_83_component component)
        then false
        else if length p == 0
        then false
        else next)
    else longer

-- `rp_fs_is_valid_83_path` behind the drive.
unfoldable pub is_valid_logical : List ℕ → Bool
is_valid_logical [] = true
is_valid_logical (c ∷ []) = if c == b'/' then true else scan_components [] (c ∷ [])
is_valid_logical (c ∷ d ∷ p) =
    if c == b'/' then scan_components [] (d ∷ p) else scan_components [] (c ∷ d ∷ p)

unfoldable pub is_valid_83_path : List ℕ → Bool
is_valid_83_path path = is_valid_logical (without_drive path)

-- `logical++` behind a leading slash.
abbrev pub past_slash : List ℕ → List ℕ
past_slash [] = []
past_slash (c ∷ cs) = if c == b'/' then cs else c ∷ cs

-- No more than a root.
abbrev pub is_root : List ℕ → Bool
is_root [] = true
is_root (c ∷ []) = c == b'/'
is_root _ = false

abbrev pub on_drive : ℕ → List ℕ → List ℕ
on_drive device name = (b'0' + device) ∷ b':' ∷ b'/' ∷ name

-- `rp_fs_make_path`: the FatFs path of a file, for a buffer of `out_len` bytes; `none` is its `false`.
unfoldable pub make_path : ℕ → List ℕ → ℕ → Option (List ℕ)
make_path device filename out_len =
    if length filename == 0 || out_len == 0
    then none
    else if not (valid_device device) || ltb 9 device || ltb out_len 4
    then none
    else if not (is_valid_83_path filename)
    then none
    else elim (has_drive_prefix filename) [
      | some drive ↦
          if not (drive == device)
          then none
          else if is_root (skip_prefix filename)
          then none
          else if leb out_len (length filename)
          then none
          else some filename
      | none ↦
          let logical = past_slash filename in
          if is_root filename
          then none
          else if length logical == 0 || leb out_len (3 + length logical)
          then none
          else some (on_drive device logical)
    ]

-- `rp_fs_make_dir_path`: the same for a directory, which may be the root.
unfoldable pub make_dir_path : ℕ → List ℕ → ℕ → Option (List ℕ)
make_dir_path device dirname out_len =
    if out_len == 0
    then none
    else if not (valid_device device) || ltb 9 device || ltb out_len 4
    then none
    else if not (is_valid_83_path dirname)
    then none
    else elim (has_drive_prefix dirname) [
      | some drive ↦
          if not (drive == device)
          then none
          else if leb out_len (length dirname)
          then none
          else some dirname
      | none ↦
          let source = past_slash dirname in
          if is_root dirname
          then some (on_drive device [])
          else if leb out_len (3 + length source)
          then none
          else some (on_drive device source)
    ]

-- `rp_fs_is_root_dir_path`
unfoldable pub is_root_dir_path : List ℕ → Bool
is_root_dir_path path = elim (has_drive_prefix path) [
  | none ↦ false
  | some drive ↦ length (skip_prefix path) == 0
]
