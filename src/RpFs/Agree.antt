-- ===== src/RpFs/Agree.antt =====
-- The two checkers of 8.3 paths, in NEO6502_MMU_V3/rp_fs.cpp and rp_fs_path.cpp, and the paths that
-- pass from the one file to the other.
use neo6502_mmu_v.Base.{
  ℕ, ◌+◌, ◌%◌, ◌^◌, ◌≡◌, refl, sym, ap, ◌∙◌, inl, inr, Bool, true, false, ◌&&◌, none, some, List,
  [], ◌∷◌, ◌++◌, ◌==◌, Bool-cases, Option-cases,
}
use neo6502_mmu_v.FsPath.Text.{
  has_drive_prefix, device_valid, component_scan, component_valid_83, components_valid,
  logical_valid, path_valid_83, skip_prefix,
}
use neo6502_mmu_v.FsPath.Component.{All}
use neo6502_mmu_v.RpFs.Names.{
  outside_name, outside_component, scan_83, without_drive, is_valid_83_component, scan_components,
  is_valid_logical, is_valid_83_path,
}

-- Not a separator.
abbrev IsInner : ℕ → Type 0
IsInner c = (c == b'/') ≡ false

scan_83-component_scan :
    (base_len ext_len : ℕ) (in_ext : Bool) (cs : List ℕ)
    → scan_83 outside_name base_len ext_len in_ext cs ≡ component_scan base_len ext_len in_ext cs
unfolding scan_83 component_scan
scan_83-component_scan base_len ext_len in_ext [] = refl
scan_83-component_scan base_len ext_len in_ext (c ∷ cs) =
    rw
      (
        scan_83-component_scan base_len ext_len true cs,
        scan_83-component_scan base_len ((ext_len + 1) % 2 ^ 8) true cs,
        scan_83-component_scan ((base_len + 1) % 2 ^ 8) ext_len false cs,
      )
      refl

scan_component :
    (base_len ext_len : ℕ) (in_ext : Bool) (cs : List ℕ)
    → All IsInner cs
    → scan_83 outside_component base_len ext_len in_ext cs
      ≡ component_scan base_len ext_len in_ext cs
unfolding scan_83 component_scan
scan_component base_len ext_len in_ext [] h = refl
scan_component base_len ext_len in_ext (c ∷ cs) (h, hs) =
    rw
      (
        h,
        scan_component base_len ext_len true cs hs,
        scan_component base_len ((ext_len + 1) % 2 ^ 8) true cs hs,
        scan_component ((base_len + 1) % 2 ^ 8) ext_len false cs hs,
      )
      refl

component_agrees : (cs : List ℕ) → All IsInner cs → is_valid_83_component cs ≡ component_valid_83 cs
unfolding is_valid_83_component component_valid_83
component_agrees [] h = refl
component_agrees (c ∷ cs) h = scan_component 0 0 false (c ∷ cs) h

All-concat : (cs : List ℕ) (c : ℕ) → All IsInner cs → IsInner c → All IsInner (cs ++ c ∷ [])
All-concat [] c h p = (p, tt)
All-concat (x ∷ cs) c (h, hs) p = (h, All-concat cs c hs p)

components_agree :
    (component p : List ℕ)
    → All IsInner component
    → scan_components component p ≡ components_valid component p
unfolding scan_components components_valid
components_agree component [] h = component_agrees component h
components_agree component (c ∷ p) h = elim (Bool-cases (c == b'/')) [
  | inl e ↦ rw (e, component_agrees component h, components_agree [] p tt) refl
  | inr e ↦ rw (e, components_agree (component ++ c ∷ []) p (All-concat component c h e)) refl
]

logical_agrees : (p : List ℕ) → is_valid_logical p ≡ logical_valid p
unfolding is_valid_logical logical_valid
logical_agrees [] = refl
logical_agrees (c ∷ []) = rw (components_agree [] (c ∷ []) tt) refl
logical_agrees (c ∷ d ∷ p) =
    rw (components_agree [] (c ∷ d ∷ p) tt, components_agree [] (d ∷ p) tt) refl

module _ (path : List ℕ) where
  plain_valid : has_drive_prefix path ≡ none → path_valid_83 path ≡ logical_valid path
  unfolding path_valid_83
  plain_valid n = rw (n, path_valid_83) refl

  elim_drive : has_drive_prefix path ≡ none → without_drive path ≡ path
  elim_drive n = rw (n, without_drive) refl

  elim_prefix : {d : ℕ} → has_drive_prefix path ≡ some d → without_drive path ≡ skip_prefix path
  elim_prefix e = rw (e, without_drive) refl

  plain_is_valid : has_drive_prefix path ≡ none → is_valid_83_path path ≡ is_valid_logical path
  unfolding is_valid_83_path
  plain_is_valid n = ap is_valid_logical (elim_drive n)

  drive_valid :
      {d : ℕ}
      → has_drive_prefix path ≡ some d
      → path_valid_83 path ≡ (device_valid d && logical_valid (skip_prefix path))
  unfolding path_valid_83
  drive_valid {d} e = elim (Bool-cases (device_valid d)) [
    | inl good ↦ rw (e, good, path_valid_83) refl
    | inr bad ↦ rw (e, bad, path_valid_83) refl
  ]

  drive_is_valid :
      {d : ℕ}
      → has_drive_prefix path ≡ some d
      → is_valid_83_path path ≡ is_valid_logical (skip_prefix path)
  unfolding is_valid_83_path
  drive_is_valid e = ap is_valid_logical (elim_prefix e)

-- The checkers of rp_fs.cpp and rp_fs_path.cpp accept the same paths, but that only the second refuses
-- a drive that there cannot be.
pub path_checkers_agree :
    (path : List ℕ)
    → path_valid_83 path ≡ (
        elim (has_drive_prefix path) [ none ↦ true | some d ↦ device_valid d ]
        && is_valid_83_path path)
path_checkers_agree path = elim (Option-cases (has_drive_prefix path)) [
  | inl n ↦ rw n (plain_valid path n ∙ sym (logical_agrees path) ∙ sym (plain_is_valid path n))
  | inr (d, e) ↦ rw e (
      drive_valid path e
      ∙ ap (device_valid d &&◌)
          (sym (logical_agrees (skip_prefix path)) ∙ sym (drive_is_valid path e)))
]
