-- ===== src/Memory/Validate.antt =====
-- NEO6502_MMU_V3/memory_config.cpp: `validateConfig` and its checks of a layout.
use neo6502_mmu_v.Base.{
  ℕ, zero, suc, ◌+◌, ◌-◌, ◌%◌, ◌^◌, Bool, true, false, not, ◌&&◌, ◌||◌, Option, none, some, List,
  [], ◌∷◌, any, all, set, replicate, length, ltb, leb, ◌==◌, if◌then◌else◌,
}
use neo6502_mmu_v.Base.Strings.{codes}
use neo6502_mmu_v.Memory.Config.{
  max_memory_contexts, num_context_pages, ErrorCode, IniError, MemoryModel, LayoutRegion,
  MemoryLayout, MemoryConfig, fail_memory_ini, find_model, find_layout, find_context_binding,
}

-- `isValidRegionRange`
unfoldable pub is_valid_region_range : LayoutRegion → Bool
is_valid_region_range reg =
    if reg.pages == 0
    then false
    else if leb num_context_pages reg.start
    then false
    else if ltb num_context_pages (reg.start + reg.pages)
    then false
    else true

-- The test of two regions in `layoutHasOverlaps`; the ends are `uint8_t`.
unfoldable pub regions_overlap : LayoutRegion → LayoutRegion → Bool
regions_overlap a b =
    let a1 = (a.start + a.pages) % 2 ^ 8 in
    let b1 = (b.start + b.pages) % 2 ^ 8 in ltb a.start b1 && ltb b.start a1

-- `layoutHasOverlaps`: each region against those behind it.
unfoldable pub layout_has_overlaps : List LayoutRegion → Bool
layout_has_overlaps [] = false
layout_has_overlaps (r ∷ rs) = any (regions_overlap r) rs || layout_has_overlaps rs

-- `covered[start + p] = 1` for each page of a region, from page `p` on with `left` to go.
unfoldable pub cover_pages : List Bool → ℕ → ℕ → ℕ → List Bool
cover_pages covered start p zero = covered
cover_pages covered start p (suc left) =
    cover_pages (set covered (start + p) true) start (p + 1) left

unfoldable pub cover : List Bool → List LayoutRegion → List Bool
cover covered [] = covered
cover covered (r ∷ rs) = cover (cover_pages covered r.start 0 r.pages) rs

-- `layoutIsComplete`. The source calls it only for layouts whose regions are in range, so that no
-- write leaves `covered`.
unfoldable pub layout_is_complete : List LayoutRegion → Bool
layout_is_complete regions = all (λ b. b) (cover (replicate num_context_pages false) regions)

-- An early `return failMemoryIni(...)`, or what comes after.
abbrev pub or_else : Option IniError → Option IniError → Option IniError
or_else (some e) next = some e
or_else none next = next

abbrev pub refuse : ErrorCode → List ℕ → List ℕ → List ℕ → Option IniError
refuse code section key value = some (fail_memory_ini code 0 section key value)

unfoldable pub check_models : List MemoryModel → Option IniError
check_models [] = none
check_models (m ∷ ms) =
    if m.contexts == 0 || ltb max_memory_contexts m.contexts
    then refuse ErrorCode.invalid_value m.name (codes "contexts") []
    else check_models ms

unfoldable pub check_ranges : List ℕ → List LayoutRegion → Option IniError
check_ranges layout_name [] = none
check_ranges layout_name (r ∷ rs) =
    if not (is_valid_region_range r)
    then refuse ErrorCode.invalid_range layout_name r.name []
    else check_ranges layout_name rs

-- The checks of one layout's regions, and those of the layout.
unfoldable pub check_regions : MemoryLayout → Option IniError
check_regions layout =
    if length layout.regions == 0
    then refuse ErrorCode.layout_incomplete layout.name [] []
    else or_else (check_ranges layout.name layout.regions) (
        if layout_has_overlaps layout.regions
        then refuse ErrorCode.overlapping_regions layout.name [] []
        else if not (layout_is_complete layout.regions)
        then refuse ErrorCode.layout_incomplete layout.name [] []
        else none)

unfoldable pub check_layout : MemoryConfig → MemoryLayout → Option IniError
check_layout config layout = elim (find_model config layout.model) [
  | none ↦ refuse ErrorCode.model_not_found layout.name (codes "model") layout.model
  | some model ↦ check_regions layout
]

unfoldable pub check_layouts : MemoryConfig → List MemoryLayout → Option IniError
check_layouts config [] = none
check_layouts config (l ∷ ls) = or_else (check_layout config l) (check_layouts config ls)

-- `snprintf(num, sizeof(num), "%u", i)` for a number below 100.
abbrev pub two_digits : ℕ → List ℕ
two_digits n = if ltb n 10 then (b'0' + n) ∷ [] else (b'1' ∷ (b'0' + (n - 10)) ∷ [])

-- The last loop, at context `i` with `left` to go.
unfoldable pub check_contexts : MemoryConfig → List ℕ → ℕ → ℕ → Option IniError
check_contexts config model i zero = none
check_contexts config model i (suc left) =
    let rest = check_contexts config model (i + 1) left in
    elim (find_context_binding config model i) [
      | none ↦ refuse ErrorCode.invalid_context (codes "context") (codes "missing") (two_digits i)
      | some ctx ↦ elim (find_layout config model ctx.layout) [
        | none ↦ refuse ErrorCode.layout_not_found (codes "context") (codes "layout") ctx.layout
        | some layout ↦ rest
      ]
    ]

-- `validateConfig`: the first error, or `none` for its `true`. Behind the search for the active
-- model come the checks that use it.
unfoldable pub check_active : MemoryConfig → MemoryModel → Option IniError
check_active config active =
    if leb active.contexts config.boot_context
    then refuse ErrorCode.invalid_context (codes "system") (codes "boot_context") []
    else or_else (check_models config.models) (
        or_else (check_layouts config config.layouts)
          (check_contexts config active.name 0 active.contexts))

unfoldable pub validate_config : MemoryConfig → Option IniError
validate_config config =
    if config.version == 0
    then refuse ErrorCode.invalid_value (codes "system") (codes "config_version") []
    else if length config.active_model == 0
    then refuse ErrorCode.invalid_value (codes "system") (codes "active_model") []
    else elim (find_model config config.active_model) [
      | none ↦
          refuse ErrorCode.model_not_found (codes "system") (codes "active_model")
            config.active_model
      | some active ↦ check_active config active
    ]
