-- ===== src/Memory/Checked.antt =====
-- validateConfig of NEO6502_MMU_V3/memory_config.cpp: what an accepted configuration provides.
use neo6502_mmu_v.Base.{
  some_inj, ℕ, zero, suc, ◌+◌, ◌≤◌, ◌<◌, Bool, true, false, not, ◌||◌, Option, none, some, List, [],
  ◌∷◌, ◌≡◌, inl, inr, refl, sym, subst, arith, find?, length, ltb, leb, ◌==◌, if◌then◌else◌,
  Bool-cases, Option-cases,
}
use neo6502_mmu_v.Memory.Config.{
  max_memory_contexts, num_context_pages, IniError, MemoryModel, LayoutRegion, MemoryLayout,
  ContextBinding, MemoryConfig, find_model, find_layout, find_context_binding,
}
use neo6502_mmu_v.Memory.Validate.{
  is_valid_region_range, layout_has_overlaps, layout_is_complete, or_else, check_models,
  check_ranges, check_regions, check_layout, check_layouts, check_contexts, check_active,
  validate_config,
}
use neo6502_mmu_v.Memory.Allocate.{resolve_layout_for_context}
use neo6502_mmu_v.Memory.Coverage.{
  AllInRange, is_valid_region_range_iff, holders, holders-bounded, holders-positive,
}

-- The regions lie in the context, and each of its slots belongs to exactly one of them.
pub record IsTiled (regions : List LayoutRegion) : Type 0 where
  pub ranges : AllInRange regions
  pub tiled : (slot : ℕ) → slot < num_context_pages → holders regions slot ≡ 1

-- What the rest of the firmware relies on.
pub record IsValidated (config : MemoryConfig) : Type 0 where
  pub active : MemoryModel
  pub found : find_model config config.active_model ≡ some active
  pub some_context : 0 < active.contexts
  pub contexts_fit : active.contexts ≤ max_memory_contexts
  pub boot : config.boot_context < active.contexts
  pub layouts :
      (c : ℕ)
      → c < active.contexts
      → (l : MemoryLayout) × (resolve_layout_for_context config active c ≡ some l)
        × IsTiled l.regions

or_else-none : (a b : Option IniError) → or_else a b ≡ none → (a ≡ none) × (b ≡ none)
or_else-none none b e = (refl, e)
or_else-none (some x) b e = ground (arith, e)

-- A test that refuses or goes on, and went on.
passed :
    (b : Bool) (x : IniError) (next : Option IniError)
    → (if b then some x else next) ≡ none
    → (b ≡ false) × (next ≡ none)
passed true x next e = ground (arith, e)
passed false x next e = (refl, e)

not-false : (b : Bool) → not b ≡ false → b ≡ true
not-false true e = refl
not-false false e = sym e

check_ranges-AllInRange :
    (name : List ℕ) (rs : List LayoutRegion) → check_ranges name rs ≡ none → AllInRange rs
unfolding check_ranges
check_ranges-AllInRange name [] e = AllInRange.empty
check_ranges-AllInRange name (r ∷ rs) e =
    let (valid, rest) = passed (not (is_valid_region_range r)) _ (check_ranges name rs) e in
    AllInRange.more ((is_valid_region_range_iff r).0 (not-false (is_valid_region_range r) valid))
      (check_ranges-AllInRange name rs rest)

check_regions-IsTiled : (l : MemoryLayout) → check_regions l ≡ none → IsTiled l.regions
unfolding check_regions
check_regions-IsTiled l e =
    let (_, e1) = passed (length l.regions == 0) _ _ e in
    let (ranges, e2) = or_else-none (check_ranges l.name l.regions) _ e1 in
    let (apart, e3) = passed (layout_has_overlaps l.regions) _ _ e2 in
    let (complete, _) = passed (not (layout_is_complete l.regions)) _ _ e3 in
    let in_range = check_ranges-AllInRange l.name l.regions ranges in
    record {
      ranges = in_range;
      tiled = λ slot h. ground (
        arith,
        holders-bounded l.regions slot in_range apart,
        holders-positive l.regions slot h (not-false (layout_is_complete l.regions) complete),
      );
    }

check_layout-IsTiled :
    (config : MemoryConfig) (l : MemoryLayout) → check_layout config l ≡ none → IsTiled l.regions
unfolding check_layout
check_layout-IsTiled config l e = elim (Option-cases (find_model config l.model)) [
  | inl n ↦ ground (arith, e, n)
  | inr (m, f) ↦ check_regions-IsTiled l (ground (arith, e, f))
]

check_models-find? :
    (p : MemoryModel → Bool) (ms : List MemoryModel) {m : MemoryModel}
    → check_models ms ≡ none
    → find? p ms ≡ some m
    → (0 < m.contexts) × (m.contexts ≤ max_memory_contexts)
unfolding check_models find?
check_models-find? p [] e f = ground (arith, f)
check_models-find? p (x ∷ ms) {m} e f =
    let (bad, rest) =
      passed (x.contexts == 0 || ltb max_memory_contexts x.contexts) _ (check_models ms) e in
    elim (Bool-cases (p x)) [
      | inl here ↦
          subst (λ y. (0 < y.contexts) × (y.contexts ≤ max_memory_contexts))
            (some_inj (subst (λ b. (if b then some x else find? p ms) ≡ some m) here f))
            (ground (arith, bad))
      | inr skip ↦
          check_models-find? p ms rest
            (subst (λ b. (if b then some x else find? p ms) ≡ some m) skip f)
    ]

check_layouts-find? :
    (config : MemoryConfig) (p : MemoryLayout → Bool) (ls : List MemoryLayout) {l : MemoryLayout}
    → check_layouts config ls ≡ none
    → find? p ls ≡ some l
    → IsTiled l.regions
unfolding check_layouts find?
check_layouts-find? config p [] e f = ground (arith, f)
check_layouts-find? config p (x ∷ ls) {l} e f =
    let (this, rest) = or_else-none (check_layout config x) (check_layouts config ls) e in
    elim (Bool-cases (p x)) [
      | inl here ↦
          subst (λ y. IsTiled y.regions)
            (some_inj (subst (λ b. (if b then some x else find? p ls) ≡ some l) here f))
            (check_layout-IsTiled config x this)
      | inr skip ↦
          check_layouts-find? config p ls rest
            (subst (λ b. (if b then some x else find? p ls) ≡ some l) skip f)
    ]

resolved :
    (config : MemoryConfig) (active : MemoryModel) (b : ContextBinding) (l : MemoryLayout) (i c : ℕ)
    → (i == c) ≡ true
    → find_context_binding config active.name i ≡ some b
    → find_layout config active.name b.layout ≡ some l
    → resolve_layout_for_context config active c ≡ some l
unfolding resolve_layout_for_context
resolved config active b l i c here fb fl =
    let same : i ≡ c = ground (arith, here) in
    subst (λ x. resolve_layout_for_context config active x ≡ some l) same
      (rw (fb, fl, resolve_layout_for_context) refl)

-- A context that was checked has its layout, which is one of the configuration's.
check_contexts-resolve :
    (config : MemoryConfig) (active : MemoryModel) (i left c : ℕ)
    → check_layouts config config.layouts ≡ none
    → check_contexts config active.name i left ≡ none
    → i ≤ c
    → c < i + left
    → (l : MemoryLayout) × (resolve_layout_for_context config active c ≡ some l) × IsTiled l.regions
unfolding check_contexts resolve_layout_for_context find_layout
check_contexts-resolve config active i zero c checked e low high = ground (arith, low, high)
check_contexts-resolve config active i (suc left) c checked e low high =
    elim (Option-cases (find_context_binding config active.name i)) [
      | inl n ↦ ground (arith, e, n)
      | inr (b, fb) ↦ elim (Option-cases (find_layout config active.name b.layout)) [
        | inl n ↦ ground (arith, e, fb, n)
        | inr (l, fl) ↦ elim (Bool-cases (i == c)) [
          | inl here ↦ (
            l,
            resolved config active b l i c here fb fl,
            check_layouts-find? config _ config.layouts checked fl,
          )
          | inr later ↦
              check_contexts-resolve config active (i + 1) left c checked
                (ground (arith, e, fb, fl)) (ground (arith, low, later)) (ground (arith, high))
        ]
      ]
    ]

check_active-IsValidated :
    (config : MemoryConfig) (active : MemoryModel)
    → find_model config config.active_model ≡ some active
    → check_active config active ≡ none
    → IsValidated config
unfolding check_active find_model
check_active-IsValidated config active f e =
    let (boot, e1) = passed (leb active.contexts config.boot_context) _ _ e in
    let (models, e2) = or_else-none (check_models config.models) _ e1 in
    let (layouts, contexts) = or_else-none (check_layouts config config.layouts) _ e2 in
    let (low, high) = check_models-find? _ config.models models f in
    record {
      active = active;
      found = f;
      some_context = low;
      contexts_fit = high;
      boot = ground (arith, boot);
      layouts = λ c h.
          check_contexts-resolve config active 0 active.contexts c layouts contexts (omega arith)
            (omega (arith, h));
    }

-- A configuration that `validateConfig` accepts has its active model, with 1 to 16 contexts and the
-- boot context among them, and each of these contexts has a layout of which every slot belongs to
-- exactly one region.
pub validate_config-IsValidated :
    (config : MemoryConfig) → validate_config config ≡ none → IsValidated config
unfolding validate_config
validate_config-IsValidated config e =
    let (_, e1) = passed (config.version == 0) _ _ e in
    let (_, e2) = passed (length config.active_model == 0) _ _ e1 in
    elim (Option-cases (find_model config config.active_model)) [
      | inl n ↦ ground (arith, e2, n)
      | inr (m, f) ↦ check_active-IsValidated config m f (ground (arith, e2, f))
    ]
