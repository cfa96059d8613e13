-- ===== src/Memory/Allocate.antt =====
-- NEO6502_MMU_V3/memory_config.cpp: `configureMMUFromActiveModel` gives physical pages to the contexts of the
-- active model and writes the page tables.
use neo6502_mmu_v.Base.{
  ℕ, zero, suc, ◌+◌, ◌%◌, ◌^◌, Bool, true, false, ◌&&◌, ◌||◌, Option, none, some, List, [], ◌∷◌,
  ◌++◌, bit_or, find?, length, ltb, leb, ◌==◌, if◌then◌else◌,
}
use neo6502_mmu_v.Base.Strings.{str_eq}
use neo6502_mmu_v.Memory.Config.{
  max_memory_name, max_memory_contexts, num_context_pages, num_total_pages, RegionType, normal, io,
  MemoryModel, LayoutRegion, MemoryLayout, MemoryConfig, copy_trunc, find_model, find_layout,
  find_context_binding,
}

-- `SharedPage`
pub record SharedPage : Type 0 where
  pub model : List ℕ
  pub region : List ℕ
  pub offset : ℕ
  pub phys : ℕ

-- `nextPhysical`, `shared_pages` with `shared_page_count` entries, and `phys_map`.
pub record Allocation : Type 0 where
  pub next_physical : ℕ
  pub shared_pages : List SharedPage
  pub phys_map : ℕ → ℕ → ℕ

-- How the function may end: with a value, with `return false`, or by a write outside `phys_map`,
-- which C++ leaves undefined.
pub data Outcome {ℓ} (A : Type ℓ) : Type ℓ where
  ok : A → Outcome A
  failed out_of_bounds : Outcome A

infixl 5 ◌>>=◌
abbrev pub ◌>>=◌ {ℓ κ} : {A : Type ℓ} {B : Type κ} → Outcome A → (A → Outcome B) → Outcome B
ok a >>= f = f a
failed >>= f = failed
out_of_bounds >>= f = out_of_bounds

-- `resolveLayoutForContext`
unfoldable pub resolve_layout_for_context : MemoryConfig → MemoryModel → ℕ → Option MemoryLayout
resolve_layout_for_context config model ctx = elim (find_context_binding config model.name ctx) [
  | none ↦ none
  | some binding ↦ find_layout config model.name binding.layout
]

-- The search of `getSharedPhysical`.
unfoldable pub find_shared : List SharedPage → List ℕ → List ℕ → ℕ → Option SharedPage
find_shared pages model region offset =
    find? (λ s. str_eq s.model model && str_eq s.region region && s.offset == offset) pages

-- `getSharedPhysical`: 255 where no page is left.
unfoldable pub get_shared_physical : List ℕ → List ℕ → ℕ → Allocation → ℕ × Allocation
get_shared_physical model region offset a = elim (find_shared a.shared_pages model region offset) [
  | some s ↦ (s.phys, a)
  | none ↦
      if leb num_total_pages a.next_physical || leb num_total_pages (length a.shared_pages)
      then (255, a)
      else (
        a.next_physical,
        record a {
          next_physical = (a.next_physical + 1) % 2 ^ 8;
          shared_pages =
              a.shared_pages
              ++ (record {
                model = copy_trunc (max_memory_name + 1) model;
                region = copy_trunc (max_memory_name + 1) region;
                offset = offset;
                phys = a.next_physical;
              }
                  ∷ []);
        },
      )
]

-- The physical page for page `p` of a region.
unfoldable pub take_page : MemoryModel → LayoutRegion → ℕ → Allocation → Outcome (ℕ × Allocation)
take_page model region p a =
    if region.shared
    then (let (phys, a') = get_shared_physical model.name region.name p a in
        if phys == 255 then failed else ok (phys, a'))
    else (if leb num_total_pages a.next_physical
        then failed
        else ok (a.next_physical, record a { next_physical = (a.next_physical + 1) % 2 ^ 8 }))

abbrev pub update_map : (ℕ → ℕ → ℕ) → ℕ → ℕ → ℕ → ℕ → ℕ → ℕ
update_map m ctx slot phys c s = if c == ctx && s == slot then phys else m c s

-- `phys_map[ctx][logical] = phys`
unfoldable pub store_page : ℕ → ℕ → ℕ → Allocation → Outcome Allocation
store_page ctx logical phys a =
    if leb max_memory_contexts ctx || leb num_context_pages logical
    then out_of_bounds
    else ok (record a { phys_map = update_map a.phys_map ctx logical phys })

-- The loop over the pages of a region, at page `p` with `left` to go.
unfoldable pub place_pages :
    MemoryModel → ℕ → LayoutRegion → ℕ → ℕ → Allocation → Outcome Allocation
place_pages model ctx region p zero a = ok a
place_pages model ctx region p (suc left) a = do
  (phys, b) ← take_page model region p a
  c ← store_page ctx ((region.start + p) % 2 ^ 8) phys b
  place_pages model ctx region (p + 1) left c

unfoldable pub place_regions : MemoryModel → ℕ → List LayoutRegion → Allocation → Outcome Allocation
place_regions model ctx [] a = ok a
place_regions model ctx (r ∷ rs) a = do
  b ← place_pages model ctx r 0 r.pages a
  place_regions model ctx rs b

-- The loop over the contexts, at `ctx` with `left` to go.
unfoldable pub place_contexts : MemoryConfig → MemoryModel → ℕ → ℕ → Allocation → Outcome Allocation
place_contexts config model ctx zero a = ok a
place_contexts config model ctx (suc left) a = elim (resolve_layout_for_context config model ctx) [
  | none ↦ failed
  | some layout ↦ do
    b ← place_regions model ctx layout.regions a
    place_contexts config model (ctx + 1) left b
]

abbrev pub is_io : RegionType → Bool
is_io io = true
is_io normal = false

-- The region of a slot, as the second part of the function looks for it.
unfoldable pub region_of_slot : List LayoutRegion → ℕ → Option LayoutRegion
region_of_slot regions slot = find? (λ r. leb r.start slot && ltb slot (r.start + r.pages)) regions

-- A call of `writeMMUPage(ctx, slot, phys)`. Without `USE_VALIDATION`, which config.h sets to 0, it
-- always returns true.
pub record PageWrite : Type 0 where
  pub ctx : ℕ
  pub slot : ℕ
  pub page : ℕ

-- The page written for a slot: bit 7 is set for I/O regions and trapped writes.
unfoldable pub page_of_slot : (ℕ → ℕ → ℕ) → List LayoutRegion → ℕ → ℕ → Option ℕ
page_of_slot phys_map regions ctx slot = elim (region_of_slot regions slot) [
  | none ↦ none
  | some r ↦
      some (
        if is_io r.type || r.trap_write then bit_or (phys_map ctx slot) 0x80 else phys_map ctx slot)
]

-- The loop over the slots of a context, at `slot` with `left` to go: the writes made, and whether
-- the loop reached its end.
unfoldable pub write_slots : (ℕ → ℕ → ℕ) → List LayoutRegion → ℕ → ℕ → ℕ → List PageWrite × Bool
write_slots phys_map regions ctx slot zero = ([], true)
write_slots phys_map regions ctx slot (suc left) =
    let (later, done) = write_slots phys_map regions ctx (slot + 1) left in
    elim (page_of_slot phys_map regions ctx slot) [
      | none ↦ ([], false)
      | some page ↦ (record { ctx = ctx; slot = slot; page = page } ∷ later, done)
    ]

unfoldable pub write_contexts :
    MemoryConfig → MemoryModel → (ℕ → ℕ → ℕ) → ℕ → ℕ → List PageWrite × Bool
write_contexts config model phys_map ctx zero = ([], true)
write_contexts config model phys_map ctx (suc left) =
    let (later, done) = write_contexts config model phys_map (ctx + 1) left in
    elim (resolve_layout_for_context config model ctx) [
      | none ↦ ([], false)
      | some layout ↦
          let (here, whole) = write_slots phys_map layout.regions ctx 0 num_context_pages in
          if whole then (here ++ later, done) else (here, false)
    ]

abbrev pub empty_allocation : Allocation
empty_allocation = record { next_physical = 0; shared_pages = []; phys_map = λ c s. 0 }

-- `configureMMUFromActiveModel`: the allocation of its first part.
unfoldable pub allocate : MemoryConfig → Outcome (MemoryModel × Allocation)
allocate config = elim (find_model config config.active_model) [
  | none ↦ failed
  | some model ↦
      if model.contexts == 0 || ltb max_memory_contexts model.contexts
      then failed
      else do a ← place_contexts config model 0 model.contexts empty_allocation; ok (model, a)
]

-- The second part, for what the first one ended with.
unfoldable pub write_tables :
    MemoryConfig → Outcome (MemoryModel × Allocation) → Outcome (List PageWrite × Bool)
write_tables config failed = ok ([], false)
write_tables config out_of_bounds = out_of_bounds
write_tables config (ok (model, a)) = ok (write_contexts config model a.phys_map 0 model.contexts)

-- The whole function: the page writes that it makes and what it returns.
unfoldable pub configure_mmu : MemoryConfig → Outcome (List PageWrite × Bool)
configure_mmu config = write_tables config (allocate config)
