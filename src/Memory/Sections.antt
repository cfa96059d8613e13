-- ===== src/Memory/Sections.antt =====
-- NEO6502_MMU_V3/memory_config.cpp: `parseMemoryIni`, its state and the section headers.
use neo6502_mmu_v.Base.{
  ℕ, ◌+◌, false, not, ◌&&◌, ◌||◌, Option, none, some, List, [], ◌∷◌, ◌++◌, drop, length,
  find_index?, get_elem?, modify, leb, if◌then◌else◌,
}
use neo6502_mmu_v.Base.Strings.{codes, str_eq, starts_with, split_at}
use neo6502_mmu_v.Memory.Config.{
  max_memory_name, max_memory_models, max_memory_layouts, max_memory_regions, max_memory_contexts,
  normal, ErrorCode, IniError, LayoutRegion, MemoryConfig, copy_trunc, fail_memory_ini, find_model,
  find_context_binding, find_region,
}
use neo6502_mmu_v.Memory.Scan.{parse_context_id_strict, section_parts}

-- The variables of the loop. `currentRegion` points into `layouts`: it is a pair of places.
-- `currentLayout` is read only where `currentRegion` has just been set from it.
pub record Parser : Type 0 where
  pub config : MemoryConfig
  pub section : List ℕ
  pub line_no : ℕ
  pub current_region : Option (ℕ × ℕ)

-- A step of the parser, or the error that it returns with and the configuration as it leaves it.
pub data Step {ℓ} (A : Type ℓ) : Type ℓ where
  ok : A → Step A
  err : IniError → MemoryConfig → Step A

infixl 5 ◌>>=◌
abbrev pub ◌>>=◌ {ℓ κ} : {A : Type ℓ} {B : Type κ} → Step A → (A → Step B) → Step B
ok a >>= f = f a
err e config >>= f = err e config

abbrev pub name_size : ℕ
name_size = max_memory_name + 1

-- `return failMemoryIni(code, lineNo, section, key, value)`
abbrev pub fail {ℓ} : {A : Type ℓ} → Parser → ErrorCode → List ℕ → List ℕ → Step A
fail p code key value = err (fail_memory_ini code p.line_no p.section key value) p.config

-- The value of an option, or a failure.
abbrev pub expect {ℓ} : {A : Type ℓ} → Parser → ErrorCode → List ℕ → List ℕ → Option A → Step A
expect p code key value none = fail p code key value
expect p code key value (some a) = ok a

abbrev pub part : ℕ → List (List ℕ) → List ℕ
part i parts = elim (get_elem? parts i) [ none ↦ [] | some s ↦ s ]

-- `[model.NAME]`
unfoldable pub open_model : Parser → Step Parser
open_model p =
    let name = copy_trunc name_size (drop 6 p.section) in
    elim (find_model p.config name) [
      | some m ↦ fail p ErrorCode.duplicate_model (codes "model") name
      | none ↦
          if leb max_memory_models (length p.config.models)
          then fail p ErrorCode.invalid_value (codes "model_count") name
          else ok (record p {
            config = record (p.config) {
              models = p.config.models ++ (record { name = name; contexts = 0 } ∷ []);
            };
          })
    ]

abbrev new_region : List ℕ → LayoutRegion
new_region name = record {
  name = name;
  start = 0;
  pages = 0;
  shared = false;
  type = normal;
  trap_write = false;
}

-- A region added to the layout at a place, which is always one of the layouts.
unfoldable pub add_region : Parser → ℕ → List ℕ → Step Parser
add_region p place region_name = elim (get_elem? p.config.layouts place) [
  | none ↦ fail p ErrorCode.layout_not_found [] []
  | some layout ↦ elim (find_region layout region_name) [
    | some r ↦ fail p ErrorCode.duplicate_region (codes "region") region_name
    | none ↦
        if leb max_memory_regions (length layout.regions)
        then fail p ErrorCode.invalid_value (codes "region_count") region_name
        else ok (record p {
          config = record (p.config) {
            layouts =
                modify (λ l. record l { regions = l.regions ++ (new_region region_name ∷ []) })
                  place p.config.layouts;
          };
          current_region = some (place, length layout.regions);
        })
  ]
]

-- The layout of the header, made if it is new, and the region in it.
unfoldable pub place_region : Parser → List (List ℕ) → Step Parser
place_region p parts =
    let model_name = copy_trunc name_size (part 1 parts) in
    let layout_name = copy_trunc name_size (part 2 parts) in
    let region_name = copy_trunc name_size (part 4 parts) in
    if not (str_eq (part 0 parts) (codes "layout")) || not (str_eq (part 3 parts) (codes "region"))
    then fail p ErrorCode.unknown_section [] []
    else elim (find_index? (λ l. str_eq l.model model_name && str_eq l.name layout_name)
        p.config.layouts) [
          | some place ↦ add_region p place region_name
          | none ↦
              if leb max_memory_layouts (length p.config.layouts)
              then fail p ErrorCode.invalid_value (codes "layout_count") layout_name
              else add_region
                  (record p {
                    config = record (p.config) {
                      layouts =
                          p.config.layouts
                          ++ (record { model = model_name; name = layout_name; regions = [] } ∷ []);
                    };
                  })
                  (length p.config.layouts) region_name
        ]

-- `[layout.MODEL.LAYOUT.region.REGION]`
unfoldable pub open_layout : Parser → Step Parser
open_layout p = do
  parts ← expect p ErrorCode.unknown_section [] [] (section_parts 5 p.section)
  place_region p parts

-- The model and the number of `context.MODEL.N`.
unfoldable pub context_parts : Parser → Step (List ℕ × List ℕ × ℕ)
context_parts p = do
  parts ← expect p ErrorCode.unknown_section [] [] (section_parts 3 p.section)
  named ←
      if str_eq (part 0 parts) (codes "context")
      then ok (tt {0})
      else fail p ErrorCode.unknown_section [] []
  ctx ←
      expect p ErrorCode.invalid_context (codes "context") (part 2 parts)
        (parse_context_id_strict (part 2 parts))
  ok (part 1 parts, part 2 parts, ctx)

-- `[context.MODEL.N]`
unfoldable pub open_context : Parser → Step Parser
open_context p = do
  (model, number, ctx) ← context_parts p
  elim (find_context_binding p.config model ctx) [
    | some b ↦ fail p ErrorCode.duplicate_context (codes "context") number
    | none ↦
        if leb max_memory_contexts (length p.config.contexts)
        then fail p ErrorCode.invalid_value (codes "context_count") []
        else ok (record p {
          config = record (p.config) {
            contexts =
                p.config.contexts
                ++ (record { model = copy_trunc name_size model; context = ctx; layout = [] } ∷ []);
          };
        })
  ]

-- A line that begins with `[`, given without that character.
unfoldable pub open_section : Parser → List ℕ → Step Parser
open_section p line = elim (split_at b']' line) [
  | none ↦ err (fail_memory_ini ErrorCode.syntax p.line_no [] [] (b'[' ∷ line)) p.config
  | some (name, behind) ↦
      let section = copy_trunc 64 name in
      let q = record p { section = section; current_region = none } in
      if str_eq section (codes "system")
      then ok q
      else if starts_with (codes "model.") section
      then open_model q
      else if starts_with (codes "layout.") section
      then open_layout q
      else if starts_with (codes "context.") section
      then open_context q
      else fail q ErrorCode.unknown_section [] []
]
