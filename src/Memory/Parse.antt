-- ===== src/Memory/Parse.antt =====
-- NEO6502_MMU_V3/memory_config.cpp: `parseMemoryIni`, the `key = value` lines and the loop over the file.
use neo6502_mmu_v.Base.{
  ℕ, zero, suc, ◌+◌, ◌||◌, ◌&&◌, Option, none, some, List, [], ◌∷◌, drop, length, find_index?,
  modify, ◌==◌, if◌then◌else◌,
}
use neo6502_mmu_v.Base.Strings.{codes, str_eq, starts_with, split_at}
use neo6502_mmu_v.Memory.Config.{
  RegionType, normal, io, ErrorCode, LayoutRegion, MemoryConfig, copy_trunc,
}
use neo6502_mmu_v.Memory.Scan.{
  parse_bool_value, parse_u8_strict, parse_context_id_strict, read_bytes_until, line_text, trim,
}
use neo6502_mmu_v.Memory.Sections.{
  Parser, Step, ok, err, ◌>>=◌, name_size, fail, expect, context_parts, open_section,
}
use neo6502_mmu_v.Memory.Validate.{validate_config}

-- A key of `[system]`.
unfoldable pub set_system : Parser → List ℕ → List ℕ → Step Parser
set_system p key val =
    if str_eq key (codes "config_version")
    then (do
      v ← expect p ErrorCode.invalid_value key val (parse_u8_strict val)
      ok (record p { config = record (p.config) { version = v } }))
    else if str_eq key (codes "active_model")
    then ok (record p { config = record (p.config) { active_model = copy_trunc name_size val } })
    else if str_eq key (codes "boot_context")
    then (do
      v ← expect p ErrorCode.invalid_context key val (parse_context_id_strict val)
      ok (record p { config = record (p.config) { boot_context = v } }))
    else fail p ErrorCode.unknown_key key val

-- A key of `[model.NAME]`.
unfoldable pub set_model : Parser → List ℕ → List ℕ → Step Parser
set_model p key val =
    let name = copy_trunc name_size (drop 6 p.section) in
    elim (find_index? (λ m. str_eq m.name name) p.config.models) [
      | none ↦ fail p ErrorCode.model_not_found (codes "model") name
      | some place ↦
          if str_eq key (codes "contexts")
          then (do
            v ← expect p ErrorCode.invalid_value key val (parse_u8_strict val)
            ok (record p {
              config = record (p.config) {
                models = modify (λ m. record m { contexts = v }) place p.config.models;
              };
            }))
          else fail p ErrorCode.unknown_key key val
    ]

-- A change of the current region.
unfoldable pub change_region : Parser → ℕ × ℕ → (LayoutRegion → LayoutRegion) → Step Parser
change_region p (layout, region) f = ok (record p {
  config = record (p.config) {
    layouts =
        modify (λ l. record l { regions = modify f region l.regions }) layout p.config.layouts;
  };
})

abbrev region_type : List ℕ → Option RegionType
region_type val =
    if str_eq val (codes "io")
    then some io
    else if str_eq val (codes "normal")
    then some normal
    else none

-- A key of `[layout.….region.NAME]`.
unfoldable pub set_region : Parser → ℕ × ℕ → List ℕ → List ℕ → Step Parser
set_region p at key val =
    if str_eq key (codes "start")
    then (do
      v ← expect p ErrorCode.invalid_value key val (parse_u8_strict val)
      change_region p at (λ r. record r { start = v }))
    else if str_eq key (codes "pages")
    then (do
      v ← expect p ErrorCode.invalid_value key val (parse_u8_strict val)
      change_region p at (λ r. record r { pages = v }))
    else if str_eq key (codes "shared")
    then (do
      v ← expect p ErrorCode.invalid_value key val (parse_bool_value val)
      change_region p at (λ r. record r { shared = v }))
    else if str_eq key (codes "trap_write")
    then (do
      v ← expect p ErrorCode.invalid_value key val (parse_bool_value val)
      change_region p at (λ r. record r { trap_write = v }))
    else if str_eq key (codes "type")
    then (do
      v ← expect p ErrorCode.invalid_value key val (region_type val)
      change_region p at (λ r. record r { type = v }))
    else fail p ErrorCode.unknown_key key val

-- A key of `[context.MODEL.N]`.
unfoldable pub set_context : Parser → List ℕ → List ℕ → Step Parser
set_context p key val = do
  (model, number, ctx) ← context_parts p
  place ←
      expect p ErrorCode.invalid_context (codes "context") number
        (find_index? (λ b. str_eq b.model model && b.context == ctx) p.config.contexts)
  if str_eq key (codes "layout")
      then ok (record p {
        config = record (p.config) {
          contexts =
              modify (λ b. record b { layout = copy_trunc name_size val }) place p.config.contexts;
        };
      })
      else fail p ErrorCode.unknown_key key val

-- A `key = value` line.
unfoldable pub set_value : Parser → List ℕ → Step Parser
set_value p line = elim (split_at b'=' line) [
  | none ↦ fail p ErrorCode.syntax [] line
  | some (before, behind) ↦
      let key = trim before in
      let val = trim behind in
      if str_eq p.section (codes "system")
      then set_system p key val
      else if starts_with (codes "model.") p.section
      then set_model p key val
      else elim p.current_region [
        | some at ↦ set_region p at key val
        | none ↦
            if starts_with (codes "context.") p.section
            then set_context p key val
            else fail p ErrorCode.unknown_section key val
      ]
]

-- One line: nothing, a comment, a header or a value.
unfoldable pub parse_line : Parser → List ℕ → Step Parser
parse_line p [] = ok p
parse_line p (c ∷ line) =
    if c == b'#' || c == b';'
    then ok p
    else if c == b'['
    then open_section p line
    else set_value p (c ∷ line)

-- The loop over the file, with fuel for its rounds; each takes at least one byte.
unfoldable pub parse_lines : ℕ → Parser → List ℕ → Step Parser
parse_lines zero p file = ok p
parse_lines (suc fuel) p [] = ok p
parse_lines (suc fuel) p (c ∷ cs) =
    let (raw, rest) = read_bytes_until 159 (c ∷ cs) in
    parse_line (record p { line_no = p.line_no + 1 }) (line_text raw) >>= λ q.
    parse_lines fuel q rest

abbrev pub empty_config : MemoryConfig
empty_config = record {
  version = 0;
  active_model = [];
  boot_context = 0;
  models = [];
  layouts = [];
  contexts = [];
}

abbrev pub initial : Parser
initial = record { config = empty_config; section = []; line_no = 0; current_region = none }

-- `parseMemoryIni`: the configuration, or the error and what stands in `memoryConfig` then.
unfoldable pub parse_memory_ini : List ℕ → Step MemoryConfig
parse_memory_ini file = do
  p ← parse_lines (length file) initial file
  elim (validate_config p.config) [ none ↦ ok p.config | some e ↦ err e p.config ]
