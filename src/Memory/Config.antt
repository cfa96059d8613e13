-- ===== src/Memory/Config.antt =====
-- NEO6502_MMU_V3/memory_config.h, and the lookups of memory_config.cpp.
use neo6502_mmu_v.Base.{ℕ, ◌-◌, Bool, ◌&&◌, Option, List, take, find?, ◌==◌}
use neo6502_mmu_v.Base.Strings.{str_eq}

abbrev pub max_memory_name : ℕ
max_memory_name = 16

abbrev pub max_memory_models : ℕ
max_memory_models = 4

abbrev pub max_memory_layouts : ℕ
max_memory_layouts = 8

abbrev pub max_memory_regions : ℕ
max_memory_regions = 16

abbrev pub max_memory_contexts : ℕ
max_memory_contexts = 16

-- mmu.h
abbrev pub num_context_pages : ℕ
num_context_pages = 16

abbrev pub num_total_pages : ℕ
num_total_pages = 128

pub data RegionType : Type 0 where
  normal io : RegionType

pub data ErrorCode : Type 0 where
  open_failed syntax unknown_section unknown_key duplicate_model duplicate_layout : ErrorCode
  duplicate_region duplicate_context invalid_context invalid_value invalid_range : ErrorCode
  model_not_found layout_not_found layout_incomplete overlapping_regions : ErrorCode

pub record IniError : Type 0 where
  pub code : ErrorCode
  pub line : ℕ
  pub section : List ℕ
  pub key : List ℕ
  pub value : List ℕ

pub record MemoryModel : Type 0 where
  pub name : List ℕ
  pub contexts : ℕ

pub record LayoutRegion : Type 0 where
  pub name : List ℕ
  pub start : ℕ
  pub pages : ℕ
  pub shared : Bool
  pub type : RegionType
  pub trap_write : Bool

pub record MemoryLayout : Type 0 where
  pub model : List ℕ
  pub name : List ℕ
  pub regions : List LayoutRegion

pub record ContextBinding : Type 0 where
  pub model : List ℕ
  pub context : ℕ
  pub layout : List ℕ

pub record MemoryConfig : Type 0 where
  pub version : ℕ
  pub active_model : List ℕ
  pub boot_context : ℕ
  pub models : List MemoryModel
  pub layouts : List MemoryLayout
  pub contexts : List ContextBinding

-- `copyTrunc` into a buffer of `size` bytes.
abbrev pub copy_trunc : ℕ → List ℕ → List ℕ
copy_trunc size src = take (size - 1) src

-- `failMemoryIni`: what it leaves in `lastMemoryIniError`; `[]` for a null pointer.
unfoldable pub fail_memory_ini : ErrorCode → ℕ → List ℕ → List ℕ → List ℕ → IniError
fail_memory_ini code line section key value = record {
  code = code;
  line = line;
  section = copy_trunc 48 section;
  key = copy_trunc 32 key;
  value = copy_trunc 64 value;
}

-- `findModel`
unfoldable pub find_model : MemoryConfig → List ℕ → Option MemoryModel
find_model config name = find? (λ m. str_eq m.name name) config.models

-- `findLayout`
unfoldable pub find_layout : MemoryConfig → List ℕ → List ℕ → Option MemoryLayout
find_layout config model name =
    find? (λ l. str_eq l.model model && str_eq l.name name) config.layouts

-- `findContextBinding`
unfoldable pub find_context_binding : MemoryConfig → List ℕ → ℕ → Option ContextBinding
find_context_binding config model context =
    find? (λ b. str_eq b.model model && b.context == context) config.contexts

-- `findRegion`
unfoldable pub find_region : MemoryLayout → List ℕ → Option LayoutRegion
find_region layout name = find? (λ r. str_eq r.name name) layout.regions
