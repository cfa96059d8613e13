-- ===== src/Memory/Tests.antt =====
-- A configuration of the memory models of NEO6502_MMU_V3/memory_config.cpp.
use neo6502_mmu_v.Base.{ℕ, arith, true, false, none, List, [], ◌∷◌, ◌≡◌, refl, all, any, find?}
use neo6502_mmu_v.Base.Strings.{codes, str_eq}
use neo6502_mmu_v.Memory.Config.{
  normal, io, LayoutRegion, MemoryConfig, find_model, find_layout, find_context_binding,
}
use neo6502_mmu_v.Memory.Validate.{
  is_valid_region_range, regions_overlap, layout_has_overlaps, cover_pages, cover,
  layout_is_complete, check_models, check_ranges, check_regions, check_layout, check_layouts,
  check_contexts, check_active, validate_config,
}
use neo6502_mmu_v.Memory.Allocate.{allocate, configure_mmu}
use neo6502_mmu_v.Memory.Parse.{parse_lines, initial}
use neo6502_mmu_v.Memory.Fuel.{parse_lines_lem}
use neo6502_mmu_v.Memory.Pages.{Ensures, IsPhysical, allocate-IsPhysical}
use neo6502_mmu_v.Memory.Checked.{IsValidated, validate_config-IsValidated}
use neo6502_mmu_v.Memory.Isolation.{names_fit, Isolates, allocate-Isolates}
use neo6502_mmu_v.Memory.Bounds.{IsAllOrNothing, configure_mmu-IsAllOrNothing}

abbrev file : List ℕ
file = codes "[system]\nboot_context = 1\n"

parse_lines_lem_example : parse_lines 26 initial file ≡ parse_lines 200 initial file
parse_lines_lem_example = parse_lines_lem 26 200 initial file (omega arith) (omega arith)

-- Two contexts with 12 pages of their own, 2 shared pages, an I/O page and a ROM page.
abbrev regions : List LayoutRegion
regions =
    record {
      name = codes "ram";
      start = 0;
      pages = 12;
      shared = false;
      type = normal;
      trap_write = false;
    }
    ∷ record {
      name = codes "com";
      start = 12;
      pages = 2;
      shared = true;
      type = normal;
      trap_write = false;
    }
    ∷ record {
      name = codes "io";
      start = 14;
      pages = 1;
      shared = true;
      type = io;
      trap_write = false;
    }
    ∷ record {
      name = codes "rom";
      start = 15;
      pages = 1;
      shared = true;
      type = normal;
      trap_write = true;
    }
    ∷ []

abbrev config : MemoryConfig
config = record {
  version = 1;
  active_model = codes "m";
  boot_context = 0;
  models = record { name = codes "m"; contexts = 2 } ∷ [];
  layouts = record { model = codes "m"; name = codes "l"; regions = regions } ∷ [];
  contexts =
      record { model = codes "m"; context = 0; layout = codes "l" }
      ∷ record { model = codes "m"; context = 1; layout = codes "l" }
      ∷ [];
}

accepted : validate_config config ≡ none
unfolding validate_config check_active check_models check_layouts check_layout check_regions
    check_ranges check_contexts is_valid_region_range regions_overlap layout_has_overlaps
    cover_pages cover layout_is_complete find_model find_layout find_context_binding find? all any
    str_eq
accepted = refl

validate_config-IsValidated_example : IsValidated config
validate_config-IsValidated_example = validate_config-IsValidated config accepted

configure_mmu-IsAllOrNothing_example : IsAllOrNothing config (configure_mmu config)
configure_mmu-IsAllOrNothing_example = configure_mmu-IsAllOrNothing config accepted

allocate-IsPhysical_example : Ensures (λ x. IsPhysical x.1) (allocate config)
allocate-IsPhysical_example = allocate-IsPhysical config

fitting : names_fit config ≡ true
unfolding all
fitting = refl

allocate-Isolates_example : Ensures (Isolates config) (allocate config)
allocate-Isolates_example = allocate-Isolates config accepted fitting
