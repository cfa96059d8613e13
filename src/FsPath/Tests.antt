-- ===== src/FsPath/Tests.antt =====
-- Runs of the path functions of NEO6502_MMU_V3/rp_fs_path.cpp.
use Prim.Native.Char.{code}
use Prim.Native.String.{String}
use neo6502_mmu_v.Base.{
  ℕ, ◌-◌, ◌<◌, true, false, some, List, [], ◌∷◌, ◌≡◌, ◌↔◌, refl, arith, length,
}
use neo6502_mmu_v.FsPath.Text.{
  has_drive_prefix, device_valid, component_scan, component_valid_83, components_valid,
  logical_valid, path_valid_83, before_last_slash, pop_component, append_component, path_max,
}
use neo6502_mmu_v.FsPath.Component.{All, Is83, component_valid_83_iff}
use neo6502_mmu_v.FsPath.Canonical.{join}
use neo6502_mmu_v.FsPath.Valid.{IsPath, path_valid_83_iff}
use neo6502_mmu_v.FsPath.Cwd.{
  ResolvedPath, Table, cwd_slot, reset_all, set_cwd, get, format, Call, call, calls,
}
use neo6502_mmu_v.FsPath.Table.{IsTable, reset_all-IsTable, calls-IsTable}
use neo6502_mmu_v.FsPath.Resolve.{
  ok, invalid_path, invalid_device, skip_slashes, take_component, round, walk, path_start,
  resolve_from, resolve,
}
use neo6502_mmu_v.FsPath.Home.{home, IsStart}
use neo6502_mmu_v.FsPath.Resolution.{Meaning, IsResolved, resolve_refines, resolve-IsResolved}
use neo6502_mmu_v.FsPath.RoundTrip.{resolve-format}

-- code points; every literal below is ASCII
abbrev codes : String → List ℕ
codes String.[] = []
codes (String.◌∷◌ c s) = code c ∷ codes s

component_examples :
    (component_valid_83 (codes "README.TXT") ≡ true)
    × (component_valid_83 (codes "TOOLONGNAME") ≡ false)
    × (component_valid_83 (codes "A.B.C") ≡ false)
    × (component_valid_83 (codes "A.") ≡ false)
unfolding component_valid_83 component_scan
component_examples = (refl, refl, refl, refl)

path_examples :
    (path_valid_83 (codes "2:/BIN/LS") ≡ true)
    × (path_valid_83 (codes "7:/BIN") ≡ false)
    × (path_valid_83 (codes "/BIN//LS") ≡ false)
    × (path_valid_83 (codes "BIN/") ≡ false)
unfolding path_valid_83 logical_valid components_valid component_valid_83 component_scan
    has_drive_prefix device_valid
path_examples = (refl, refl, refl, refl)

abbrev go_home : Call
go_home = Call.chdir 3 (record { device = 1; path = codes "/USR/BIN" })

-- Process 3 in `1:/USR/BIN`, all others at the root of drive 0.
abbrev table : Table
table = calls (go_home ∷ []) reset_all

resolve_examples :
    (resolve table 3 0 (codes "../LIB//./C.LIB")
      ≡ ok (record { device = 1; path = codes "USR/LIB/C.LIB" }))
    × (resolve table 3 0 (codes "/../..") ≡ ok (record { device = 1; path = codes "/" }))
    × (resolve table 2 0 (codes "x") ≡ invalid_path)
    × (resolve table 2 0 (codes "9:/X") ≡ invalid_device)
unfolding calls call reset_all set_cwd cwd_slot resolve resolve_from path_start walk round
    skip_slashes take_component path_valid_83 logical_valid components_valid component_valid_83
    component_scan has_drive_prefix device_valid pop_component before_last_slash append_component
resolve_examples = (refl, refl, refl, refl)

path_valid_83_iff_example : (path_valid_83 (codes "2:/BIN") ≡ true) ↔ IsPath (codes "2:/BIN")
path_valid_83_iff_example = path_valid_83_iff (codes "2:/BIN")

component_valid_83_iff_example : (component_valid_83 (codes "C.LIB") ≡ true) ↔ Is83 (codes "C.LIB")
component_valid_83_iff_example = component_valid_83_iff (codes "C.LIB")

table-IsTable : IsTable table
table-IsTable = calls-IsTable (go_home ∷ []) reset_all-IsTable

calls-IsTable_example : IsTable (calls (go_home ∷ Call.clone 4 3 ∷ []) reset_all)
calls-IsTable_example = calls-IsTable (go_home ∷ Call.clone 4 3 ∷ []) reset_all-IsTable

resolve_refines_example :
    (device : ℕ) × (stack : List (List ℕ)) × (cursor : List ℕ) × IsStart
      (home table 3 0)
      (codes "../LIB")
      device
      stack
      cursor
    × All Is83 stack
    × (length (join stack) < path_max)
    × (resolve table 3 0 (codes "../LIB") ≡ Meaning device stack cursor)
resolve_refines_example = resolve_refines table 3 0 b'.' (codes "./LIB") table-IsTable (omega arith)

-- Where that path starts.
home_of_table : home table 3 0 ≡ record { device = 1; path = codes "USR/BIN" }
unfolding calls call reset_all set_cwd cwd_slot get path_valid_83 logical_valid components_valid
    component_valid_83 component_scan has_drive_prefix device_valid
home_of_table = refl

resolve-IsResolved_example : IsResolved (resolve table 3 0 (codes "../LIB"))
resolve-IsResolved_example = resolve-IsResolved table 3 0 (codes "../LIB") table-IsTable

resolve-format_example :
    (r : ResolvedPath) × (get table 3 ≡ some r)
    × (resolve table 5 0 (codes "1:/USR/BIN") ≡ ok r)
    × (11 - 1 ≡ length (codes "1:/USR/BIN"))
    × (length (codes "1:/USR/BIN") < 11)
unfolding calls call reset_all set_cwd cwd_slot format path_valid_83 logical_valid components_valid
    component_valid_83 component_scan has_drive_prefix device_valid
resolve-format_example = resolve-format table 3 11 table-IsTable refl 5 0 (omega arith)
