-- ===== src/RpFs/Tests.antt =====
-- A drive with one file, for the handles of NEO6502_MMU_V3/rp_fs.cpp.
use neo6502_mmu_v.Base.{ℕ, ◌&&◌, true, false, List, [], ◌∷◌, ◌≡◌, refl, take, length, replicate}
use neo6502_mmu_v.Base.Strings.{codes}
use neo6502_mmu_v.FsPath.Cwd.{ResolvedPath, reset_all, cwd_slot}
use neo6502_mmu_v.FsPath.Text.{
  has_drive_prefix, device_valid, component_scan, component_valid_83, append_component,
}
use neo6502_mmu_v.FsPath.Resolve.{
  ok, resolve, resolve_from, walk, round, path_start, skip_slashes, take_component,
}
use neo6502_mmu_v.FsPath.Table.{reset_all-IsTable}
use neo6502_mmu_v.RpFs.FatFs.{FatFs}
use neo6502_mmu_v.RpFs.Names.{is_valid_83_path}
use neo6502_mmu_v.FsPath.Text.{path_valid_83}
use neo6502_mmu_v.RpFs.Storage.{Storage}
use neo6502_mmu_v.RpFs.Agree.{path_checkers_agree}
use neo6502_mmu_v.RpFs.Handover.{IsAccepted, resolve-IsAccepted}
use neo6502_mmu_v.RpFs.Handles.{IsConsistent}
use neo6502_mmu_v.RpFs.Run.{
  StorageCall, mounts, opens, unmounts, reads, closes, perform_all, perform_all-IsConsistent,
}

-- The disk is the file's content; an open file and an open directory are their position.
abbrev pub fat : FatFs (List ℕ) ℕ ℕ
fat = record {
  storage_mounted = λ device disk. true;
  f_mount = λ device disk. (0, disk);
  f_unmount = λ device disk. disk;
  f_open = λ file path mode disk. (0, 0, disk);
  f_close = λ file disk. (0, file, disk);
  f_read = λ file len disk. (0, take len disk, file, disk);
  f_write = λ file bytes disk. (0, length bytes, file, bytes);
  f_lseek = λ file position disk. (0, position, disk);
  f_size = λ file. 4;
  f_tell = λ file. file;
  f_unlink = λ path disk. (0, disk);
  f_rename = λ path new_path disk. (0, disk);
  f_mkdir = λ path disk. (0, disk);
  f_opendir = λ dir path disk. (0, 0, disk);
  f_readdir =
      λ dir disk. (0, record { fname = []; altname = []; fattrib = 0; fsize = 0 }, dir, disk);
  f_closedir = λ dir disk. (0, dir, disk);
}

abbrev pub at_start : Storage (List ℕ) ℕ ℕ
at_start = record {
  handles =
      replicate 4
        (record { in_use = false; device = 0; can_read = false; can_write = false; file = 0 });
  folders = replicate 4 (record { dir_in_use = false; dir_device = 0; dir = 0 });
  mounted = replicate 4 false;
  disk = codes "TEXT";
}

at_start-IsConsistent : IsConsistent at_start
at_start-IsConsistent = record {
  drives = refl;
  files = (λ e. cc, (λ e. cc, (λ e. cc, (λ e. cc, tt))));
  folders = (λ e. cc, (λ e. cc, (λ e. cc, (λ e. cc, tt))));
}

abbrev calls : List StorageCall
calls =
    mounts 0
    ∷ opens 0 (codes "/A.TXT") 1 true false
    ∷ opens 1 (codes "/B.TXT") 1 true false
    ∷ reads 0 2
    ∷ unmounts 0
    ∷ closes 1
    ∷ []

perform_all-IsConsistent_example : IsConsistent (perform_all fat calls at_start)
perform_all-IsConsistent_example = perform_all-IsConsistent fat calls at_start at_start-IsConsistent

path_checkers_agree_example :
    path_valid_83 (codes "7:/A") ≡ (false && is_valid_83_path (codes "7:/A"))
unfolding has_drive_prefix device_valid
path_checkers_agree_example = path_checkers_agree (codes "7:/A")

abbrev found : ResolvedPath
found = record { device = 0; path = codes "SUB/A.TXT" }

resolves : resolve reset_all 3 0 (codes "SUB/./A.TXT") ≡ ok found
unfolding resolve resolve_from walk round path_start skip_slashes take_component cwd_slot reset_all
    has_drive_prefix device_valid component_scan component_valid_83 append_component
resolves = refl

resolve-IsAccepted_example : IsAccepted found
resolve-IsAccepted_example =
    resolve-IsAccepted reset_all 3 0 (codes "SUB/./A.TXT") found reset_all-IsTable resolves
