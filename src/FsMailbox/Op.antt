-- ===== src/FsMailbox/Op.antt =====
-- The file system part of NEO6502_MMU_V3/mailbox.h.
use neo6502_mmu_v.Base.{ℕ}

abbrev pub op_status : ℕ
op_status = 1

abbrev pub op_open : ℕ
op_open = 2

abbrev pub op_read : ℕ
op_read = 3

abbrev pub op_close : ℕ
op_close = 4

abbrev pub op_write : ℕ
op_write = 5

abbrev pub op_load : ℕ
op_load = 6

abbrev pub op_save : ℕ
op_save = 7

abbrev pub op_seek : ℕ
op_seek = 8

abbrev pub op_tell : ℕ
op_tell = 9

abbrev pub op_delete : ℕ
op_delete = 10

abbrev pub op_rename : ℕ
op_rename = 11

abbrev pub op_opendir : ℕ
op_opendir = 12

abbrev pub op_readdir : ℕ
op_readdir = 13

abbrev pub op_closedir : ℕ
op_closedir = 14

abbrev pub op_mkdir : ℕ
op_mkdir = 15

abbrev pub op_rmdir : ℕ
op_rmdir = 16

abbrev pub op_cwd_init_root : ℕ
op_cwd_init_root = 18

abbrev pub op_cwd_clone : ℕ
op_cwd_clone = 19

abbrev pub op_chdir : ℕ
op_chdir = 20

abbrev pub op_getcwd : ℕ
op_getcwd = 21

abbrev pub err_enoent : ℕ
err_enoent = 2

abbrev pub err_eio : ℕ
err_eio = 3

abbrev pub err_enomem : ℕ
err_enomem = 4

abbrev pub flag_eof : ℕ
flag_eof = 1

abbrev pub private_limit : ℕ
private_limit = 0x8000

abbrev pub mailbox_chunk : ℕ
mailbox_chunk = 256

abbrev pub dirent_size : ℕ
dirent_size = 18
