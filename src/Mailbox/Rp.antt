-- ===== src/Mailbox/Rp.antt =====
-- NEO6502_MMU_V3/mailbox.h: the addresses and values of the mailbox.
use neo6502_mmu_v.Base.{ℕ}

abbrev pub rp_doorbell : ℕ
rp_doorbell = 0xe010

abbrev pub rp_group : ℕ
rp_group = 0xb000

abbrev pub rp_cmd : ℕ
rp_cmd = 0xb001

abbrev pub rp_status : ℕ
rp_status = 0xb002

abbrev pub rp_err : ℕ
rp_err = 0xb003

abbrev pub rp_flags : ℕ
rp_flags = 0xb004

abbrev pub rp_state : ℕ
rp_state = 0xb005

abbrev pub rp_arg0l : ℕ
rp_arg0l = 0xb006

abbrev pub rp_arg0h : ℕ
rp_arg0h = 0xb007

abbrev pub rp_arg1l : ℕ
rp_arg1l = 0xb008

abbrev pub rp_arg1h : ℕ
rp_arg1h = 0xb009

abbrev pub rp_arg2l : ℕ
rp_arg2l = 0xb00a

abbrev pub rp_arg2h : ℕ
rp_arg2h = 0xb00b

abbrev pub rp_res0l : ℕ
rp_res0l = 0xb00c

abbrev pub rp_res1l : ℕ
rp_res1l = 0xb00e

abbrev pub rp_console_pid : ℕ
rp_console_pid = 0xb011

abbrev pub rp_console_rdy : ℕ
rp_console_rdy = 0xb012

-- `RP_IDLE`, `RP_BUSY`, `RP_DONE`, `RP_ERROR`, and two of the error codes.
abbrev pub rp_idle : ℕ
rp_idle = 0

abbrev pub rp_busy : ℕ
rp_busy = 1

abbrev pub rp_done : ℕ
rp_done = 2

abbrev pub rp_error : ℕ
rp_error = 3

abbrev pub err_ok : ℕ
err_ok = 0

abbrev pub err_einval : ℕ
err_einval = 6
