-- ===== src/Mailbox.antt =====
-- NEO6502_MMU_V3/mailbox.h and mailbox.cpp: the request/result block that the 6502 and the RP
-- share, and the helpers that complete a request. The children are the console's commands
-- (Console), the dispatcher (Fsm) and what is proved of them.
use neo6502_mmu_v.Base.{ℕ, ◌+◌, ◌*◌, ◌/◌, ◌%◌, ◌^◌, Bool, true, false, List, [], ◌∷◌, ◌≡◌, arith}
use neo6502_mmu_v.Ram.{Ram, read, write, rp_read16, rp_write16}
use neo6502_mmu_v.Input.{Input}
use neo6502_mmu_v.Mailbox.Rp
use neo6502_mmu_v.Mailbox.Rp.{rp_done, rp_error, err_ok, err_einval}
pub mod Rp
pub mod Console
pub mod Queues
pub mod Commands
pub mod Dispatch
mod Tests
pub mod Fsm

-- `mailbox_state_t`
pub data MailboxState : Type 0 where
  mb_init mb_idle mb_write mb_read mb_done : MailboxState

-- The static variables of rp_console_io.cpp.
pub record Transfer : Type 0 where
  pub target : ℕ
  pub len : ℕ
  pub current : ℕ
  pub remaining : ℕ
  pub buffer : List ℕ
  pub read_count : ℕ
  pub write_count : ℕ

-- The static variables of mailbox.cpp, with what its functions work on: the memory, the queues,
-- the console's transfer, the flag behind `triggerMMUIO`, and the file system's own state `F`.
pub record Mailbox (F : Type 0) : Type 0 where
  pub ram : Ram
  pub input : Input
  pub transfer : Transfer
  pub fs : F
  pub mmuio_trigger : Bool
  pub mailbox_state : MailboxState
  pub last_check : Bool
  pub l_count : ℕ
  pub poll_count : ℕ
  pub command_count : ℕ
  pub error_count : ℕ
  pub unknown_cmd_count : ℕ
  pub console_pid : ℕ

-- `rp_clear_doorbell`
unfoldable pub clear_doorbell : Ram → Ram
clear_doorbell m = write m Rp.rp_doorbell 0

-- `rp_mailbox_clear_result_fields`
unfoldable pub clear_result_fields : Ram → Ram
clear_result_fields m =
    write (write (rp_write16 (rp_write16 m Rp.rp_res0l 0) Rp.rp_res1l 0) Rp.rp_err err_ok)
      Rp.rp_flags 0

-- `rp_mailbox_set_done` and `rp_mailbox_set_done32`
unfoldable pub set_done : ℕ → ℕ → Ram → Ram
set_done result flags m =
    let m = rp_write16 (rp_write16 m Rp.rp_res0l result) Rp.rp_res1l 0 in
    let m = write (write m Rp.rp_err err_ok) Rp.rp_flags flags in
    clear_doorbell (write m Rp.rp_status rp_done)

unfoldable pub set_done32 : ℕ → ℕ → Ram → Ram
set_done32 result flags m =
    let m = rp_write16 m Rp.rp_res0l (result % 2 ^ 16) in
    let m = rp_write16 m Rp.rp_res1l (result / 2 ^ 16 % 2 ^ 16) in
    let m = write (write m Rp.rp_err err_ok) Rp.rp_flags flags in
    clear_doorbell (write m Rp.rp_status rp_done)

module _ {F : Type 0} where
  -- `rp_mailbox_set_error`
  unfoldable pub set_error : ℕ → ℕ → Mailbox F → Mailbox F
  set_error err part s =
      let m = rp_write16 (rp_write16 s.ram Rp.rp_res0l part) Rp.rp_res1l 0 in
      let m = write (write m Rp.rp_err err) Rp.rp_flags 0 in
      record s {
        ram = clear_doorbell (write m Rp.rp_status rp_error);
        mmuio_trigger = false;
        error_count = (s.error_count + 1) % 2 ^ 32;
      }

  -- `rp_handle_unknown_command`, whose arguments are not used.
  unfoldable pub handle_unknown_command : Mailbox F → Mailbox F
  handle_unknown_command s =
      set_error err_einval 0 (record s { unknown_cmd_count = (s.unknown_cmd_count + 1) % 2 ^ 32 })

  -- `setConsolePID`
  abbrev pub set_console_pid : ℕ → Mailbox F → Mailbox F
  set_console_pid pid s = record s {
    ram = write s.ram Rp.rp_console_pid pid;
    mmuio_trigger = false;
    console_pid = pid % 2 ^ 8;
  }

-- A 32-bit result is read back from its two words.
pub set_done32_words :
    (result flags : ℕ) (m : Ram)
    → rp_read16 (set_done32 result flags m) Rp.rp_res0l
        + rp_read16 (set_done32 result flags m) Rp.rp_res1l * 2 ^ 16
      ≡ result % 2 ^ 32
unfolding set_done32 clear_doorbell rp_read16 rp_write16
set_done32_words result flags m = ground arith
