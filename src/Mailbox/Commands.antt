-- ===== src/Mailbox/Commands.antt =====
-- NEO6502_MMU_V3/mailbox.cpp: which handler a request gets, and the refusal of an unknown command.
use neo6502_mmu_v.Base.{
  ℕ, ◌+◌, ◌%◌, ◌^◌, Bool, true, false, ◌&&◌, Option, none, some, ◌≡◌, refl, ◌⊎◌, arith, ◌==◌,
  if◌then◌else◌,
}
use neo6502_mmu_v.Ram.{read, rp_read16, rp_write16}
use neo6502_mmu_v.Mailbox.Rp
use neo6502_mmu_v.Mailbox.Rp.{rp_busy, rp_done, rp_error, err_ok, err_einval}
use neo6502_mmu_v.Mailbox.{
  MailboxState, mb_done, Mailbox, clear_doorbell, clear_result_fields, set_error,
  handle_unknown_command,
}
use neo6502_mmu_v.Mailbox.Console.{handle_write, handle_read}
use neo6502_mmu_v.Mailbox.Fsm.{
  Command, console_write, console_read, fs_exec, commands, find_in, handler, find_mailbox_command,
  dispatch_command,
}

-- What the 6502 reads after a refusal.
pub record IsRefused {F : Type 0} (s t : Mailbox F) : Type 0 where
  pub refused : read t.ram Rp.rp_status ≡ rp_error
  pub reason : read t.ram Rp.rp_err ≡ err_einval
  pub result0 : rp_read16 t.ram Rp.rp_res0l ≡ 0
  pub result1 : rp_read16 t.ram Rp.rp_res1l ≡ 0
  pub doorbell : read t.ram Rp.rp_doorbell ≡ 0
  pub errors : t.error_count ≡ (s.error_count + 1) % 2 ^ 32
  pub unknown : t.unknown_cmd_count ≡ (s.unknown_cmd_count + 1) % 2 ^ 32
  pub transfer : t.transfer ≡ s.transfer
  pub input : t.input ≡ s.input
  pub fs : t.fs ≡ s.fs

handle_unknown_command-IsRefused :
    {F : Type 0} (s : Mailbox F) → IsRefused s (handle_unknown_command s)
unfolding handle_unknown_command set_error clear_doorbell rp_write16 rp_read16
handle_unknown_command-IsRefused s = record {
  refused = refl;
  reason = refl;
  result0 = refl;
  result1 = refl;
  doorbell = refl;
  errors = refl;
  unknown = refl;
  transfer = refl;
  input = refl;
  fs = refl;
}

-- The commands that there are: console.write, console.read and fs.exec.
abbrev pub IsCommand : ℕ → ℕ → Type 0
IsCommand group cmd =
    ((group ≡ 1) × (cmd ≡ 1)) ⊎ (((group ≡ 1) × (cmd ≡ 2)) ⊎ ((group ≡ 2) × (cmd ≡ 0x11)))

-- What the table holds for a group and a command.
data IsFound (group cmd : ℕ) : Option Command → Type 0 where
  is_write : group ≡ 1 → cmd ≡ 1 → IsFound group cmd (some console_write)
  is_read : group ≡ 1 → cmd ≡ 2 → IsFound group cmd (some console_read)
  is_exec : group ≡ 2 → cmd ≡ 0x11 → IsFound group cmd (some fs_exec)
  is_none : ¬ IsCommand group cmd → IsFound group cmd none

find_mailbox_command-IsFound : (group cmd : ℕ) → IsFound group cmd (find_mailbox_command group cmd)
unfolding find_mailbox_command find_in commands
find_mailbox_command-IsFound group cmd =
    if_IsFound ((1 == group) && (1 == cmd)) (λ e. is_write (ground (arith, e)) (ground (arith, e)))
      (λ e.
        if_IsFound ((1 == group) && (2 == cmd))
          (λ f. is_read (ground (arith, f)) (ground (arith, f)))
          (λ f.
            if_IsFound ((2 == group) && (0x11 == cmd))
              (λ g. is_exec (ground (arith, g)) (ground (arith, g)))
              (λ g. is_none (λ known. ground (arith, known, e, f, g)))))
  where
    if_IsFound :
        (b : Bool) {o p : Option Command}
        → (b ≡ true → IsFound group cmd o)
        → (b ≡ false → IsFound group cmd p)
        → IsFound group cmd (if b then o else p)
    if_IsFound true h k = h refl
    if_IsFound false h k = k refl

module _ {F : Type 0} (handle_exec : Mailbox F → MailboxState × Mailbox F) where
  -- The state that a handler gets: no result, no error and no flags of an earlier request.
  abbrev pub cleared : Mailbox F → Mailbox F
  cleared s = record s { ram = clear_result_fields s.ram; mmuio_trigger = false }

  -- How a request of a group and a command ends up.
  pub data IsDispatched (group cmd : ℕ) (s : Mailbox F) (o : MailboxState × Mailbox F)
      : Type 0 where
    written : group ≡ 1 → cmd ≡ 1 → o ≡ handle_write (cleared s) → IsDispatched group cmd s o
    read_in : group ≡ 1 → cmd ≡ 2 → o ≡ handle_read (cleared s) → IsDispatched group cmd s o
    executed : group ≡ 2 → cmd ≡ 0x11 → o ≡ handle_exec (cleared s) → IsDispatched group cmd s o
    refused : ¬ IsCommand group cmd → o.0 ≡ mb_done → IsRefused s o.1 → IsDispatched group cmd s o

  -- Every group and command: 1 and 1 goes to the handler of console.write, 1 and 2 to that of
  -- console.read, 2 and $11 to that of fs.exec, each with the result fields cleared; all others end at
  -- once with ERROR and EINVAL, two results of 0 and a silent doorbell, and are counted.
  pub dispatch_command-IsDispatched :
      (group cmd : ℕ) (s : Mailbox F)
      → IsDispatched group cmd s (dispatch_command handle_exec group cmd s)
  unfolding dispatch_command handler
  dispatch_command-IsDispatched group cmd s =
      by_entry (find_mailbox_command group cmd) (find_mailbox_command-IsFound group cmd) refl
    where
      by_entry :
          (o : Option Command)
          → IsFound group cmd o
          → find_mailbox_command group cmd ≡ o
          → IsDispatched group cmd s (dispatch_command handle_exec group cmd s)
      by_entry (some console_write) (is_write g c) e = IsDispatched.written g c (rw e refl)
      by_entry (some console_read) (is_read g c) e = IsDispatched.read_in g c (rw e refl)
      by_entry (some fs_exec) (is_exec g c) e = IsDispatched.executed g c (rw e refl)
      by_entry none (is_none n) e =
          IsDispatched.refused n (rw e refl) (rw e (handle_unknown_command-IsRefused s))
