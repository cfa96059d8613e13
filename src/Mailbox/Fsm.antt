-- ===== src/Mailbox/Fsm.antt =====
-- NEO6502_MMU_V3/mailbox.cpp: the command table, the dispatcher, the state machine and its
-- initialisation. The handler of fs.exec and the reset of the file system's handles, which
-- rp_fs_mailbox.cpp has, are arguments.
use neo6502_mmu_v.Base.{
  ℕ, ◌+◌, ◌%◌, ◌^◌, Bool, true, false, not, ◌&&◌, ◌||◌, Option, none, some, List, [], ◌∷◌, ltb,
  ◌==◌, if◌then◌else◌,
}
use neo6502_mmu_v.Ram.{Ram, read, write, rp_write16}
use neo6502_mmu_v.Input.{is_empty_cpuq}
use neo6502_mmu_v.Mailbox.Rp
use neo6502_mmu_v.Scheduler.{rp_irq_source, rp_irq_state}
use neo6502_mmu_v.Mailbox.Rp.{rp_idle, rp_busy, err_ok}
use neo6502_mmu_v.Mailbox.{
  MailboxState, mb_init, mb_idle, mb_write, mb_read, mb_done, Mailbox, clear_result_fields,
  handle_unknown_command,
}
use neo6502_mmu_v.Mailbox.Console.{
  handle_write, handle_read, process_write, process_read, console_reset,
}

-- The handlers the table names.
pub data Command : Type 0 where
  console_write console_read fs_exec : Command

-- `gMailboxCommands`
unfoldable pub commands : List (ℕ × ℕ × Command)
commands = (1, 1, console_write) ∷ (1, 2, console_read) ∷ (2, 0x11, fs_exec) ∷ []

unfoldable pub find_in : List (ℕ × ℕ × Command) → ℕ → ℕ → Option Command
find_in [] group cmd = none
find_in ((g, c, h) ∷ entries) group cmd =
    if (g == group) && (c == cmd) then some h else find_in entries group cmd

-- `rp_find_mailbox_command`
unfoldable pub find_mailbox_command : ℕ → ℕ → Option Command
find_mailbox_command = find_in commands

abbrev pub differ : Bool → Bool → Bool
differ true b = not b
differ false b = b

-- The `lastCheck` part of `taskMailbox`.
unfoldable pub show_ready : {F : Type 0} → Mailbox F → Mailbox F
show_ready s =
    let check = is_empty_cpuq s.input in
    if differ check s.last_check
    then record s {
      ram = write s.ram Rp.rp_console_rdy (if check then 0 else 1);
      last_check = check;
      mmuio_trigger = false;
    }
    else s

module _ {F : Type 0} (handle_exec : Mailbox F → MailboxState × Mailbox F) where
  unfoldable pub handler : Command → Mailbox F → MailboxState × Mailbox F
  handler console_write = handle_write
  handler console_read = handle_read
  handler fs_exec = handle_exec

  -- `rp_dispatch_mailbox_command`
  unfoldable pub dispatch_command : ℕ → ℕ → Mailbox F → MailboxState × Mailbox F
  dispatch_command group cmd s = found (find_mailbox_command group cmd)
    where
      found : Option Command → MailboxState × Mailbox F
      found none = (mb_done, handle_unknown_command s)
      found (some c) =
          handler c (record s { ram = clear_result_fields s.ram; mmuio_trigger = false })

  -- `rp_mailbox_dispatch_current_request`
  unfoldable pub dispatch_current_request : Mailbox F → MailboxState × Mailbox F
  dispatch_current_request s = dispatch_command (read s.ram Rp.rp_group) (read s.ram Rp.rp_cmd) s

  abbrev pub advance : Bool × Mailbox F → Mailbox F
  advance (done, s) = if done then record s { mailbox_state = mb_done } else s

  abbrev pub enter : MailboxState × Mailbox F → Mailbox F
  enter (state, s) = record s { mailbox_state = state }

  -- The state mbIDLE of `taskMailbox`.
  unfoldable pub poll : Mailbox F → Mailbox F
  poll s =
      let s = record s { poll_count = (s.poll_count + 1) % 2 ^ 32 } in
      if (not s.mmuio_trigger) && ltb s.l_count 250
      then record s { l_count = (s.l_count + 1) % 2 ^ 16 }
      else (let s = record s { mmuio_trigger = false; l_count = 0 } in
          if not (read s.ram Rp.rp_doorbell == 0) || (read s.ram Rp.rp_status == rp_busy)
          then enter (
              dispatch_current_request
                (record s { command_count = (s.command_count + 1) % 2 ^ 32 }))
          else s)

  unfoldable pub advance_state : MailboxState → Mailbox F → Mailbox F
  advance_state mb_init s = record s { mailbox_state = mb_idle }
  advance_state mb_idle s = poll s
  advance_state mb_write s = advance (process_write s)
  advance_state mb_read s = advance (process_read s)
  advance_state mb_done s = record s { mailbox_state = mb_idle }

  -- `taskMailbox`
  unfoldable pub task_mailbox : Mailbox F → Mailbox F
  task_mailbox s = let s = show_ready s in advance_state s.mailbox_state s

-- `initMailbox`
unfoldable pub init_mailbox : {F : Type 0} → (F → F) → Mailbox F → Mailbox F
init_mailbox fs_reset s =
    let zeros = clear_block (
      Rp.rp_flags ∷ Rp.rp_state ∷ Rp.rp_arg0l ∷ Rp.rp_arg0h ∷ Rp.rp_arg1l ∷ Rp.rp_arg1h
      ∷ Rp.rp_arg2l ∷ Rp.rp_arg2h ∷ []) in
    let m = clear_block (Rp.rp_doorbell ∷ Rp.rp_group ∷ Rp.rp_cmd ∷ []) s.ram in
    let m = zeros (write (write m Rp.rp_status rp_idle) Rp.rp_err err_ok) in
    let m = rp_write16 (rp_write16 m Rp.rp_res0l 0) Rp.rp_res1l 0 in
    let m = clear_block (Rp.rp_console_rdy ∷ rp_irq_source ∷ rp_irq_state ∷ []) m in
    let s = console_reset s in record s { ram = m; fs = fs_reset s.fs; mmuio_trigger = false }
  where
    clear_block : List ℕ → Ram → Ram
    clear_block [] m = m
    clear_block (a ∷ rest) m = clear_block rest (write m a 0)
