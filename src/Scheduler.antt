-- ===== src/Scheduler.antt =====
-- NEO6502_MMU_V3/scheduler.h and scheduler.cpp: the one interrupt slot towards the 6502, its
-- pending requests and the periodic timer. `millis()` is an argument of each call that reads it;
-- messages on the serial port are left out.
use neo6502_mmu_v.Base.{
  ℕ, zero, suc, ◌+◌, ◌%◌, ◌^◌, Bool, true, false, not, ◌&&◌, ◌||◌, List, [], ◌∷◌, ltb, leb, ◌==◌,
  if◌then◌else◌,
}
use neo6502_mmu_v.Ram.{Ram, read, write}
pub mod Invariant
pub mod Slot
mod Tests

-- mailbox.h
abbrev pub rp_irq_source : ℕ
rp_irq_source = 0xb010

abbrev pub rp_irq_state : ℕ
rp_irq_state = 0xb013

-- `irq_source_t` and `irq_state_t`
abbrev pub src_none : ℕ
src_none = 0

abbrev pub src_timer : ℕ
src_timer = 1

abbrev pub src_fs_done : ℕ
src_fs_done = 3

abbrev pub src_console_break : ℕ
src_console_break = 4

abbrev pub irq_none : ℕ
irq_none = 0

abbrev pub irq_pending : ℕ
irq_pending = 1

-- The static variables of scheduler.cpp, the level of the IRQ pin (low is active) and the memory.
pub record Scheduler : Type 0 where
  pub ram : Ram
  pub irq_high : Bool
  pub intr_pending : Bool
  pub fs_completion_pending : Bool
  pub console_break_pending : Bool
  pub timer_enabled : Bool
  pub timer_interval : ℕ
  pub last_ts : ℕ
  pub task_timer_counter : ℕ

-- `genIRQ6502`
unfoldable pub gen_irq : ℕ → Scheduler → Bool × Scheduler
gen_irq src s =
    if s.intr_pending
    then (false, s)
    else if read s.ram rp_irq_state == irq_none
    then (
      true,
      record s {
        ram = write (write s.ram rp_irq_state irq_pending) rp_irq_source src;
        irq_high = false;
        intr_pending = true;
      },
    )
    else (false, s)

-- `requestFSCompletionIRQ` and `requestConsoleBreakIRQ`
unfoldable pub request_fs_completion : Scheduler → Scheduler
request_fs_completion s = record s { fs_completion_pending = true }

unfoldable pub request_console_break : Scheduler → Scheduler
request_console_break s = record s { console_break_pending = true }

abbrev clear_slot : Ram → Ram
clear_slot m = write (write m rp_irq_source src_none) rp_irq_state irq_none

-- `stopIRQTimer`
unfoldable pub stop_irq_timer : Scheduler → Scheduler
stop_irq_timer s = record s {
  ram = clear_slot s.ram;
  irq_high = true;
  intr_pending = false;
  timer_enabled = false;
}

-- `startIRQTimer`
unfoldable pub start_irq_timer : ℕ → ℕ → Scheduler → Scheduler
start_irq_timer period now s =
    if ltb period 65535
    then record s {
      ram = clear_slot s.ram;
      irq_high = true;
      timer_enabled = true;
      timer_interval = period;
      last_ts = now;
    }
    else stop_irq_timer s

-- The part of `taskIRQTimer` behind the pending requests; `now` and `now'` are what its two calls
-- of `millis()` return.
unfoldable pub run_timer : ℕ → ℕ → Scheduler → Scheduler
run_timer now now' s =
    if not s.timer_enabled
    then s
    else if leb ((s.last_ts + s.timer_interval) % 2 ^ 32) now
    then (let (done, t) = gen_irq src_timer (record s { last_ts = now' }) in
        record t { task_timer_counter = if done then 0 else (t.task_timer_counter + 1) % 2 ^ 8 })
    else s

-- `taskIRQTimer`
unfoldable pub task_irq_timer : ℕ → ℕ → Scheduler → Scheduler
task_irq_timer now now' s =
    if s.intr_pending
    then (if read s.ram rp_irq_source == src_none
        then record s {
          ram = write s.ram rp_irq_state irq_none;
          irq_high = true;
          intr_pending = false;
        }
        else s)
    else if s.console_break_pending
    then (let (done, t) = gen_irq src_console_break s in
        if done then record t { console_break_pending = false } else t)
    else if s.fs_completion_pending
    then (let (done, t) = gen_irq src_fs_done s in
        if done then record t { fs_completion_pending = false } else t)
    else run_timer now now' s

-- `initScheduler`
unfoldable pub init_scheduler : Scheduler → Scheduler
init_scheduler s = record s {
  ram = clear_slot s.ram;
  fs_completion_pending = false;
  console_break_pending = false;
}

-- `initMailbox` of mailbox.cpp, as far as it writes the slot.
unfoldable pub reset_slot : Scheduler → Scheduler
reset_slot s = record s { ram = clear_slot s.ram }

-- What may happen to the slot once the program runs: a request by another module, a call of
-- `taskIRQTimer`, the 6502's acknowledgement, which clears RP_IRQ_SOURCE, and what the monitor does:
-- it starts and stops the timer, generates an interrupt, and initialises the mailbox.
pub data Event : Type 0 where
  fs_completed break_typed acknowledge timer_stopped mailbox_reset : Event
  task timer_started : ℕ → ℕ → Event
  generated : ℕ → Event

unfoldable pub apply : Event → Scheduler → Scheduler
apply fs_completed s = request_fs_completion s
apply break_typed s = request_console_break s
apply acknowledge s = record s { ram = write s.ram rp_irq_source src_none }
apply (task now now') s = task_irq_timer now now' s
apply (timer_started period now) s = start_irq_timer period now s
apply timer_stopped s = stop_irq_timer s
apply (generated src) s = (gen_irq src s).1
apply mailbox_reset s = reset_slot s

unfoldable pub run : List Event → Scheduler → Scheduler
run [] s = s
run (e ∷ es) s = run es (apply e s)

-- The events that end an interrupt: the acknowledgement, and what the monitor does to the timer and
-- the mailbox.
unfoldable pub releases : Event → Bool
releases acknowledge = true
releases timer_stopped = true
releases mailbox_reset = true
releases (timer_started _ _) = true
releases fs_completed = false
releases break_typed = false
releases (task _ _) = false
releases (generated _) = false
