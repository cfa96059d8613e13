-- ===== src/Scheduler/Tests.antt =====
-- Runs of the interrupt slot of NEO6502_MMU_V3/scheduler.cpp.
use neo6502_mmu_v.Base.{true, false, List, [], ◌∷◌, any, ◌≡◌, refl, arith}
use neo6502_mmu_v.Ram.{Ram, read, write}
use neo6502_mmu_v.Scheduler.{
  Scheduler, rp_irq_source, rp_irq_state, src_none, src_timer, src_fs_done, src_console_break,
  irq_pending, gen_irq, request_fs_completion, request_console_break, start_irq_timer, run_timer,
  task_irq_timer, fs_completed, break_typed, Event, task, timer_started, mailbox_reset, generated,
  releases, apply, run,
}
use neo6502_mmu_v.Scheduler.Invariant.{IsSlot, run-IsSlot}
use neo6502_mmu_v.Scheduler.Slot.{
  IsTaken, IsAsked, run-IsTaken, apply-pending, ack_round, ack_round-delivery,
}

abbrev blank : Ram
blank _ = 0

abbrev powered_on : Scheduler
powered_on = record {
  ram = blank;
  irq_high = true;
  intr_pending = false;
  fs_completion_pending = false;
  console_break_pending = false;
  timer_enabled = true;
  timer_interval = 20;
  last_ts = 0;
  task_timer_counter = 0;
}

powered_on-IsSlot : IsSlot powered_on
powered_on-IsSlot = record {
  high = λ _. refl;
  idle = λ _. refl;
  free = λ _. refl;
  low = λ p _. ground (arith, p);
  marked = λ p _. ground (arith, p);
}

-- The timer has fired, and then both requests came.
abbrev busy : Scheduler
busy = record powered_on {
  ram = write (write blank rp_irq_state irq_pending) rp_irq_source src_timer;
  irq_high = false;
  intr_pending = true;
  fs_completion_pending = true;
  console_break_pending = true;
  last_ts = 25;
}

busy-IsSlot : IsSlot busy
busy-IsSlot = record {
  high = λ p. ground (arith, p);
  idle = λ p. ground (arith, p);
  free = λ p. ground (arith, p);
  low = λ _ _. refl;
  marked = λ _ _. refl;
}

run-busy : run (task 25 25 ∷ fs_completed ∷ break_typed ∷ []) powered_on ≡ busy
unfolding run apply task_irq_timer run_timer gen_irq request_fs_completion request_console_break
run-busy = refl

-- The state byte of a slot that is not in use is set: `genIRQ6502` refuses, and the request waits.
refused : (apply (task 5 5) (record busy { intr_pending = false })).console_break_pending ≡ true
unfolding apply task_irq_timer gen_irq
refused = refl

-- The monitor starts the timer while the file system's completion holds the slot.
abbrev disturbed : List Event
disturbed =
    fs_completed ∷ task 1 1 ∷ timer_started 20 2 ∷ task 3 3 ∷ mailbox_reset ∷ generated 2 ∷ []

run-IsSlot_example : IsSlot (run disturbed powered_on)
run-IsSlot_example = run-IsSlot disturbed powered_on powered_on-IsSlot

abbrev undisturbed : List Event
undisturbed = task 90 90 ∷ generated 2 ∷ break_typed ∷ []

undisturbed_keeps : any releases undisturbed ≡ false
unfolding any releases
undisturbed_keeps = refl

run-IsTaken_example : IsTaken src_timer (run undisturbed busy)
run-IsTaken_example =
    run-IsTaken undisturbed src_timer busy undisturbed_keeps (λ p. ground (arith, p))
      ((refl, refl), refl)

apply-pending_example :
    (busy.fs_completion_pending ≡ true
      → IsAsked src_fs_done
          (apply (task 90 90) busy).fs_completion_pending
          (apply (task 90 90) busy))
    × (busy.console_break_pending ≡ true
        → IsAsked src_console_break
            (apply (task 90 90) busy).console_break_pending
            (apply (task 90 90) busy))
apply-pending_example = apply-pending (task 90 90) busy

ack_round-delivery_example :
    (let t = run (ack_round 30 30 31 31) busy in
      let u = run (ack_round 30 30 31 31) t in
      IsTaken src_console_break t
      × IsTaken src_fs_done u
      × (u.console_break_pending ≡ false)
      × (u.fs_completion_pending ≡ false))
ack_round-delivery_example = ack_round-delivery 30 30 31 31 busy busy-IsSlot refl refl refl

-- startIRQTimer clears RP_IRQ_SOURCE behind an interrupt the 6502 has not seen: a completion that
-- held the slot is gone, and no request waits for it.
completion_lost :
    (let s = run (fs_completed ∷ task 1 1 ∷ []) powered_on in
      let t = start_irq_timer 20 2 s in
      (read s.ram rp_irq_source ≡ src_fs_done)
      × (read t.ram rp_irq_source ≡ src_none)
      × (t.irq_high ≡ true)
      × (t.fs_completion_pending ≡ false))
unfolding run apply task_irq_timer run_timer gen_irq request_fs_completion start_irq_timer
completion_lost = (refl, refl, refl, refl)
