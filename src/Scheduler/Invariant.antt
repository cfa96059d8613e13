-- ===== src/Scheduler/Invariant.antt =====
-- The single interrupt slot of NEO6502_MMU_V3/scheduler.cpp: how the pin, the state and the source go together.
use neo6502_mmu_v.Base.{ℕ, true, false, List, [], ◌∷◌, ◌≡◌, ◌≢◌, refl, arith}
use neo6502_mmu_v.Ram.{read}
use neo6502_mmu_v.Scheduler.{
  Scheduler, rp_irq_source, rp_irq_state, src_none, irq_none, irq_pending, gen_irq,
  request_fs_completion, request_console_break, stop_irq_timer, run_timer, task_irq_timer,
  init_scheduler, reset_slot, start_irq_timer, Event, fs_completed, break_typed, acknowledge, task,
  timer_stopped, mailbox_reset, timer_started, generated, apply, run,
}

-- A free slot has a high pin, no state and no source; a slot that names a source for the 6502 has a low
-- pin and is marked pending.
pub record IsSlot (s : Scheduler) : Type 0 where
  pub high : s.intr_pending ≡ false → s.irq_high ≡ true
  pub idle : s.intr_pending ≡ false → read s.ram rp_irq_state ≡ irq_none
  pub free : s.intr_pending ≡ false → read s.ram rp_irq_source ≡ src_none
  pub low : s.intr_pending ≡ true → read s.ram rp_irq_source ≢ src_none → s.irq_high ≡ false
  pub marked :
      s.intr_pending ≡ true
      → read s.ram rp_irq_source ≢ src_none
      → read s.ram rp_irq_state ≡ irq_pending

gen_irq-IsSlot : (src : ℕ) (s : Scheduler) → IsSlot s → IsSlot (gen_irq src s).1
unfolding gen_irq
gen_irq-IsSlot src s h = record {
  high = λ p. ground (arith, p, h.high, h.idle, h.free);
  idle = λ p. ground (arith, p, h.high, h.idle, h.free);
  free = λ p. ground (arith, p, h.high, h.idle, h.free);
  low = λ p n. ground (arith, p, n, h.low, h.high, h.idle, h.free);
  marked = λ p n. ground (arith, p, n, h.marked, h.high, h.idle, h.free);
}

pub task-IsSlot : (now now' : ℕ) (s : Scheduler) → IsSlot s → IsSlot (task_irq_timer now now' s)
unfolding task_irq_timer run_timer gen_irq
task-IsSlot now now' s h = record {
  high = λ p. ground (arith, p, h.high, h.idle, h.free);
  idle = λ p. ground (arith, p, h.high, h.idle, h.free);
  free = λ p. ground (arith, p, h.high, h.idle, h.free);
  low = λ p n. ground (arith, p, n, h.low, h.high, h.idle, h.free);
  marked = λ p n. ground (arith, p, n, h.marked, h.high, h.idle, h.free);
}

-- Whatever the slot held, stopping the timer frees it; so does initialising a scheduler that has
-- just started, with the pin high and nothing pending.
pub stop-IsSlot : (s : Scheduler) → IsSlot (stop_irq_timer s)
unfolding stop_irq_timer
stop-IsSlot s = record {
  high = λ _. refl;
  idle = λ _. refl;
  free = λ _. refl;
  low = λ p n. absurd (n refl);
  marked = λ p n. absurd (n refl);
}

pub init-IsSlot :
    (s : Scheduler) → s.irq_high ≡ true → s.intr_pending ≡ false → IsSlot (init_scheduler s)
unfolding init_scheduler
init-IsSlot s hp p = record {
  high = λ _. hp;
  idle = λ _. refl;
  free = λ _. refl;
  low = λ q n. absurd (n refl);
  marked = λ q n. absurd (n refl);
}

start-IsSlot : (period now : ℕ) (s : Scheduler) → IsSlot s → IsSlot (start_irq_timer period now s)
unfolding start_irq_timer stop_irq_timer
start-IsSlot period now s h = record {
  high = λ p. ground (arith, p, h.high, h.idle, h.free);
  idle = λ p. ground (arith, p, h.high, h.idle, h.free);
  free = λ p. ground (arith, p, h.high, h.idle, h.free);
  low = λ p n. ground (arith, p, n, h.low, h.high, h.idle, h.free);
  marked = λ p n. ground (arith, p, n, h.marked, h.high, h.idle, h.free);
}

reset-IsSlot : (s : Scheduler) → IsSlot s → IsSlot (reset_slot s)
unfolding reset_slot
reset-IsSlot s h = record {
  high = h.high;
  idle = λ p. refl;
  free = λ p. refl;
  low = λ p n. absurd (n refl);
  marked = λ p n. absurd (n refl);
}

pub apply-IsSlot : (e : Event) (s : Scheduler) → IsSlot s → IsSlot (apply e s)
unfolding apply request_fs_completion request_console_break
apply-IsSlot fs_completed s h = record {
  high = h.high;
  idle = h.idle;
  free = h.free;
  low = h.low;
  marked = h.marked;
}
apply-IsSlot break_typed s h = record {
  high = h.high;
  idle = h.idle;
  free = h.free;
  low = h.low;
  marked = h.marked;
}
apply-IsSlot acknowledge s h = record {
  high = h.high;
  idle = h.idle;
  free = λ p. refl;
  low = λ p n. absurd (n refl);
  marked = λ p n. absurd (n refl);
}
apply-IsSlot (task now now') s h = task-IsSlot now now' s h
apply-IsSlot (timer_started period now) s h = start-IsSlot period now s h
apply-IsSlot timer_stopped s h = stop-IsSlot s
apply-IsSlot (generated src) s h = gen_irq-IsSlot src s h
apply-IsSlot mailbox_reset s h = reset-IsSlot s h

pub run-IsSlot : (es : List Event) (s : Scheduler) → IsSlot s → IsSlot (run es s)
unfolding run
run-IsSlot [] s h = h
run-IsSlot (e ∷ es) s h = run-IsSlot es (apply e s) (apply-IsSlot e s h)
