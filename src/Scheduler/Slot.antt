-- ===== src/Scheduler/Slot.antt =====
-- The single interrupt slot of NEO6502_MMU_V3/scheduler.cpp: who holds it, and who waits for it.
use neo6502_mmu_v.Base.{
  ℕ, any, Bool, true, false, List, [], ◌∷◌, ◌≡◌, ◌≢◌, ◌⊎◌, inl, refl, sym, subst, ◌∙◌, arith,
}
use neo6502_mmu_v.Ram.{read}
use neo6502_mmu_v.Scheduler.{
  Scheduler, rp_irq_source, src_none, src_fs_done, src_console_break, gen_irq,
  request_fs_completion, request_console_break, stop_irq_timer, task_irq_timer, reset_slot,
  start_irq_timer, Event, fs_completed, break_typed, acknowledge, task, timer_stopped,
  mailbox_reset, timer_started, generated, releases, apply, run,
}
use neo6502_mmu_v.Scheduler.Invariant.{IsSlot, task-IsSlot, apply-IsSlot, run-IsSlot}

-- The 6502 has not yet cleared RP_IRQ_SOURCE for the interrupt `src`.
abbrev pub IsHeld : ℕ → Scheduler → Type 0
IsHeld src s = (s.intr_pending ≡ true) × (read s.ram rp_irq_source ≡ src)

task_held :
    (now now' src : ℕ) (s : Scheduler)
    → src ≢ src_none
    → IsHeld src s
    → task_irq_timer now now' s ≡ s
unfolding task_irq_timer
task_held now now' src s k (p, r) = ground (arith, p, r, k)

gen_irq_held : (src : ℕ) (s : Scheduler) → s.intr_pending ≡ true → (gen_irq src s).1 ≡ s
unfolding gen_irq
gen_irq_held src s p = ground (arith, p)

abbrev pub IsTaken : ℕ → Scheduler → Type 0
IsTaken src s = IsHeld src s × (s.irq_high ≡ false)

apply-IsTaken :
    (e : Event) (src : ℕ) (s : Scheduler)
    → releases e ≡ false
    → src ≢ src_none
    → IsTaken src s
    → IsTaken src (apply e s)
unfolding apply releases request_fs_completion request_console_break
apply-IsTaken fs_completed src s n k h = h
apply-IsTaken break_typed src s n k h = h
apply-IsTaken acknowledge src s n k h = ground (arith, n)
apply-IsTaken timer_stopped src s n k h = ground (arith, n)
apply-IsTaken mailbox_reset src s n k h = ground (arith, n)
apply-IsTaken (timer_started period now) src s n k h = ground (arith, n)
apply-IsTaken (task now now') src s n k h =
    subst (IsTaken src) (sym (task_held now now' src s k h.0)) h
apply-IsTaken (generated other) src s n k h =
    subst (IsTaken src) (sym (gen_irq_held other s h.0.0)) h

pub run-IsTaken :
    (es : List Event) (src : ℕ) (s : Scheduler)
    → any releases es ≡ false
    → src ≢ src_none
    → IsTaken src s
    → IsTaken src (run es s)
unfolding run any
run-IsTaken [] src s n k h = h
run-IsTaken (e ∷ es) src s n k h =
    run-IsTaken es src (apply e s) (ground (arith, n)) k
      (apply-IsTaken e src s (ground (arith, n)) k h)

-- A request that `src` still waits, or has just got the slot.
abbrev pub IsAsked : ℕ → Bool → Scheduler → Type 0
IsAsked src waiting s = (waiting ≡ true) ⊎ IsTaken src s

-- The three things a call of `taskIRQTimer` does outside the timer: it gives a free slot to the
-- console break, else to the file system, and notices an acknowledgement.
task_break :
    (now now' : ℕ) (s : Scheduler)
    → IsSlot s
    → s.intr_pending ≡ false
    → s.console_break_pending ≡ true
    → (let t = task_irq_timer now now' s in
        IsTaken src_console_break t
        × (t.fs_completion_pending ≡ s.fs_completion_pending)
        × (t.console_break_pending ≡ false))
unfolding task_irq_timer gen_irq
task_break now now' s h p b = ground (arith, h.idle p, p, b)

task_fs_done :
    (now now' : ℕ) (s : Scheduler)
    → IsSlot s
    → s.intr_pending ≡ false
    → s.console_break_pending ≡ false
    → s.fs_completion_pending ≡ true
    → (let t = task_irq_timer now now' s in
        IsTaken src_fs_done t
        × (t.fs_completion_pending ≡ false)
        × (t.console_break_pending ≡ false))
unfolding task_irq_timer gen_irq
task_fs_done now now' s h p b f = ground (arith, h.idle p, p, b, f)

task_occupied :
    (now now' : ℕ) (s : Scheduler)
    → s.intr_pending ≡ true
    → (let t = task_irq_timer now now' s in
        (t.fs_completion_pending ≡ s.fs_completion_pending)
        × (t.console_break_pending ≡ s.console_break_pending)
        × (read s.ram rp_irq_source ≡ src_none → t.intr_pending ≡ false))
unfolding task_irq_timer
task_occupied now now' s p = ground (arith, p)

start_irq_timer_pending :
    (period now : ℕ) (s : Scheduler)
    → ((start_irq_timer period now s).fs_completion_pending ≡ s.fs_completion_pending)
      × ((start_irq_timer period now s).console_break_pending ≡ s.console_break_pending)
unfolding start_irq_timer stop_irq_timer
start_irq_timer_pending period now s = ground arith

gen_irq_pending :
    (src : ℕ) (s : Scheduler)
    → ((gen_irq src s).1.fs_completion_pending ≡ s.fs_completion_pending)
      × ((gen_irq src s).1.console_break_pending ≡ s.console_break_pending)
unfolding gen_irq
gen_irq_pending src s = ground arith

-- What `taskIRQTimer` leaves of a request, whether or not `genIRQ6502` gets the slot.
task-pending :
    (now now' : ℕ) (s : Scheduler)
    → (let t = task_irq_timer now now' s in
        (s.fs_completion_pending ≡ true → IsAsked src_fs_done t.fs_completion_pending t)
        × (s.console_break_pending ≡ true → IsAsked src_console_break t.console_break_pending t))
unfolding task_irq_timer gen_irq
task-pending now now' s = (λ q. ground (arith, q), λ q. ground (arith, q))

-- In every state of the slot, no event loses a waiting request of the file system or the console, the
-- monitor's calls included: after it the request still waits or holds the slot.
pub apply-pending :
    (e : Event) (s : Scheduler)
    → (s.fs_completion_pending ≡ true
        → IsAsked src_fs_done (apply e s).fs_completion_pending (apply e s))
      × (s.console_break_pending ≡ true
          → IsAsked src_console_break (apply e s).console_break_pending (apply e s))
unfolding apply request_fs_completion request_console_break stop_irq_timer reset_slot
apply-pending fs_completed s = (λ p. inl refl, λ p. inl p)
apply-pending break_typed s = (λ p. inl p, λ p. inl refl)
apply-pending acknowledge s = (λ p. inl p, λ p. inl p)
apply-pending timer_stopped s = (λ p. inl p, λ p. inl p)
apply-pending mailbox_reset s = (λ p. inl p, λ p. inl p)
apply-pending (timer_started period now) s =
    let (f, b) = start_irq_timer_pending period now s in (λ p. inl (f ∙ p), λ p. inl (b ∙ p))
apply-pending (generated src) s =
    let (f, b) = gen_irq_pending src s in (λ p. inl (f ∙ p), λ p. inl (b ∙ p))
apply-pending (task now now') s = task-pending now now' s

-- The 6502 acknowledges, one call of `taskIRQTimer` notices it and the next one uses the slot.
abbrev pub ack_round : ℕ → ℕ → ℕ → ℕ → List Event
ack_round a a' b b' = acknowledge ∷ task a a' ∷ task b b' ∷ []

record IsFreed (s t : Scheduler) : Type 0 where
  slot : IsSlot t
  freed : t.intr_pending ≡ false
  fs_kept : t.fs_completion_pending ≡ s.fs_completion_pending
  break_kept : t.console_break_pending ≡ s.console_break_pending

noticed :
    (a a' : ℕ) (s : Scheduler)
    → IsSlot s
    → s.intr_pending ≡ true
    → IsFreed s (task_irq_timer a a' (apply acknowledge s))
unfolding apply
noticed a a' s h p =
    let (f, b, n) = task_occupied a a' (apply acknowledge s) p in
    record {
      slot = task-IsSlot a a' (apply acknowledge s) (apply-IsSlot acknowledge s h);
      freed = n refl;
      fs_kept = f;
      break_kept = b;
    }

round_break :
    (a a' b b' : ℕ) (s : Scheduler)
    → IsSlot s
    → s.intr_pending ≡ true
    → s.console_break_pending ≡ true
    → (let t = run (ack_round a a' b b') s in
        IsTaken src_console_break t
        × (t.fs_completion_pending ≡ s.fs_completion_pending)
        × (t.console_break_pending ≡ false))
unfolding run apply
round_break a a' b b' s h p q =
    let n = noticed a a' s h p in
    let (taken, f, e) =
      task_break b b' (task_irq_timer a a' (apply acknowledge s)) n.slot n.freed
        (n.break_kept ∙ q) in
    (taken, f ∙ n.fs_kept, e)

round_fs_done :
    (a a' b b' : ℕ) (s : Scheduler)
    → IsSlot s
    → s.intr_pending ≡ true
    → s.console_break_pending ≡ false
    → s.fs_completion_pending ≡ true
    → (let t = run (ack_round a a' b b') s in
        IsTaken src_fs_done t
        × (t.fs_completion_pending ≡ false)
        × (t.console_break_pending ≡ false))
unfolding run apply
round_fs_done a a' b b' s h p q r =
    let n = noticed a a' s h p in
    task_fs_done b b' (task_irq_timer a a' (apply acknowledge s)) n.slot n.freed (n.break_kept ∙ q)
      (n.fs_kept ∙ r)

-- Where the slot is well-formed and both requests wait behind an occupied slot, one round of acknowledgement delivers the
-- console break, and the next one the file system's completion; then nothing waits.
pub ack_round-delivery :
    (a a' b b' : ℕ) (s : Scheduler)
    → IsSlot s
    → s.intr_pending ≡ true
    → s.console_break_pending ≡ true
    → s.fs_completion_pending ≡ true
    → (let t = run (ack_round a a' b b') s in
        let u = run (ack_round a a' b b') t in
        IsTaken src_console_break t
        × IsTaken src_fs_done u
        × (u.console_break_pending ≡ false)
        × (u.fs_completion_pending ≡ false))
ack_round-delivery a a' b b' s h p q r =
    let (taken, f, e) = round_break a a' b b' s h p q in
    let (taken', f', e') =
      round_fs_done a a' b b' (run (ack_round a a' b b') s) (run-IsSlot (ack_round a a' b b') s h)
        taken.0.0 e (f ∙ r) in
    (taken, taken', e', f')
