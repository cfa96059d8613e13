-- ===== src/Mailbox/Dispatch.antt =====
-- How NEO6502_MMU_V3/mailbox.cpp answers: the polls before a request is dispatched.
use neo6502_mmu_v.Base.{
  ℕ, zero, suc, ◌+◌, ◌%◌, ◌^◌, ◌≤◌, ◌<◌, Bool, true, false, not, ◌&&◌, ◌||◌, ◌≡◌, ◌≢◌, refl, ap,
  ◌∙◌, ◌⊎◌, inl, inr, arith, Bool-cases, ltb, ◌==◌, if◌then◌else◌,
}
use neo6502_mmu_v.Ram.{Ram, read, write}
use neo6502_mmu_v.Input.{is_empty_cpuq}
use neo6502_mmu_v.Mailbox.Rp
use neo6502_mmu_v.Mailbox.Rp.{rp_busy, rp_done, rp_error, err_ok, err_einval}
use neo6502_mmu_v.Mailbox.{MailboxState, mb_idle, Mailbox}
use neo6502_mmu_v.Mailbox.Fsm.{
  show_ready, dispatch_current_request, enter, poll, differ, advance_state, task_mailbox,
}

module _ {F : Type 0} (handle_exec : Mailbox F → MailboxState × Mailbox F) where
  -- The request that waits: the doorbell rings, or the block is still marked busy.
  abbrev pub IsRinging : Mailbox F → Type 0
  IsRinging s =
      (s.mailbox_state ≡ mb_idle)
      × ((not (read s.ram Rp.rp_doorbell == 0) || (read s.ram Rp.rp_status == rp_busy)) ≡ true)

  -- What may change while a request waits: the byte RP_CONSOLE_RDY and the poll's own variables.
  pub record IsIntact (s t : Mailbox F) : Type 0 where
    pub ram : (a : ℕ) → a ≢ Rp.rp_console_rdy → t.ram a ≡ s.ram a
    pub mailbox_state : t.mailbox_state ≡ s.mailbox_state
    pub transfer : t.transfer ≡ s.transfer
    pub input : t.input ≡ s.input
    pub fs : t.fs ≡ s.fs

  IsIntact-trans : {s t u : Mailbox F} → IsIntact s t → IsIntact t u → IsIntact s u
  IsIntact-trans h k = record {
    ram = λ a n. k.ram a n ∙ h.ram a n;
    mailbox_state = k.mailbox_state ∙ h.mailbox_state;
    transfer = k.transfer ∙ h.transfer;
    input = k.input ∙ h.input;
    fs = k.fs ∙ h.fs;
  }

  IsIntact-IsRinging : {s t : Mailbox F} → IsIntact s t → IsRinging s → IsRinging t
  IsIntact-IsRinging {s} {t} h (idle, rings) = (
    h.mailbox_state ∙ idle,
    rw (h.ram Rp.rp_doorbell (omega arith), h.ram Rp.rp_status (omega arith)) rings,
  )

  write_away : (m : Ram) (addr v a : ℕ) → addr < 2 ^ 16 → a ≢ addr → write m addr v a ≡ m a
  write_away m addr v a small n = ground (arith, n)

  show_ready-IsIntact :
      (s : Mailbox F) → IsIntact s (show_ready s) × ((show_ready s).l_count ≡ s.l_count)
  unfolding show_ready
  show_ready-IsIntact s = elim (Bool-cases (differ (is_empty_cpuq s.input) s.last_check)) [
    | inl e ↦ rw e (
      record {
        ram = λ a n.
            write_away s.ram Rp.rp_console_rdy (if is_empty_cpuq s.input then 0 else 1) a
              (omega arith) n;
        mailbox_state = refl;
        transfer = refl;
        input = refl;
        fs = refl;
      },
      refl,
    )
    | inr e ↦ rw e (
      record { ram = λ a n. refl; mailbox_state = refl; transfer = refl; input = refl; fs = refl },
      refl,
    )
  ]

  -- `n` calls of taskMailbox
  unfoldable pub polls : ℕ → Mailbox F → Mailbox F
  polls zero s = s
  polls (suc n) s = polls n (task_mailbox handle_exec s)

  -- The state in which the dispatcher is called.
  abbrev pub take_request : Mailbox F → Mailbox F
  take_request s = record s {
    poll_count = (s.poll_count + 1) % 2 ^ 32;
    mmuio_trigger = false;
    l_count = 0;
    command_count = (s.command_count + 1) % 2 ^ 32;
  }

  -- After at most `n` calls in which the request is intact, the next call dispatches it.
  pub record IsAnswered (n : ℕ) (s : Mailbox F) : Type 0 where
    pub calls : ℕ
    pub bounded : calls ≤ n
    pub ready : Mailbox F
    pub intact : IsIntact s ready
    pub dispatched :
        polls (suc calls) s
        ≡ enter handle_exec (dispatch_current_request handle_exec (take_request ready))

  task_idle :
      (s : Mailbox F)
      → IsRinging s
      → (((not (show_ready s).mmuio_trigger && ltb s.l_count 250) ≡ true)
          × (task_mailbox handle_exec s ≡ record (show_ready s) {
            poll_count = ((show_ready s).poll_count + 1) % 2 ^ 32;
            l_count = (s.l_count + 1) % 2 ^ 16;
          }))
        ⊎ (task_mailbox handle_exec s
            ≡ enter handle_exec
                (dispatch_current_request handle_exec (take_request (show_ready s))))
  unfolding task_mailbox advance_state poll
  task_idle s r =
      let (intact, same) = show_ready-IsIntact s in
      let (idle, rings) = IsIntact-IsRinging intact r in
      elim (Bool-cases (not (show_ready s).mmuio_trigger && ltb s.l_count 250)) [
        | inl e ↦ inl (e, rw (idle, same, e) refl)
        | inr e ↦ inr (rw (idle, same, e, rings) refl)
      ]

  -- The state after a call that only waits.
  abbrev waited : Mailbox F → Mailbox F
  waited s = record (show_ready s) {
    poll_count = ((show_ready s).poll_count + 1) % 2 ^ 32;
    l_count = (s.l_count + 1) % 2 ^ 16;
  }

  waited-IsIntact : (s : Mailbox F) → IsIntact s (waited s)
  waited-IsIntact s =
      let h = (show_ready-IsIntact s).0 in
      record {
        ram = h.ram;
        mailbox_state = h.mailbox_state;
        transfer = h.transfer;
        input = h.input;
        fs = h.fs;
      }

  dispatched_now :
      (n : ℕ) (s : Mailbox F)
      → task_mailbox handle_exec s
        ≡ enter handle_exec (dispatch_current_request handle_exec (take_request (show_ready s)))
      → IsAnswered n s
  unfolding polls
  dispatched_now n s d = record {
    calls = 0;
    bounded = omega arith;
    ready = show_ready s;
    intact = (show_ready-IsIntact s).0;
    dispatched = d;
  }

  -- In mbIDLE with a poll counter of at most 250, however the trigger's flag stands, a request that
  -- rings the doorbell, or marks the block busy, reaches the dispatcher after at most `n` waiting
  -- calls of taskMailbox, as it was made, for each `n` with `250 ≤ l_count + n`.
  pub polls-IsAnswered :
      (n : ℕ) (s : Mailbox F) → IsRinging s → s.l_count ≤ 250 → 250 ≤ s.l_count + n → IsAnswered n s
  unfolding polls
  polls-IsAnswered zero s r k h = elim (task_idle s r) [
    | inl (e, _) ↦ ground (arith, e, h)
    | inr d ↦ dispatched_now 0 s d
  ]
  polls-IsAnswered (suc n) s r k h = elim (task_idle s r) [
    | inl (e, d) ↦
        (let kept = waited-IsIntact s in
          let small = below (not (show_ready s).mmuio_trigger) s.l_count e in
          let a =
            polls-IsAnswered n (waited s) (IsIntact-IsRinging kept r) (ground (arith, small))
              (ground (arith, small, h)) in
          record {
            calls = suc a.calls;
            bounded = omega (arith, a.bounded);
            ready = a.ready;
            intact = IsIntact-trans kept a.intact;
            dispatched = ap (polls (suc a.calls)) d ∙ a.dispatched;
          })
    | inr d ↦ dispatched_now (suc n) s d
  ]
    where
      below : (b : Bool) (l : ℕ) → (b && ltb l 250) ≡ true → l < 250
      below b l e = ground (arith, e)
