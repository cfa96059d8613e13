-- ===== src/Keyboard/Kept.antt =====
-- NEO6502_MMU_V3/usb_hid_input.cpp: what each function leaves of the key repeat.
use neo6502_mmu_v.Base.{
  ℕ, length, ◌+◌, ◌-◌, ◌%◌, ◌^◌, ◌≡◌, refl, sym, ◌∙◌, ap, arith, inl, inr, Bool, true, false, not,
  ◌&&◌, ◌||◌, List, [], ◌∷◌, any, ltb, leb, ◌==◌, if◌then◌else◌, Option-cases, find?, Option, none,
  some,
}
use neo6502_mmu_v.Keyboard.{KeyReport, Role, Selected, Repeat, Hid}
use neo6502_mmu_v.Keyboard.Keys.{
  route, repeat_start, key_down, keys_down, repeat_update, process_keys, repeat_task,
}
use neo6502_mmu_v.Keyboard.Devices.{
  find_record, is_selected, is_keyboard, is_mouse, select_keyboard, select_mouse, put_record,
  mount_cb, drop_keyboard, drop_mouse, umount_cb, report_received_cb,
}
use neo6502_mmu_v.Keyboard.Task.{
  process_mouse, arm, pending_keyboard, pending_pointer, take_notice, start_delay, work, task_hid,
}
use neo6502_mmu_v.Keyboard.Held.{IsHeld, process_keys-IsHeld}

-- Nothing repeats and no report waits without a keyboard, and what repeats is held down.
pub record IsKeyboard (s : Hid) : Type 0 where
  pub held : IsHeld s
  pub waiting : s.kbd.report_pending ≡ true → s.kbd.selected ≡ true
  pub idle : s.key_repeat.active ≡ true → s.kbd.selected ≡ true

-- The fields that the invariant reads.
same_keys :
    {s t : Hid}
    → t.kbd ≡ s.kbd
    → t.key_repeat ≡ s.key_repeat
    → t.last_keys ≡ s.last_keys
    → t.layout ≡ s.layout
    → IsKeyboard s
    → IsKeyboard t
same_keys {s} {t} a b c d h = record {
  held = record {
    typed = λ e. rw b (h.held.typed (sym (ap (λ (r : Repeat). r.active) b) ∙ e));
    letter = λ e. rw (b, d) (h.held.letter (sym (ap (λ (r : Repeat). r.active) b) ∙ e));
    held = λ e. rw (b, c) (h.held.held (sym (ap (λ (r : Repeat). r.active) b) ∙ e));
    same_modifier =
        λ e. rw (b, c) (h.held.same_modifier (sym (ap (λ (r : Repeat). r.active) b) ∙ e));
  };
  waiting = λ e. rw a (h.waiting (sym (ap (λ (r : Selected). r.report_pending) a) ∙ e));
  idle = λ e. rw a (h.idle (sym (ap (λ (r : Repeat). r.active) b) ∙ e));
}

if_IsKeyboard :
    (b : Bool) (s t : Hid)
    → (b ≡ true → IsKeyboard s)
    → (b ≡ false → IsKeyboard t)
    → IsKeyboard (if b then s else t)
if_IsKeyboard true s t h k = h refl
if_IsKeyboard false s t h k = k refl

-- Where no key repeats.
pub no_repeat-IsKeyboard :
    {s : Hid}
    → s.key_repeat.active ≡ false
    → (s.kbd.report_pending ≡ true → s.kbd.selected ≡ true)
    → IsKeyboard s
no_repeat-IsKeyboard off w = record {
  held = record {
    typed = λ e. ground (arith, e, off);
    letter = λ e. ground (arith, e, off);
    held = λ e. ground (arith, e, off);
    same_modifier = λ e. ground (arith, e, off);
  };
  waiting = w;
  idle = λ e. ground (arith, e, off);
}

key_down-kbd : (now modifier key : ℕ) (s : Hid) → (key_down now modifier key s).kbd ≡ s.kbd
unfolding key_down route repeat_start
key_down-kbd now modifier key s = ground arith

keys_down-kbd :
    (now modifier : ℕ) (keys : List ℕ) (s : Hid) → (keys_down now modifier keys s).kbd ≡ s.kbd
unfolding keys_down
keys_down-kbd now modifier [] s = refl
keys_down-kbd now modifier (k ∷ keys) s =
    keys_down-kbd now modifier keys (key_down now modifier k s) ∙ key_down-kbd now modifier k s

process_keys-kbd :
    (now : ℕ) (report : KeyReport) (s : Hid) → (process_keys now report s).kbd ≡ s.kbd
unfolding process_keys repeat_update
process_keys-kbd now report s = ground (arith, keys_down-kbd now report.modifier report.keycode s)

process_keys-IsKeyboard :
    (now : ℕ) (report : KeyReport) (s : Hid)
    → s.kbd.selected ≡ true
    → IsHeld s
    → IsKeyboard (process_keys now report s)
process_keys-IsKeyboard now report s on h =
    let same : (process_keys now report s).kbd.selected ≡ true =
      ap (λ (r : Selected). r.selected) (process_keys-kbd now report s) ∙ on in
    record { held = process_keys-IsHeld now report s h; waiting = λ e. same; idle = λ e. same }

pending_keyboard-IsKeyboard :
    (now : ℕ) (s : Hid) → IsKeyboard s → IsKeyboard (pending_keyboard now s)
unfolding pending_keyboard
pending_keyboard-IsKeyboard now s h =
    if_IsKeyboard s.kbd.report_pending _ s
      (λ e.
        process_keys-IsKeyboard now s.pending_keys
          (record s { kbd = record s.kbd { report_pending = false } }) (h.waiting e)
          (record {
            typed = h.held.typed;
            letter = h.held.letter;
            held = h.held.held;
            same_modifier = h.held.same_modifier;
          }))
      (λ e. h)

repeat_task-IsKeyboard : (now : ℕ) (s : Hid) → IsKeyboard s → IsKeyboard (repeat_task now s)
unfolding repeat_task
repeat_task-IsKeyboard now s h =
    if_IsKeyboard (not s.key_repeat.active || s.key_repeat.rep_ascii == 0) s _ (λ e. h)
      (λ e.
        if_IsKeyboard (leb (2 ^ 31) ((now + 2 ^ 32 - s.key_repeat.next_ms) % 2 ^ 32)) s _ (λ f. h)
          (λ f. record {
            held = record {
              typed = h.held.typed;
              letter = h.held.letter;
              held = h.held.held;
              same_modifier = h.held.same_modifier;
            };
            waiting = h.waiting;
            idle = h.idle;
          }))

select_keyboard-IsKeyboard : (s : Hid) → IsKeyboard s → IsKeyboard (select_keyboard s)
unfolding select_keyboard
select_keyboard-IsKeyboard s h =
    if_IsKeyboard s.kbd.selected s _ (λ e. h)
      (λ e. elim (Option-cases (find? (λ r. r.is_present && is_keyboard r.role) s.records)) [
        | inl n ↦ rw n h
        | inr (r, f) ↦ rw f (no_repeat-IsKeyboard refl (λ w. refl))
      ])

select_mouse-IsKeyboard : (s : Hid) → IsKeyboard s → IsKeyboard (select_mouse s)
unfolding select_mouse
select_mouse-IsKeyboard s h =
    if_IsKeyboard s.pointer.selected s _ (λ e. h)
      (λ e. elim (Option-cases (find? (λ r. r.is_present && is_mouse r.role) s.records)) [
        | inl n ↦ rw n h
        | inr (r, f) ↦ rw f (same_keys refl refl refl refl h)
      ])

pending_pointer-IsKeyboard : (s : Hid) → IsKeyboard s → IsKeyboard (pending_pointer s)
unfolding pending_pointer process_mouse
pending_pointer-IsKeyboard s h =
    if_IsKeyboard s.pointer.report_pending _ s
      (λ e. same_keys (ground arith) (ground arith) (ground arith) (ground arith) h) (λ e. h)

arm-flags :
    (receive : ℕ → ℕ → Bool) (now : ℕ) (d : Selected)
    → ((arm receive now d).selected ≡ d.selected)
      × ((arm receive now d).report_pending ≡ d.report_pending)
arm-flags receive now d = ground arith

work-IsKeyboard :
    (receive : ℕ → ℕ → Bool) (now : ℕ) (s : Hid) → IsKeyboard s → IsKeyboard (work receive now s)
unfolding work
work-IsKeyboard receive now s h =
    let t =
      repeat_task now (pending_pointer (pending_keyboard now (select_mouse (select_keyboard s)))) in
    let k = repeat_task-IsKeyboard now _ (
      pending_pointer-IsKeyboard _ (
        pending_keyboard-IsKeyboard now _
          (select_mouse-IsKeyboard _ (select_keyboard-IsKeyboard s h)))) in
    let (on, waits) = arm-flags receive now t.kbd in
    record {
      held = record {
        typed = k.held.typed;
        letter = k.held.letter;
        held = k.held.held;
        same_modifier = k.held.same_modifier;
      };
      waiting = λ e. on ∙ k.waiting (sym waits ∙ e);
      idle = λ e. on ∙ k.idle e;
    }

take_notice-IsKeyboard : (s : Hid) → IsKeyboard s → IsKeyboard (take_notice s)
unfolding take_notice
take_notice-IsKeyboard s h = record {
  held = record {
    typed = λ e. ground (arith, h.held.typed, e);
    letter = λ e. ground (arith, h.held.letter, e);
    held = λ e. ground (arith, h.held.held, e);
    same_modifier = λ e. ground (arith, h.held.same_modifier, e);
  };
  waiting = λ e. ground (arith, h.waiting, e);
  idle = λ e. ground (arith, h.idle, e);
}

start_delay-IsKeyboard : (now : ℕ) (s : Hid) → IsKeyboard s → IsKeyboard (start_delay now s)
unfolding start_delay
start_delay-IsKeyboard now s h =
    if_IsKeyboard (not s.arm_started && any (λ r. r.is_present) s.records) _ s
      (λ e. same_keys refl refl refl refl h) (λ e. h)

pub task_hid-IsKeyboard :
    (receive : ℕ → ℕ → Bool) (now : ℕ) (s : Hid)
    → IsKeyboard s
    → IsKeyboard (task_hid receive now s)
unfolding task_hid
task_hid-IsKeyboard receive now s h =
    let t = start_delay now (take_notice s) in
    let k = start_delay-IsKeyboard now _ (take_notice-IsKeyboard s h) in
    if_IsKeyboard (not t.arm_started) t _ (λ e. k)
      (λ e.
        if_IsKeyboard (ltb ((now + 2 ^ 32 - t.arm_start) % 2 ^ 32) 1500) t _ (λ f. k)
          (λ f. work-IsKeyboard receive now t k))

put_record-IsKeyboard :
    (addr instance_id : ℕ) (role : Role) (slot : Option ℕ) (s : Hid)
    → IsKeyboard s
    → IsKeyboard (put_record addr instance_id role slot s)
unfolding put_record
put_record-IsKeyboard addr instance_id role none s h = h
put_record-IsKeyboard addr instance_id role (some i) s h = same_keys refl refl refl refl h

pub mount_cb-IsKeyboard :
    (addr instance_id : ℕ) (role : Role) (s : Hid)
    → IsKeyboard s
    → IsKeyboard (mount_cb addr instance_id role s)
unfolding mount_cb
mount_cb-IsKeyboard addr instance_id role s h = put_record-IsKeyboard addr instance_id role _ s h

drop_keyboard-IsKeyboard :
    (addr instance_id : ℕ) (s : Hid) → IsKeyboard s → IsKeyboard (drop_keyboard addr instance_id s)
unfolding drop_keyboard
drop_keyboard-IsKeyboard addr instance_id s h =
    if_IsKeyboard (is_selected addr instance_id s.kbd) _ s
      (λ e. no_repeat-IsKeyboard refl (λ w. cc)) (λ e. h)

drop_mouse-IsKeyboard :
    (addr instance_id : ℕ) (s : Hid) → IsKeyboard s → IsKeyboard (drop_mouse addr instance_id s)
unfolding drop_mouse
drop_mouse-IsKeyboard addr instance_id s h =
    if_IsKeyboard (is_selected addr instance_id s.pointer) _ s
      (λ e. same_keys refl refl refl refl h) (λ e. h)

pub umount_cb-IsKeyboard :
    (addr instance_id : ℕ) (s : Hid) → IsKeyboard s → IsKeyboard (umount_cb addr instance_id s)
unfolding umount_cb
umount_cb-IsKeyboard addr instance_id s h = drop_mouse-IsKeyboard addr instance_id _ (
    drop_keyboard-IsKeyboard addr instance_id _
      (elim (Option-cases (find_record addr instance_id s.records)) [
        | inl e ↦ rw e h
        | inr (i, e) ↦ rw e (same_keys refl refl refl refl h)
      ]))

pub report_received_cb-IsKeyboard :
    (addr instance_id : ℕ) (report : List ℕ) (s : Hid)
    → IsKeyboard s
    → IsKeyboard (report_received_cb addr instance_id report s)
unfolding report_received_cb
report_received_cb-IsKeyboard addr instance_id report s h =
    if_IsKeyboard (is_selected addr instance_id s.kbd) _ _
      (λ e.
        if_IsKeyboard (ltb (length report) 8) _ _
          (λ f. record {
            held = record {
              typed = h.held.typed;
              letter = h.held.letter;
              held = h.held.held;
              same_modifier = h.held.same_modifier;
            };
            waiting = h.waiting;
            idle = h.idle;
          })
          (λ f. record {
            held = record {
              typed = h.held.typed;
              letter = h.held.letter;
              held = h.held.held;
              same_modifier = h.held.same_modifier;
            };
            waiting = λ w. ground (arith, e);
            idle = h.idle;
          }))
      (λ e.
        if_IsKeyboard (is_selected addr instance_id s.pointer) _ s
          (λ f.
            if_IsKeyboard (length report == 0) _ _ (λ g. same_keys refl refl refl refl h)
              (λ g. same_keys refl refl refl refl h))
          (λ f. h))
