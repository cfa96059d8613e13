-- ===== src/Keyboard/Task.antt =====
-- NEO6502_MMU_V3/usb_hid_input.cpp: `taskUSBHIDInput`. `receive` is what `tuh_hid_receive_report` of
-- TinyUSB answers.
use neo6502_mmu_v.Base.{
  ℕ, ◌+◌, ◌-◌, ◌%◌, ◌^◌, Bool, true, false, not, ◌&&◌, ◌||◌, List, any, ltb, ◌==◌, if◌then◌else◌,
}
use neo6502_mmu_v.Keyboard.{console_pid_set, mouse_moved, Selected, Hid, emit}
use neo6502_mmu_v.Keyboard.Keys.{process_keys, repeat_task}
use neo6502_mmu_v.Keyboard.Devices.{byte_of, select_keyboard, select_mouse}

-- `usb_mouse_process_report`
unfoldable pub process_mouse : List ℕ → Hid → Hid
process_mouse report s =
    let movement =
      not (byte_of report 1 == 0)
      || not (byte_of report 2 == 0)
      || not (byte_of report 3 == 0)
      || not (byte_of report 4 == 0) in
    let buttons_changed = not (byte_of report 0 == byte_of s.last_mouse 0) in
    let t =
      if movement || buttons_changed
      then emit (mouse_moved (byte_of report 1) (byte_of report 2) (byte_of report 0)) s
      else s in
    record t { last_mouse = report }

-- `usb_hid_process_pending_reports`
unfoldable pub pending_keyboard : ℕ → Hid → Hid
pending_keyboard now s =
    if s.kbd.report_pending
    then process_keys now s.pending_keys
        (record s { kbd = record s.kbd { report_pending = false } })
    else s

unfoldable pub pending_pointer : Hid → Hid
pending_pointer s =
    if s.pointer.report_pending
    then process_mouse s.pending_mouse
        (record s { pointer = record s.pointer { report_pending = false } })
    else s

-- `usb_hid_arm_keyboard_report` and `usb_hid_arm_mouse_report`
abbrev pub arm : (ℕ → ℕ → Bool) → ℕ → Selected → Selected
arm receive now d =
    if not d.selected || d.report_active || d.report_pending
    then d
    else if ltb ((now + 2 ^ 32 - d.last_arm) % 2 ^ 32) 20
    then d
    else record d { last_arm = now; report_active = receive d.sel_addr d.sel_instance }

-- The notice that a device was removed.
unfoldable pub take_notice : Hid → Hid
take_notice s =
    let t =
      if s.kbd.removed_notice
      then emit (console_pid_set 0) (record s { kbd = record s.kbd { removed_notice = false } })
      else s in
    record t { pointer = record t.pointer { removed_notice = false } }

-- The delay that the first device starts.
unfoldable pub start_delay : ℕ → Hid → Hid
start_delay now s =
    if not s.arm_started && any (λ r. r.is_present) s.records
    then record s { arm_started = true; arm_start = now }
    else s

unfoldable pub work : (ℕ → ℕ → Bool) → ℕ → Hid → Hid
work receive now s =
    let t =
      repeat_task now (pending_pointer (pending_keyboard now (select_mouse (select_keyboard s)))) in
    record t { kbd = arm receive now t.kbd; pointer = arm receive now t.pointer }

-- `taskUSBHIDInput`, in a millisecond.
unfoldable pub task_hid : (ℕ → ℕ → Bool) → ℕ → Hid → Hid
task_hid receive now s =
    let s = start_delay now (take_notice s) in
    if not s.arm_started
    then s
    else if ltb ((now + 2 ^ 32 - s.arm_start) % 2 ^ 32) 1500
    then s
    else work receive now s
