-- ===== src/Keyboard/Keys.antt =====
-- NEO6502_MMU_V3/usb_hid_input.cpp: the keys of a report and the key repeat. `now` is what `millis()`
-- gives.
use neo6502_mmu_v.Base.{
  ℕ, ◌+◌, ◌-◌, ◌%◌, ◌^◌, Bool, true, false, not, ◌&&◌, ◌||◌, List, [], ◌∷◌, bit_and, any, leb, ◌==◌,
  if◌then◌else◌,
}
use neo6502_mmu_v.Keyboard.{
  KeyReport, console_input, console_pid_set, console_break, Hid, emit, repeat_clear,
}
use neo6502_mmu_v.Keyboard.Layout.{keycode_to_ascii}

-- `usb_keyboard_key_is_down`
unfoldable pub key_is_down : KeyReport → ℕ → Bool
key_is_down report key = any (λ k. k == key) report.keycode

-- `usb_keyboard_is_route_key`
abbrev pub is_route_key : ℕ → Bool
is_route_key key = leb 0x3a key && leb key 0x45

-- `usb_keyboard_is_console_break`, with the key code and the masks of config.h.
unfoldable pub is_console_break : ℕ → ℕ → Bool
is_console_break key modifier =
    if not (key == 0x06) then false else if bit_and modifier 0x11 == 0 then false else true

-- `usb_keyboard_handle_route_key_down`, for a route key.
unfoldable pub route : ℕ → Hid → Hid
route key s =
    if leb key 0x42
    then emit (console_pid_set (key - 0x3a + 1)) (repeat_clear s)
    else if key == 0x43
    then emit (console_pid_set 0) (repeat_clear s)
    else repeat_clear s

-- `usb_keyboard_repeat_start`
unfoldable pub repeat_start : ℕ → ℕ → ℕ → ℕ → Hid → Hid
repeat_start now key modifier ascii s = if ascii == 0 then repeat_clear s else record s {
  key_repeat = record {
    active = true;
    rep_keycode = key;
    rep_modifier = modifier;
    rep_ascii = ascii;
    next_ms = (now + 500) % 2 ^ 32;
  };
}

-- One round of the loop of `usb_keyboard_process_report`.
unfoldable pub key_down : ℕ → ℕ → ℕ → Hid → Hid
key_down now modifier key s =
    if key == 0
    then s
    else if key_is_down s.last_keys key
    then s
    else if is_console_break key modifier
    then emit console_break (repeat_clear s)
    else if is_route_key key
    then route key s
    else (let c = keycode_to_ascii s.layout key modifier in
        if c == 0 then s else repeat_start now key modifier c (emit (console_input c) s))

unfoldable pub keys_down : ℕ → ℕ → List ℕ → Hid → Hid
keys_down now modifier [] s = s
keys_down now modifier (key ∷ keys) s = keys_down now modifier keys (key_down now modifier key s)

-- `usb_keyboard_repeat_update_from_report`
unfoldable pub repeat_update : KeyReport → Hid → Hid
repeat_update report s =
    if not s.key_repeat.active
    then s
    else if not (key_is_down report s.key_repeat.rep_keycode)
    then repeat_clear s
    else if not (report.modifier == s.key_repeat.rep_modifier)
    then (let c = keycode_to_ascii s.layout s.key_repeat.rep_keycode report.modifier in
        if c == 0 then repeat_clear s else record s {
          key_repeat = record s.key_repeat { rep_modifier = report.modifier; rep_ascii = c };
        })
    else s

-- `usb_keyboard_process_report`
unfoldable pub process_keys : ℕ → KeyReport → Hid → Hid
process_keys now report s =
    record (repeat_update report (keys_down now report.modifier report.keycode s)) {
      last_keys = report;
    }

-- `usb_keyboard_repeat_task`
unfoldable pub repeat_task : ℕ → Hid → Hid
repeat_task now s =
    if not s.key_repeat.active || s.key_repeat.rep_ascii == 0
    then s
    else if leb (2 ^ 31) ((now + 2 ^ 32 - s.key_repeat.next_ms) % 2 ^ 32)
    then s
    else let t = emit (console_input s.key_repeat.rep_ascii) s in
      record t { key_repeat = record s.key_repeat { next_ms = (now + 50) % 2 ^ 32 } }
