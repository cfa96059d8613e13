-- ===== src/Keyboard/Tests.antt =====
-- Runs of the keyboard model.
use neo6502_mmu_v.Base.{
  some, arith, ℕ, ◌≡◌, ◌<◌, any, find?, find_index?, refl, true, false, List, [], ◌∷◌, replicate,
}
use neo6502_mmu_v.Keyboard.{
  Role, KeyReport, no_keys, no_repeat, keyboard, Selected, Hid, console_input,
}
use neo6502_mmu_v.Keyboard.Layout.{us_layout, keycode_to_ascii, de, builtin_layout}
use neo6502_mmu_v.Keyboard.Devices.{
  no_record, mount_cb, put_record, report_received_cb, select_keyboard, select_mouse,
}
use neo6502_mmu_v.Keyboard.Keys.{
  process_keys, keys_down, key_down, key_is_down, is_console_break, repeat_start, repeat_update,
  repeat_task,
}
use neo6502_mmu_v.Keyboard.Task.{
  task_hid, start_delay, take_notice, work, pending_keyboard, pending_pointer,
}
use neo6502_mmu_v.Keyboard.Ascii.{keycode_to_ascii-bound}
use neo6502_mmu_v.Keyboard.Again.{process_keys-again}
use neo6502_mmu_v.Keyboard.Run.{HidCall, call_hid, run_hid, run_hid-IsKeyboard}
use neo6502_mmu_v.Keyboard.Kept.{IsKeyboard, no_repeat-IsKeyboard}
use neo6502_mmu_v.Keyboard.Descriptor.{classify_descriptor}
use neo6502_mmu_v.Keyboard.Scanned.{classify_descriptor-ends}

abbrev nothing_selected : Selected
nothing_selected = record {
  selected = false;
  sel_addr = 0;
  sel_instance = 0;
  report_pending = false;
  report_active = false;
  removed_notice = false;
  last_arm = 0;
}

abbrev start : Hid
start = record {
  records = replicate 12 no_record;
  kbd = nothing_selected;
  last_keys = no_keys;
  pending_keys = no_keys;
  key_repeat = no_repeat;
  pointer = nothing_selected;
  last_mouse = replicate 5 0;
  pending_mouse = replicate 5 0;
  arm_started = false;
  arm_start = 0;
  layout = us_layout;
  events = [];
}

start-IsKeyboard : IsKeyboard start
start-IsKeyboard = no_repeat-IsKeyboard refl (λ e. e)

-- A keyboard comes, shift and A are pressed and held over the repeat delay.
abbrev shift_a : List HidCall
shift_a =
    HidCall.mounts 1 0 keyboard
    ∷ HidCall.tasks (λ a i. true) 100
    ∷ HidCall.tasks (λ a i. true) 1700
    ∷ HidCall.reports 1 0 (0x02 ∷ 0 ∷ 0x04 ∷ 0 ∷ 0 ∷ 0 ∷ 0 ∷ 0 ∷ [])
    ∷ HidCall.tasks (λ a i. true) 1710
    ∷ HidCall.tasks (λ a i. true) 2300
    ∷ []

run_hid-IsKeyboard_example : IsKeyboard (run_hid shift_a start)
run_hid-IsKeyboard_example = run_hid-IsKeyboard shift_a start start-IsKeyboard

-- The key types at once and again when it repeats.
shift_a_types : (run_hid shift_a start).events ≡ console_input 0x41 ∷ console_input 0x41 ∷ []
unfolding run_hid call_hid mount_cb put_record report_received_cb task_hid start_delay take_notice
    work select_keyboard select_mouse pending_keyboard pending_pointer process_keys keys_down
    key_down key_is_down is_console_break keycode_to_ascii us_layout repeat_start repeat_update
    repeat_task any find_index? find?
shift_a_types = refl

abbrev a_key : KeyReport
a_key = record { modifier = 0x02; keycode = 0x04 ∷ 0 ∷ 0 ∷ 0 ∷ 0 ∷ 0 ∷ [] }

process_keys-again_example :
    process_keys 200 a_key (process_keys 100 a_key start) ≡ process_keys 100 a_key start
process_keys-again_example = process_keys-again 100 200 a_key start

keycode_to_ascii-bound_example : keycode_to_ascii (builtin_layout de) 0x64 0 < 128
keycode_to_ascii-bound_example = keycode_to_ascii-bound de 0x64 0

-- The start of a keyboard's descriptor: the page of the desktop, the usage of a keyboard.
abbrev keyboard_descriptor : List ℕ
keyboard_descriptor = 0x05 ∷ 0x01 ∷ 0x09 ∷ 0x06 ∷ 0xA1 ∷ 0x01 ∷ []

classify_descriptor-ends_example : (r : Role) × (classify_descriptor keyboard_descriptor ≡ some r)
classify_descriptor-ends_example = classify_descriptor-ends keyboard_descriptor (omega arith)

-- C is held down alone and then with Ctrl: it is no new key then, so it repeats as $03.
abbrev c_then_ctrl : List HidCall
c_then_ctrl =
    HidCall.mounts 1 0 keyboard
    ∷ HidCall.tasks (λ a i. true) 100
    ∷ HidCall.tasks (λ a i. true) 1700
    ∷ HidCall.reports 1 0 (0 ∷ 0 ∷ 0x06 ∷ 0 ∷ 0 ∷ 0 ∷ 0 ∷ 0 ∷ [])
    ∷ HidCall.tasks (λ a i. true) 1710
    ∷ HidCall.reports 1 0 (0x01 ∷ 0 ∷ 0x06 ∷ 0 ∷ 0 ∷ 0 ∷ 0 ∷ 0 ∷ [])
    ∷ HidCall.tasks (λ a i. true) 1800
    ∷ HidCall.tasks (λ a i. true) 2300
    ∷ []

c_then_ctrl_types :
    (run_hid c_then_ctrl start).events ≡ console_input 0x63 ∷ console_input 0x03 ∷ []
unfolding run_hid call_hid mount_cb put_record report_received_cb task_hid start_delay take_notice
    work select_keyboard select_mouse pending_keyboard pending_pointer process_keys keys_down
    key_down key_is_down is_console_break keycode_to_ascii us_layout repeat_start repeat_update
    repeat_task any find_index? find?
c_then_ctrl_types = refl
