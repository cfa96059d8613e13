-- ===== src/Keyboard/Devices.antt =====
-- NEO6502_MMU_V3/usb_hid_input.cpp: devices that come, go and are selected, and the reports that TinyUSB
-- hands over.
use neo6502_mmu_v.Base.{
  ℕ, Bool, true, false, not, ◌&&◌, Option, none, some, List, ◌++◌, find?, find_index?, take, drop,
  get_elem?, set, length, replicate, ltb, ◌==◌, if◌then◌else◌,
}
use neo6502_mmu_v.Keyboard.{
  no_keys, Role, unknown, keyboard, mouse, generic, MountRecord, Selected, no_repeat, Hid,
}

-- `usb_hid_find_record` and `usb_hid_alloc_record`
abbrev pub find_record : ℕ → ℕ → List MountRecord → Option ℕ
find_record addr instance_id records =
    find_index? (λ r. r.is_present && r.dev_addr == addr && r.instance_id == instance_id) records

abbrev pub alloc_record : List MountRecord → Option ℕ
alloc_record records = find_index? (λ r. not r.is_present) records

abbrev pub no_record : MountRecord
no_record = record { dev_addr = 0; instance_id = 0; role = unknown; is_present = false }

abbrev pub is_keyboard : Role → Bool
is_keyboard keyboard = true
is_keyboard unknown = false
is_keyboard mouse = false
is_keyboard generic = false

abbrev pub is_mouse : Role → Bool
is_mouse mouse = true
is_mouse unknown = false
is_mouse keyboard = false
is_mouse generic = false

-- `usb_hid_select_keyboard` and `usb_hid_select_mouse`
unfoldable pub select_keyboard : Hid → Hid
select_keyboard s =
    if s.kbd.selected then s else elim (find? (λ r. r.is_present && is_keyboard r.role) s.records) [
      | none ↦ s
      | some r ↦ record s {
        kbd = record s.kbd { selected = true; sel_addr = r.dev_addr; sel_instance = r.instance_id };
        last_keys = no_keys;
        pending_keys = no_keys;
        key_repeat = no_repeat;
      }
    ]

unfoldable pub select_mouse : Hid → Hid
select_mouse s =
    if s.pointer.selected
    then s
    else elim (find? (λ r. r.is_present && is_mouse r.role) s.records) [
      | none ↦ s
      | some r ↦ record s {
        pointer = record s.pointer {
          selected = true;
          sel_addr = r.dev_addr;
          sel_instance = r.instance_id;
        };
        last_mouse = replicate 5 0;
        pending_mouse = replicate 5 0;
      }
    ]

-- The record that `tuh_hid_mount_cb` fills, if there is one.
unfoldable pub put_record : ℕ → ℕ → Role → Option ℕ → Hid → Hid
put_record addr instance_id role none s = s
put_record addr instance_id role (some i) s = record s {
  records =
      set s.records i
        (record { dev_addr = addr; instance_id = instance_id; role = role; is_present = true });
}

-- `tuh_hid_mount_cb`, with the role that `usb_hid_classify_descriptor` finds.
unfoldable pub mount_cb : ℕ → ℕ → Role → Hid → Hid
mount_cb addr instance_id role s =
    let slot : Option ℕ = elim (find_record addr instance_id s.records) [
      | some i ↦ some i
      | none ↦ alloc_record s.records
    ] in
    put_record addr instance_id role slot s

abbrev pub is_selected : ℕ → ℕ → Selected → Bool
is_selected addr instance_id d = d.selected && addr == d.sel_addr && instance_id == d.sel_instance

abbrev removed : Selected → Selected
removed d = record {
  selected = false;
  sel_addr = 0;
  sel_instance = 0;
  report_pending = false;
  report_active = false;
  removed_notice = true;
  last_arm = d.last_arm;
}

-- `tuh_hid_umount_cb`: its two parts behind the records.
unfoldable pub drop_keyboard : ℕ → ℕ → Hid → Hid
drop_keyboard addr instance_id s =
    if is_selected addr instance_id s.kbd
    then record s {
      kbd = removed s.kbd;
      last_keys = no_keys;
      pending_keys = no_keys;
      key_repeat = no_repeat;
    }
    else s

unfoldable pub drop_mouse : ℕ → ℕ → Hid → Hid
drop_mouse addr instance_id s =
    if is_selected addr instance_id s.pointer
    then record s {
      pointer = removed s.pointer;
      last_mouse = replicate 5 0;
      pending_mouse = replicate 5 0;
    }
    else s

unfoldable pub umount_cb : ℕ → ℕ → Hid → Hid
umount_cb addr instance_id s =
    let t : Hid = elim (find_record addr instance_id s.records) [
      | none ↦ s
      | some i ↦ record s { records = set s.records i no_record }
    ] in
    drop_mouse addr instance_id (drop_keyboard addr instance_id t)

abbrev pub byte_of : List ℕ → ℕ → ℕ
byte_of bytes i = elim (get_elem? bytes i) [ none ↦ 0 | some b ↦ b ]

-- `tuh_hid_report_received_cb`, for a report of these bytes.
unfoldable pub report_received_cb : ℕ → ℕ → List ℕ → Hid → Hid
report_received_cb addr instance_id report s =
    if is_selected addr instance_id s.kbd
    then (if ltb (length report) 8
        then record s { kbd = record s.kbd { report_active = false } }
        else record s {
          kbd = record s.kbd { report_active = false; report_pending = true };
          pending_keys = record { modifier = byte_of report 0; keycode = take 6 (drop 2 report) };
        })
    else if is_selected addr instance_id s.pointer
    then (if length report == 0
        then record s {
          pointer = record s.pointer { report_active = false };
          pending_mouse = replicate 5 0;
        }
        else record s {
          pointer = record s.pointer { report_active = false; report_pending = true };
          pending_mouse = take 5 (report ++ replicate 5 0);
        })
    else s
