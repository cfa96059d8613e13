-- ===== src/Keyboard/Run.antt =====
-- NEO6502_MMU_V3/usb_hid_input.cpp: the calls of TinyUSB and of the main loop, in any order.
use neo6502_mmu_v.Base.{ℕ, Bool, List, [], ◌∷◌}
use neo6502_mmu_v.Keyboard.{Role, Hid}
use neo6502_mmu_v.Keyboard.Devices.{mount_cb, umount_cb, report_received_cb}
use neo6502_mmu_v.Keyboard.Task.{task_hid}
use neo6502_mmu_v.Keyboard.Kept.{
  IsKeyboard, mount_cb-IsKeyboard, umount_cb-IsKeyboard, report_received_cb-IsKeyboard,
  task_hid-IsKeyboard,
}

pub data HidCall : Type 0 where
  mounts : ℕ → ℕ → Role → HidCall
  unmounts : ℕ → ℕ → HidCall
  reports : ℕ → ℕ → List ℕ → HidCall
  tasks : (ℕ → ℕ → Bool) → ℕ → HidCall

unfoldable pub call_hid : HidCall → Hid → Hid
call_hid (HidCall.mounts addr instance_id role) s = mount_cb addr instance_id role s
call_hid (HidCall.unmounts addr instance_id) s = umount_cb addr instance_id s
call_hid (HidCall.reports addr instance_id report) s = report_received_cb addr instance_id report s
call_hid (HidCall.tasks receive now) s = task_hid receive now s

unfoldable pub run_hid : List HidCall → Hid → Hid
run_hid [] s = s
run_hid (c ∷ cs) s = run_hid cs (call_hid c s)

-- Whatever TinyUSB reports and whenever the task runs, a key that repeats belongs to a selected
-- keyboard, is down in its last report, and repeats the character that the layout gives for it with
-- the modifiers of that report.
pub run_hid-IsKeyboard : (cs : List HidCall) (s : Hid) → IsKeyboard s → IsKeyboard (run_hid cs s)
unfolding run_hid call_hid
run_hid-IsKeyboard [] s h = h
run_hid-IsKeyboard (HidCall.mounts a i role ∷ cs) s h =
    run_hid-IsKeyboard cs _ (mount_cb-IsKeyboard a i role s h)
run_hid-IsKeyboard (HidCall.unmounts a i ∷ cs) s h =
    run_hid-IsKeyboard cs _ (umount_cb-IsKeyboard a i s h)
run_hid-IsKeyboard (HidCall.reports a i r ∷ cs) s h =
    run_hid-IsKeyboard cs _ (report_received_cb-IsKeyboard a i r s h)
run_hid-IsKeyboard (HidCall.tasks receive now ∷ cs) s h =
    run_hid-IsKeyboard cs _ (task_hid-IsKeyboard receive now s h)
