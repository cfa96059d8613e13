-- ===== src/Keyboard.antt =====
-- NEO6502_MMU_V3/usb_hid_input.cpp: the state of the USB keyboard and mouse. What the functions do to
-- other parts (the console, its process, the break interrupt, the pointer) is a list of events.
use neo6502_mmu_v.Base.{ℕ, Bool, true, false, List, [], ◌∷◌, ◌++◌, replicate}
use neo6502_mmu_v.Keyboard.Layout.{KeyLayout}
pub mod Layout
pub mod Keys
pub mod Devices
pub mod Task
pub mod Held
pub mod Kept
pub mod Run
pub mod Ascii
pub mod Descriptor
pub mod Scanned
pub mod Again
mod Tests

-- `hid_keyboard_report_t`; its reserved byte is not used.
pub record KeyReport : Type 0 where
  pub modifier : ℕ
  pub keycode : List ℕ

abbrev pub no_keys : KeyReport
no_keys = record { modifier = 0; keycode = replicate 6 0 }

-- `USBHIDRole`
pub data Role : Type 0 where
  unknown keyboard mouse generic : Role

-- `USBHIDMountRecord`, without `desc_len`, which nothing reads.
pub record MountRecord : Type 0 where
  pub dev_addr : ℕ
  pub instance_id : ℕ
  pub role : Role
  pub is_present : Bool

-- `monitorConsoleInput(c, false)`, `setConsolePID`, `requestConsoleBreakIRQ` and `vduMouseUpdate`.
pub data Event : Type 0 where
  console_input : ℕ → Event
  console_pid_set : ℕ → Event
  console_break : Event
  mouse_moved : ℕ → ℕ → ℕ → Event

-- What there is of a selected device: the keyboard or the mouse.
pub record Selected : Type 0 where
  pub selected : Bool
  pub sel_addr : ℕ
  pub sel_instance : ℕ
  pub report_pending : Bool
  pub report_active : Bool
  pub removed_notice : Bool
  pub last_arm : ℕ

-- The `g_keyRepeat` variables.
pub record Repeat : Type 0 where
  pub active : Bool
  pub rep_keycode : ℕ
  pub rep_modifier : ℕ
  pub rep_ascii : ℕ
  pub next_ms : ℕ

pub record Hid : Type 0 where
  pub records : List MountRecord
  pub kbd : Selected
  pub last_keys : KeyReport
  pub pending_keys : KeyReport
  pub key_repeat : Repeat
  pub pointer : Selected
  pub last_mouse : List ℕ
  pub pending_mouse : List ℕ
  pub arm_started : Bool
  pub arm_start : ℕ
  pub layout : KeyLayout
  pub events : List Event

abbrev pub emit : Event → Hid → Hid
emit e s = record s { events = s.events ++ e ∷ [] }

-- `usb_keyboard_repeat_clear`
abbrev pub no_repeat : Repeat
no_repeat = record { active = false; rep_keycode = 0; rep_modifier = 0; rep_ascii = 0; next_ms = 0 }

abbrev pub repeat_clear : Hid → Hid
repeat_clear s = record s { key_repeat = no_repeat }
