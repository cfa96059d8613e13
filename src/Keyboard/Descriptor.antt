-- ===== src/Keyboard/Descriptor.antt =====
-- NEO6502_MMU_V3/usb_hid_input.cpp: how the report descriptor of a HID interface is read.
use neo6502_mmu_v.Base.{
  ℕ, zero, suc, ◌+◌, ◌*◌, ◌/◌, ◌%◌, ◌^◌, Bool, true, false, ◌&&◌, Option, none, some, List,
  get_elem?, length, ltb, leb, ◌==◌, if◌then◌else◌,
}
use neo6502_mmu_v.Keyboard.{Role, unknown, keyboard, mouse, generic}

-- `desc_report[i]`; no value is there beyond the descriptor.
abbrev pub byte_at : List ℕ → ℕ → Option ℕ
byte_at desc_report i = elim (get_elem? desc_report i) [ none ↦ none | some b ↦ some (b % 2 ^ 8) ]

unfoldable pub with_byte : Option ℕ → Option ℕ → Option ℕ
with_byte none high = none
with_byte (some low) none = none
with_byte (some low) (some high) = some (low + 2 ^ 8 * high)

-- The bytes of an item, the lowest first.
unfoldable pub item_value : List ℕ → ℕ → ℕ → Option ℕ
item_value desc_report i zero = some 0
item_value desc_report i (suc size) =
    with_byte (byte_at desc_report i) (item_value desc_report (i + 1) size)

-- What a round of the loop comes to; `fault` is a read beyond the descriptor.
pub data Scan : Type 0 where
  found ended fault : Scan
  next : ℕ → ℕ → Scan

unfoldable pub data_size : ℕ → ℕ
data_size prefix = if prefix % 4 == 3 then 4 else prefix % 4

unfoldable pub item_step : ℕ → ℕ → ℕ → ℕ → ℕ → Scan
item_step prefix value wanted usage_page i =
    let item_type = (prefix / 4) % 4 in
    let item_tag = prefix / 16 in
    let page = if item_type == 1 && item_tag == 0 then value % 2 ^ 16 else usage_page in
    if item_type == 2 && item_tag == 0 && page == 0x01 && value % 2 ^ 16 == wanted
    then found
    else next page ((i + 1 + data_size prefix) % 2 ^ 16)

-- A round, at a prefix.
unfoldable pub prefix_step : List ℕ → ℕ → ℕ → ℕ → ℕ → Scan
prefix_step desc_report wanted usage_page i prefix =
    if prefix == 0xFE
    then (if leb (length desc_report) ((i + 2) % 2 ^ 16)
        then ended
        else elim (byte_at desc_report (i + 1)) [
          | none ↦ fault
          | some long_size ↦ next usage_page ((i + 3 + long_size) % 2 ^ 16)
        ])
    else if ltb (length desc_report) ((i + 1 + data_size prefix) % 2 ^ 16)
    then ended
    else elim (item_value desc_report (i + 1) (data_size prefix)) [
      | none ↦ fault
      | some value ↦ item_step prefix value wanted usage_page i
    ]

unfoldable pub scan_step : List ℕ → ℕ → ℕ → ℕ → Scan
scan_step desc_report wanted usage_page i =
    if leb (length desc_report) i then ended else elim (byte_at desc_report i) [
      | none ↦ fault
      | some prefix ↦ prefix_step desc_report wanted usage_page i prefix
    ]

unfoldable pub after : (ℕ → ℕ → Option Bool) → Scan → Option Bool
after rest found = some true
after rest ended = some false
after rest fault = none
after rest (next usage_page i) = rest usage_page i

-- The loop: `none` where it reads beyond the descriptor or is not done.
unfoldable pub scan : ℕ → List ℕ → ℕ → ℕ → ℕ → Option Bool
scan zero desc_report wanted usage_page i = none
scan (suc fuel) desc_report wanted usage_page i =
    after (scan fuel desc_report wanted) (scan_step desc_report wanted usage_page i)

-- `usb_hid_descriptor_has_desktop_usage`
unfoldable pub has_desktop_usage : List ℕ → ℕ → Option Bool
has_desktop_usage desc_report wanted = scan (suc (length desc_report)) desc_report wanted 0 0

unfoldable pub role_of : Option Bool → Option Bool → Option Role
role_of none has_pointer = none
role_of (some true) has_pointer = some keyboard
role_of (some false) none = none
role_of (some false) (some true) = some mouse
role_of (some false) (some false) = some unknown

-- `usb_hid_classify_descriptor`
unfoldable pub classify_descriptor : List ℕ → Option Role
classify_descriptor desc_report =
    if length desc_report == 0
    then some generic
    else role_of (has_desktop_usage desc_report 0x06) (has_desktop_usage desc_report 0x02)
