-- ===== src/Keyboard/Held.antt =====
-- NEO6502_MMU_V3/usb_hid_input.cpp: which key repeats, and which keys are typed.
use neo6502_mmu_v.Base.{ℕ, ◌<◌, ◌≡◌, arith, true, List, [], ◌∷◌}
use neo6502_mmu_v.Keyboard.{KeyReport, Hid}
use neo6502_mmu_v.Keyboard.Layout.{keycode_to_ascii}
use neo6502_mmu_v.Keyboard.Keys.{
  key_is_down, route, repeat_start, key_down, keys_down, repeat_update, process_keys,
}

-- The character that repeats is what the layout gives for its key and modifiers.
record IsLetter (s : Hid) : Type 0 where
  typed : s.key_repeat.active ≡ true → 0 < s.key_repeat.rep_ascii
  letter :
      s.key_repeat.active ≡ true
      → s.key_repeat.rep_ascii
        ≡ keycode_to_ascii s.layout s.key_repeat.rep_keycode s.key_repeat.rep_modifier

-- And the key is down, with the modifiers that are down.
pub record IsHeld (s : Hid) : Type 0 where
  pub typed : s.key_repeat.active ≡ true → 0 < s.key_repeat.rep_ascii
  pub letter :
      s.key_repeat.active ≡ true
      → s.key_repeat.rep_ascii
        ≡ keycode_to_ascii s.layout s.key_repeat.rep_keycode s.key_repeat.rep_modifier
  pub held : s.key_repeat.active ≡ true → key_is_down s.last_keys s.key_repeat.rep_keycode ≡ true
  pub same_modifier : s.key_repeat.active ≡ true → s.key_repeat.rep_modifier ≡ s.last_keys.modifier

key_down-IsLetter :
    (now modifier key : ℕ) (s : Hid) → IsLetter s → IsLetter (key_down now modifier key s)
unfolding key_down route repeat_start
key_down-IsLetter now modifier key s h = record {
  typed = λ e. ground (arith, h.typed, e);
  letter = λ e. ground (arith, h.letter, e);
}

keys_down-IsLetter :
    (now modifier : ℕ) (keys : List ℕ) (s : Hid)
    → IsLetter s
    → IsLetter (keys_down now modifier keys s)
unfolding keys_down
keys_down-IsLetter now modifier [] s h = h
keys_down-IsLetter now modifier (k ∷ keys) s h =
    keys_down-IsLetter now modifier keys (key_down now modifier k s)
      (key_down-IsLetter now modifier k s h)

pub process_keys-IsHeld :
    (now : ℕ) (report : KeyReport) (s : Hid) → IsHeld s → IsHeld (process_keys now report s)
unfolding process_keys repeat_update
process_keys-IsHeld now report s h =
    let t = keys_down now report.modifier report.keycode s in
    let k =
      keys_down-IsLetter now report.modifier report.keycode s
        (record { typed = h.typed; letter = h.letter }) in
    record {
      typed = λ e. ground (arith, k.typed, e);
      letter = λ e. ground (arith, k.letter, e);
      held = λ e. ground (arith, e);
      same_modifier = λ e. ground (arith, e);
    }
