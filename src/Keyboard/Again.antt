-- ===== src/Keyboard/Again.antt =====
-- NEO6502_MMU_V3/usb_hid_input.cpp: a report that comes twice.
use neo6502_mmu_v.Base.{ℕ, ◌≡◌, refl, ◌∙◌, ap, arith, true, List, [], ◌∷◌, any, ◌==◌}
use neo6502_mmu_v.Keyboard.{KeyReport, Hid}
use neo6502_mmu_v.Keyboard.Keys.{key_is_down, key_down, keys_down, repeat_update, process_keys}

key_down-same :
    (now modifier key : ℕ) (s : Hid)
    → key_is_down s.last_keys key ≡ true
    → key_down now modifier key s ≡ s
unfolding key_down
key_down-same now modifier key s e = ground (arith, e)

keys_down-same :
    (now modifier : ℕ) (keys : List ℕ) (s : Hid)
    → ((k : ℕ) → any (λ j. j == k) keys ≡ true → key_is_down s.last_keys k ≡ true)
    → keys_down now modifier keys s ≡ s
unfolding keys_down any
keys_down-same now modifier [] s h = refl
keys_down-same now modifier (k ∷ keys) s h =
    ap (keys_down now modifier keys) (key_down-same now modifier k s (h k (ground arith)))
    ∙ keys_down-same now modifier keys s (λ j e. h j (ground (arith, e)))

repeat_update-again :
    (report : KeyReport) (s : Hid)
    → repeat_update report (record (repeat_update report s) { last_keys = report })
      ≡ record (repeat_update report s) { last_keys = report }
unfolding repeat_update
repeat_update-again report s = ground arith

-- A report that comes again, at whatever time, changes nothing: no key types twice, and the key repeat
-- stays as it is.
pub process_keys-again :
    (now later : ℕ) (report : KeyReport) (s : Hid)
    → process_keys later report (process_keys now report s) ≡ process_keys now report s
unfolding process_keys key_is_down
process_keys-again now later report s =
    let u = keys_down now report.modifier report.keycode s in
    ap (λ (t : Hid). record (repeat_update report t) { last_keys = report })
      (keys_down-same later report.modifier report.keycode (process_keys now report s) (λ k e. e))
    ∙ ap (λ (t : Hid). record t { last_keys = report }) (repeat_update-again report u)
