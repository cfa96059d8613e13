-- ===== src/Keyboard/Ascii.antt =====
-- NEO6502_MMU_V3/usb_keyboard_layout.cpp: what the built-in tables hold.
use neo6502_mmu_v.Base.{ℕ, zero, suc, true, List, [], ◌∷◌, ltb, ◌<◌, ◌≡◌, refl, arith, all}
use neo6502_mmu_v.Keyboard.Layout.{
  KeyLayout, Locale, us, de, custom, us_layout, de_layout, builtin_layout, entry_of,
  keycode_to_ascii,
}

entry_of-bound :
    (table : List ℕ) (i : ℕ) → all (λ c. ltb c 128) table ≡ true → entry_of table i < 128
unfolding all
entry_of-bound [] i e = ground arith
entry_of-bound (c ∷ table) zero e = ground arith
entry_of-bound (c ∷ table) (suc i) e = entry_of-bound table i (ground arith)

record IsAscii (t : KeyLayout) : Type 0 where
  normals : all (λ c. ltb c 128) t.normal ≡ true
  shifts : all (λ c. ltb c 128) t.shifted ≡ true
  controls : all (λ c. ltb c 128) t.ctrl ≡ true

builtin_layout-IsAscii : (l : Locale) → IsAscii (builtin_layout l)
unfolding builtin_layout us_layout de_layout all
builtin_layout-IsAscii us = record { normals = refl; shifts = refl; controls = refl }
builtin_layout-IsAscii de = record { normals = refl; shifts = refl; controls = refl }
builtin_layout-IsAscii custom = record { normals = refl; shifts = refl; controls = refl }

-- With a built-in layout every key and modifier give a character below 128, also a key code that is
-- not in the table.
pub keycode_to_ascii-bound :
    (l : Locale) (keycode modifier : ℕ) → keycode_to_ascii (builtin_layout l) keycode modifier < 128
unfolding keycode_to_ascii
keycode_to_ascii-bound l keycode modifier =
    let t = builtin_layout-IsAscii l in
    let n = entry_of-bound _ keycode t.normals in
    let s = entry_of-bound _ keycode t.shifts in
    let c = entry_of-bound _ keycode t.controls in ground (arith, n, s, c)
