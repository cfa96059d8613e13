-- ===== src/Keyboard/Scanned.antt =====
-- NEO6502_MMU_V3/usb_hid_input.cpp: the scan of a report descriptor, round by round.
use neo6502_mmu_v.Base.{
  ℕ, zero, suc, ◌+◌, ◌*◌, ◌/◌, ◌%◌, ◌^◌, Bool, true, false, ◌&&◌, Option, none, some, List, [], ◌∷◌,
  length, ltb, leb, ◌==◌, ◌<◌, ◌≤◌, ◌≡◌, refl, ap, ◌∙◌, if◌then◌else◌, arith, Bool-cases, inl, inr,
}
use neo6502_mmu_v.Keyboard.{Role, unknown, keyboard, mouse, generic}
use neo6502_mmu_v.Keyboard.Descriptor.{
  Scan, found, ended, fault, next, byte_at, with_byte, item_value, data_size, item_step,
  prefix_step, scan_step, after, scan, has_desktop_usage, role_of, classify_descriptor,
}

byte_at-in : (d : List ℕ) (i : ℕ) → i < length d → (b : ℕ) × (byte_at d i ≡ some b) × (b < 2 ^ 8)
byte_at-in [] i h = absurd (omega arith)
byte_at-in (b ∷ d) zero h = (b % 2 ^ 8, refl, omega arith)
byte_at-in (b ∷ d) (suc i) h = byte_at-in d i (omega arith)

data_size-bound : (prefix : ℕ) → data_size prefix ≤ 4
unfolding data_size
data_size-bound prefix = ground arith

-- The wrap of the 16-bit index does not matter here.
fits :
    (prefix i n : ℕ)
    → i < n
    → n + 258 ≤ 2 ^ 16
    → ltb n ((i + 1 + data_size prefix) % 2 ^ 16) ≡ false
    → i + 1 + data_size prefix ≤ n
fits prefix i n low h e = grind (arith, data_size-bound prefix)

item_value-in :
    (d : List ℕ) (i size : ℕ) → i + size ≤ length d → (v : ℕ) × (item_value d i size ≡ some v)
unfolding item_value with_byte
item_value-in d i zero h = (0, refl)
item_value-in d i (suc size) h =
    let (b, e, bound) = byte_at-in d i (omega arith) in
    let (v, f) = item_value-in d (i + 1) size (omega arith) in
    (b + 2 ^ 8 * v, ap (λ o. with_byte o (item_value d (i + 1) size)) e ∙ ap (with_byte (some b)) f)

-- A round ends the loop or goes on further into the descriptor.
data IsForward (i : ℕ) : Scan → Type 0 where
  is_found : IsForward i found
  is_ended : IsForward i ended
  is_next : (page j : ℕ) → i < j → IsForward i (next page j)

if_IsForward :
    {i : ℕ} (b : Bool) {s t : Scan}
    → (b ≡ true → IsForward i s)
    → (b ≡ false → IsForward i t)
    → IsForward i (if b then s else t)
if_IsForward true h k = h refl
if_IsForward false h k = k refl

some-IsForward :
    {i : ℕ} (o : Option ℕ) (v : ℕ) (k : ℕ → Scan)
    → o ≡ some v
    → IsForward i (k v)
    → IsForward i (elim o [ none ↦ fault | some x ↦ k x ])
some-IsForward o v k e h = rw e h

item_step-IsForward :
    (prefix value wanted page i : ℕ)
    → i + 5 < 2 ^ 16
    → IsForward i (item_step prefix value wanted page i)
unfolding item_step
item_step-IsForward prefix value wanted page i h =
    let page = if (prefix / 4) % 4 == 1 && prefix / 16 == 0 then value % 2 ^ 16 else page in
    let bound = data_size-bound prefix in
    if_IsForward
      ((prefix / 4) % 4 == 2 && prefix / 16 == 0 && page == 1 && value % 2 ^ 16 == wanted)
      (λ e. is_found) (λ e. is_next page ((i + 1 + data_size prefix) % 2 ^ 16) (omega arith))

prefix_step-IsForward :
    (d : List ℕ) (wanted page i prefix : ℕ)
    → i < length d
    → length d + 258 ≤ 2 ^ 16
    → IsForward i (prefix_step d wanted page i prefix)
unfolding prefix_step
prefix_step-IsForward d wanted page i prefix low h =
    if_IsForward (prefix == 0xFE)
      (λ _.
        if_IsForward (leb (length d) ((i + 2) % 2 ^ 16)) (λ _. is_ended)
          (λ e.
            let (b, f, bound) = byte_at-in d (i + 1) (ground (arith, e)) in
            some-IsForward _ b _ f (is_next _ _ (omega arith))))
      (λ _.
        if_IsForward (ltb (length d) ((i + 1 + data_size prefix) % 2 ^ 16)) (λ _. is_ended)
          (λ e.
            let (v, f) =
              item_value-in d (i + 1) (data_size prefix) (fits prefix i (length d) low h e) in
            some-IsForward _ v _ f (item_step-IsForward prefix v wanted page i (omega arith))))

-- A round ends the loop or goes on behind where it began, and it reads inside the descriptor.
scan_step-IsForward :
    (d : List ℕ) (wanted page i : ℕ)
    → length d + 258 ≤ 2 ^ 16
    → IsForward i (scan_step d wanted page i)
unfolding scan_step
scan_step-IsForward d wanted page i h =
    if_IsForward (leb (length d) i) (λ _. is_ended)
      (λ e.
        let low : i < length d = ground (arith, e) in
        let (b, f, _) = byte_at-in d i low in
        some-IsForward _ b _ f (prefix_step-IsForward d wanted page i b low h))

scan_step-end : (d : List ℕ) (wanted page i : ℕ) → length d ≤ i → scan_step d wanted page i ≡ ended
unfolding scan_step
scan_step-end d wanted page i h = ground arith

scan_on :
    (fuel : ℕ) (d : List ℕ) (wanted : ℕ) {i : ℕ} {s : Scan}
    → IsForward i s
    → ((page j : ℕ) → i < j → (b : Bool) × (scan fuel d wanted page j ≡ some b))
    → (b : Bool) × (after (scan fuel d wanted) s ≡ some b)
unfolding after
scan_on fuel d wanted is_found k = (true, refl)
scan_on fuel d wanted is_ended k = (false, refl)
scan_on fuel d wanted (is_next page j low) k = k page j low

scan-ends :
    (fuel : ℕ) (d : List ℕ) (wanted page i : ℕ)
    → length d + 258 ≤ 2 ^ 16
    → length d < suc fuel + i
    → (b : Bool) × (scan (suc fuel) d wanted page i ≡ some b)
unfolding scan after
scan-ends zero d wanted page i h f =
    (false, ap (after (scan zero d wanted)) (scan_step-end d wanted page i (omega arith)))
scan-ends (suc fuel) d wanted page i h f =
    scan_on (suc fuel) d wanted (scan_step-IsForward d wanted page i h)
      (λ page j low. scan-ends fuel d wanted page j h (omega arith))

role_of-some :
    (has_keys has_pointer : Bool)
    → (r : Role) × (role_of (some has_keys) (some has_pointer) ≡ some r)
unfolding role_of
role_of-some true has_pointer = (keyboard, refl)
role_of-some false true = (mouse, refl)
role_of-some false false = (unknown, refl)

-- The scan of a descriptor of up to 65278 bytes ends and reads no byte outside of it, whatever
-- its bytes are, so every such interface has a role.
pub classify_descriptor-ends :
    (desc_report : List ℕ)
    → length desc_report + 258 ≤ 2 ^ 16
    → (r : Role) × (classify_descriptor desc_report ≡ some r)
unfolding classify_descriptor role_of has_desktop_usage
classify_descriptor-ends d h =
    let (has_keys, e) = scan-ends (length d) d 0x06 0 0 h (omega arith) in
    let (has_pointer, f) = scan-ends (length d) d 0x02 0 0 h (omega arith) in
    let (r, g) = role_of-some has_keys has_pointer in
    elim (Bool-cases (length d == 0)) [
      | inl n ↦ (generic, ground (arith, n))
      | inr n ↦ (
        r,
        rw n
            (ap (λ o. role_of o (has_desktop_usage d 0x02)) e ∙ ap (role_of (some has_keys)) f ∙ g),
      )
    ]
