-- ===== src/FsPath/Component.antt =====
-- The component check of NEO6502_MMU_V3/rp_fs_path.cpp and the grammar of the NEOX 8.3 names.
use neo6502_mmu_v.Base.{
  ℕ, suc, ◌+◌, ◌≤◌, Bool, true, false, ◌&&◌, ◌||◌, List, [], ◌∷◌, ◌++◌, ◌≡◌, ◌≢◌, inl, inr, ◌↔◌,
  refl, sym, ap, ◌∙◌, arith, length, ltb, leb, ◌==◌, if◌then◌else◌, Bool-cases,
}
use native.Mathlib.Decide.{ℕ_discrete}
use neo6502_mmu_v.FsPath.Text.{component_scan, component_valid_83}

-- Upper-case letters, digits, `_`, `-`, `$` and `~`.
abbrev pub is_name_char : ℕ → Bool
is_name_char c =
    (leb b'A' c && leb c b'Z')
    || (leb b'0' c && leb c b'9')
    || c == b'_'
    || c == b'-'
    || c == b'$'
    || c == b'~'

abbrev pub All {ℓ κ} : {A : Type ℓ} → (A → Type κ) → List A → Type κ
All P [] = Unit
All P (x ∷ xs) = P x × All P xs

abbrev pub IsName : List ℕ → Type 0
IsName = All (λ c. is_name_char c ≡ true)

-- A name of one to eight characters, and perhaps a dot and an extension of one to three.
pub data Is83 : List ℕ → Type 0 where
  plain : (base : List ℕ) → IsName base → 1 ≤ length base → length base ≤ 8 → Is83 base
  extended :
      (base ext : List ℕ) {whole : List ℕ}
      → IsName base
      → 1 ≤ length base
      → length base ≤ 8
      → IsName ext
      → 1 ≤ length ext
      → length ext ≤ 3
      → whole ≡ base ++ b'.' ∷ ext
      → Is83 whole

-- What the scan accepts inside the extension, and before the dot.
ext_sound :
    (n m : ℕ) (cs : List ℕ)
    → m ≤ 3
    → component_scan n m true cs ≡ true
    → IsName cs × (1 ≤ m + length cs) × (m + length cs ≤ 3)
unfolding component_scan
ext_sound n m [] le h = ground arith
ext_sound n m (c ∷ cs) le h = ground (arith, ext_sound n (suc m) cs)

ext_complete :
    (n m : ℕ) (cs : List ℕ)
    → n ≢ 0
    → IsName cs
    → 1 ≤ m + length cs
    → m + length cs ≤ 3
    → component_scan n m true cs ≡ true
unfolding component_scan
ext_complete n m [] ne name lo hi = ground arith
ext_complete n m (c ∷ cs) ne name lo hi = ground (arith, ext_complete n (suc m) cs)

-- One step before the dot.
base_name :
    (n : ℕ) (c : ℕ) (cs : List ℕ)
    → n ≤ 8
    → is_name_char c ≡ true
    → component_scan n 0 false (c ∷ cs)
      ≡ (if ltb 8 (n + 1) then false else component_scan (n + 1) 0 false cs)
unfolding component_scan
base_name n c cs le h = ground arith

base_dot :
    (n : ℕ) (cs : List ℕ)
    → component_scan n 0 false (b'.' ∷ cs) ≡ (if n == 0 then false else component_scan n 0 true cs)
unfolding component_scan
base_dot n cs = ground arith

base_other :
    (n : ℕ) (c : ℕ) (cs : List ℕ)
    → is_name_char c ≡ false
    → c ≢ b'.'
    → component_scan n 0 false (c ∷ cs) ≡ false
unfolding component_scan
base_other n c cs h ne = ground arith

-- What is left of a name when `n` characters of its base are read.
data Rest (n : ℕ) : List ℕ → Type 0 where
  plain : (base : List ℕ) → IsName base → 1 ≤ n + length base → n + length base ≤ 8 → Rest n base
  extended :
      (base ext : List ℕ) {whole : List ℕ}
      → IsName base
      → 1 ≤ n + length base
      → n + length base ≤ 8
      → IsName ext
      → 1 ≤ length ext
      → length ext ≤ 3
      → whole ≡ base ++ b'.' ∷ ext
      → Rest n whole

Rest-cons : {n c : ℕ} {cs : List ℕ} → is_name_char c ≡ true → Rest (n + 1) cs → Rest n (c ∷ cs)
Rest-cons {c = c} h (plain base name lo hi) = plain (c ∷ base) (h, name) (omega arith) (omega arith)
Rest-cons {c = c} h (extended base ext name lo hi ext_name ext_lo ext_hi e) =
    extended (c ∷ base) ext (h, name) (omega arith) (omega arith) ext_name ext_lo ext_hi
      (ap (◌∷◌ c) e)

dot_sound :
    (n : ℕ) (cs : List ℕ) → n ≤ 8 → component_scan n 0 false (b'.' ∷ cs) ≡ true → Rest n (b'.' ∷ cs)
dot_sound n cs le h =
    let h' = rw (base_dot n cs) at h in
    let (name, lo, hi) = ext_sound n 0 cs (omega arith) (ground arith) in
    extended [] cs tt (ground arith) (omega arith) name (omega arith) (omega arith) refl

base_sound : (n : ℕ) (cs : List ℕ) → n ≤ 8 → component_scan n 0 false cs ≡ true → Rest n cs
base_sound n [] le h = plain [] tt (unfold component_scan in ground arith) (omega arith)
base_sound n (c ∷ cs) le h = elim (Bool-cases (is_name_char c)) [
  | inl name ↦
      let h' = rw (base_name n c cs le name) at h in
      elim (Bool-cases (ltb 8 (n + 1))) [
        | inl long ↦ cc (rw long at h')
        | inr room ↦ Rest-cons name (base_sound (n + 1) cs (ground arith) (rw room at h'))
      ]
  | inr other ↦ elim (ℕ_discrete c b'.') [
    | yes dot ↦ rw dot (dot_sound n cs le (rw dot at h))
    | no ne ↦ cc (base_other n c cs other ne)
  ]
]

plain_complete :
    (n : ℕ) (base : List ℕ)
    → IsName base
    → 1 ≤ n + length base
    → n + length base ≤ 8
    → component_scan n 0 false base ≡ true
plain_complete n [] name lo hi = unfold component_scan in ground arith
plain_complete n (c ∷ cs) (h, name) lo hi =
    rw (base_name n c cs (omega arith) h) (ground (arith, plain_complete (n + 1) cs name))

extended_complete :
    (n : ℕ) (base ext : List ℕ)
    → IsName base
    → 1 ≤ n + length base
    → n + length base ≤ 8
    → IsName ext
    → 1 ≤ length ext
    → length ext ≤ 3
    → component_scan n 0 false (base ++ b'.' ∷ ext) ≡ true
extended_complete n [] ext name lo hi ext_name ext_lo ext_hi =
    rw (base_dot n ext) (ground (arith, ext_complete n 0 ext))
extended_complete n (c ∷ cs) ext (h, name) lo hi ext_name ext_lo ext_hi =
    rw (base_name n c (cs ++ b'.' ∷ ext) (omega arith) h)
      (ground (arith, extended_complete (n + 1) cs ext name))

of_Rest : {c : List ℕ} → Rest 0 c → Is83 c
of_Rest (plain base name lo hi) = Is83.plain base name (omega arith) (omega arith)
of_Rest (extended base ext name lo hi ext_name ext_lo ext_hi e) =
    Is83.extended base ext name (omega arith) (omega arith) ext_name ext_lo ext_hi e

Is83-complete : {c : List ℕ} → Is83 c → component_scan 0 0 false c ≡ true
Is83-complete (Is83.plain base name lo hi) = plain_complete 0 base name (omega arith) (omega arith)
Is83-complete (Is83.extended base ext name lo hi ext_name ext_lo ext_hi e) =
    rw e (extended_complete 0 base ext name (omega arith) (omega arith) ext_name ext_lo ext_hi)

component_valid-scan : (c : List ℕ) → component_valid_83 c ≡ component_scan 0 0 false c
unfolding component_valid_83 component_scan
component_valid-scan [] = refl
component_valid-scan (c ∷ cs) = refl

-- `rp_fs_path_component_valid_83` accepts exactly the 8.3 names: one to eight characters among
-- the upper-case letters, the digits, `_`, `-`, `$` and `~`, and then nothing, or a dot and an
-- extension of one to three such characters.
pub component_valid_83_iff : (c : List ℕ) → (component_valid_83 c ≡ true) ↔ Is83 c
component_valid_83_iff c = (
  λ h. of_Rest (base_sound 0 c (omega arith) (sym (component_valid-scan c) ∙ h)),
  λ h. component_valid-scan c ∙ Is83-complete h,
)
