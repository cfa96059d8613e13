-- ===== src/FsPath/Valid.antt =====
-- rp_fs_path_valid_83 of NEO6502_MMU_V3/rp_fs_path.cpp and the grammar of the NEOX paths.
use neo6502_mmu_v.Base.{
  ℕ, ◌+◌, ◌≤◌, ◌<◌, true, false, ◌⊎◌, inl, inr, none, some, List, [], ◌∷◌, ◌++◌, ◌≡◌, ◌≢◌, ◌↔◌,
  refl, sym, ap, ◌∙◌, arith, ◌==◌, Bool-cases, Option-cases,
}
use neo6502_mmu_v.FsPath.Text.{
  max_devices, has_drive_prefix, device_valid, components_valid, logical_valid, path_valid_83,
  skip_prefix,
}
use neo6502_mmu_v.FsPath.Component.{All, IsName, Is83}
use neo6502_mmu_v.FsPath.Canonical.{join, IsPiece, Is83-IsPiece}
use neo6502_mmu_v.FsPath.Grammar.{IsJoined, components_valid_sound, components_valid_complete}

-- A canonical path: some 8.3 components, joined.
pub record IsCanonical (p : List ℕ) : Type 0 where
  pub stack : List (List ℕ)
  pub named : All Is83 stack
  pub joined : p ≡ join stack

-- A path within one device: canonical, or a slash and a canonical path.
abbrev pub IsLogical : List ℕ → Type 0
IsLogical p = IsCanonical p ⊎ ((q : List ℕ) × (p ≡ b'/' ∷ q) × IsCanonical q)

-- A path: a logical one, or one of the drives `0:/` to `3:/` and a logical one.
abbrev pub IsPath : List ℕ → Type 0
IsPath p =
    IsLogical p
    ⊎ ((d : ℕ) × (q : List ℕ) × (d < max_devices)
        × (p ≡ (b'0' + d) ∷ b':' ∷ b'/' ∷ q)
        × IsLogical q)

abbrev pub HasNoColon : List ℕ → Type 0
HasNoColon = All (λ c. c ≢ b':')

HasNoColon-append : (a b : List ℕ) → HasNoColon a → HasNoColon b → HasNoColon (a ++ b)
HasNoColon-append [] b p q = q
HasNoColon-append (x ∷ a) b (h, t) q = (h, HasNoColon-append a b t q)

IsName-HasNoColon : (c : List ℕ) → IsName c → HasNoColon c
IsName-HasNoColon [] h = tt
IsName-HasNoColon (x ∷ xs) (h, t) = (λ e. absurd (ground arith), IsName-HasNoColon xs t)

Is83-HasNoColon : {c : List ℕ} → Is83 c → HasNoColon c
Is83-HasNoColon (Is83.plain base name lo hi) = IsName-HasNoColon base name
Is83-HasNoColon (Is83.extended base ext name lo hi ext_name ext_lo ext_hi e) = rw e (
    HasNoColon-append base (b'.' ∷ ext) (IsName-HasNoColon base name)
      (λ e. absurd (omega arith), IsName-HasNoColon ext ext_name))

join-HasNoColon : (s : List (List ℕ)) → All Is83 s → HasNoColon (join s)
join-HasNoColon [] h = tt
join-HasNoColon (c ∷ []) (h, t) = Is83-HasNoColon h
join-HasNoColon (c ∷ d ∷ s) (h, t) =
    HasNoColon-append c (b'/' ∷ join (d ∷ s)) (Is83-HasNoColon h)
      (λ e. absurd (omega arith), join-HasNoColon (d ∷ s) t)

has_drive_prefix-none : (p : List ℕ) → HasNoColon p → has_drive_prefix p ≡ none
unfolding has_drive_prefix
has_drive_prefix-none [] h = refl
has_drive_prefix-none (a ∷ []) h = refl
has_drive_prefix-none (a ∷ b ∷ []) h = refl
has_drive_prefix-none (a ∷ b ∷ c ∷ p) (ha, (hb, t)) = ground arith

has_drive_prefix-some :
    (p : List ℕ) (d : ℕ)
    → has_drive_prefix p ≡ some d
    → (p ≡ (b'0' + d) ∷ b':' ∷ b'/' ∷ skip_prefix p)
unfolding has_drive_prefix
has_drive_prefix-some [] d h = cc
has_drive_prefix-some (a ∷ []) d h = cc
has_drive_prefix-some (a ∷ b ∷ []) d h = cc
has_drive_prefix-some (a ∷ b ∷ c ∷ p) d h = ground arith

pub has_drive_prefix_self :
    (d : ℕ) (q : List ℕ) → d ≤ 9 → has_drive_prefix ((b'0' + d) ∷ b':' ∷ b'/' ∷ q) ≡ some d
unfolding has_drive_prefix
has_drive_prefix_self d q h = ground arith

pub IsLogical-no_drive : {p : List ℕ} → IsLogical p → has_drive_prefix p ≡ none
IsLogical-no_drive {p} (inl c) =
    has_drive_prefix-none p (rw c.joined (join-HasNoColon c.stack c.named))
IsLogical-no_drive {p} (inr (q, e, c)) =
    has_drive_prefix-none p
      (rw (e, c.joined) (λ x. absurd (omega arith), join-HasNoColon c.stack c.named))

-- A path of components never begins with a slash.
pub join-head :
    (s : List (List ℕ))
    → All IsPiece s
    → (c : ℕ) (p : List ℕ) → join s ≡ c ∷ p
    → (c == b'/') ≡ false
join-head [] h c p e = cc
join-head ([] ∷ s) h c p e = absurd (omega (arith, h.0.0))
join-head ((x ∷ d) ∷ []) h c p e = ground (arith, h.0.1.0)
join-head ((x ∷ d) ∷ f ∷ s) h c p e = ground (arith, h.0.1.0)

pub All-IsPiece : (s : List (List ℕ)) → All Is83 s → All IsPiece s
All-IsPiece [] h = tt
All-IsPiece (c ∷ s) (h, t) = (Is83-IsPiece h, All-IsPiece s t)

IsJoined-IsCanonical : {p : List ℕ} → IsJoined p → IsCanonical p
IsJoined-IsCanonical j = record { stack = j.first ∷ j.others; named = j.named; joined = j.joined }

logical_valid_sound : (p : List ℕ) → logical_valid p ≡ true → IsLogical p
unfolding logical_valid
logical_valid_sound [] h = inl (record { stack = []; named = tt; joined = refl })
logical_valid_sound (c ∷ []) h = elim (Bool-cases (c == b'/')) [
  | inl slash ↦ inr ([], ground arith, record { stack = []; named = tt; joined = refl })
  | inr char ↦ inl (IsJoined-IsCanonical (components_valid_sound [] (c ∷ []) tt (rw char at h)))
]
logical_valid_sound (c ∷ d ∷ p) h = elim (Bool-cases (c == b'/')) [
  | inl slash ↦ inr (
    d ∷ p,
    ground arith,
    IsJoined-IsCanonical (components_valid_sound [] (d ∷ p) tt (rw slash at h)),
  )
  | inr char ↦ inl (IsJoined-IsCanonical (components_valid_sound [] (c ∷ d ∷ p) tt (rw char at h)))
]

-- Off a slash the loop reads the whole path.
logical_valid_char :
    (c : ℕ) (p : List ℕ) → (c == b'/') ≡ false → logical_valid (c ∷ p) ≡ components_valid [] (c ∷ p)
unfolding logical_valid
logical_valid_char c [] h = rw h
logical_valid_char c (d ∷ p) h = rw h

joined_complete :
    (s : List (List ℕ)) → All Is83 s → (p : List ℕ) → p ≡ join s → logical_valid p ≡ true
joined_complete [] h p e = rw e (unfold logical_valid in refl)
joined_complete (d ∷ s) h [] e = unfold logical_valid in refl
joined_complete (d ∷ s) h (c ∷ p) e =
    logical_valid_char c p (join-head (d ∷ s) (All-IsPiece (d ∷ s) h) c p (sym e))
    ∙ ap (components_valid []) e
    ∙ components_valid_complete d s h

rooted_complete : (s : List (List ℕ)) → All Is83 s → logical_valid (b'/' ∷ join s) ≡ true
rooted_complete [] h = unfold logical_valid in refl
rooted_complete (d ∷ s) h = behind (join (d ∷ s)) (components_valid_complete d s h)
  where
    behind : (p : List ℕ) → components_valid [] p ≡ true → logical_valid (b'/' ∷ p) ≡ true
    behind [] h = unfold logical_valid in refl
    behind (c ∷ p) h = unfold logical_valid in h

logical_valid_complete : {p : List ℕ} → IsLogical p → logical_valid p ≡ true
logical_valid_complete {p} (inl c) = joined_complete c.stack c.named p c.joined
logical_valid_complete {p} (inr (q, e, c)) = rw (e, c.joined) (rooted_complete c.stack c.named)

path_valid_83-IsPath : (p : List ℕ) → path_valid_83 p ≡ true → IsPath p
unfolding path_valid_83 device_valid
path_valid_83-IsPath p h = elim (Option-cases (has_drive_prefix p)) [
  | inl none_at ↦ inl (logical_valid_sound p (rw (none_at, path_valid_83) at h))
  | inr (d, at) ↦
      let h' = rw (at, path_valid_83) at h in
      inr (
        d,
        skip_prefix p,
        ground arith,
        has_drive_prefix-some p d at,
        logical_valid_sound (skip_prefix p) (ground arith),
      )
]

path_valid_complete : (p : List ℕ) → IsPath p → path_valid_83 p ≡ true
unfolding path_valid_83 device_valid
path_valid_complete p (inl l) = rw (IsLogical-no_drive l, path_valid_83) (logical_valid_complete l)
path_valid_complete p (inr (d, q, lt, e, l)) =
    rw (e, path_valid_83, has_drive_prefix_self d q (omega arith))
      (ground (arith, logical_valid_complete l))

-- `rp_fs_path_valid_83` accepts exactly the paths of the grammar: nothing, a slash, or 8.3
-- components with one slash between each two and perhaps one in front, each perhaps behind one of
-- the drives `0:/` to `3:/`.
pub path_valid_83_iff : (p : List ℕ) → (path_valid_83 p ≡ true) ↔ IsPath p
path_valid_83_iff p = (path_valid_83-IsPath p, path_valid_complete p)

pub IsPath-no_drive : {p : List ℕ} → IsPath p → has_drive_prefix p ≡ none → IsLogical p
IsPath-no_drive (inl l) h = l
IsPath-no_drive {p} (inr (d, q, lt, e, l)) h =
    absurd (none-ne-some (sym h ∙ ap has_drive_prefix e ∙ has_drive_prefix_self d q (omega arith)))
  where
    none-ne-some : none ≡ some d → ⊥
    none-ne-some e = cc
