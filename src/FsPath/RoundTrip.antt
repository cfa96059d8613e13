-- ===== src/FsPath/RoundTrip.antt =====
-- The texts of rp_fs_cwd_format (NEO6502_MMU_V3/rp_fs_path.cpp) as inputs of the resolution.
use mathlib.Core.List.{append_assoc, append-nil}
use neo6502_mmu_v.Base.{
  ℕ, ◌+◌, ◌≤◌, ◌<◌, true, false, ◌||◌, inl, inr, some, List, [], ◌∷◌, ◌++◌, ◌≡◌, refl, sym, ap,
  subst, ◌∙◌, arith, length, length-append, leb, ◌==◌, Option-cases,
}
use neo6502_mmu_v.FsPath.Text.{
  max_procs, path_max, device_valid, component_scan, component_valid_83,
}
use neo6502_mmu_v.FsPath.Cwd.{ProcessCwd, ResolvedPath, Table, cwd_slot, shown, get, format}
use neo6502_mmu_v.FsPath.Component.{All, Is83, component_valid_83_iff}
use neo6502_mmu_v.FsPath.Canonical.{join, IsPiece, HasNoSlash}
use neo6502_mmu_v.FsPath.Valid.{has_drive_prefix_self, All-IsPiece}
use neo6502_mmu_v.FsPath.Table.{IsValid, IsTable, slot-IsValid}
use neo6502_mmu_v.FsPath.Resolve.{ok, is_dot, is_dot_dot, path_start, resolve_from, resolve}
use neo6502_mmu_v.FsPath.Spec.{pieces, follow}
use neo6502_mmu_v.FsPath.Resolution.{resolve_from_refines}

-- The pieces of a canonical path are its components.
pieces_last : (x : List ℕ) → HasNoSlash x → pieces x ≡ x ∷ []
unfolding pieces
pieces_last [] h = refl
pieces_last (c ∷ x) (h, t) = ground (arith, pieces_last x t)

pieces_slash : (x p : List ℕ) → HasNoSlash x → pieces (x ++ b'/' ∷ p) ≡ x ∷ pieces p
unfolding pieces
pieces_slash [] p h = refl
pieces_slash (c ∷ x) p (h, t) = ground (arith, pieces_slash x p t)

pieces-join : (d : List ℕ) (s : List (List ℕ)) → All IsPiece (d ∷ s) → pieces (join (d ∷ s)) ≡ d ∷ s
pieces-join d [] (h, t) = pieces_last d h.1
pieces-join d (e ∷ s) (h, t) = pieces_slash d (join (e ∷ s)) h.1 ∙ ap (◌∷◌ d) (pieces-join e s t)

-- A name does not begin with a dot.
dot_invalid : (c : ℕ) (p : List ℕ) → c ≡ b'.' → component_valid_83 (c ∷ p) ≡ false
unfolding component_valid_83 component_scan
dot_invalid c p e = rw e

-- A name is none of the pieces that resolution treats apart.
name_apart :
    (p : List ℕ)
    → component_valid_83 p ≡ true
    → ((length p == 0 || is_dot p) ≡ false) × (is_dot_dot p ≡ false)
name_apart [] h = unfold component_valid_83 in cc
name_apart (c ∷ []) h = ground (arith, dot_invalid c [])
name_apart (c ∷ d ∷ []) h = ground (arith, dot_invalid c (d ∷ []))
name_apart (c ∷ d ∷ e ∷ p) h = ground arith

length-join_prefix : (a b : List (List ℕ)) → length (join a) ≤ length (join (a ++ b))
length-join_prefix [] b = omega arith
length-join_prefix (d ∷ []) [] = omega arith
length-join_prefix (d ∷ []) (e ∷ b) = omega (arith, length-append d (b'/' ∷ join (e ∷ b)))
length-join_prefix (d ∷ e ∷ a) b = omega (
  arith,
  length-append d (b'/' ∷ join (e ∷ a)),
  length-append d (b'/' ∷ join (e ∷ a ++ b)),
  length-join_prefix (e ∷ a) b,
)

-- Names are pushed one by one.
follow_names :
    (ps stack : List (List ℕ))
    → All Is83 ps
    → length (join (stack ++ ps)) < path_max
    → follow stack ps ≡ ok (stack ++ ps)
unfolding follow
follow_names [] stack h short = ap ok (sym (append-nil stack))
follow_names (p ∷ ps) stack (h, t) short =
    let valid = (component_valid_83_iff p).1 h in
    let (e, f) = name_apart p valid in
    let whole = append_assoc stack (p ∷ []) ps in
    let short' = subst (λ s. length (join s) < path_max) (sym whole) short in
    let fits : leb path_max (length (join (stack ++ p ∷ []))) ≡ false =
      ground (arith, length-join_prefix (stack ++ p ∷ []) ps) in
    rw (e, f, valid, fits) (follow_names ps (stack ++ p ∷ []) t short' ∙ ap ok whole)

follow-join :
    (s : List (List ℕ))
    → All Is83 s
    → length (join s) < path_max
    → follow [] (pieces (join s)) ≡ ok s
follow-join [] h short = unfold pieces follow in refl
follow-join (d ∷ s) h short =
    rw (pieces-join d s (All-IsPiece (d ∷ s) h)) (follow_names (d ∷ s) [] h short)

drive_text :
    (s : ProcessCwd)
    → IsValid s
    → resolve_from (record { device = s.device; canonical = []; cursor = s.path })
      ≡ ok (record { device = s.device; path = shown s.path })
unfolding device_valid
drive_text s v =
    resolve_from_refines (record { device = s.device; canonical = []; cursor = s.path }) [] tt refl
      (omega arith)
    ∙ ground (
      arith,
      v.drive,
      v.canonical.joined,
      follow-join v.canonical.stack v.canonical.named
          (subst (λ p. length p < path_max) v.canonical.joined (omega (arith, v.fits))),
    )

format_shape :
    (t : Table) (pid out_len : ℕ) (s : ProcessCwd) {text : List ℕ} {len : ℕ}
    → cwd_slot t pid ≡ some s
    → format t pid out_len ≡ some (text, len)
    → (s.valid ≡ true)
      × (text ≡ (b'0' + s.device) ∷ b':' ∷ b'/' ∷ s.path)
      × (len ≡ length text)
      × (length text < out_len)
unfolding format
format_shape t pid out_len s found e = ground arith

get_valid :
    (t : Table) (pid : ℕ) (s : ProcessCwd)
    → cwd_slot t pid ≡ some s
    → s.valid ≡ true
    → get t pid ≡ some (record { device = s.device; path = shown s.path })
unfolding get
get_valid t pid s found on = simp (found, get, on)

resolve_drive :
    (t : Table) (reader fallback d : ℕ) (p : List ℕ)
    → reader < max_procs
    → d ≤ 9
    → resolve t reader fallback ((b'0' + d) ∷ b':' ∷ b'/' ∷ p)
      ≡ resolve_from (record { device = d; canonical = []; cursor = p })
unfolding resolve path_start
resolve_drive t reader fallback d p lt le = ground (arith, has_drive_prefix_self d p le)

-- What `rp_fs_cwd_format` prints for a process, every process resolves, from whatever directory,
-- to the drive and path that `rp_fs_cwd_get` returns; its length is the one reported and leaves
-- room for the NUL in the buffer.
pub resolve-format :
    (t : Table) (pid out_len : ℕ) {text : List ℕ} {len : ℕ}
    → IsTable t
    → format t pid out_len ≡ some (text, len)
    → (reader fallback : ℕ) → reader < max_procs
    → (r : ResolvedPath) × (get t pid ≡ some r)
      × (resolve t reader fallback text ≡ ok r)
      × (len ≡ length text)
      × (length text < out_len)
resolve-format t pid out_len h e reader fallback lt = elim (Option-cases (cwd_slot t pid)) [
  | inl gone ↦ unfold format in cc (rw (gone, format) at e)
  | inr (s, found) ↦
      let v = slot-IsValid pid h found in
      let (on, shape, len_is, room) = format_shape t pid out_len s found e in
      (
        record { device = s.device; path = shown s.path },
        get_valid t pid s found on,
        ap (resolve t reader fallback) shape
            ∙ resolve_drive t reader fallback s.device s.path lt (omega (arith, v.drive))
            ∙ drive_text s v,
        len_is,
        room,
      )
]
