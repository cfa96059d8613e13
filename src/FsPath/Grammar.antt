-- ===== src/FsPath/Grammar.antt =====
-- What `rp_fs_path_valid_83` accepts.
use mathlib.Core.List.{append_assoc, append-nil}
use neo6502_mmu_v.Base.{
  ℕ, true, false, inl, inr, List, [], ◌∷◌, ◌++◌, ◌≡◌, ◌≢◌, sym, ap, ◌∙◌, arith, length, ◌==◌,
  Bool-cases,
}
use neo6502_mmu_v.FsPath.Text.{component_valid_83, components_valid}
use neo6502_mmu_v.FsPath.Component.{All, Is83, component_valid_83_iff}
use neo6502_mmu_v.FsPath.Canonical.{join, HasNoSlash, Is83-IsPiece, All-concat, length-join_pos}

-- A path of at least one component.
pub record IsJoined (p : List ℕ) : Type 0 where
  pub first : List ℕ
  pub others : List (List ℕ)
  pub named : All Is83 (first ∷ others)
  pub joined : p ≡ join (first ∷ others)

pub components_valid_sound :
    (component p : List ℕ)
    → HasNoSlash component
    → components_valid component p ≡ true
    → IsJoined (component ++ p)
unfolding components_valid
components_valid_sound component [] plain h = record {
  first = component;
  others = [];
  named = ((component_valid_83_iff component).0 h, tt);
  joined = append-nil component;
}
components_valid_sound component (c ∷ p) plain h = elim (Bool-cases (c == b'/')) [
  | inl slash ↦
      let valid : component_valid_83 component ≡ true = ground arith in
      let later = components_valid_sound [] p tt (ground arith) in
      record {
        first = component;
        others = later.first ∷ later.others;
        named = ((component_valid_83_iff component).0 valid, later.named);
        joined = ap (λ q. component ++ q) (ground (arith, later.joined));
      }
  | inr char ↦
      let later =
        components_valid_sound (component ++ c ∷ []) p
          (All-concat (λ x. x ≢ b'/') component plain (ground arith)) (rw char at h) in
      record {
        first = later.first;
        others = later.others;
        named = later.named;
        joined = sym (append_assoc component (c ∷ []) p) ∙ later.joined;
      }
]

-- Reading a component on to its end, and on to the next slash.
components_valid_last :
    (component x : List ℕ)
    → HasNoSlash x
    → components_valid component x ≡ component_valid_83 (component ++ x)
unfolding components_valid
components_valid_last component [] plain = ap component_valid_83 (sym (append-nil component))
components_valid_last component (c ∷ x) (h, plain) =
    rw (← append_assoc component (c ∷ []) x)
      (ground (arith, components_valid_last (component ++ c ∷ []) x plain))

components_valid_slash :
    (component x p : List ℕ)
    → HasNoSlash x
    → (length p == 0) ≡ false
    → component_valid_83 (component ++ x) ≡ true
    → components_valid component (x ++ b'/' ∷ p) ≡ components_valid [] p
unfolding components_valid
components_valid_slash component [] p plain ne h =
    rw (ne, ap component_valid_83 (sym (append-nil component)) ∙ h)
components_valid_slash component (c ∷ x) p (h, plain) ne valid = ground (
  arith,
  components_valid_slash (component ++ c ∷ []) x p plain ne
      (ap component_valid_83 (append_assoc component (c ∷ []) x) ∙ valid),
)

pub components_valid_complete :
    (d : List ℕ) (s : List (List ℕ)) → All Is83 (d ∷ s) → components_valid [] (join (d ∷ s)) ≡ true
components_valid_complete d [] (h, t) =
    components_valid_last [] d (Is83-IsPiece h).1 ∙ (component_valid_83_iff d).1 h
components_valid_complete d (e ∷ s) (h, t) =
    components_valid_slash [] d (join (e ∷ s)) (Is83-IsPiece h).1
      (ground (arith, length-join_pos e s (Is83-IsPiece t.0))) ((component_valid_83_iff d).1 h)
    ∙ components_valid_complete e s t
