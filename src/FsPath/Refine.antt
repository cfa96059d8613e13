-- ===== src/FsPath/Refine.antt =====
-- The loop of rp_fs_resolve_process_path (NEO6502_MMU_V3/rp_fs_path.cpp) and the pieces of its input.
use neo6502_mmu_v.Base.{
  ℕ, zero, suc, ◌≤◌, ◌<◌, true, false, List, [], ◌∷◌, ◌++◌, ◌≡◌, refl, sym, ap, ◌∙◌, inl, inr,
  arith, length, drop_last, ◌==◌, Bool-cases,
}
use neo6502_mmu_v.FsPath.Text.{path_max, component_valid_83}
use neo6502_mmu_v.FsPath.Component.{All, Is83, component_valid_83_iff}
use neo6502_mmu_v.FsPath.Canonical.{
  join, IsPiece, Is83-IsPiece, All-concat, All-drop_last, pop_component-join, append_component-join,
}
use neo6502_mmu_v.FsPath.Resolve.{PathResult, map_ok, skip_slashes, take_component, round, walk}
use neo6502_mmu_v.FsPath.Spec.{cons_head, pieces, follow}

abbrev Stack : Type 0
Stack = List (List ℕ)

-- The first piece is what `take_component` passes, and what follows is what it leaves.
record Splits (cs : List ℕ) : Type 0 where
  others : Stack
  splits : pieces cs ≡ (take_component cs).0 ∷ others
  follows : (s : Stack) → follow s others ≡ follow s (pieces (take_component cs).1)

pieces_slash : (c : ℕ) (cs : List ℕ) → (c == b'/') ≡ true → pieces (c ∷ cs) ≡ [] ∷ pieces cs
unfolding pieces
pieces_slash c cs h = rw h

pieces_char :
    (c : ℕ) (cs : List ℕ) → (c == b'/') ≡ false → pieces (c ∷ cs) ≡ cons_head c (pieces cs)
unfolding pieces
pieces_char c cs h = rw h

follow_empty : (s : Stack) (ps : Stack) → follow s ([] ∷ ps) ≡ follow s ps
unfolding follow
follow_empty s ps = refl

take_component-Splits : (cs : List ℕ) → Splits cs
unfolding take_component
take_component-Splits [] = record {
  others = [];
  splits = unfold pieces in refl;
  follows = λ s. unfold pieces follow in refl;
}
take_component-Splits (c ∷ cs) = elim (Bool-cases (c == b'/')) [
  | inl slash ↦ record {
    others = pieces cs;
    splits = rw slash (pieces_slash c cs slash);
    follows = λ s. rw slash (rw (pieces_slash c cs slash) (sym (follow_empty s (pieces cs))));
  }
  | inr char ↦
      let r = take_component-Splits cs in
      record {
        others = r.others;
        splits = rw char (pieces_char c cs char ∙ ap (cons_head c) r.splits);
        follows = λ s. rw char (r.follows s);
      }
]

follow-skip_slashes :
    (cs : List ℕ) (s : Stack) → follow s (pieces cs) ≡ follow s (pieces (skip_slashes cs))
unfolding skip_slashes
follow-skip_slashes [] s = refl
follow-skip_slashes (c ∷ cs) s = elim (Bool-cases (c == b'/')) [
  | inl slash ↦
      rw (slash, pieces_slash c cs slash, follow_empty s (pieces cs)) (follow-skip_slashes cs s)
  | inr char ↦ rw char
]

length-skip_slashes : (cs : List ℕ) → length (skip_slashes cs) ≤ length cs
unfolding skip_slashes
length-skip_slashes [] = omega arith
length-skip_slashes (c ∷ cs) = ground (arith, length-skip_slashes cs)

length-take_component : (cs : List ℕ) → length (take_component cs).1 ≤ length cs
unfolding take_component
length-take_component [] = omega arith
length-take_component (c ∷ cs) = ground (arith, length-take_component cs)

-- The cursor stands at no slash after the inner loop.
skip_slashes-head :
    (cs : List ℕ) (d : ℕ) (ds : List ℕ) → skip_slashes cs ≡ d ∷ ds → (d == b'/') ≡ false
unfolding skip_slashes
skip_slashes-head [] d ds e = cc
skip_slashes-head (c ∷ cs) d ds e = ground (arith, skip_slashes-head cs d ds)

-- A component that starts at `c`: what is left is no longer than what stood behind `c`.
length-take_component_cons :
    (c : ℕ) (cs : List ℕ) → (c == b'/') ≡ false → length (take_component (c ∷ cs)).1 ≤ length cs
unfolding take_component
length-take_component_cons c cs h = rw h (length-take_component cs)

take_component-nonempty :
    (c : ℕ) (cs : List ℕ) → (c == b'/') ≡ false → (length (take_component (c ∷ cs)).0 == 0) ≡ false
unfolding take_component
take_component-nonempty c cs h = rw h (ground arith)

valid-Is83 : (p : List ℕ) → component_valid_83 p ≡ true → Is83 p
valid-Is83 p = (component_valid_83_iff p).0

-- A round does on the joined path what `follow` does on the stack, if what comes after does.
round_refines :
    (next : List ℕ → PathResult (List ℕ)) (stack : Stack) (p : List ℕ) (others : Stack)
    → All IsPiece stack
    → (length p == 0) ≡ false
    → ((s : Stack) → All IsPiece s → next (join s) ≡ map_ok join (follow s others))
    → round next (join stack) p ≡ map_ok join (follow stack (p ∷ others))
unfolding round follow
round_refines next stack p others ps ne ih = elim (Bool-cases (component_valid_83 p)) [
  | inl valid ↦
      let piece = Is83-IsPiece (valid-Is83 p valid) in
      rw
        (
          pop_component-join stack ps,
          append_component-join path_max stack p (omega arith) ps piece,
          valid,
          ne,
        )
        (ground (
          arith,
          ih stack ps,
          ih (drop_last stack) (All-drop_last IsPiece stack ps),
          ih (stack ++ p ∷ []) (All-concat IsPiece stack ps piece),
        ))
  | inr bad ↦
      rw (pop_component-join stack ps, bad, ne)
        (ground (arith, ih stack ps, ih (drop_last stack) (All-drop_last IsPiece stack ps)))
]

-- With more fuel than characters the loop ends with what `follow` gives on the pieces.
pub walk_refines :
    (fuel : ℕ) (cursor : List ℕ) (stack : Stack)
    → length cursor < fuel
    → All IsPiece stack
    → walk fuel (join stack) cursor ≡ map_ok join (follow stack (pieces cursor))
unfolding walk
walk_refines zero cursor stack h ps = absurd (omega arith)
walk_refines (suc fuel) cursor stack h ps =
    rw (follow-skip_slashes cursor stack) (go (skip_slashes cursor) refl (walk_refines fuel))
  where
    shorter :
        (c : ℕ) (cs : List ℕ)
        → skip_slashes cursor ≡ c ∷ cs
        → length (take_component (c ∷ cs)).1 < fuel
    shorter c cs e = omega (
      arith,
      length-take_component_cons c cs (skip_slashes-head cursor c cs e),
      ap length e,
      length-skip_slashes cursor,
    )

    go :
        (at : List ℕ)
        → skip_slashes cursor ≡ at
        → ((c : List ℕ) (s : Stack)
            → length c < fuel
            → All IsPiece s
            → walk fuel (join s) c ≡ map_ok join (follow s (pieces c)))
        → walk (suc fuel) (join stack) cursor
          ≡ map_ok join (follow stack (pieces (skip_slashes cursor)))
    go [] e ih = rw (e, walk) (unfold pieces follow in refl)
    go (c ∷ cs) e ih =
        let char = skip_slashes-head cursor c cs e in
        let r = take_component-Splits (c ∷ cs) in
        let rest = (take_component (c ∷ cs)).1 in
        rw (e, walk, r.splits)
          (round_refines (λ path. walk fuel path rest) stack (take_component (c ∷ cs)).0 r.others ps
            (take_component-nonempty c cs char)
            (λ s q. ih rest s (shorter c cs e) q ∙ ap (map_ok join) (sym (r.follows s))))
