-- ===== src/FsPath/Spec.antt =====
-- What path resolution means: the pieces between the slashes are followed one by one from a stack
-- of components, with no buffer, no cursor and no fuel.
use neo6502_mmu_v.Base.{
  ℕ, not, ◌||◌, List, [], ◌∷◌, ◌++◌, length, drop_last, leb, ◌==◌, if◌then◌else◌,
}
use neo6502_mmu_v.FsPath.Text.{path_max, component_valid_83}
use neo6502_mmu_v.FsPath.Resolve.{PathResult, ok, invalid_path, too_long, is_dot, is_dot_dot}
use neo6502_mmu_v.FsPath.Canonical.{join}

abbrev pub cons_head : ℕ → List (List ℕ) → List (List ℕ)
cons_head c [] = (c ∷ []) ∷ []
cons_head c (p ∷ ps) = (c ∷ p) ∷ ps

-- What stands between the slashes.
unfoldable pub pieces : List ℕ → List (List ℕ)
pieces [] = [] ∷ []
pieces (c ∷ cs) = let rest = pieces cs in if c == b'/' then [] ∷ rest else cons_head c rest

-- Empty pieces and `.` stay, `..` goes up, a name goes down if the path stays short enough.
unfoldable pub follow : List (List ℕ) → List (List ℕ) → PathResult (List (List ℕ))
follow stack [] = ok stack
follow stack (p ∷ ps) =
    let same = follow stack ps in
    let up = follow (drop_last stack) ps in
    let down = follow (stack ++ p ∷ []) ps in
    if length p == 0 || is_dot p
    then same
    else if is_dot_dot p
    then up
    else if not (component_valid_83 p)
    then invalid_path
    else if leb path_max (length (join (stack ++ p ∷ [])))
    then too_long
    else down
