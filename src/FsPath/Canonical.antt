-- ===== src/FsPath/Canonical.antt =====
-- Canonical paths as stacks of components: what the edits of rp_fs_path.cpp do to a path that
-- joins the components of a stack.
use neo6502_mmu_v.Base.{
  ℕ, ◌≤◌, ◌<◌, none, some, List, [], ◌∷◌, ◌++◌, ◌≡◌, ◌≢◌, refl, sym, ap, subst, ◌∙◌, arith, length,
  length-append, drop_last, drop_last-concat, leb, if◌then◌else◌,
}
use mathlib.Core.List.{append_assoc}
use neo6502_mmu_v.FsPath.Text.{before_last_slash, pop_component, append_component}
use neo6502_mmu_v.FsPath.Component.{All, IsName, Is83}

-- The components with a slash between each two.
abbrev pub join : List (List ℕ) → List ℕ
join [] = []
join (c ∷ []) = c
join (c ∷ d ∷ s) = c ++ b'/' ∷ join (d ∷ s)

abbrev pub HasNoSlash : List ℕ → Type 0
HasNoSlash = All (λ c. c ≢ b'/')

-- A component: not empty, and with no slash.
abbrev pub IsPiece : List ℕ → Type 0
IsPiece c = (1 ≤ length c) × HasNoSlash c

IsName-HasNoSlash : (c : List ℕ) → IsName c → HasNoSlash c
IsName-HasNoSlash [] h = tt
IsName-HasNoSlash (x ∷ xs) (h, t) = (λ e. absurd (ground arith), IsName-HasNoSlash xs t)

HasNoSlash-append : (a b : List ℕ) → HasNoSlash a → HasNoSlash b → HasNoSlash (a ++ b)
HasNoSlash-append [] b p q = q
HasNoSlash-append (x ∷ a) b (h, t) q = (h, HasNoSlash-append a b t q)

pub Is83-IsPiece : {c : List ℕ} → Is83 c → IsPiece c
Is83-IsPiece (Is83.plain base name lo hi) = (lo, IsName-HasNoSlash base name)
Is83-IsPiece (Is83.extended base ext name lo hi ext_name ext_lo ext_hi e) = rw e (
  omega (arith, length-append base (b'.' ∷ ext)),
  HasNoSlash-append base (b'.' ∷ ext) (IsName-HasNoSlash base name)
      (λ e. absurd (omega arith), IsName-HasNoSlash ext ext_name),
)

before_last_slash-none : (c : List ℕ) → HasNoSlash c → before_last_slash c ≡ none
unfolding before_last_slash
before_last_slash-none [] h = refl
before_last_slash-none (x ∷ xs) (h, t) = ground (arith, before_last_slash-none xs t)

before_last_slash-append :
    (p c : List ℕ) → HasNoSlash c → before_last_slash (p ++ b'/' ∷ c) ≡ some p
unfolding before_last_slash
before_last_slash-append [] c h = rw (before_last_slash-none c h)
before_last_slash-append (x ∷ p) c h = rw (before_last_slash-append p c h)

-- `join` with a last component.
pub join-concat :
    (d : List ℕ) (s : List (List ℕ)) (c : List ℕ)
    → join ((d ∷ s) ++ c ∷ []) ≡ join (d ∷ s) ++ b'/' ∷ c
join-concat d [] c = refl
join-concat d (e ∷ s) c =
    ap (λ t. d ++ b'/' ∷ t) (join-concat e s c)
    ∙ sym (append_assoc d (b'/' ∷ join (e ∷ s)) (b'/' ∷ c))

pop_component-join_concat :
    (s : List (List ℕ)) (l : List ℕ) → HasNoSlash l → pop_component (join (s ++ l ∷ [])) ≡ join s
unfolding pop_component
pop_component-join_concat [] l h = rw (before_last_slash-none l h, pop_component)
pop_component-join_concat (d ∷ s) l h =
    rw (join-concat d s l, before_last_slash-append (join (d ∷ s)) l h, pop_component)

pub All-concat :
    {A : Type 0} (P : A → Type 0) (xs : List A) {x : A} → All P xs → P x → All P (xs ++ x ∷ [])
All-concat P [] h p = (p, tt)
All-concat P (y ∷ ys) (h, t) p = (h, All-concat P ys t p)

All-last : {A : Type 0} (P : A → Type 0) (xs : List A) {x : A} → All P (xs ++ x ∷ []) → P x
All-last P [] (h, t) = h
All-last P (y ∷ ys) (h, t) = All-last P ys t

pub All-drop_last : {A : Type 0} (P : A → Type 0) (xs : List A) → All P xs → All P (drop_last xs)
unfolding drop_last
All-drop_last P [] h = tt
All-drop_last P (x ∷ []) h = tt
All-drop_last P (x ∷ y ∷ ys) (h, t) = (h, All-drop_last P (y ∷ ys) t)

-- Dropping the last component of the path is dropping it from the stack.
pub pop_component-join :
    (s : List (List ℕ)) → All IsPiece s → pop_component (join s) ≡ join (drop_last s)
pop_component-join [] h = unfold pop_component before_last_slash drop_last in refl
pop_component-join (d ∷ s) h =
    let (l, e) = drop_last-concat d s in
    ap (λ t. pop_component (join t)) e
    ∙ pop_component-join_concat (drop_last (d ∷ s)) l
        (All-last IsPiece (drop_last (d ∷ s)) (subst (All IsPiece) e h)).1

pub length-join_pos : (d : List ℕ) (s : List (List ℕ)) → IsPiece d → 1 ≤ length (join (d ∷ s))
length-join_pos d [] h = h.0
length-join_pos d (e ∷ s) h = omega (arith, h.0, length-append d (b'/' ∷ join (e ∷ s)))

-- Appending a component pushes it, if the longer path fits.
pub append_component-join :
    (n : ℕ) (s : List (List ℕ)) (c : List ℕ)
    → 0 < n
    → All IsPiece s
    → IsPiece c
    → append_component (join s) n c
      ≡ (if leb n (length (join (s ++ c ∷ []))) then none else some (join (s ++ c ∷ [])))
unfolding append_component
append_component-join n [] c pos h p = ground (arith, p.0)
append_component-join n (d ∷ s) c pos (hd, hs) p =
    rw (join-concat d s c)
      (ground (arith, p.0, length-append (join (d ∷ s)) (b'/' ∷ c), length-join_pos d s hd))

pub length-join-drop_last : (s : List (List ℕ)) → length (join (drop_last s)) ≤ length (join s)
unfolding drop_last
length-join-drop_last [] = omega arith
length-join-drop_last (d ∷ []) = omega arith
length-join-drop_last (d ∷ e ∷ []) = omega (arith, length-append d (b'/' ∷ e))
length-join-drop_last (d ∷ e ∷ f ∷ s) = omega (
  arith,
  length-append d (b'/' ∷ join (e ∷ f ∷ s)),
  length-append d (b'/' ∷ join (drop_last (e ∷ f ∷ s))),
  length-join-drop_last (e ∷ f ∷ s),
)
