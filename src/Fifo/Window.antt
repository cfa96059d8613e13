-- ===== src/Fifo/Window.antt =====
-- The items that a ring holds: `Window size buf t q` says that the places from `t` on, going
-- round at `size`, hold the items of `q` in order.
use neo6502_mmu_v.Base.{
  ℕ, suc, ◌-◌, ◌≤◌, ◌<◌, some, List, [], ◌∷◌, ◌++◌, ◌≡◌, ◌≢◌, sym, ◌∙◌, arith, length, get_elem?,
  set, get_elem?-set_ne,
}
use neo6502_mmu_v.Fifo.Index.{after, before, ahead}

abbrev pub Window {ℓ} : {A : Type ℓ} → ℕ → List A → ℕ → List A → Type ℓ
Window size buf t [] = Unit
Window size buf t (x ∷ q) = (get_elem? buf t ≡ some x) × Window size buf (after size t) q

-- Stepping forward comes one nearer to any other place.
ahead-after :
    (size i t : ℕ)
    → i < size
    → t < size
    → i ≢ t
    → ahead size i t ≡ suc (ahead size i (after size t))
ahead-after size i t hi ht ne = ground arith

ne-ahead-pos : (size i t : ℕ) → 0 < ahead size i t → t < size → i ≢ t
ne-ahead-pos size i t h ht e = absurd (ground arith)

eq-ahead-zero : (size i t : ℕ) → t < size → ahead size i t ≡ 0 → i ≡ t
eq-ahead-zero size i t ht h = ground arith

pub after-lt : (size t : ℕ) → t < size → after size t < size
after-lt size t h = ground arith

pub before-lt : (size t : ℕ) → t < size → before size t < size
before-lt size t h = ground arith

pub after-before : (size t : ℕ) → t < size → after size (before size t) ≡ t
after-before size t h = ground arith

-- The place before the window is as far ahead as the ring is long.
pub ahead-before_self : (size t : ℕ) → t < size → ahead size (before size t) t ≡ size - 1
ahead-before_self size t h = ground arith

-- Moving the tail back, or the head, changes the distance by one.
pub ahead-before_tail :
    (size h t : ℕ)
    → h < size
    → t < size
    → ahead size h t ≢ size - 1
    → ahead size h (before size t) ≡ suc (ahead size h t)
ahead-before_tail size h t hh ht far = ground arith

pub ahead-before_head :
    (size h t : ℕ)
    → h < size
    → t < size
    → ahead size h t ≢ 0
    → suc (ahead size (before size h) t) ≡ ahead size h t
ahead-before_head size h t hh ht far = ground arith

pub ahead-after_tail :
    (size h t : ℕ)
    → h < size
    → t < size
    → ahead size h t ≢ 0
    → suc (ahead size h (after size t)) ≡ ahead size h t
ahead-after_tail size h t hh ht far = ground arith

module _ {ℓ} {A : Type ℓ} (size : ℕ) (buf : List A) where
  -- A write outside the window does not disturb it.
  pub Window-set :
      (i : ℕ) (v : A) (t : ℕ) (q : List A)
      → i < size
      → t < size
      → length q ≤ ahead size i t
      → Window size buf t q
      → Window size (set buf i v) t q
  Window-set i v t [] hi ht far w = tt
  Window-set i v t (x ∷ q) hi ht far (here, later) = (
    get_elem?-set_ne buf i t v apart ∙ here,
    Window-set i v (after size t) q hi (after-lt size t ht)
        (omega (arith, ahead-after size i t hi ht apart)) later,
  )
    where
      apart : i ≢ t
      apart = ne-ahead-pos size i t (omega arith) ht

  -- A place found at the end of a window extends it.
  pub Window-concat :
      (t : ℕ) (q : List A) (i : ℕ) (x : A)
      → i < size
      → t < size
      → length q ≡ ahead size i t
      → get_elem? buf i ≡ some x
      → Window size buf t q
      → Window size buf t (q ++ x ∷ [])
  Window-concat t [] i x hi ht near at w = (rw (← eq-ahead-zero size i t ht (sym near)) at, tt)
  Window-concat t (y ∷ q) i x hi ht near at (here, later) = (
    here,
    Window-concat (after size t) q i x hi (after-lt size t ht)
        (omega (arith, ahead-after size i t hi ht (ne-ahead-pos size i t (omega arith) ht))) at
        later,
  )

  -- A window without its last item is a window.
  pub Window-drop_last :
      (t : ℕ) (q : List A) (x : A) → Window size buf t (q ++ x ∷ []) → Window size buf t q
  Window-drop_last t [] x w = tt
  Window-drop_last t (y ∷ q) x (here, later) = (here, Window-drop_last (after size t) q x later)
