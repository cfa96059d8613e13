-- ===== src/Fifo/Deque.antt =====
-- What fifo.h promises: a sequence of at most `cap` items, added and removed at both ends.
use neo6502_mmu_v.Base.{
  ℕ, Bool, true, false, not, Option, none, some, List, [], ◌∷◌, ◌++◌, length, drop_last, ◌==◌,
  if◌then◌else◌,
}

-- A client's calls.
pub data Op {ℓ} (A : Type ℓ) : Type ℓ where
  do_push : A → Op A
  do_unpop : A → Op A
  do_pop do_peek do_unpush do_clear do_is_empty do_is_full do_count do_status : Op A

-- What a call returns: a flag, a flag with an item, or a number.
pub data Reply {ℓ} (A : Type ℓ) : Type ℓ where
  nothing : Reply A
  flag : Bool → Reply A
  item : Bool → Option A → Reply A
  number : ℕ → Reply A

-- The word of `FIFO::status`, by its bits EMPTY, FULL, DATA and SPACE.
unfoldable pub status_word : Bool → Bool → ℕ
status_word true true = 3
status_word true false = 9
status_word false true = 6
status_word false false = 12

module _ {ℓ} {A : Type ℓ} where
  -- One call on a sequence of at most `cap` items.
  unfoldable pub step : ℕ → Op A → List A → Reply A × List A
  step cap (do_push x) q = if length q == cap then (flag false, q) else (flag true, q ++ x ∷ [])
  step cap (do_unpop x) q = if length q == cap then (flag false, q) else (flag true, x ∷ q)
  step cap do_pop [] = (item false none, [])
  step cap do_pop (x ∷ q) = (item true (some x), q)
  step cap do_peek [] = (item false none, [])
  step cap do_peek (x ∷ q) = (item true (some x), x ∷ q)
  step cap do_unpush q = (flag (not (length q == 0)), drop_last q)
  step cap do_clear q = (nothing, [])
  step cap do_is_empty q = (flag (length q == 0), q)
  step cap do_is_full q = (flag (length q == cap), q)
  step cap do_count q = (number (length q), q)
  step cap do_status q = (number (status_word (length q == 0) (length q == cap)), q)

  unfoldable pub run : ℕ → List (Op A) → List A → List (Reply A)
  run cap [] q = []
  run cap (op ∷ ops) q = let (r, q') = step cap op q in r ∷ run cap ops q'
