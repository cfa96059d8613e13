-- ===== src/Fifo/Refine.antt =====
-- The calls of NEO6502_MMU_V3/fifo.h on a ring and on the sequence of its items.
use neo6502_mmu_v.Base.{
  ℕ, ◌^◌, ◌≤◌, ◌<◌, bit_or, Bool, true, false, inl, inr, List, [], ◌∷◌, ◌≡◌, refl, sym, ap, ap₂,
  subst, ◌∙◌, arith, length, length-append, drop_last, length-drop_last, drop_last-concat, set,
  length-set, get_elem?-set_self, ◌==◌, if◌then◌else◌, Bool-cases, suc-beq-zero,
}
use neo6502_mmu_v.Fifo.{
  Fifo, status_empty, status_full, status_data, status_space, capacity, next_index, prev_index,
  clear, is_empty, is_full, count, status, push, pop, peek, unpush, unpop,
}
use neo6502_mmu_v.Fifo.Deque
use neo6502_mmu_v.Fifo.Deque.{Op, Reply, nothing, flag, item, number}
use neo6502_mmu_v.Fifo.Index.{before, ahead, next_index-after, prev_index-before, distance-ahead}
use neo6502_mmu_v.Fifo.Window.{
  Window, Window-set, Window-concat, Window-drop_last, after-lt, before-lt, after-before,
  ahead-before_self, ahead-before_tail, ahead-before_head, ahead-after_tail,
}

-- The ring holds exactly the items of `q`, oldest first.
pub record Represents {ℓ} {A : Type ℓ} (k : ℕ) (f : Fifo A) (q : List A) : Type ℓ where
  pub storage : length f.buffer ≡ 2 ^ k
  pub head_in : f.head < 2 ^ k
  pub tail_in : f.tail < 2 ^ k
  pub held : length q ≡ ahead (2 ^ k) f.head f.tail
  pub window : Window (2 ^ k) f.buffer f.tail q

-- One call on the ring.
module _ {ℓ} {A : Type ℓ} where
  unfoldable pub step : ℕ → Op A → Fifo A → Reply A × Fifo A
  step k (Op.do_push x) f = let (b, g) = push k f x in (flag b, g)
  step k (Op.do_unpop x) f = let (b, g) = unpop k f x in (flag b, g)
  step k Op.do_pop f = let (b, v, g) = pop k f in (item b v, g)
  step k Op.do_peek f = let (b, v) = peek f in (item b v, f)
  step k Op.do_unpush f = let (b, g) = unpush k f in (flag b, g)
  step k Op.do_clear f = (nothing, clear f)
  step k Op.do_is_empty f = (flag (is_empty f), f)
  step k Op.do_is_full f = (flag (is_full k f), f)
  step k Op.do_count f = (number (count k f), f)
  step k Op.do_status f = (number (status k f), f)

  unfoldable pub run : ℕ → List (Op A) → Fifo A → List (Reply A)
  run k [] f = []
  run k (op ∷ ops) f = let (r, g) = step k op f in r ∷ run k ops g

-- What the ring returns and then holds is what the sequence returns and then is.
abbrev pub Agrees {ℓ} : {A : Type ℓ} → ℕ → Reply A × Fifo A → Reply A × List A → Type ℓ
Agrees k (r, f) (s, q) = (r ≡ s) × Represents k f q

module _ {ℓ} {A : Type ℓ} (k : ℕ) (small : k ≤ 31) where
  empty_iff : {f : Fifo A} {q : List A} → Represents k f q → (f.head == f.tail) ≡ (length q == 0)
  empty_iff r = ground arith

  empty_iff_tail :
      {f : Fifo A} {q : List A} → Represents k f q → (f.tail == f.head) ≡ (length q == 0)
  empty_iff_tail r = ground arith

  full_iff :
      {f : Fifo A} {q : List A}
      → Represents k f q
      → (next_index k f.head == f.tail) ≡ (length q == capacity k)
  full_iff {f} r = rw (next_index-after k f.head small r.head_in) (ground arith)

  full_iff_prev :
      {f : Fifo A} {q : List A}
      → Represents k f q
      → (prev_index k f.tail == f.head) ≡ (length q == capacity k)
  full_iff_prev {f} r = rw (prev_index-before k f.tail small r.tail_in) (ground arith)

  push_refines :
      (x : A) {f : Fifo A} {q : List A}
      → Represents k f q
      → Agrees k (step k (Op.do_push x) f) (Deque.step (capacity k) (Op.do_push x) q)
  unfolding step push Deque.step
  push_refines x {f} {q} r = elim (Bool-cases (length q == capacity k)) [
    | inl full ↦ rw (full_iff r, full) (refl, r)
    | inr room ↦
        rw (full_iff r, room, next_index-after k f.head small r.head_in)
          (
            refl,
            record {
              storage = length-set f.buffer f.head x ∙ r.storage;
              head_in = after-lt (2 ^ k) f.head r.head_in;
              tail_in = r.tail_in;
              held = ground (arith, r.held, length-append q (x ∷ []));
              window =
                  Window-concat (2 ^ k) (set f.buffer f.head x) f.tail q f.head x r.head_in
                    r.tail_in r.held
                    (get_elem?-set_self f.buffer f.head x (omega (arith, r.storage, r.head_in)))
                    (Window-set (2 ^ k) f.buffer f.head x f.tail q r.head_in r.tail_in
                      (omega (arith, r.held)) r.window);
            },
          )
  ]

  unpop_refines :
      (x : A) {f : Fifo A} {q : List A}
      → Represents k f q
      → Agrees k (step k (Op.do_unpop x) f) (Deque.step (capacity k) (Op.do_unpop x) q)
  unfolding step unpop Deque.step
  unpop_refines x {f} {q} r = elim (Bool-cases (length q == capacity k)) [
    | inl full ↦ rw (full_iff_prev r, full) (refl, r)
    | inr room ↦
        rw (full_iff_prev r, room, prev_index-before k f.tail small r.tail_in)
          (
            refl,
            record {
              storage = length-set f.buffer (before (2 ^ k) f.tail) x ∙ r.storage;
              head_in = r.head_in;
              tail_in = before-lt (2 ^ k) f.tail r.tail_in;
              held =
                  ground
                    (arith, ahead-before_tail (2 ^ k) f.head f.tail r.head_in r.tail_in, r.held);
              window = (
                get_elem?-set_self f.buffer (before (2 ^ k) f.tail) x
                    (omega (arith, r.storage, before-lt (2 ^ k) f.tail r.tail_in)),
                rw (after-before (2 ^ k) f.tail r.tail_in) (
                    Window-set (2 ^ k) f.buffer (before (2 ^ k) f.tail) x f.tail q
                      (before-lt (2 ^ k) f.tail r.tail_in) r.tail_in
                      (ground (arith, ahead-before_self (2 ^ k) f.tail r.tail_in, r.held))
                      r.window),
              );
            },
          )
  ]

  pop_refines :
      {f : Fifo A} (q : List A)
      → Represents k f q
      → Agrees k (step k Op.do_pop f) (Deque.step (capacity k) Op.do_pop q)
  unfolding step pop Deque.step
  pop_refines {f} [] r = rw (empty_iff_tail r) (refl, r)
  pop_refines {f} (x ∷ q) r =
      rw (empty_iff_tail r, suc-beq-zero, next_index-after k f.tail small r.tail_in)
        (
          ap (item true) r.window.0,
          record {
            storage = r.storage;
            head_in = r.head_in;
            tail_in = after-lt (2 ^ k) f.tail r.tail_in;
            held =
                ground (arith, r.held, ahead-after_tail (2 ^ k) f.head f.tail r.head_in r.tail_in);
            window = r.window.1;
          },
        )

  peek_refines :
      {f : Fifo A} (q : List A)
      → Represents k f q
      → Agrees k (step k Op.do_peek f) (Deque.step (capacity k) Op.do_peek q)
  unfolding step peek Deque.step
  peek_refines {f} [] r = rw (empty_iff r) (refl, r)
  peek_refines {f} (x ∷ q) r = rw (empty_iff r, suc-beq-zero) (ap (item true) r.window.0, r)

  unpush_refines :
      {f : Fifo A} (q : List A)
      → Represents k f q
      → Agrees k (step k Op.do_unpush f) (Deque.step (capacity k) Op.do_unpush q)
  unfolding step unpush Deque.step drop_last
  unpush_refines {f} [] r = rw (empty_iff r) (refl, r)
  unpush_refines {f} (x ∷ q) r =
      let (l, e) = drop_last-concat x q in
      rw (empty_iff r, suc-beq-zero, prev_index-before k f.head small r.head_in)
        (
          refl,
          record {
            storage = r.storage;
            head_in = before-lt (2 ^ k) f.head r.head_in;
            tail_in = r.tail_in;
            held = ground (
              arith,
              r.held,
              length-drop_last (x ∷ q),
              ahead-before_head (2 ^ k) f.head f.tail r.head_in r.tail_in,
            );
            window =
                Window-drop_last (2 ^ k) f.buffer f.tail (drop_last (x ∷ q)) l
                  (subst (Window (2 ^ k) f.buffer f.tail) e r.window);
          },
        )

  clear_refines : {f : Fifo A} {q : List A} → Represents k f q → Represents k (clear f) []
  unfolding clear
  clear_refines r = record {
    storage = r.storage;
    head_in = omega (arith, r.head_in);
    tail_in = omega (arith, r.head_in);
    held = ground arith;
    window = tt;
  }

  count_refines : {f : Fifo A} {q : List A} → Represents k f q → count k f ≡ length q
  unfolding count
  count_refines {f} r =
      distance-ahead k f.head f.tail small r.head_in (omega (arith, r.tail_in)) ∙ sym r.held

  status_refines :
      {f : Fifo A} {q : List A}
      → Represents k f q
      → status k f ≡ Deque.status_word (length q == 0) (length q == capacity k)
  unfolding status Deque.status_word
  status_refines {f} {q} r =
      rw (empty_iff r, full_iff r) (words (length q == 0) (length q == capacity k))
    where
      words :
          (e full : Bool)
          → (let s = if e then bit_or 0 status_empty else bit_or 0 status_data in
              if full then bit_or s status_full else bit_or s status_space)
            ≡ Deque.status_word e full
      words true true = refl
      words true false = refl
      words false true = refl
      words false false = refl

  -- With a size of at most 2 ^ 31, each call on a ring replies as the call on the sequence that it holds
  -- does, and leaves the ring holding what that call leaves.
  pub step_refines :
      (op : Op A) {f : Fifo A} {q : List A}
      → Represents k f q
      → Agrees k (step k op f) (Deque.step (capacity k) op q)
  unfolding step Deque.step is_empty is_full
  step_refines (Op.do_push x) r = push_refines x r
  step_refines (Op.do_unpop x) r = unpop_refines x r
  step_refines Op.do_pop {q = q} r = pop_refines q r
  step_refines Op.do_peek {q = q} r = peek_refines q r
  step_refines Op.do_unpush {q = q} r = unpush_refines q r
  step_refines Op.do_clear r = (refl, clear_refines r)
  step_refines Op.do_is_empty r = (ap flag (empty_iff r), r)
  step_refines Op.do_is_full r = (ap flag (full_iff r), r)
  step_refines Op.do_count r = (ap number (count_refines r), r)
  step_refines Op.do_status r = (ap number (status_refines r), r)

  -- With a size of at most 2 ^ 31, no sequence of calls tells a ring from the sequence that it holds,
  -- bounded by SIZE - 1.
  pub run_refines :
      (ops : List (Op A)) {f : Fifo A} {q : List A}
      → Represents k f q
      → run k ops f ≡ Deque.run (capacity k) ops q
  unfolding run Deque.run
  run_refines [] r = refl
  run_refines (op ∷ ops) r =
      let (same, next) = step_refines op r in ap₂ ◌∷◌ same (run_refines ops next)
