-- ===== src/Fifo/Tests.antt =====
-- Runs of the ring of NEO6502_MMU_V3/fifo.h.
use neo6502_mmu_v.Base.{ℕ, true, false, none, some, List, [], ◌∷◌, ◌≡◌, refl, arith}
use neo6502_mmu_v.Fifo.{Fifo, next_index, prev_index, distance, is_full, count, status}
use neo6502_mmu_v.Fifo.{push, pop, peek, unpush, unpop}
use neo6502_mmu_v.Fifo.Deque
use neo6502_mmu_v.Fifo.Deque.{Op, Reply, nothing, flag, item, number}
use neo6502_mmu_v.Fifo.Refine.{Represents, Agrees, step, run, step_refines, run_refines}

-- A ring of four places, so of three items; it holds 8, 9.
abbrev ring : Fifo ℕ
ring = record { head = 1; tail = 3; buffer = 9 ∷ 7 ∷ 6 ∷ 8 ∷ [] }

abbrev held : List ℕ
held = 8 ∷ 9 ∷ []

abbrev script : List (Op ℕ)
script =
    Op.do_push 1
    ∷ Op.do_push 2
    ∷ Op.do_is_full
    ∷ Op.do_status
    ∷ Op.do_unpush
    ∷ Op.do_pop
    ∷ Op.do_unpop 5
    ∷ Op.do_count
    ∷ Op.do_peek
    ∷ Op.do_pop
    ∷ Op.do_pop
    ∷ Op.do_pop
    ∷ Op.do_status
    ∷ []

run-script :
    run 2 script ring
    ≡ flag true
      ∷ flag false
      ∷ flag true
      ∷ number 6
      ∷ flag true
      ∷ item true (some 8)
      ∷ flag true
      ∷ number 2
      ∷ item true (some 5)
      ∷ item true (some 5)
      ∷ item true (some 9)
      ∷ item false none
      ∷ number 9
      ∷ []
unfolding run step push pop peek unpush unpop is_full count status next_index prev_index distance
run-script = refl

ring-Represents : Represents 2 ring held
ring-Represents = record {
  storage = refl;
  head_in = omega arith;
  tail_in = omega arith;
  held = refl;
  window = (refl, (refl, tt));
}

step_refines_example : Agrees 2 (step 2 (Op.do_unpop 5) ring) (Deque.step 3 (Op.do_unpop 5) held)
step_refines_example = step_refines 2 (omega arith) (Op.do_unpop 5) ring-Represents

run_refines_example : run 2 script ring ≡ Deque.run 3 script held
run_refines_example = run_refines 2 (omega arith) script ring-Represents
