-- ===== src/Input.antt =====
-- NEO6502_MMU_V3/input.cpp: the queue towards the 6502 and the queue towards the VDU, both
-- `FIFO<uint8_t, 128>`. `vduPutc` belongs to another part: what it is given is a list here.
use neo6502_mmu_v.Base.{
  ℕ, zero, suc, Bool, true, false, Option, none, some, List, [], ◌∷◌, not, ◌==◌, if◌then◌else◌,
}
use neo6502_mmu_v.Fifo.{Fifo, clear, is_empty, is_full, push, pop}

-- The `k` of `SIZE == 2 ^ k`.
abbrev pub size_log : ℕ
size_log = 7

pub record Input : Type 0 where
  pub cpu_tx_fifo : Fifo ℕ
  pub vdu_tx_fifo : Fifo ℕ

unfoldable pub write_cpuq : Input → ℕ → Bool × Input
write_cpuq q c =
    if not (is_full size_log q.cpu_tx_fifo)
    then (true, record q { cpu_tx_fifo = (push size_log q.cpu_tx_fifo c).1 })
    else (false, q)

abbrev pub popped : Option ℕ → ℕ
popped none = 0
popped (some c) = c

unfoldable pub read_cpuq : Input → ℕ × Input
read_cpuq q =
    if not (is_empty q.cpu_tx_fifo)
    then (let (_, c, f) = pop size_log q.cpu_tx_fifo in (popped c, record q { cpu_tx_fifo = f }))
    else (0, q)

abbrev pub is_empty_cpuq : Input → Bool
is_empty_cpuq q = is_empty q.cpu_tx_fifo

unfoldable pub write_vduq : Input → ℕ → Bool × Input
write_vduq q c =
    if not (c == 0)
    then (true, record q { vdu_tx_fifo = (push size_log q.vdu_tx_fifo c).1 })
    else (true, q)

abbrev pub is_full_vduq : Input → Bool
is_full_vduq q = is_full size_log q.vdu_tx_fifo

-- `processVDUoutQ`, on fuel: the bytes given to `vduPutc` and the queues. With no fuel left it
-- stops where it is.
unfoldable pub process_vdu_out : ℕ → Input → List ℕ × Input
process_vdu_out zero q = ([], q)
process_vdu_out (suc fuel) q =
    let (_, c, f) = pop size_log q.vdu_tx_fifo in
    let rest = process_vdu_out fuel (record q { vdu_tx_fifo = f }) in
    if not (is_empty q.vdu_tx_fifo) then (popped c ∷ rest.0, rest.1) else ([], q)

abbrev pub init_input : Input → Input
init_input q = record { cpu_tx_fifo = clear q.cpu_tx_fifo; vdu_tx_fifo = clear q.vdu_tx_fifo }
