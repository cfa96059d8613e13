-- ===== src/Mailbox/Queues.antt =====
-- The queues of NEO6502_MMU_V3/input.cpp under the console's commands, as the sequences they hold.
use neo6502_mmu_v.Base.{
  ℕ, zero, suc, ◌≤◌, ◌<◌, Bool, true, false, Option, none, some, List, [], ◌∷◌, ◌++◌, suc-beq-zero,
  ◌≡◌, refl, sym, ap, subst, ◌∙◌, inl, inr, arith, Bool-cases, ◌==◌, if◌then◌else◌, length,
  length-append, take,
}
use neo6502_mmu_v.Fifo.{Fifo, push, pop, is_empty}
use neo6502_mmu_v.Fifo.Deque
use neo6502_mmu_v.Fifo.Deque.{Op, Reply, nothing, flag, item, number}
use neo6502_mmu_v.Fifo.Refine
use neo6502_mmu_v.Fifo.Refine.{Represents, step_refines}
use neo6502_mmu_v.Input.{Input, size_log, read_cpuq, write_vduq, process_vdu_out}
use neo6502_mmu_v.Mailbox.Console.{input_bytes, output_bytes}

-- What the VDU's queue keeps of one byte: a zero is skipped, and a byte behind 127 others lost.
unfoldable pub offer : ℕ → List ℕ → List ℕ
offer c d = if c == 0 then d else if length d == 127 then d else d ++ c ∷ []

unfoldable pub offer_all : List ℕ → List ℕ → List ℕ
offer_all [] d = d
offer_all (c ∷ cs) d = offer_all cs (offer c d)

push_holds :
    (c : ℕ) {f : Fifo ℕ} {d : List ℕ}
    → Represents size_log f d
    → Represents size_log (push size_log f c).1 (if length d == 127 then d else d ++ c ∷ [])
unfolding Refine.step Deque.step
push_holds c {f} {d} r =
    let kept = (step_refines size_log (omega arith) (Op.do_push c) r).1 in
    elim (Bool-cases (length d == 127)) [
      | inl e ↦ rw e (subst (Represents size_log (push size_log f c).1) (simp e) kept)
      | inr e ↦ rw e (subst (Represents size_log (push size_log f c).1) (simp e) kept)
    ]

write_vduq_holds :
    (c : ℕ) (q : Input) (d : List ℕ)
    → Represents size_log q.vdu_tx_fifo d
    → Represents size_log (write_vduq q c).1.vdu_tx_fifo (offer c d)
unfolding write_vduq offer
write_vduq_holds c q d r = elim (Bool-cases (c == 0)) [
  | inl e ↦ rw e r
  | inr e ↦ rw e (push_holds c r)
]

-- The output loop offers its bytes to the VDU's queue one by one.
pub output_bytes_holds :
    (cs : List ℕ) (q : Input) (d : List ℕ)
    → Represents size_log q.vdu_tx_fifo d
    → Represents size_log (output_bytes cs q).vdu_tx_fifo (offer_all cs d)
unfolding output_bytes offer_all
output_bytes_holds [] q d r = r
output_bytes_holds (c ∷ cs) q d r =
    output_bytes_holds cs (write_vduq q c).1 (offer c d) (write_vduq_holds c q d r)

unfoldable pub nonzero : List ℕ → List ℕ
nonzero [] = []
nonzero (c ∷ cs) = if c == 0 then nonzero cs else c ∷ nonzero cs

append_nil : (d : List ℕ) → d ++ [] ≡ d
append_nil [] = refl
append_nil (c ∷ d) = ap (c ∷◌) (append_nil d)

append_cons : (d : List ℕ) (c : ℕ) (e : List ℕ) → (d ++ c ∷ []) ++ e ≡ d ++ c ∷ e
append_cons [] c e = refl
append_cons (x ∷ d) c e = ap (x ∷◌) (append_cons d c e)

take_left : (n : ℕ) (d e : List ℕ) → length d ≡ n → take n (d ++ e) ≡ d
take_left zero [] e h = refl
take_left zero (x ∷ d) e h = ground (arith, h)
take_left (suc n) [] e h = ground (arith, h)
take_left (suc n) (x ∷ d) e h = ap (x ∷◌) (take_left n d e (omega (arith, h)))

take_all : (n : ℕ) (d : List ℕ) → length d ≤ n → take n d ≡ d
take_all zero [] h = refl
take_all zero (x ∷ d) h = ground (arith, h)
take_all (suc n) [] h = refl
take_all (suc n) (x ∷ d) h = ap (x ∷◌) (take_all n d (omega (arith, h)))

length-take_lt : (n : ℕ) (d : List ℕ) → length (take n d) < suc n
length-take_lt zero d = omega arith
length-take_lt (suc n) [] = omega arith
length-take_lt (suc n) (x ∷ d) = omega (arith, length-take_lt n d)

-- Of the bytes offered, a queue that holds `d` keeps those that are not zero, as far as 127 go.
offer_all-take : (cs d : List ℕ) → length d ≤ 127 → offer_all cs d ≡ take 127 (d ++ nonzero cs)
unfolding offer_all offer nonzero
offer_all-take [] d h = sym (ap (take 127) (append_nil d) ∙ take_all 127 d h)
offer_all-take (c ∷ cs) d h = elim (Bool-cases (c == 0)) [
  | inl e ↦ rw e (offer_all-take cs d h)
  | inr e ↦ elim (Bool-cases (length d == 127)) [
    | inl full ↦
        rw (e, full)
          (offer_all-take cs d h
            ∙ take_left 127 d (nonzero cs) (ground (arith, full))
            ∙ sym (take_left 127 d (c ∷ nonzero cs) (ground (arith, full))))
    | inr room ↦
        rw (e, room)
          (offer_all-take cs (d ++ c ∷ []) (ground (arith, room, h, length-append d (c ∷ [])))
            ∙ ap (take 127) (append_cons d c (nonzero cs)))
  ]
]

reply_flag : Reply ℕ → Bool
reply_flag (flag b) = b
reply_flag (item b _) = b
reply_flag nothing = false
reply_flag (number _) = false

reply_item : Reply ℕ → Option ℕ
reply_item (item _ v) = v
reply_item (flag _) = none
reply_item nothing = none
reply_item (number _) = none

-- What a queue's reader meets.
record IsFront (f : Fifo ℕ) (c : ℕ) (d : List ℕ) : Type 0 where
  filled : is_empty f ≡ false
  front : (pop size_log f).1 ≡ some c
  behind : Represents size_log (pop size_log f).2 d

Represents-IsFront :
    {f : Fifo ℕ} (c : ℕ) (d : List ℕ) → Represents size_log f (c ∷ d) → IsFront f c d
unfolding Refine.step Deque.step reply_flag reply_item
Represents-IsFront c d r =
    let (reply, behind) = step_refines size_log (omega arith) Op.do_pop r in
    record {
      filled =
          ap reply_flag (step_refines size_log (omega arith) Op.do_is_empty r).0
          ∙ suc-beq-zero (length d);
      front = ap reply_item reply;
      behind = behind;
    }

none_of : {f : Fifo ℕ} → Represents size_log f [] → is_empty f ≡ true
unfolding Refine.step Deque.step reply_flag
none_of r = ap reply_flag (step_refines size_log (omega arith) Op.do_is_empty r).0

-- Emptying the VDU's queue gives the VDU what it holds, in order, once the fuel exceeds its length.
pub process_vdu_out_lem :
    (fuel : ℕ) (q : Input) (d : List ℕ)
    → Represents size_log q.vdu_tx_fifo d
    → length d < fuel
    → ((process_vdu_out fuel q).0 ≡ d) × (is_empty (process_vdu_out fuel q).1.vdu_tx_fifo ≡ true)
unfolding process_vdu_out
process_vdu_out_lem zero q d r h = ground (arith, h)
process_vdu_out_lem (suc fuel) q [] r h = rw (none_of r) (refl, none_of r)
process_vdu_out_lem (suc fuel) q (c ∷ d) r h =
    let x = Represents-IsFront c d r in
    let rest =
      process_vdu_out_lem fuel (record q { vdu_tx_fifo = (pop size_log q.vdu_tx_fifo).2 }) d
        x.behind (omega (arith, h)) in
    rw (x.filled, x.front) (ap (c ∷◌) rest.0, rest.1)

-- One output loop and then one emptying of the VDU's queue, which held `d`: the VDU has received `d` and
-- then the bytes of the loop that are not zero, 127 in all at most, and nothing is left to send.
pub output_bytes-process_vdu_out :
    (cs d : List ℕ) (q : Input)
    → Represents size_log q.vdu_tx_fifo d
    → length d ≤ 127
    → (let sent = process_vdu_out 128 (output_bytes cs q) in
        (sent.0 ≡ take 127 (d ++ nonzero cs)) × (is_empty sent.1.vdu_tx_fifo ≡ true))
output_bytes-process_vdu_out cs d q r h =
    let kept =
      subst (Represents size_log (output_bytes cs q).vdu_tx_fifo) (offer_all-take cs d h)
        (output_bytes_holds cs q d r) in
    process_vdu_out_lem 128 (output_bytes cs q) (take 127 (d ++ nonzero cs)) kept
      (length-take_lt 127 (d ++ nonzero cs))

-- What the reader of the CPU's queue gets: at most `n` bytes, up to a zero, which is taken out of
-- the queue but not counted; the bytes, the bytes with that zero, and what is left.
unfoldable pub next_input : ℕ → List ℕ → List ℕ × List ℕ × List ℕ
next_input zero d = ([], [], d)
next_input (suc n) [] = ([], 0 ∷ [], [])
next_input (suc n) (c ∷ d) =
    let rest = next_input n d in
    if c == 0 then ([], c ∷ [], d) else (c ∷ rest.0, c ∷ rest.1, rest.2)

-- On a queue that holds `d`, the input loop counts and stores the bytes that `next_input` says and
-- leaves the queue holding what it says.
pub input_bytes_lem :
    (n : ℕ) (q : Input) (d : List ℕ)
    → Represents size_log q.cpu_tx_fifo d
    → (let got = input_bytes n q in
        let spec = next_input n d in
        (got.0 ≡ length spec.0) × (got.1 ≡ spec.1) × Represents size_log got.2.cpu_tx_fifo spec.2)
unfolding input_bytes next_input read_cpuq
input_bytes_lem zero q d r = (refl, refl, r)
input_bytes_lem (suc n) q [] r = rw (none_of r) (refl, refl, r)
input_bytes_lem (suc n) q (c ∷ d) r =
    let x = Represents-IsFront c d r in
    let rest =
      input_bytes_lem n (record q { cpu_tx_fifo = (pop size_log q.cpu_tx_fifo).2 }) d x.behind in
    elim (Bool-cases (c == 0)) [
      | inl e ↦ rw (x.filled, x.front, e) (refl, refl, x.behind)
      | inr e ↦ rw (x.filled, x.front, e) (omega (arith, rest.0), ap (c ∷◌) rest.1, rest.2)
    ]
