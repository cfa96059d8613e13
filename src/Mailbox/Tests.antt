-- ===== src/Mailbox/Tests.antt =====
-- Runs of the mailbox of NEO6502_MMU_V3/mailbox.cpp, rp_console_io.cpp and input.cpp.
use neo6502_mmu_v.Base.{
  ℕ, ◌+◌, ◌*◌, ◌%◌, ◌^◌, true, false, [], ◌∷◌, ◌≡◌, refl, ap, ◌++◌, arith, length, take, replicate,
}
use neo6502_mmu_v.Ram.{Ram, write, rp_read16, rp_write16, rp_read16-rp_write16}
use neo6502_mmu_v.Fifo.{Fifo, is_empty}
use neo6502_mmu_v.Fifo.Refine.{Represents}
use neo6502_mmu_v.Input.{Input, size_log, process_vdu_out}
use neo6502_mmu_v.Mailbox.Rp
use neo6502_mmu_v.Mailbox.{MailboxState, mb_idle, mb_done, Mailbox, set_done32, set_done32_words}
use neo6502_mmu_v.Mailbox.Console.{input_bytes, output_bytes}
use neo6502_mmu_v.Mailbox.Fsm.{dispatch_command}
use neo6502_mmu_v.Mailbox.Queues.{
  nonzero, output_bytes-process_vdu_out, next_input, input_bytes_lem,
}
use neo6502_mmu_v.Mailbox.Commands.{IsDispatched, dispatch_command-IsDispatched}
use neo6502_mmu_v.Mailbox.Dispatch.{IsAnswered, polls-IsAnswered}

abbrev no_bytes : Fifo ℕ
no_bytes = record { head = 126; tail = 126; buffer = replicate 128 0 }

no_bytes-Represents : Represents size_log no_bytes []
no_bytes-Represents = record {
  storage = refl;
  head_in = omega arith;
  tail_in = omega arith;
  held = refl;
  window = tt;
}

-- 'O' 'K' and a zero, over the end of the buffer.
abbrev typed : Fifo ℕ
typed = record { head = 1; tail = 126; buffer = 0 ∷ replicate 125 0 ++ 79 ∷ 75 ∷ [] }

typed-Represents : Represents size_log typed (79 ∷ 75 ∷ 0 ∷ [])
typed-Represents = record {
  storage = refl;
  head_in = omega arith;
  tail_in = omega arith;
  held = refl;
  window = (refl, (refl, (refl, tt)));
}

abbrev queues : Input
queues = record { cpu_tx_fifo = typed; vdu_tx_fifo = no_bytes }

-- The VDU's queue still holds the bytes of an earlier loop.
output_bytes-process_vdu_out_example :
    (let sent =
        process_vdu_out 128
          (output_bytes (72 ∷ 0 ∷ 73 ∷ []) (record queues { vdu_tx_fifo = typed })) in
      (sent.0 ≡ take 127 ((79 ∷ 75 ∷ 0 ∷ []) ++ nonzero (72 ∷ 0 ∷ 73 ∷ [])))
      × (is_empty sent.1.vdu_tx_fifo ≡ true))
output_bytes-process_vdu_out_example =
    output_bytes-process_vdu_out (72 ∷ 0 ∷ 73 ∷ []) (79 ∷ 75 ∷ 0 ∷ [])
      (record queues { vdu_tx_fifo = typed }) typed-Represents (omega arith)

input_bytes_lem_example :
    (let got = input_bytes 5 queues in
      let spec = next_input 5 (79 ∷ 75 ∷ 0 ∷ []) in
      (got.0 ≡ length spec.0) × (got.1 ≡ spec.1) × Represents size_log got.2.cpu_tx_fifo spec.2)
input_bytes_lem_example = input_bytes_lem 5 queues (79 ∷ 75 ∷ 0 ∷ []) typed-Represents

-- A chunk of 200 letters: the VDU receives 127 of them.
output_lost : length (process_vdu_out 128 (output_bytes (replicate 200 65) queues)).0 ≡ 127
unfolding nonzero
output_lost =
    ap length
      (output_bytes-process_vdu_out (replicate 200 65) [] queues no_bytes-Represents
        (omega arith)).0

abbrev blank : Ram
blank _ = 0

set_done32_words_example :
    rp_read16 (set_done32 0x12345678 0 blank) Rp.rp_res0l
      + rp_read16 (set_done32 0x12345678 0 blank) Rp.rp_res1l * 2 ^ 16
    ≡ 0x12345678 % 2 ^ 32
set_done32_words_example = set_done32_words 0x12345678 0 blank

rp_read16-rp_write16_example : rp_read16 (rp_write16 blank 0xffff 0x1234) 0xffff ≡ 0x1234
rp_read16-rp_write16_example = rp_read16-rp_write16 blank 0xffff 0x1234 (omega arith) (omega arith)

-- The doorbell rings for group 9, with a trigger that was lost.
abbrev ringing : Mailbox ℕ
ringing = record {
  ram = write (write blank Rp.rp_doorbell 1) Rp.rp_group 9;
  input = queues;
  transfer = record {
    target = 0;
    len = 0;
    current = 0;
    remaining = 0;
    buffer = [];
    read_count = 0;
    write_count = 0;
  };
  fs = 0;
  mmuio_trigger = false;
  mailbox_state = mb_idle;
  last_check = true;
  l_count = 100;
  poll_count = 0;
  command_count = 0;
  error_count = 0;
  unknown_cmd_count = 0;
  console_pid = 0;
}

abbrev exec : Mailbox ℕ → MailboxState × Mailbox ℕ
exec s = (mb_done, record s { fs = 1 })

dispatch_command-IsDispatched_example :
    IsDispatched exec 2 0x11 ringing (dispatch_command exec 2 0x11 ringing)
dispatch_command-IsDispatched_example = dispatch_command-IsDispatched exec 2 0x11 ringing

polls-IsAnswered_example : IsAnswered exec 150 ringing
polls-IsAnswered_example =
    polls-IsAnswered exec 150 ringing (refl, refl) (omega arith) (omega arith)
