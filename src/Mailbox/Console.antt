-- ===== src/Mailbox/Console.antt =====
-- NEO6502_MMU_V3/rp_console_io.cpp: console.write and console.read, each set up by a handler and
-- then carried on by the mailbox's state machine.
use neo6502_mmu_v.Base.{
  ℕ, zero, suc, ◌+◌, ◌-◌, ◌%◌, ◌^◌, Bool, true, false, List, [], ◌∷◌, ◌++◌, ltb, ◌==◌,
  if◌then◌else◌, length, take, drop,
}
use neo6502_mmu_v.Ram.{Ram, read, write, rp_read16}
use neo6502_mmu_v.Input.{Input, read_cpuq, write_vduq}
use neo6502_mmu_v.Mailbox.Rp
use neo6502_mmu_v.Mailbox.{MailboxState, mb_done, mb_write, mb_read, Mailbox, set_done}

-- `RP_CONSOLE_CHUNK_SIZE`
abbrev pub chunk_size : ℕ
chunk_size = 256

-- `snoop_read6502Memory` and `snoop_write6502Memory`: consecutive addresses, which wrap at 64K.
unfoldable pub read_block : Ram → ℕ → ℕ → List ℕ
read_block m addr zero = []
read_block m addr (suc n) = read m addr ∷ read_block m ((addr + 1) % 2 ^ 16) n

unfoldable pub write_block : Ram → ℕ → List ℕ → Ram
write_block m addr [] = m
write_block m addr (c ∷ cs) = write_block (write m addr c) ((addr + 1) % 2 ^ 16) cs

-- `gConsoleBuffer` with its first bytes replaced.
unfoldable pub store_bytes : List ℕ → List ℕ → List ℕ
store_bytes cs buffer = cs ++ drop (length cs) buffer

-- `rp_console_input_bytes`: the count it returns, the bytes it stores, which end with the zero
-- that stops it, and the queues.
unfoldable pub input_bytes : ℕ → Input → ℕ × List ℕ × Input
input_bytes zero q = (0, [], q)
input_bytes (suc n) q =
    let (c, q') = read_cpuq q in
    let rest = input_bytes n q' in
    if c == 0 then (0, c ∷ [], q') else (rest.0 + 1, c ∷ rest.1, rest.2)

-- `rp_console_output_bytes`
unfoldable pub output_bytes : List ℕ → Input → Input
output_bytes [] q = q
output_bytes (c ∷ cs) q = output_bytes cs (write_vduq q c).1

module _ {F : Type 0} where
  -- `rp_console_io_handle_write`
  unfoldable pub handle_write : Mailbox F → MailboxState × Mailbox F
  handle_write s =
      let target = rp_read16 s.ram Rp.rp_arg0l in
      let len = rp_read16 s.ram Rp.rp_arg1l in
      if len == 0
      then (
        mb_done,
        record s {
          ram = set_done 0 0 s.ram;
          mmuio_trigger = false;
          transfer = record s.transfer { target = target; len = len };
        },
      )
      else (
        mb_write,
        record s {
          transfer = record s.transfer {
            target = target;
            len = len;
            remaining = len;
            current = target;
          };
        },
      )

  -- `rp_console_io_handle_read`
  unfoldable pub handle_read : Mailbox F → MailboxState × Mailbox F
  handle_read s =
      let target = rp_read16 s.ram Rp.rp_arg0l in
      let len = rp_read16 s.ram Rp.rp_arg1l in
      if len == 0
      then (
        mb_done,
        record s {
          ram = set_done 0 0 s.ram;
          mmuio_trigger = false;
          transfer = record s.transfer { target = target; len = len };
        },
      )
      else (
        mb_read,
        record s {
          transfer = record s.transfer {
            target = target;
            len = if ltb chunk_size len then chunk_size else len;
          };
        },
      )

  -- `rp_console_io_process_write`. A write to the memory clears the trigger's flag, since
  -- write6502Memory ends with enableMMUInterrupt; a read does not.
  unfoldable pub process_write : Mailbox F → Bool × Mailbox F
  process_write s =
      let t = s.transfer in
      let chunk = if ltb chunk_size t.remaining then chunk_size else t.remaining in
      let bytes = read_block s.ram t.current chunk in
      if t.remaining == 0
      then (true, record s { ram = set_done t.len 0 s.ram; mmuio_trigger = false })
      else (
        false,
        record s {
          input = output_bytes bytes s.input;
          transfer = record t {
            buffer = store_bytes bytes t.buffer;
            current = (t.current + chunk) % 2 ^ 16;
            remaining = t.remaining - chunk;
            write_count = (t.write_count + 1) % 2 ^ 32;
          };
        },
      )

  -- `rp_console_io_process_read`
  unfoldable pub process_read : Mailbox F → Bool × Mailbox F
  process_read s =
      let t = s.transfer in
      let (count, bytes, q) = input_bytes t.len s.input in
      let buffer = store_bytes bytes t.buffer in
      let s' = record s {
        input = q;
        transfer = record t { buffer = buffer; read_count = (t.read_count + 1) % 2 ^ 32 };
      } in
      if count == 0 then (false, s') else (
        true,
        record s' {
          ram = set_done count 0 (write_block s.ram t.target (take count buffer));
          mmuio_trigger = false;
        },
      )

  -- `rp_console_io_reset`
  abbrev pub console_reset : Mailbox F → Mailbox F
  console_reset s = record s {
    transfer = record s.transfer { target = 0; len = 0; current = 0; remaining = 0 };
  }
