-- ===== src/FsMailbox/Tests.antt =====
-- Requests fs.exec of NEO6502_MMU_V3/rp_fs_mailbox.cpp.
use neo6502_mmu_v.Base.{
  ℕ, ◌+◌, ◌<◌, ◌≤◌, ◌↔◌, ◌⊎◌, ◌≢◌, true, false, some, List, [], ◌∷◌, ◌≡◌, refl, replicate, arith,
  ◌==◌, if◌then◌else◌,
}
use neo6502_mmu_v.Ram.{Ram, read, write}
use neo6502_mmu_v.Fifo.{Fifo}
use neo6502_mmu_v.FsPath.Cwd.{reset_all}
use neo6502_mmu_v.RpFs.Tests.{fat, at_start}
use neo6502_mmu_v.Mailbox.{Mailbox, mb_idle, mb_done}
use neo6502_mmu_v.Mailbox.Rp
use neo6502_mmu_v.FsMailbox.{FsState}
use neo6502_mmu_v.FsMailbox.Op.{op_status}
use neo6502_mmu_v.FsMailbox.Access.{
  private_range, read_context_bytes, write_context_bytes, read_context_block, read_context_path,
  begin_access, end_access,
}
use neo6502_mmu_v.FsMailbox.Bulk.{load_loop}
use neo6502_mmu_v.RpFs.Storage.{is_open, open_handle}
use neo6502_mmu_v.RpFs.Files.{file_position}
use neo6502_mmu_v.FsMailbox.Handles.{exec_seek}
use neo6502_mmu_v.FsMailbox.PathRead.{IsPathArgument, read_context_path_iff}
use neo6502_mmu_v.FsMailbox.Seek.{IsSeek, IsOrigin, offset_of, exec_seek-IsSeek}
use neo6502_mmu_v.FsMailbox.BulkEnding.{load_loop_lem}
use neo6502_mmu_v.FsMailbox.Exec.{fs_handle_exec}
use neo6502_mmu_v.FsMailbox.Completed.{IsCompleted, fs_handle_exec-IsCompleted}
use neo6502_mmu_v.FsMailbox.Ranges.{private_block}

abbrev no_bytes : Fifo ℕ
no_bytes = record { head = 126; tail = 126; buffer = replicate 128 0 }

-- Another context's memory comes in place of the one before.
abbrev select : ℕ → Ram → Ram → Ram × Ram
select context m hidden = (hidden, m)

-- A request fs.status of process 2.
abbrev request : Mailbox (FsState (List ℕ) ℕ ℕ Ram)
request = record {
  ram = write (write (λ a. 0) Rp.rp_state op_status) Rp.rp_arg1l 2;
  input = record { cpu_tx_fifo = no_bytes; vdu_tx_fifo = no_bytes };
  transfer = record {
    target = 0;
    len = 0;
    current = 0;
    remaining = 0;
    buffer = [];
    read_count = 0;
    write_count = 0;
  };
  fs = record {
    storage = at_start;
    cwd = reset_all;
    context = 3;
    hidden = λ a. 0;
    counts = λ n. 0;
    completion_pending = false;
  };
  mmuio_trigger = false;
  mailbox_state = mb_idle;
  last_check = true;
  l_count = 0;
  poll_count = 0;
  command_count = 0;
  error_count = 0;
  unknown_cmd_count = 0;
  console_pid = 0;
}

fs_handle_exec-IsCompleted_example :
    ((fs_handle_exec fat select request).0 ≡ mb_done)
    × IsCompleted 3 (fs_handle_exec fat select request).1
    × (read request.ram Rp.rp_arg1l ≢ 0
        → (fs_handle_exec fat select request).1.fs.completion_pending ≡ true)
fs_handle_exec-IsCompleted_example = fs_handle_exec-IsCompleted fat select request

load_loop_lem_example :
    load_loop fat select 10 0 0x2000 10 0 request ≡ load_loop fat select 25 0 0x2000 10 0 request
load_loop_lem_example =
    load_loop_lem fat select 10 25 0 0x2000 10 0 request (omega arith) (omega arith)

-- "A" and a 0 at $2000.
abbrev named : Ram
named a = if a == 0x2000 then 65 else 0

-- Context 5 holds it, and context 3 is shown.
abbrev hidden_name : Mailbox (FsState (List ℕ) ℕ ℕ Ram)
hidden_name = record request { fs = record request.fs { hidden = named } }

read_context_path_iff_example :
    ((read_context_path select 5 0x2000 63 64 hidden_name).0 ≡ some (65 ∷ []))
    ↔ IsPathArgument select 5 0x2000 63 64 hidden_name (65 ∷ [])
read_context_path_iff_example = read_context_path_iff select 5 0x2000 63 64 hidden_name (65 ∷ [])

in_range : private_range 0x7fff 1 ≡ true
unfolding private_range
in_range = refl

private_block_example :
    (read_context_bytes (write_context_bytes named 0x7fff (7 ∷ [])) 0x7fff 1 ≡ 7 ∷ [])
    × (0x7fff + 1 ≤ 0x8000)
    × ((a : ℕ)
        → (a < 0x7fff) ⊎ (0x7fff + 1 ≤ a)
        → write_context_bytes named 0x7fff (7 ∷ []) a ≡ named a)
private_block_example = private_block named 0x7fff (7 ∷ []) in_range (omega arith, tt)

-- At $2000 the arguments of a seek by -4 from the position, in the file of handle 0.
abbrev seek_arguments : List ℕ
seek_arguments = 0 ∷ 1 ∷ 0xfc ∷ 0xff ∷ 0xff ∷ 0xff ∷ 0 ∷ 0 ∷ 0 ∷ 0 ∷ []

abbrev seeking : Mailbox (FsState (List ℕ) ℕ ℕ Ram)
seeking = record request {
  ram = write_context_bytes (λ a. 0) 0x2000 seek_arguments;
  fs = record request.fs {
    storage = record at_start {
      handles =
          record { in_use = true; device = 0; can_read = true; can_write = false; file = 3 } ∷ [];
    };
  };
}

seeking_reads : read_context_block select 3 0x2000 10 seeking ≡ (some seek_arguments, seeking)
unfolding read_context_block private_range begin_access end_access read_context_bytes
    write_context_bytes
seeking_reads = refl

seeking_open : is_open 0 seeking.fs.storage ≡ true
unfolding is_open open_handle
seeking_open = refl

exec_seek-IsSeek_example :
    IsSeek fat select 3 0x2000 0
      (file_position fat 0 seeking.fs.storage)
      (offset_of seek_arguments)
      seeking
      (exec_seek fat select 3 0x2000 0 seeking)
exec_seek-IsSeek_example =
    exec_seek-IsSeek fat select 3 0x2000 0 (file_position fat 0 seeking.fs.storage) seek_arguments
      seeking seeking seeking_reads seeking_open (IsOrigin.from_position refl refl) (omega arith)
