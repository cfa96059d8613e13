-- ===== src/FsMailbox/Access.antt =====
-- NEO6502_MMU_V3/rp_fs_mailbox.cpp: reading and writing the memory of a context. `select` is what the
-- memory board does when another context is latched: it shows other memory and hides the one before.
use neo6502_mmu_v.Base.{
  ℕ, zero, suc, ◌+◌, ◌*◌, ◌^◌, Bool, true, false, not, ◌||◌, Option, none, some, List, [], ◌∷◌,
  length, ltb, leb, ◌==◌, if◌then◌else◌, get_elem?,
}
use neo6502_mmu_v.Ram.{Ram, read, write}
use neo6502_mmu_v.Memory.Config.{max_memory_contexts}
use neo6502_mmu_v.Mailbox.{Mailbox}
use neo6502_mmu_v.FsMailbox.{FsState}
use neo6502_mmu_v.FsMailbox.Op.{private_limit}

-- `rp_fs_mb_effective_16bit_size`
abbrev pub effective_16bit_size : ℕ → ℕ
effective_16bit_size size_word = if size_word == 0 then 65536 else size_word

-- `rp_fs_mb_valid_64k_range`
unfoldable pub valid_64k_range : ℕ → ℕ → Bool
valid_64k_range start count =
    if count == 0
    then true
    else if ltb 65536 count
    then false
    else if count == 65536
    then start == 0
    else ltb (start + count) 0x10001

-- `rp_fs_mb_read_context_bytes` and `rp_fs_mb_write_context_bytes`
unfoldable pub read_context_bytes : Ram → ℕ → ℕ → List ℕ
read_context_bytes m src zero = []
read_context_bytes m src (suc len) = read m src ∷ read_context_bytes m (src + 1) len

unfoldable pub write_context_bytes : Ram → ℕ → List ℕ → Ram
write_context_bytes m dst [] = m
write_context_bytes m dst (b ∷ bytes) = write_context_bytes (write m dst b) (dst + 1) bytes

-- `rp_fs_mb_u16` of the bytes from the place `i` on.
abbrev pub byte_at : List ℕ → ℕ → ℕ
byte_at raw i = elim (get_elem? raw i) [ none ↦ 0 | some b ↦ b ]

abbrev pub u16_at : List ℕ → ℕ → ℕ
u16_at raw i = byte_at raw i + byte_at raw (i + 1) * 2 ^ 8

-- `rp_fs_mb_private_range`
unfoldable pub private_range : ℕ → ℕ → Bool
private_range address len =
    if address == 0 || len == 0 || leb private_limit address
    then false
    else leb (address + len) private_limit

-- The loop of `rp_fs_mb_read_context_path`, from the character `i` on with `left` to go: the text in
-- front of the 0, if one is found in time.
unfoldable pub scan_path : Ram → ℕ → ℕ → Option (List ℕ)
scan_path m address zero = none
scan_path m address (suc left) =
    let rest = scan_path m (address + 1) left in
    let c = read m address in
    if leb private_limit address
    then none
    else if c == 0
    then some []
    else if ltb c 32 || leb 127 c
    then none
    else elim rest [ none ↦ none | some cs ↦ some (c ∷ cs) ]

-- `ok = i != 0`
abbrev pub not_empty : Option (List ℕ) → Option (List ℕ)
not_empty none = none
not_empty (some []) = none
not_empty (some (c ∷ cs)) = some (c ∷ cs)

module _ {Disk File Folder Hidden : Type 0} (select : ℕ → Ram → Hidden → Ram × Hidden) where
  -- `setMMUContext` of mmu.cpp.
  unfoldable pub set_mmu_context :
      ℕ → Mailbox (FsState Disk File Folder Hidden) → Mailbox (FsState Disk File Folder Hidden)
  set_mmu_context context s =
      if context == s.fs.context
      then s
      else let (m, h) = select context s.ram s.fs.hidden in
        record s { ram = m; fs = record s.fs { context = context; hidden = h } }

  -- `rp_fs_mb_begin_context_access`: the context to go back to.
  unfoldable pub begin_access :
      ℕ
      → Mailbox (FsState Disk File Folder Hidden)
      → Option ℕ × Mailbox (FsState Disk File Folder Hidden)
  begin_access context s =
      if leb max_memory_contexts context
      then (none, s)
      else (some s.fs.context, if s.fs.context == context then s else set_mmu_context context s)

  -- `rp_fs_mb_end_context_access`
  unfoldable pub end_access :
      ℕ → Mailbox (FsState Disk File Folder Hidden) → Mailbox (FsState Disk File Folder Hidden)
  end_access saved s = if s.fs.context == saved then s else set_mmu_context saved s

  -- `rp_fs_mb_read_context_block`
  unfoldable pub read_context_block :
      ℕ
      → ℕ
      → ℕ
      → Mailbox (FsState Disk File Folder Hidden)
      → Option (List ℕ) × Mailbox (FsState Disk File Folder Hidden)
  read_context_block context address len s =
      if not (private_range address len)
      then (none, s)
      else let (access, s) = begin_access context s in
        elim access [
          | none ↦ (none, s)
          | some saved ↦ (some (read_context_bytes s.ram address len), end_access saved s)
        ]

  -- `rp_fs_mb_write_context_block`
  unfoldable pub write_context_block :
      ℕ
      → ℕ
      → List ℕ
      → Mailbox (FsState Disk File Folder Hidden)
      → Bool × Mailbox (FsState Disk File Folder Hidden)
  write_context_block context address src s =
      if not (private_range address (length src))
      then (false, s)
      else let (access, s) = begin_access context s in
        elim access [
          | none ↦ (false, s)
          | some saved ↦
              (true, end_access saved (record s { ram = write_context_bytes s.ram address src }))
        ]

  -- `rp_fs_mb_read_context_path`, for a buffer of `dst_len` bytes.
  unfoldable pub read_context_path :
      ℕ
      → ℕ
      → ℕ
      → ℕ
      → Mailbox (FsState Disk File Folder Hidden)
      → Option (List ℕ) × Mailbox (FsState Disk File Folder Hidden)
  read_context_path context address max_len dst_len s =
      if ltb dst_len 2
        || max_len == 0
        || ltb dst_len max_len
        || address == 0
        || leb private_limit address
      then (none, s)
      else let (access, s) = begin_access context s in
        elim access [
          | none ↦ (none, s)
          | some saved ↦ (not_empty (scan_path s.ram address max_len), end_access saved s)
        ]
