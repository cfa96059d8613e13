-- ===== src/Fifo.antt =====
-- NEO6502_MMU_V3/fifo.h: the ring buffer behind the console queues. `SIZE` is `2 ^ k`, which the
-- `static_assert` asks for; the indices are `uint32_t`, so their sums wrap at `2 ^ 32` before the
-- mask cuts them. A method that returns through a reference gives an option beside its `bool`.
pub mod Index
pub mod Window
pub mod Deque
pub mod Refine
mod Tests
use neo6502_mmu_v.Base.{
  ℕ, ◌+◌, ◌-◌, ◌%◌, ◌^◌, bit_and, bit_or, Bool, true, false, Option, none, some, List, get_elem?,
  set, ◌==◌, if◌then◌else◌,
}

pub record Fifo {ℓ} (A : Type ℓ) : Type ℓ where
  pub head : ℕ
  pub tail : ℕ
  pub buffer : List A

-- `enum StatusBits`
abbrev pub status_empty : ℕ
status_empty = 1

abbrev pub status_full : ℕ
status_full = 2

abbrev pub status_data : ℕ
status_data = 4

abbrev pub status_space : ℕ
status_space = 8

-- `MASK`
abbrev pub mask : ℕ → ℕ
mask k = 2 ^ k - 1

-- `capacity`
abbrev pub capacity : ℕ → ℕ
capacity k = 2 ^ k - 1

-- `(i + 1) & MASK`
pub next_index : ℕ → ℕ → ℕ
next_index k i = bit_and ((i + 1) % 2 ^ 32) (mask k)

-- `(i - 1) & MASK`
pub prev_index : ℕ → ℕ → ℕ
prev_index k i = bit_and ((i + 2 ^ 32 - 1) % 2 ^ 32) (mask k)

-- `(head - tail) & MASK`
pub distance : ℕ → ℕ → ℕ → ℕ
distance k head tail = bit_and ((head + 2 ^ 32 - tail) % 2 ^ 32) (mask k)

module _ {ℓ} {A : Type ℓ} where
  pub clear : Fifo A → Fifo A
  clear f = record f { head = 0; tail = 0 }

  pub is_empty : Fifo A → Bool
  is_empty f = f.head == f.tail

module _ {ℓ} {A : Type ℓ} (k : ℕ) where
  pub is_full : Fifo A → Bool
  is_full f = next_index k f.head == f.tail

  pub count : Fifo A → ℕ
  count f = distance k f.head f.tail

  pub status : Fifo A → ℕ
  status f =
      let s = if f.head == f.tail then bit_or 0 status_empty else bit_or 0 status_data in
      if next_index k f.head == f.tail then bit_or s status_full else bit_or s status_space

  pub push : Fifo A → A → Bool × Fifo A
  push f value =
      let next = next_index k f.head in
      if next == f.tail
      then (false, f)
      else (true, record f { head = next; buffer = set f.buffer f.head value })

  pub pop : Fifo A → Bool × Option A × Fifo A
  pop f =
      if f.tail == f.head
      then (false, none, f)
      else (true, get_elem? f.buffer f.tail, record f { tail = next_index k f.tail })

  pub unpush : Fifo A → Bool × Fifo A
  unpush f =
      if f.head == f.tail then (false, f) else (true, record f { head = prev_index k f.head })

  pub unpop : Fifo A → A → Bool × Fifo A
  unpop f value =
      let prev = prev_index k f.tail in
      if prev == f.head
      then (false, f)
      else (true, record f { tail = prev; buffer = set f.buffer prev value })

module _ {ℓ} {A : Type ℓ} where
  pub peek : Fifo A → Bool × Option A
  peek f = if f.head == f.tail then (false, none) else (true, get_elem? f.buffer f.tail)
