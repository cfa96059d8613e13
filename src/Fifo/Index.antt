-- ===== src/Fifo/Index.antt =====
-- The masked index arithmetic of fifo.h as steps round a ring of `2 ^ k` places.
use neo6502_mmu_v.Base.{
  ℕ, zero, suc, ◌+◌, ◌-◌, ◌*◌, ◌%◌, ◌^◌, ◌≤◌, ◌<◌, ◌≡◌, ap, ◌∙◌, arith, leb, ◌==◌, if◌then◌else◌,
}
use neo6502_mmu_v.Base.Bits.{mask_u32, u32_blocks, mod_unique}
use neo6502_mmu_v.Fifo.{next_index, prev_index, distance}
use native.Mathlib.Decide.{dec_le}
use native.Mathlib.Nat.{one-le-pow}

-- One place forward and back in a ring of `size` places.
abbrev pub after : ℕ → ℕ → ℕ
after size i = if i + 1 == size then 0 else i + 1

abbrev pub before : ℕ → ℕ → ℕ
before size i = if i == 0 then size - 1 else i - 1

-- How many places `h` is ahead of `t`.
abbrev pub ahead : ℕ → ℕ → ℕ → ℕ
ahead size h t = if leb t h then h - t else h + size - t

mod-after : (size i : ℕ) → i < size → (i + 1) % size ≡ after size i
mod-after size i h = grind arith

mul-pred : (m c : ℕ) → 1 ≤ c → m * c ≡ m * (c - 1) + m
mul-pred m zero h = absurd (omega arith)
mul-pred m (suc c) h = ap (λ n. m * n) e ∙ omega arith
  where
    e : suc c ≡ (suc c - 1) + 1
    e = omega arith

-- Going back `t` places from `h`, `c` whole rings added first.
mod-ahead :
    (size c h t : ℕ) → 1 ≤ c → h < size → t ≤ size → (h + size * c - t) % size ≡ ahead size h t
mod-ahead size c h t hc hh ht = elim (dec_le t h) [
  | yes le ↦ mod_unique size c (h - t) (h + size * c - t) (omega arith) (omega arith) ∙ ground arith
  | no gt ↦
      mod_unique size (c - 1) (h + size - t) (h + size * c - t) (omega (arith, mul-pred size c hc))
        (omega arith)
      ∙ ground arith
]

pub next_index-after : (k i : ℕ) → k ≤ 31 → i < 2 ^ k → next_index k i ≡ after (2 ^ k) i
unfolding next_index
next_index-after k i h lt = mask_u32 k (i + 1) (omega arith) ∙ mod-after (2 ^ k) i lt

pub distance-ahead :
    (k h t : ℕ) → k ≤ 31 → h < 2 ^ k → t ≤ 2 ^ k → distance k h t ≡ ahead (2 ^ k) h t
unfolding distance
distance-ahead k h t le hh ht =
    mask_u32 k (h + 2 ^ 32 - t) (omega arith)
    ∙ ap (λ n. (h + n - t) % 2 ^ k) (u32_blocks k (omega arith))
    ∙ mod-ahead (2 ^ k) (2 ^ (32 - k)) h t (one-le-pow (32 - k) 2 (omega arith)) hh ht

pub prev_index-before : (k i : ℕ) → k ≤ 31 → i < 2 ^ k → prev_index k i ≡ before (2 ^ k) i
unfolding prev_index distance
prev_index-before k i h lt = distance-ahead k i 1 h lt (one-le-pow k 2 (omega arith)) ∙ ground arith
