-- ===== src/FsMailbox/Ranges.antt =====
-- What the transfers of NEO6502_MMU_V3/rp_fs_mailbox.cpp touch.
use neo6502_mmu_v.Base.{
  ℕ, ◌+◌, ◌%◌, ◌^◌, ◌<◌, ◌≤◌, ◌≡◌, ◌⊎◌, refl, ap₂, ◌∙◌, arith, inl, true, List, [], ◌∷◌, length,
}
use neo6502_mmu_v.Ram.{Ram, write}
use neo6502_mmu_v.FsPath.Component.{All}
use neo6502_mmu_v.FsMailbox.Op.{private_limit}
use neo6502_mmu_v.FsMailbox.Access.{private_range, read_context_bytes, write_context_bytes}

-- The two copies of the bytes between a context and the RP.
pub write_context_bytes-elsewhere :
    (m : Ram) (dst : ℕ) (bytes : List ℕ) (a : ℕ)
    → dst + length bytes ≤ 2 ^ 16
    → (a < dst) ⊎ (dst + length bytes ≤ a)
    → write_context_bytes m dst bytes a ≡ m a
unfolding write_context_bytes
write_context_bytes-elsewhere m dst [] a h e = refl
write_context_bytes-elsewhere m dst (b ∷ bytes) a h e =
    write_context_bytes-elsewhere (write m dst b) (dst + 1) bytes a (omega (arith, h))
      (ground (arith, e))
    ∙ ground (arith, h, e)

pub read_context_bytes-write_context_bytes :
    (m : Ram) (dst : ℕ) (bytes : List ℕ)
    → dst + length bytes ≤ 2 ^ 16
    → All (λ b. b < 2 ^ 8) bytes
    → read_context_bytes (write_context_bytes m dst bytes) dst (length bytes) ≡ bytes
unfolding write_context_bytes read_context_bytes
read_context_bytes-write_context_bytes m dst [] h v = refl
read_context_bytes-write_context_bytes m dst (b ∷ bytes) h (v, vs) =
    ap₂ (λ x xs. x ∷ xs)
      (write_context_bytes-elsewhere (write m dst b) (dst + 1) bytes (dst % 2 ^ 16)
          (omega (arith, h)) (inl (omega (arith, h)))
        ∙ ground (arith, v))
      (read_context_bytes-write_context_bytes (write m dst b) (dst + 1) bytes (omega (arith, h)) vs)

-- A block that passes `rp_fs_mb_private_range` is written as it is and read back, and no other byte of
-- the context changes: none from $8000 on, where the mailbox lies, and not the byte at 0.
pub private_block :
    (m : Ram) (dst : ℕ) (bytes : List ℕ)
    → private_range dst (length bytes) ≡ true
    → All (λ b. b < 2 ^ 8) bytes
    → (read_context_bytes (write_context_bytes m dst bytes) dst (length bytes) ≡ bytes)
      × (dst + length bytes ≤ private_limit)
      × ((a : ℕ) → (a < dst) ⊎ (dst + length bytes ≤ a) → write_context_bytes m dst bytes a ≡ m a)
unfolding private_range
private_block m dst bytes h v =
    let fits : dst + length bytes ≤ private_limit = ground (arith, h) in
    (
      read_context_bytes-write_context_bytes m dst bytes (omega (arith, fits)) v,
      fits,
      λ a e. write_context_bytes-elsewhere m dst bytes a (omega (arith, fits)) e,
    )
