-- ===== src/Ram.antt =====
-- The 6502's memory as `snoop_read6502MemoryLoc` and `snoop_write6502MemoryLoc` of
-- NEO6502_MMU_V3/neobus.cpp show it: a byte for each 16-bit address. The bus cycles behind these
-- calls are not part of this module.
use neo6502_mmu_v.Base.{ℕ, ◌+◌, ◌*◌, ◌/◌, ◌%◌, ◌^◌, ◌<◌, ◌≡◌, arith, ◌==◌, if◌then◌else◌}

abbrev pub Ram : Type 0
Ram = ℕ → ℕ

abbrev pub read : Ram → ℕ → ℕ
read m a = m (a % 2 ^ 16)

abbrev pub write : Ram → ℕ → ℕ → Ram
write m a v b = if b == a % 2 ^ 16 then v % 2 ^ 8 else m b

-- `rp_read16` and `rp_write16` of mailbox.cpp: little-endian words.
unfoldable pub rp_read16 : Ram → ℕ → ℕ
rp_read16 m addr = read m addr + read m ((addr + 1) % 2 ^ 16) * 2 ^ 8

unfoldable pub rp_write16 : Ram → ℕ → ℕ → Ram
rp_write16 m addr value =
    write (write m addr (value % 2 ^ 8)) ((addr + 1) % 2 ^ 16) (value / 2 ^ 8 % 2 ^ 8)

-- A 16-bit word that is written at a 16-bit address is read back.
pub rp_read16-rp_write16 :
    (m : Ram) (addr value : ℕ)
    → addr < 2 ^ 16
    → value < 2 ^ 16
    → rp_read16 (rp_write16 m addr value) addr ≡ value
unfolding rp_read16 rp_write16
rp_read16-rp_write16 m addr value ha hv = ground arith
