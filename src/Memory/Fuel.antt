-- ===== src/Memory/Fuel.antt =====
-- The loop of parseMemoryIni in NEO6502_MMU_V3/memory_config.cpp and the fuel of its model.
use neo6502_mmu_v.Base.{
  ℕ, zero, suc, ◌+◌, ◌≤◌, List, [], ◌∷◌, ◌≡◌, refl, arith, inl, inr, length, ◌==◌, Bool-cases,
}
use neo6502_mmu_v.Memory.Scan.{read_bytes_until, line_text}
use neo6502_mmu_v.Memory.Sections.{Parser, Step, ok, err, ◌>>=◌}
use neo6502_mmu_v.Memory.Parse.{parse_line, parse_lines}

rest_le : (left : ℕ) (file : List ℕ) → length (read_bytes_until left file).1 ≤ length file
unfolding read_bytes_until
rest_le zero file = omega arith
rest_le (suc left) [] = omega arith
rest_le (suc left) (c ∷ cs) = elim (Bool-cases (c == b'\n')) [
  | inl e ↦ rw e (omega arith)
  | inr e ↦ rw e (omega (arith, rest_le left cs))
]

-- Reading a line takes at least one byte.
rest_lt : (left c : ℕ) (cs : List ℕ) → length (read_bytes_until (suc left) (c ∷ cs)).1 ≤ length cs
unfolding read_bytes_until
rest_lt left c cs = elim (Bool-cases (c == b'\n')) [
  | inl e ↦ rw e (omega arith)
  | inr e ↦ rw e (rest_le left cs)
]

bind_same {ℓ κ} :
    {A : Type ℓ} {B : Type κ} (o : Step A) (f g : A → Step B)
    → ((x : A) → f x ≡ g x)
    → (o >>= f) ≡ (o >>= g)
bind_same (ok x) f g h = h x
bind_same (err e c) f g h = refl

-- Any two amounts of fuel that are at least the length of the file read it alike: the loop over the
-- lines ends by itself, and the fuel of the model does not cut it.
pub parse_lines_lem :
    (n m : ℕ) (p : Parser) (file : List ℕ)
    → length file ≤ n
    → length file ≤ m
    → parse_lines n p file ≡ parse_lines m p file
unfolding parse_lines
parse_lines_lem zero zero p file h k = refl
parse_lines_lem zero (suc m) p [] h k = refl
parse_lines_lem zero (suc m) p (c ∷ cs) h k = ground (arith, h)
parse_lines_lem (suc n) zero p [] h k = refl
parse_lines_lem (suc n) zero p (c ∷ cs) h k = ground (arith, k)
parse_lines_lem (suc n) (suc m) p [] h k = refl
parse_lines_lem (suc n) (suc m) p (c ∷ cs) h k =
    bind_same (parse_line (record p { line_no = p.line_no + 1 }) (line_text raw)) _ _ (λ q.
      parse_lines_lem n m q rest (omega (arith, rest_lt 158 c cs, h))
        (omega (arith, rest_lt 158 c cs, k)))
  where
    raw : List ℕ
    raw = (read_bytes_until 159 (c ∷ cs)).0

    rest : List ℕ
    rest = (read_bytes_until 159 (c ∷ cs)).1
