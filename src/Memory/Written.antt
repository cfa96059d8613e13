-- ===== src/Memory/Written.antt =====
-- configureMMUFromActiveModel of NEO6502_MMU_V3/memory_config.cpp on a validated configuration: which page it
-- writes for which slot.
use neo6502_mmu_v.Base.{
  ℕ, zero, suc, ◌+◌, ◌*◌, ◌<◌, Bool, true, false, ◌||◌, Option, some, List, [], ◌∷◌, ◌++◌, ◌≡◌,
  refl, sym, ap, subst, ◌∙◌, arith, find?, find?-test, length, length-append, get_elem?, bit_or,
  Bool-cases, inl, inr, if◌then◌else◌,
}
use neo6502_mmu_v.Memory.Config.{
  num_context_pages, MemoryModel, LayoutRegion, MemoryLayout, MemoryConfig,
}
use neo6502_mmu_v.Memory.Allocate.{
  region_of_slot, page_of_slot, is_io, PageWrite, write_slots, write_contexts,
  resolve_layout_for_context,
}
use neo6502_mmu_v.Memory.Coverage.{holds_slot, holders}
use neo6502_mmu_v.Memory.Checked.{IsValidated}

-- A slot with a holder is found.
region_of_slot-some :
    (rs : List LayoutRegion) (slot : ℕ)
    → 0 < holders rs slot
    → (r : LayoutRegion) × (region_of_slot rs slot ≡ some r)
unfolding region_of_slot find? holders
region_of_slot-some [] slot h = ground (arith, h)
region_of_slot-some (r ∷ rs) slot h = elim (Bool-cases (holds_slot r slot)) [
  | inl here ↦ (r, rw here refl)
  | inr away ↦
      (let (found, e) = region_of_slot-some rs slot (subst (0 <◌) (passed_over away) h) in
        (found, rw away e))
]
  where
    passed_over : holds_slot r slot ≡ false → holders (r ∷ rs) slot ≡ holders rs slot
    passed_over e = rw e refl

region_of_slot-holds :
    (rs : List LayoutRegion) (slot : ℕ) {r : LayoutRegion}
    → region_of_slot rs slot ≡ some r
    → holds_slot r slot ≡ true
unfolding region_of_slot
region_of_slot-holds rs slot e = find?-test _ rs e

-- The physical page with the flag of I/O regions and trapped writes.
abbrev pub flagged : LayoutRegion → ℕ → ℕ
flagged r phys = if is_io r.type || r.trap_write then bit_or phys 0x80 else phys

-- The write for a slot: the page of `phys_map`, with the flag of the region that holds the slot.
pub record IsWritten (config : MemoryConfig) (model : MemoryModel) (phys_map : ℕ → ℕ → ℕ)
    (ctx slot : ℕ) (w : Option PageWrite) : Type 0 where
  pub layout : MemoryLayout
  pub bound : resolve_layout_for_context config model ctx ≡ some layout
  pub region : LayoutRegion
  pub found : region_of_slot layout.regions slot ≡ some region
  pub holds : holds_slot region slot ≡ true
  pub written :
      w ≡ some (record { ctx = ctx; slot = slot; page = flagged region (phys_map ctx slot) })

write_slots-whole :
    (phys_map : ℕ → ℕ → ℕ) (rs : List LayoutRegion) (ctx slot left : ℕ)
    → ((s : ℕ) → s < slot + left → 0 < holders rs s)
    → ((write_slots phys_map rs ctx slot left).1 ≡ true)
      × (length (write_slots phys_map rs ctx slot left).0 ≡ left)
unfolding write_slots page_of_slot
write_slots-whole phys_map rs ctx slot zero h = (refl, refl)
write_slots-whole phys_map rs ctx slot (suc left) h =
    let (r, found) = region_of_slot-some rs slot (h slot (omega arith)) in
    let (whole, n) =
      write_slots-whole phys_map rs ctx (slot + 1) left (λ s k. h s (omega (arith, k))) in
    rw (found, write_slots, page_of_slot) (whole, ap suc n)

-- The write at place `i` is for the slot `k`.
write_slots-entry :
    (phys_map : ℕ → ℕ → ℕ) (rs : List LayoutRegion) (ctx slot left i k : ℕ)
    → ((s : ℕ) → s < slot + left → 0 < holders rs s)
    → i < left
    → k ≡ slot + i
    → (r : LayoutRegion) × (region_of_slot rs k ≡ some r)
      × (get_elem? (write_slots phys_map rs ctx slot left).0 i
          ≡ some (record { ctx = ctx; slot = k; page = flagged r (phys_map ctx k) }))
unfolding write_slots page_of_slot
write_slots-entry phys_map rs ctx slot zero i k h l e = absurd (omega (arith, l))
write_slots-entry phys_map rs ctx slot (suc left) zero k h l e =
    let (r, found) = region_of_slot-some rs slot (h slot (omega arith)) in
    let at : slot ≡ k = omega (arith, e) in
    subst
      (λ k.
        (r : LayoutRegion) × (region_of_slot rs k ≡ some r)
        × (get_elem? (write_slots phys_map rs ctx slot (suc left)).0 0
            ≡ some (record { ctx = ctx; slot = k; page = flagged r (phys_map ctx k) })))
      at (r, found, rw (found, write_slots, page_of_slot) refl)
write_slots-entry phys_map rs ctx slot (suc left) (suc i) k h l e =
    let (r, found) = region_of_slot-some rs slot (h slot (omega arith)) in
    let (q, at, w) =
      write_slots-entry phys_map rs ctx (slot + 1) left i k (λ s n. h s (omega (arith, n)))
        (omega (arith, l)) (omega (arith, e)) in
    (q, at, rw (found, write_slots, page_of_slot) w)

get_elem?-append_left :
    {A : Type 0} (xs ys : List A) (i : ℕ) → i < length xs → get_elem? (xs ++ ys) i ≡ get_elem? xs i
get_elem?-append_left [] ys i h = elim h [ ]
get_elem?-append_left (x ∷ xs) ys zero h = refl
get_elem?-append_left (x ∷ xs) ys (suc i) h = get_elem?-append_left xs ys i (omega arith)

get_elem?-append_right :
    {A : Type 0} (xs ys : List A) (i k : ℕ)
    → k ≡ length xs + i
    → get_elem? (xs ++ ys) k ≡ get_elem? ys i
get_elem?-append_right [] ys i k e = ap (get_elem? ys) (omega (arith, e))
get_elem?-append_right (x ∷ xs) ys i zero e = absurd (omega (arith, e))
get_elem?-append_right (x ∷ xs) ys i (suc k) e = get_elem?-append_right xs ys i k (omega (arith, e))

module _ (config : MemoryConfig) (v : IsValidated config) (phys_map : ℕ → ℕ → ℕ) where
  -- The tables of a context stand in front of those of the next ones.
  write_contexts-step :
      (ctx left : ℕ)
      → ctx + suc left ≡ v.active.contexts
      → (l : MemoryLayout) × (resolve_layout_for_context config v.active ctx ≡ some l)
        × ((s : ℕ) → s < num_context_pages → 0 < holders l.regions s)
        × (write_contexts config v.active phys_map ctx (suc left) ≡ (
          (write_slots phys_map l.regions ctx 0 num_context_pages).0
              ++ (write_contexts config v.active phys_map (ctx + 1) left).0,
          (write_contexts config v.active phys_map (ctx + 1) left).1,
        ))
  unfolding write_contexts
  write_contexts-step ctx left h =
      let (l, found, t) = v.layouts ctx (omega (arith, h)) in
      let held : (s : ℕ) → s < num_context_pages → 0 < holders l.regions s =
        λ s k. omega (arith, t.tiled s k) in
      let (whole, m) = write_slots-whole phys_map l.regions ctx 0 num_context_pages held in
      (l, found, held, rw (found, whole, write_contexts) refl)

  -- The page tables of the contexts from `ctx` on are written, 16 entries for each.
  pub write_contexts-whole :
      (ctx left : ℕ)
      → ctx + left ≡ v.active.contexts
      → (let w = write_contexts config v.active phys_map ctx left in
          (w.1 ≡ true) × (length w.0 ≡ num_context_pages * left))
  unfolding write_contexts
  write_contexts-whole ctx zero h = (refl, refl)
  write_contexts-whole ctx (suc left) h =
      let (l, found, held, e) = write_contexts-step ctx left h in
      let (done, n) = write_contexts-whole (ctx + 1) left (omega (arith, h)) in
      let (whole, m) = write_slots-whole phys_map l.regions ctx 0 num_context_pages held in
      subst (λ w. (w.1 ≡ true) × (length w.0 ≡ num_context_pages * suc left)) (sym e)
        (
          done,
          length-append (write_slots phys_map l.regions ctx 0 num_context_pages).0
                (write_contexts config v.active phys_map (ctx + 1) left).0
              ∙ omega (arith, m, n),
        )

  pub write_contexts-IsWritten :
      (ctx left j c slot i : ℕ)
      → ctx + left ≡ v.active.contexts
      → j < left
      → c ≡ ctx + j
      → slot < num_context_pages
      → i ≡ num_context_pages * j + slot
      → IsWritten config v.active phys_map c slot
          (get_elem? (write_contexts config v.active phys_map ctx left).0 i)
  write_contexts-IsWritten ctx zero j c slot i h k at small place = absurd (omega (arith, k))
  write_contexts-IsWritten ctx (suc left) zero c slot i h k at small place =
      let (l, bound, held, e) = write_contexts-step ctx left h in
      let (whole, m) = write_slots-whole phys_map l.regions ctx 0 num_context_pages held in
      let (r, found, w) =
        write_slots-entry phys_map l.regions ctx 0 num_context_pages slot slot held small
          (omega arith) in
      let first : slot ≡ i = omega (arith, place) in
      let same : ctx ≡ c = omega (arith, at) in
      subst
        (λ c.
          IsWritten config v.active phys_map c slot
            (get_elem? (write_contexts config v.active phys_map ctx (suc left)).0 i))
        same
        (subst
          (λ i.
            IsWritten config v.active phys_map ctx slot
              (get_elem? (write_contexts config v.active phys_map ctx (suc left)).0 i))
          first
          (record {
            layout = l;
            bound = bound;
            region = r;
            found = found;
            holds = region_of_slot-holds l.regions slot found;
            written =
                ap (λ (x : List PageWrite × Bool). get_elem? x.0 slot) e
                ∙ get_elem?-append_left (write_slots phys_map l.regions ctx 0 num_context_pages).0 _
                    slot (omega (arith, m, small))
                ∙ w;
          }))
  write_contexts-IsWritten ctx (suc left) (suc j) c slot i h k at small place =
      let (l, bound, held, e) = write_contexts-step ctx left h in
      let (whole, m) = write_slots-whole phys_map l.regions ctx 0 num_context_pages held in
      let later =
        write_contexts-IsWritten (ctx + 1) left j c slot (num_context_pages * j + slot)
          (omega (arith, h)) (omega (arith, k)) (omega (arith, at)) small refl in
      subst (IsWritten config v.active phys_map c slot)
        (sym (
          ap (λ (x : List PageWrite × Bool). get_elem? x.0 i) e
          ∙ get_elem?-append_right (write_slots phys_map l.regions ctx 0 num_context_pages).0 _
              (num_context_pages * j + slot) i (omega (arith, m, place))))
        later
