-- ===== src/Memory/Owner.antt =====
-- Whose page a slot is, by the layouts of NEO6502_MMU_V3/memory_config.h.
use neo6502_mmu_v.Base.{
  ℕ, ◌-◌, Bool, none, some, List, ◌≡◌, inl, inr, refl, sym, ◌∙◌, subst, length, leb, if◌then◌else◌,
  Bool-cases, Option-cases,
}
use neo6502_mmu_v.Memory.Config.{max_memory_name, MemoryModel, LayoutRegion, MemoryConfig}
use neo6502_mmu_v.Memory.Allocate.{region_of_slot, resolve_layout_for_context}
use neo6502_mmu_v.Memory.Sharing.{Owner, private, shared, owner_in}

-- A name as the fields of the tables keep it.
abbrev pub fits : List ℕ → Bool
fits name = leb (length name) max_memory_name

-- Whose page a slot of a context is, in its layout.
unfoldable pub owner_at : List LayoutRegion → ℕ → ℕ → Owner
owner_at regions c s = elim (region_of_slot regions s) [
  | none ↦ private c s
  | some r ↦ owner_in r c s (s - r.start)
]

unfoldable pub owner_of : MemoryConfig → MemoryModel → ℕ → ℕ → Owner
owner_of config model c s = elim (resolve_layout_for_context config model c) [
  | none ↦ private c s
  | some l ↦ owner_at l.regions c s
]

only_owner_in :
    (r : LayoutRegion) (c s p ctx slot : ℕ)
    → owner_in r c s p ≡ private ctx slot
    → (c ≡ ctx) × (s ≡ slot)
only_owner_in r c s p ctx slot e = elim (Bool-cases r.shared) [
  | inl t ↦
      (let e' : shared r.name p ≡ private ctx slot =
          subst (λ b. (if b then shared r.name p else private c s) ≡ private ctx slot) t e in
        cc)
  | inr t ↦
      (let e' : private c s ≡ private ctx slot =
          subst (λ b. (if b then shared r.name p else private c s) ≡ private ctx slot) t e in
        (cc, cc))
]

only_owner_at :
    (regions : List LayoutRegion) (c s ctx slot : ℕ)
    → owner_at regions c s ≡ private ctx slot
    → (c ≡ ctx) × (s ≡ slot)
unfolding owner_at
only_owner_at regions c s ctx slot e = elim (Option-cases (region_of_slot regions s)) [
  | inl n ↦ (let e' : private c s ≡ private ctx slot = sym (rw (n, owner_at) refl) ∙ e in (cc, cc))
  | inr (r, f) ↦ only_owner_in r c s (s - r.start) ctx slot (sym (rw (f, owner_at) refl) ∙ e)
]

-- A page that is nobody else's belongs to one slot.
pub only_owner_of :
    (config : MemoryConfig) (model : MemoryModel) (c s ctx slot : ℕ)
    → owner_of config model c s ≡ private ctx slot
    → (c ≡ ctx) × (s ≡ slot)
unfolding owner_of
only_owner_of config model c s ctx slot e =
    elim (Option-cases (resolve_layout_for_context config model c)) [
      | inl n ↦
          (let e' : private c s ≡ private ctx slot = sym (rw (n, owner_of) refl) ∙ e in (cc, cc))
      | inr (l, f) ↦ only_owner_at l.regions c s ctx slot (sym (rw (f, owner_of) refl) ∙ e)
    ]
