-- ===== src/Memory/Giving.antt =====
-- configureMMUFromActiveModel of NEO6502_MMU_V3/memory_config.cpp: the ways in which a slot gets its
-- page.
use neo6502_mmu_v.Base.{
  some_inj, ℕ, ◌+◌, ◌%◌, ◌^◌, ◌<◌, true, false, ◌&&◌, ◌||◌, none, some, List, [], ◌∷◌, ◌++◌, ◌≡◌,
  ◌≢◌, ◌⊎◌, inl, inr, refl, sym, ap, ap₂, ◌∙◌, subst, arith, find?, find?-append_some,
  find?-append_none, length, leb, ◌==◌, if◌then◌else◌, Bool-cases, Option-cases,
}
use neo6502_mmu_v.Memory.Config.{
  max_memory_name, max_memory_contexts, num_context_pages, num_total_pages, MemoryModel,
  LayoutRegion, copy_trunc,
}
use neo6502_mmu_v.Memory.Allocate.{
  SharedPage, Allocation, ◌>>=◌, find_shared, get_shared_physical, take_page, update_map,
  store_page,
}
use neo6502_mmu_v.Memory.Pages.{Ensures}
use neo6502_mmu_v.Memory.Sharing.{
  Owner, private, shared, owner_in, FitsName, Also, IsIsolated, Also-IsIsolated,
}
use neo6502_mmu_v.Base.Strings.{str_eq, str_eq_iff}

module _ (model : List ℕ) (owner : ℕ → ℕ → Owner) where
  shared_inj : {n n' : List ℕ} {o o' : ℕ} → shared n o ≡ shared n' o' → (n ≡ n') × (o ≡ o')
  shared_inj e = (cc, cc)

  private≢shared : {c s o : ℕ} {n : List ℕ} → private c s ≢ shared n o
  private≢shared e = cc

  -- A page of its own for a private slot.
  pub private-IsIsolated :
      (P : ℕ → ℕ → Type 0) (a : Allocation) (ctx slot : ℕ)
      → ¬ P ctx slot
      → IsIsolated model owner P a
      → a.next_physical < num_total_pages
      → owner ctx slot ≡ private ctx slot
      → ((c s : ℕ) → owner c s ≡ private ctx slot → (c ≡ ctx) × (s ≡ slot))
      → IsIsolated model owner (Also P ctx slot) (record a {
        next_physical = (a.next_physical + 1) % 2 ^ 8;
        phys_map = update_map a.phys_map ctx slot a.next_physical;
      })
  private-IsIsolated P a ctx slot fresh h small own only =
      Also-IsIsolated model owner P a ctx slot a.next_physical fresh h
        (λ c s q. (
          λ t. ground (arith, t, h.below c s q),
          λ t.
              (let at = only c s (t ∙ own) in
                absurd (fresh (subst (P ctx) at.1 (subst (λ x. P x s) at.0 q)))),
        ))
        ((a.next_physical + 1) % 2 ^ 8) a.shared_pages (omega (arith, small)) (omega (arith, small))
        (omega (arith, small)) (λ n o e f. f) (λ n o w. absurd (private≢shared (sym own ∙ w)))
        (λ n o e f. inl f)

  -- The page of a shared region that has one.
  pub found-IsIsolated :
      (P : ℕ → ℕ → Type 0) (a : Allocation) (ctx slot : ℕ) (name : List ℕ) (offset : ℕ)
      (e : SharedPage)
      → ¬ P ctx slot
      → IsIsolated model owner P a
      → owner ctx slot ≡ shared name offset
      → find_shared a.shared_pages model name offset ≡ some e
      → IsIsolated model owner
          (Also P ctx slot)
          (record a { phys_map = update_map a.phys_map ctx slot e.phys })
  found-IsIsolated P a ctx slot name offset e fresh h own found =
      let (c0, s0, q0, w0, m0) = h.origin name offset e found in
      Also-IsIsolated model owner P a ctx slot e.phys fresh h
        (λ c s q. (
          λ t. (h.agree c s c0 s0 q q0).0 (t ∙ m0) ∙ w0 ∙ sym own,
          λ t. (h.agree c s c0 s0 q q0).1 (t ∙ own ∙ sym w0) ∙ sym m0,
        ))
        a.next_physical a.shared_pages h.bounded (omega arith) (omega (arith, m0, h.below c0 s0 q0))
        (λ n o f g. g)
        (λ n o w.
          (let (same, at) = shared_inj (sym own ∙ w) in
            (
              e,
              subst (λ x. find_shared a.shared_pages model n x ≡ some e) at
                  (subst (λ x. find_shared a.shared_pages model x offset ≡ some e) same found),
              refl,
            )))
        (λ n o f g. inl g)

  -- The first page of a shared region's page.
  abbrev entry : List ℕ → ℕ → ℕ → SharedPage
  entry name offset phys = record {
    model = copy_trunc (max_memory_name + 1) model;
    region = copy_trunc (max_memory_name + 1) name;
    offset = offset;
    phys = phys;
  }

  find_shared-entry :
      (name : List ℕ) (offset phys : ℕ)
      → FitsName model
      → FitsName name
      → find_shared (entry name offset phys ∷ []) model name offset ≡ some (entry name offset phys)
  unfolding find_shared find?
  find_shared-entry name offset phys hm hn =
      rw
        (
          (str_eq_iff (copy_trunc (max_memory_name + 1) model) model).1 hm,
          (str_eq_iff (copy_trunc (max_memory_name + 1) name) name).1 hn,
        )
        (ground arith)

  entry-find_shared :
      (name n : List ℕ) (offset o phys : ℕ) (e : SharedPage)
      → FitsName name
      → find_shared (entry name offset phys ∷ []) model n o ≡ some e
      → (name ≡ n) × (offset ≡ o) × (e.phys ≡ phys)
  unfolding find_shared find?
  entry-find_shared name n offset o phys e hn f =
      let test =
        str_eq (copy_trunc (max_memory_name + 1) model) model
        && str_eq (copy_trunc (max_memory_name + 1) name) n
        && offset == o in
      elim (Bool-cases test) [
        | inl t ↦
            (let it =
                some_inj
                  (subst (λ b. (if b then some (entry name offset phys) else none) ≡ some e) t f) in
              (
                sym hn
                    ∙ (str_eq_iff (copy_trunc (max_memory_name + 1) name) n).0 (ground (arith, t)),
                ground (arith, t),
                ap (λ (x : SharedPage). x.phys) (sym it),
              ))
        | inr t ↦
            ground
              (arith, subst (λ b. (if b then some (entry name offset phys) else none) ≡ some e) t f)
      ]

  -- A new page for a page of a shared region that has none.
  pub new-IsIsolated :
      (P : ℕ → ℕ → Type 0) (a : Allocation) (ctx slot : ℕ) (name : List ℕ) (offset : ℕ)
      → ¬ P ctx slot
      → IsIsolated model owner P a
      → FitsName model
      → FitsName name
      → owner ctx slot ≡ shared name offset
      → find_shared a.shared_pages model name offset ≡ none
      → a.next_physical < num_total_pages
      → IsIsolated model owner (Also P ctx slot) (record {
        next_physical = (a.next_physical + 1) % 2 ^ 8;
        shared_pages = a.shared_pages ++ entry name offset a.next_physical ∷ [];
        phys_map = update_map a.phys_map ctx slot a.next_physical;
      })
  unfolding find_shared
  new-IsIsolated P a ctx slot name offset fresh h hm hn own missing small =
      Also-IsIsolated model owner P a ctx slot a.next_physical fresh h
        (λ c s q. (
          λ t. ground (arith, t, h.below c s q),
          λ t. (let (e, f, m) = h.known c s name offset q (t ∙ own) in cc),
        ))
        ((a.next_physical + 1) % 2 ^ 8) (a.shared_pages ++ entry name offset a.next_physical ∷ [])
        (omega (arith, small)) (omega (arith, small)) (omega (arith, small))
        (λ n o e f. find?-append_some _ a.shared_pages (entry name offset a.next_physical ∷ []) f)
        (λ n o w.
          (let (same, at) = shared_inj (sym own ∙ w) in
            (entry name offset a.next_physical, moved n o same at, refl)))
        new_origin
    where
      here :
          find_shared (a.shared_pages ++ entry name offset a.next_physical ∷ []) model name offset
          ≡ some (entry name offset a.next_physical)
      here =
          find?-append_none _ a.shared_pages (entry name offset a.next_physical ∷ []) missing
          ∙ find_shared-entry name offset a.next_physical hm hn

      moved :
          (n : List ℕ) (o : ℕ)
          → name ≡ n
          → offset ≡ o
          → find_shared (a.shared_pages ++ entry name offset a.next_physical ∷ []) model n o
            ≡ some (entry name offset a.next_physical)
      moved n o same at =
          subst
            (λ x.
              find_shared (a.shared_pages ++ entry name offset a.next_physical ∷ []) model n x
              ≡ some (entry name offset a.next_physical))
            at
            (subst
              (λ x.
                find_shared (a.shared_pages ++ entry name offset a.next_physical ∷ []) model x
                  offset
                ≡ some (entry name offset a.next_physical))
              same here)

      new_origin :
          (n : List ℕ) (o : ℕ) (e : SharedPage)
          → find_shared (a.shared_pages ++ entry name offset a.next_physical ∷ []) model n o
            ≡ some e
          → (find_shared a.shared_pages model n o ≡ some e)
            ⊎ ((owner ctx slot ≡ shared n o) × (e.phys ≡ a.next_physical))
      new_origin n o e f = elim (Option-cases (find_shared a.shared_pages model n o)) [
        | inl none_yet ↦
            (let (same, at, m) = entry-find_shared name n offset o a.next_physical e hn (
                sym (
                  find?-append_none _ a.shared_pages (entry name offset a.next_physical ∷ [])
                    none_yet)
                ∙ f) in
              inr (own ∙ ap₂ shared same at, m))
        | inr (x, old) ↦ inl (
            old
            ∙ sym (find?-append_some _ a.shared_pages (entry name offset a.next_physical ∷ []) old)
            ∙ f)
      ]

-- One page of a region is taken and stored.
module _ (model : MemoryModel) (owner : ℕ → ℕ → Owner)
    (only : (c s ctx slot : ℕ) → owner c s ≡ private ctx slot → (c ≡ ctx) × (s ≡ slot))
    (hm : FitsName model.name) (P : ℕ → ℕ → Type 0) (region : LayoutRegion) (ctx slot p : ℕ)
    (a : Allocation) (fresh : ¬ P ctx slot) (h : IsIsolated model.name owner P a)
    (hn : FitsName region.name) (own : owner ctx slot ≡ owner_in region ctx slot p) where
  store-Ensures :
      (phys : ℕ) (b : Allocation)
      → IsIsolated model.name owner
          (Also P ctx slot)
          (record b { phys_map = update_map b.phys_map ctx slot phys })
      → Ensures (IsIsolated model.name owner (Also P ctx slot)) (store_page ctx slot phys b)
  unfolding store_page
  store-Ensures phys b k =
      elim (Bool-cases (leb max_memory_contexts ctx || leb num_context_pages slot)) [
        | inl outside ↦ rw outside tt
        | inr inside ↦ rw inside k
      ]

  private-Ensures :
      region.shared ≡ false
      → Ensures
          (IsIsolated model.name owner (Also P ctx slot))
          (do (phys, b) ← take_page model region p a; store_page ctx slot phys b)
  unfolding take_page
  private-Ensures e = elim (Bool-cases (leb num_total_pages a.next_physical)) [
    | inl none_left ↦ rw (e, none_left) tt
    | inr given ↦
        rw (e, given)
          (store-Ensures _ _ (
            private-IsIsolated model.name owner P a ctx slot fresh h (ground (arith, given))
              (rw (own, e) refl) (λ c s. only c s ctx slot)))
  ]

  shared-Ensures :
      region.shared ≡ true
      → Ensures
          (IsIsolated model.name owner (Also P ctx slot))
          (do (phys, b) ← take_page model region p a; store_page ctx slot phys b)
  unfolding take_page get_shared_physical
  shared-Ensures e =
      let own' : owner ctx slot ≡ shared region.name p = rw (own, e) refl in
      elim (Option-cases (find_shared a.shared_pages model.name region.name p)) [
        | inr (x, found) ↦ elim (Bool-cases (x.phys == 255)) [
          | inl last ↦ rw (e, found, last, get_shared_physical) tt
          | inr given ↦
              rw (e, found, given, get_shared_physical)
                (store-Ensures _ _ (
                  found-IsIsolated model.name owner P a ctx slot region.name p x fresh h own'
                    found))
        ]
        | inl missing ↦
            elim (Bool-cases (
              leb num_total_pages a.next_physical || leb num_total_pages (length a.shared_pages))) [
                | inl full ↦ rw (e, missing, full, get_shared_physical) tt
                | inr room ↦
                    (let small : a.next_physical < num_total_pages = ground (arith, room) in
                      let given : (a.next_physical == 255) ≡ false = ground (arith, small) in
                      rw (e, missing, room, given, get_shared_physical)
                        (store-Ensures _ _ (
                          new-IsIsolated model.name owner P a ctx slot region.name p fresh h hm hn
                            own' missing small)))
              ]
      ]

  pub step-Ensures :
      Ensures
        (IsIsolated model.name owner (Also P ctx slot))
        (do (phys, b) ← take_page model region p a; store_page ctx slot phys b)
  step-Ensures = elim (Bool-cases region.shared) [
    | inl e ↦ shared-Ensures e
    | inr e ↦ private-Ensures e
  ]
