-- ===== src/Memory/Sharing.antt =====
-- The pages given out by configureMMUFromActiveModel of NEO6502_MMU_V3/memory_config.cpp, and who
-- may see them: the owner of a slot of a context, and one step of the allocation.
use neo6502_mmu_v.Base.{
  ℕ, ◌+◌, ◌≤◌, ◌<◌, ◌&&◌, some, List, ◌≡◌, ◌↔◌, ◌⊎◌, inl, inr, refl, sym, ap₂, ◌∙◌, subst, arith,
  ◌==◌, if◌then◌else◌, Bool-cases,
}
use neo6502_mmu_v.Memory.Config.{max_memory_name, num_total_pages, LayoutRegion, copy_trunc}
use neo6502_mmu_v.Memory.Allocate.{SharedPage, Allocation, find_shared, update_map}

-- Who owns a slot: a context and a slot for itself, or a page of a shared region for all.
pub data Owner : Type 0 where
  private : ℕ → ℕ → Owner
  shared : List ℕ → ℕ → Owner

-- The owner of page `p` of a region that lies at `slot`.
abbrev pub owner_in : LayoutRegion → ℕ → ℕ → ℕ → Owner
owner_in r ctx slot p = if r.shared then shared r.name p else private ctx slot

-- The name and the model fit the fields of `SharedPage`.
abbrev pub FitsName : List ℕ → Type 0
FitsName name = copy_trunc (max_memory_name + 1) name ≡ name

-- One more place.
abbrev pub Also : (ℕ → ℕ → Type 0) → ℕ → ℕ → ℕ → ℕ → Type 0
Also P ctx slot c s = P c s ⊎ ((c ≡ ctx) × (s ≡ slot))

module _ (model : List ℕ) (owner : ℕ → ℕ → Owner) where
  -- The pages of the places in `P`: equal exactly for equal owners, with the table of the shared
  -- pages in step.
  pub record IsIsolated (P : ℕ → ℕ → Type 0) (a : Allocation) : Type 0 where
    pub bounded : a.next_physical ≤ num_total_pages
    pub below : (c s : ℕ) → P c s → a.phys_map c s < a.next_physical
    pub agree :
        (c s c' s' : ℕ)
        → P c s
        → P c' s'
        → (a.phys_map c s ≡ a.phys_map c' s') ↔ (owner c s ≡ owner c' s')
    pub known :
        (c s : ℕ) (name : List ℕ) (offset : ℕ)
        → P c s
        → owner c s ≡ shared name offset
        → (e : SharedPage) × (find_shared a.shared_pages model name offset ≡ some e)
          × (e.phys ≡ a.phys_map c s)
    pub origin :
        (name : List ℕ) (offset : ℕ) (e : SharedPage)
        → find_shared a.shared_pages model name offset ≡ some e
        → (c : ℕ) × (s : ℕ) × P c s × (owner c s ≡ shared name offset) × (e.phys ≡ a.phys_map c s)

  -- A predicate that means the same.
  pub IsIsolated-iff :
      {P Q : ℕ → ℕ → Type 0} {a : Allocation}
      → ((c s : ℕ) → P c s ↔ Q c s)
      → IsIsolated P a
      → IsIsolated Q a
  IsIsolated-iff eq h = record {
    bounded = h.bounded;
    below = λ c s q. h.below c s ((eq c s).1 q);
    agree = λ c s c' s' q q'. h.agree c s c' s' ((eq c s).1 q) ((eq c' s').1 q');
    known = λ c s n o q e. h.known c s n o ((eq c s).1 q) e;
    origin = λ n o e f. (let (c, s, q, w, m) = h.origin n o e f in (c, s, (eq c s).0 q, w, m));
  }

  -- The table of the pages with one more entry, at a place that had none.
  stored_new : (m : ℕ → ℕ → ℕ) (ctx slot v : ℕ) → update_map m ctx slot v ctx slot ≡ v
  stored_new m ctx slot v = ground arith

  stored_old :
      (P : ℕ → ℕ → Type 0) (m : ℕ → ℕ → ℕ) (ctx slot v c s : ℕ)
      → ¬ P ctx slot
      → P c s
      → update_map m ctx slot v c s ≡ m c s
  stored_old P m ctx slot v c s fresh q = elim (Bool-cases (c == ctx && s == slot)) [
    | inl same ↦
        (let at : (c ≡ ctx) × (s ≡ slot) = ground (arith, same) in
          absurd (fresh (subst (P ctx) at.1 (subst (λ x. P x s) at.0 q))))
    | inr other ↦ rw other refl
  ]

  stored_at :
      (m : ℕ → ℕ → ℕ) (ctx slot v c s : ℕ)
      → (c ≡ ctx) × (s ≡ slot)
      → update_map m ctx slot v c s ≡ v
  stored_at m ctx slot v c s e = ground (arith, e.0, e.1)

  -- One more place, with the page `v`.
  module _ (P : ℕ → ℕ → Type 0) (a : Allocation) (ctx slot v : ℕ) (fresh : ¬ P ctx slot)
      (h : IsIsolated P a)
      (cross : (c s : ℕ) → P c s → (a.phys_map c s ≡ v) ↔ (owner c s ≡ owner ctx slot)) where
    abbrev after : ℕ → ℕ → ℕ
    after = update_map a.phys_map ctx slot v

    cross_after :
        (c s c' s' : ℕ)
        → P c s
        → (c' ≡ ctx) × (s' ≡ slot)
        → (after c s ≡ after c' s') ↔ (owner c s ≡ owner c' s')
    cross_after c s c' s' q e =
        let old = stored_old P a.phys_map ctx slot v c s fresh q in
        let new = stored_at a.phys_map ctx slot v c' s' e in
        let same : owner c' s' ≡ owner ctx slot = ap₂ owner e.0 e.1 in
        (
          λ t. (cross c s q).0 (sym old ∙ t ∙ new) ∙ sym same,
          λ t. old ∙ (cross c s q).1 (t ∙ same) ∙ sym new,
        )

    agree_after :
        (c s c' s' : ℕ)
        → Also P ctx slot c s
        → Also P ctx slot c' s'
        → (after c s ≡ after c' s') ↔ (owner c s ≡ owner c' s')
    agree_after c s c' s' (inl q) (inl q') =
        let old = stored_old P a.phys_map ctx slot v c s fresh q in
        let old' = stored_old P a.phys_map ctx slot v c' s' fresh q' in
        (
          λ t. (h.agree c s c' s' q q').0 (sym old ∙ t ∙ old'),
          λ t. old ∙ (h.agree c s c' s' q q').1 t ∙ sym old',
        )
    agree_after c s c' s' (inl q) (inr e) = cross_after c s c' s' q e
    agree_after c s c' s' (inr e) (inl q) =
        let x = cross_after c' s' c s q e in (λ t. sym (x.0 (sym t)), λ t. sym (x.1 (sym t)))
    agree_after c s c' s' (inr e) (inr e') = (
      λ t. ap₂ owner (e.0 ∙ sym e'.0) (e.1 ∙ sym e'.1),
      λ t. ap₂ after (e.0 ∙ sym e'.0) (e.1 ∙ sym e'.1),
    )

    -- The other fields, for the next page `next` and the table `pages` of the shared ones.
    pub Also-IsIsolated :
        (next : ℕ) (pages : List SharedPage)
        → next ≤ num_total_pages
        → a.next_physical ≤ next
        → v < next
        → ((name : List ℕ) (offset : ℕ) (e : SharedPage)
            → find_shared a.shared_pages model name offset ≡ some e
            → find_shared pages model name offset ≡ some e)
        → ((name : List ℕ) (offset : ℕ)
            → owner ctx slot ≡ shared name offset
            → (e : SharedPage) × (find_shared pages model name offset ≡ some e) × (e.phys ≡ v))
        → ((name : List ℕ) (offset : ℕ) (e : SharedPage)
            → find_shared pages model name offset ≡ some e
            → (find_shared a.shared_pages model name offset ≡ some e)
              ⊎ ((owner ctx slot ≡ shared name offset) × (e.phys ≡ v)))
        → IsIsolated (Also P ctx slot) (record {
          next_physical = next;
          shared_pages = pages;
          phys_map = update_map a.phys_map ctx slot v;
        })
    Also-IsIsolated next pages fits more less kept new_known new_origin = record {
      bounded = fits;
      below = below_after;
      agree = agree_after;
      known = known_after;
      origin = λ n o e f. elim (new_origin n o e f) [
        | inl old ↦
            (let (c, s, q, w, m) = h.origin n o e old in
              (c, s, inl q, w, m ∙ sym (stored_old P a.phys_map ctx slot v c s fresh q)))
        | inr (w, m) ↦ (ctx, slot, inr (refl, refl), w, m ∙ sym (stored_new a.phys_map ctx slot v))
      ];
    }
      where
        below_after : (c s : ℕ) → Also P ctx slot c s → update_map a.phys_map ctx slot v c s < next
        below_after c s (inl q) =
            omega (arith, stored_old P a.phys_map ctx slot v c s fresh q, h.below c s q, more)
        below_after c s (inr e) = omega (arith, stored_at a.phys_map ctx slot v c s e, less)

        known_after :
            (c s : ℕ) (name : List ℕ) (offset : ℕ)
            → Also P ctx slot c s
            → owner c s ≡ shared name offset
            → (e : SharedPage) × (find_shared pages model name offset ≡ some e)
              × (e.phys ≡ update_map a.phys_map ctx slot v c s)
        known_after c s n o (inl q) w =
            let (e, f, m) = h.known c s n o q w in
            (e, kept n o e f, m ∙ sym (stored_old P a.phys_map ctx slot v c s fresh q))
        known_after c s n o (inr at) w =
            let (e, f, m) = new_known n o (sym (ap₂ owner at.0 at.1) ∙ w) in
            (e, f, m ∙ sym (stored_at a.phys_map ctx slot v c s at))
