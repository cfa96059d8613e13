-- ===== src/Memory/Pages.antt =====
-- The physical pages that configureMMUFromActiveModel of NEO6502_MMU_V3/memory_config.cpp gives out.
use neo6502_mmu_v.Base.{
  some_inj, ℕ, zero, suc, ◌+◌, ◌%◌, ◌^◌, ◌≤◌, ◌<◌, Bool, ◌||◌, none, some, List, [], ◌∷◌, ◌++◌, ◌≡◌,
  ◌⊎◌, inl, inr, refl, subst, arith, find?, length, leb, ltb, ◌==◌, if◌then◌else◌, Bool-cases,
  Option-cases,
}
use neo6502_mmu_v.Memory.Config.{
  max_memory_contexts, num_context_pages, num_total_pages, MemoryModel, LayoutRegion, MemoryConfig,
  find_model,
}
use neo6502_mmu_v.Memory.Allocate.{
  SharedPage, Allocation, Outcome, ok, failed, out_of_bounds, ◌>>=◌, find_shared,
  get_shared_physical, take_page, update_map, store_page, place_pages, place_regions,
  place_contexts, resolve_layout_for_context, empty_allocation, allocate,
}

-- What holds of the value, when there is one.
abbrev pub Ensures {ℓ} : {A : Type ℓ} → (A → Type 0) → Outcome A → Type 0
Ensures P (ok x) = P x
Ensures P failed = Unit
Ensures P out_of_bounds = Unit

pub bind-Ensures {ℓ κ} :
    {A : Type ℓ} {B : Type κ} (P : A → Type 0) (Q : B → Type 0) (o : Outcome A) (f : A → Outcome B)
    → Ensures P o
    → ((x : A) → P x → Ensures Q (f x))
    → Ensures Q (o >>= f)
bind-Ensures P Q (ok x) f h k = k x h
bind-Ensures P Q failed f h k = tt
bind-Ensures P Q out_of_bounds f h k = tt

-- Every page that was given out exists.
pub record IsPhysical (a : Allocation) : Type 0 where
  pub next : a.next_physical ≤ num_total_pages
  pub shared :
      (p : SharedPage → Bool) (s : SharedPage)
      → find? p a.shared_pages ≡ some s
      → s.phys < num_total_pages
  pub mapped : (c s : ℕ) → a.phys_map c s < num_total_pages

abbrev IsTaken : ℕ × Allocation → Type 0
IsTaken (phys, a) = (phys < num_total_pages) × IsPhysical a

find?-concat :
    (p : SharedPage → Bool) (xs : List SharedPage) (y s : SharedPage)
    → y.phys < num_total_pages
    → ((s : SharedPage) → find? p xs ≡ some s → s.phys < num_total_pages)
    → find? p (xs ++ y ∷ []) ≡ some s
    → s.phys < num_total_pages
unfolding find?
find?-concat p [] y s hy h e = elim (Bool-cases (p y)) [
  | inl here ↦
      subst (λ z. z.phys < num_total_pages)
        (some_inj (subst (λ b. (if b then some y else none) ≡ some s) here e)) hy
  | inr away ↦ h s (subst (λ b. (if b then some y else none) ≡ some s) away e)
]
find?-concat p (x ∷ xs) y s hy h e = elim (Bool-cases (p x)) [
  | inl here ↦
      h s (rw here (subst (λ b. (if b then some x else find? p (xs ++ y ∷ [])) ≡ some s) here e))
  | inr away ↦
      find?-concat p xs y s hy (λ z q. h z (rw away q))
        (subst (λ b. (if b then some x else find? p (xs ++ y ∷ [])) ≡ some s) away e)
]

-- One more page is given out, to a private slot or to a shared page.
advance-IsPhysical :
    (a : Allocation)
    → a.next_physical < num_total_pages
    → IsPhysical a
    → IsPhysical (record a { next_physical = (a.next_physical + 1) % 2 ^ 8 })
advance-IsPhysical a small h = record {
  next = omega (arith, small);
  shared = h.shared;
  mapped = h.mapped;
}

share-IsPhysical :
    (a : Allocation) (y : SharedPage)
    → y.phys < num_total_pages
    → a.next_physical < num_total_pages
    → IsPhysical a
    → IsPhysical (record a {
      next_physical = (a.next_physical + 1) % 2 ^ 8;
      shared_pages = a.shared_pages ++ y ∷ [];
    })
share-IsPhysical a y hy small h = record {
  next = omega (arith, small);
  shared = λ p s e. find?-concat p a.shared_pages y s hy (λ z q. h.shared p z q) e;
  mapped = h.mapped;
}

get_shared_physical-IsTaken :
    (model region : List ℕ) (offset : ℕ) (a : Allocation)
    → IsPhysical a
    → (let (phys, b) = get_shared_physical model region offset a in
        ((phys ≡ 255) ⊎ (phys < num_total_pages)) × IsPhysical b)
unfolding get_shared_physical find_shared
get_shared_physical-IsTaken model region offset a h =
    elim (Option-cases (find_shared a.shared_pages model region offset)) [
      | inr (s, e) ↦ rw (e, get_shared_physical) (inr (h.shared _ s e), h)
      | inl n ↦
          elim (Bool-cases
            (leb num_total_pages a.next_physical || leb num_total_pages (length a.shared_pages))) [
              | inl full ↦ rw (n, full, get_shared_physical) (inl refl, h)
              | inr room ↦
                  (let small : a.next_physical < num_total_pages = ground (arith, room) in
                    rw (n, room, get_shared_physical)
                      (inr small, share-IsPhysical a _ small small h))
            ]
    ]

take_page-IsTaken :
    (model : MemoryModel) (region : LayoutRegion) (p : ℕ) (a : Allocation)
    → IsPhysical a
    → Ensures IsTaken (take_page model region p a)
unfolding take_page
take_page-IsTaken model region p a h =
    let (phys, shared) = get_shared_physical-IsTaken model.name region.name p a h in
    elim (Bool-cases region.shared) [
      | inl e ↦ elim (Bool-cases ((get_shared_physical model.name region.name p a).0 == 255)) [
        | inl none_left ↦ rw (e, none_left) tt
        | inr given ↦ rw (e, given) (ground (arith, given, phys), shared)
      ]
      | inr e ↦ elim (Bool-cases (leb num_total_pages a.next_physical)) [
        | inl none_left ↦ rw (e, none_left) tt
        | inr given ↦
            (let small : a.next_physical < num_total_pages = ground (arith, given) in
              rw (e, given) (small, advance-IsPhysical a small h))
      ]
    ]

stored :
    (m : ℕ → ℕ → ℕ) (ctx logical phys c s : ℕ)
    → phys < num_total_pages
    → m c s < num_total_pages
    → update_map m ctx logical phys c s < num_total_pages
stored m ctx logical phys c s small h = ground (arith, small, h)

store_page-IsPhysical :
    (ctx logical phys : ℕ) (a : Allocation)
    → phys < num_total_pages
    → IsPhysical a
    → Ensures IsPhysical (store_page ctx logical phys a)
unfolding store_page
store_page-IsPhysical ctx logical phys a small h =
    elim (Bool-cases (leb max_memory_contexts ctx || leb num_context_pages logical)) [
      | inl outside ↦ rw outside tt
      | inr inside ↦ rw inside (record {
        next = h.next;
        shared = h.shared;
        mapped = λ c s. stored a.phys_map ctx logical phys c s small (h.mapped c s);
      })
    ]

place_pages-IsPhysical :
    (model : MemoryModel) (ctx : ℕ) (region : LayoutRegion) (p left : ℕ) (a : Allocation)
    → IsPhysical a
    → Ensures IsPhysical (place_pages model ctx region p left a)
unfolding place_pages
place_pages-IsPhysical model ctx region p zero a h = h
place_pages-IsPhysical model ctx region p (suc left) a h =
    bind-Ensures IsTaken IsPhysical (take_page model region p a) _
      (take_page-IsTaken model region p a h)
      (λ x t.
        bind-Ensures IsPhysical IsPhysical (store_page ctx ((region.start + p) % 2 ^ 8) x.0 x.1) _
          (store_page-IsPhysical ctx ((region.start + p) % 2 ^ 8) x.0 x.1 t.0 t.1)
          (λ c hc. place_pages-IsPhysical model ctx region (p + 1) left c hc))

place_regions-IsPhysical :
    (model : MemoryModel) (ctx : ℕ) (rs : List LayoutRegion) (a : Allocation)
    → IsPhysical a
    → Ensures IsPhysical (place_regions model ctx rs a)
unfolding place_regions
place_regions-IsPhysical model ctx [] a h = h
place_regions-IsPhysical model ctx (r ∷ rs) a h =
    bind-Ensures IsPhysical IsPhysical (place_pages model ctx r 0 r.pages a) _
      (place_pages-IsPhysical model ctx r 0 r.pages a h)
      (λ b hb. place_regions-IsPhysical model ctx rs b hb)

empty-IsPhysical : IsPhysical empty_allocation
unfolding find?
empty-IsPhysical = record {
  next = omega arith;
  shared = λ p s e. ground (arith, e);
  mapped = λ c s. omega arith;
}

place_contexts-IsPhysical :
    (config : MemoryConfig) (model : MemoryModel) (ctx left : ℕ) (a : Allocation)
    → IsPhysical a
    → Ensures IsPhysical (place_contexts config model ctx left a)
unfolding place_contexts
place_contexts-IsPhysical config model ctx zero a h = h
place_contexts-IsPhysical config model ctx (suc left) a h =
    elim (Option-cases (resolve_layout_for_context config model ctx)) [
      | inl n ↦ rw (n, place_contexts) tt
      | inr (l, found) ↦
          rw (found, place_contexts)
            (bind-Ensures IsPhysical IsPhysical (place_regions model ctx l.regions a) _
              (place_regions-IsPhysical model ctx l.regions a h)
              (λ b hb. place_contexts-IsPhysical config model (ctx + 1) left b hb))
    ]

-- Every page number that configureMMUFromActiveModel puts into `phys_map` is below 128, whatever
-- the configuration: bit 7, which marks I/O and trapped pages, is free.
pub allocate-IsPhysical : (config : MemoryConfig) → Ensures (λ x. IsPhysical x.1) (allocate config)
unfolding allocate
allocate-IsPhysical config = elim (Option-cases (find_model config config.active_model)) [
  | inl n ↦ rw (n, allocate) tt
  | inr (model, found) ↦
      elim (Bool-cases (model.contexts == 0 || ltb max_memory_contexts model.contexts)) [
        | inl bad ↦ rw (found, bad, allocate) tt
        | inr fits ↦
            rw (found, fits, allocate)
              (bind-Ensures IsPhysical (λ x. IsPhysical x.1)
                (place_contexts config model 0 model.contexts empty_allocation) _
                (place_contexts-IsPhysical config model 0 model.contexts empty_allocation
                  empty-IsPhysical)
                (λ a h. h))
      ]
]
