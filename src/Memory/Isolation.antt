-- ===== src/Memory/Isolation.antt =====
-- configureMMUFromActiveModel of NEO6502_MMU_V3/memory_config.cpp: which slots of which contexts see
-- the same physical page.
use neo6502_mmu_v.Base.{
  some_inj, ℕ, zero, suc, ◌+◌, ◌-◌, ◌%◌, ◌^◌, ◌<◌, Bool, true, false, ◌&&◌, ◌||◌, none, some, List,
  [], ◌∷◌, ◌≡◌, ◌↔◌, inl, inr, refl, sym, ap, ◌∙◌, subst, arith, find?, ltb, ◌==◌, if◌then◌else◌,
  Bool-cases, Option-cases, all,
}
use neo6502_mmu_v.Memory.Config.{
  max_memory_contexts, num_context_pages, MemoryModel, LayoutRegion, MemoryLayout, MemoryConfig,
  find_model, find_layout, find_context_binding,
}
use neo6502_mmu_v.Memory.Allocate.{
  Allocation, Outcome, ok, failed, out_of_bounds, find_shared, take_page, region_of_slot,
  place_pages, place_regions, place_contexts, resolve_layout_for_context, empty_allocation,
  allocate,
}
use neo6502_mmu_v.Memory.Pages.{Ensures, bind-Ensures}
use neo6502_mmu_v.Memory.Sharing.{owner_in, FitsName, Also, IsIsolated, IsIsolated-iff}
use neo6502_mmu_v.Memory.Giving.{step-Ensures}
use neo6502_mmu_v.Memory.Coverage.{IsInRange, AllInRange, holds_slot, holders}
use neo6502_mmu_v.Memory.Checked.{IsTiled, validate_config-IsValidated}
use neo6502_mmu_v.Memory.Validate.{validate_config}
use neo6502_mmu_v.Memory.Owner.{fits, owner_at, owner_of, only_owner_of}
use neo6502_mmu_v.Memory.Filling.{
  IsRest, IsRest-tail, Placed, Filling, Filling-next, Filling-first, Filling-fresh, Filling-last,
  fits-FitsName, bind_assoc,
}

module _ (config : MemoryConfig) (model : MemoryModel) (hm : FitsName model.name) where
  abbrev Isolated : (ℕ → ℕ → Type 0) → Allocation → Type 0
  Isolated = IsIsolated model.name (owner_of config model)

  -- The slots of the context `ctx`, whose layout is `l`.
  module _ (ctx : ℕ) (l : MemoryLayout)
      (resolved : resolve_layout_for_context config model ctx ≡ some l) where
    own :
        (r : LayoutRegion) (rs : List LayoutRegion) (s : ℕ)
        → IsRest l.regions (r ∷ rs)
        → s < num_context_pages
        → holds_slot r s ≡ true
        → owner_of config model ctx s ≡ owner_in r ctx s (s - r.start)
    unfolding owner_of owner_at region_of_slot find? holders
    own r rs s h k here =
        let found : region_of_slot l.regions s ≡ some r =
          h.region s k (ground (arith, here)) ∙ rw here refl in
        rw (resolved, owner_of) (rw (found, owner_at) refl)

    place_pages-IsIsolated :
        (r : LayoutRegion) (rs : List LayoutRegion) (p left : ℕ) (a : Allocation)
        → IsInRange r
        → IsRest l.regions (r ∷ rs)
        → FitsName r.name
        → p + left ≡ r.pages
        → Isolated (Filling ctx r rs p) a
        → Ensures (Isolated (Filling ctx r rs r.pages)) (place_pages model ctx r p left a)
    unfolding place_pages
    place_pages-IsIsolated r rs p zero a hr h hn e k =
        subst (λ x. Isolated (Filling ctx r rs x) a) (omega (arith, e)) k
    place_pages-IsIsolated r rs p (suc left) a hr h hn e k =
        let slot : (r.start + p) % 2 ^ 8 ≡ r.start + p = omega (arith, hr.fits, e) in
        let here : holds_slot r (r.start + p) ≡ true = ground (arith, e) in
        let mine : owner_of config model ctx (r.start + p) ≡ owner_in r ctx (r.start + p) p =
          own r rs (r.start + p) h (omega (arith, hr.fits, e)) here
          ∙ ap (owner_in r ctx (r.start + p)) (omega arith) in
        bind_assoc (Isolated (Filling ctx r rs r.pages)) (take_page model r p a) _ _ (
          bind-Ensures (Isolated (Also (Filling ctx r rs p) ctx ((r.start + p) % 2 ^ 8)))
            (Isolated (Filling ctx r rs r.pages)) _ _
            (step-Ensures model (owner_of config model)
              (λ c s c' s'. only_owner_of config model c s c' s') hm (Filling ctx r rs p) r ctx
              ((r.start + p) % 2 ^ 8) p a
              (Filling-fresh ctx r rs p ((r.start + p) % 2 ^ 8) h slot (omega (arith, hr.fits, e))
                here)
              k hn (subst (λ x. owner_of config model ctx x ≡ owner_in r ctx x p) (sym slot) mine))
            (λ c hc. place_pages-IsIsolated r rs (p + 1) left c hr h hn (omega (arith, e)) (
              IsIsolated-iff model.name (owner_of config model)
                (λ x y. Filling-next ctx r rs p ((r.start + p) % 2 ^ 8) x y slot) hc)))

    bind_last :
        (r : LayoutRegion) (rs : List LayoutRegion) (o : Outcome Allocation)
        → IsInRange r
        → IsRest l.regions (r ∷ rs)
        → Ensures (Isolated (Filling ctx r rs r.pages)) o
        → Ensures (Isolated (Placed ctx rs)) o
    bind_last r rs (ok a) hr h k =
        IsIsolated-iff model.name (owner_of config model) (λ c s. Filling-last ctx r rs c s hr h) k
    bind_last r rs failed hr h k = tt
    bind_last r rs out_of_bounds hr h k = tt

    place_regions-IsIsolated :
        (rs : List LayoutRegion) (a : Allocation)
        → AllInRange rs
        → IsRest l.regions rs
        → all (λ r. fits r.name) rs ≡ true
        → Isolated (Placed ctx rs) a
        → Ensures (Isolated (Placed ctx [])) (place_regions model ctx rs a)
    unfolding place_regions all
    place_regions-IsIsolated [] a hr h hn k = k
    place_regions-IsIsolated (r ∷ rs) a (AllInRange.more hr hrs) h hn k =
        bind-Ensures (Isolated (Placed ctx rs)) (Isolated (Placed ctx []))
          (place_pages model ctx r 0 r.pages a) _
          (bind_last r rs (place_pages model ctx r 0 r.pages a) hr h (
            place_pages-IsIsolated r rs 0 r.pages a hr h (fits-FitsName r.name (ground (arith, hn)))
              (omega arith)
              (IsIsolated-iff model.name (owner_of config model) (Filling-first ctx r rs) k)))
          (λ b hb. place_regions-IsIsolated rs b hrs (IsRest-tail h) (ground (arith, hn)) hb)

  layout_IsRest : (rs : List LayoutRegion) → IsTiled rs → IsRest rs rs
  layout_IsRest rs h = record { once = λ s k. omega (arith, h.tiled s k); region = λ s k e. refl }

  -- The contexts below `ctx`.
  abbrev Done : ℕ → ℕ → ℕ → Type 0
  Done ctx c s = (c < ctx) × (s < num_context_pages)

  Done-first :
      {rs : List LayoutRegion} (ctx c s : ℕ) → IsTiled rs → Done ctx c s ↔ Placed ctx rs c s
  Done-first ctx c s h = (λ q. inl q, λ q. ground (arith, q, h.tiled s))

  Done-last : (ctx c s : ℕ) → Placed ctx [] c s ↔ Done (ctx + 1) c s
  unfolding holders
  Done-last ctx c s = ground arith

  place_contexts-IsIsolated :
      (ctx left : ℕ) (a : Allocation)
      → ((c : ℕ)
          → c < model.contexts
          → (l : MemoryLayout) × (resolve_layout_for_context config model c ≡ some l)
            × IsTiled l.regions)
      → ((c : ℕ) (l : MemoryLayout)
          → resolve_layout_for_context config model c ≡ some l
          → all (λ r. fits r.name) l.regions ≡ true)
      → ctx + left ≡ model.contexts
      → Isolated (Done ctx) a
      → Ensures (Isolated (Done model.contexts)) (place_contexts config model ctx left a)
  unfolding place_contexts
  place_contexts-IsIsolated ctx zero a h n e k =
      subst (λ x. Isolated (Done x) a) (omega (arith, e)) k
  place_contexts-IsIsolated ctx (suc left) a h n e k =
      let (l, found, t) = h ctx (omega (arith, e)) in
      rw (found, place_contexts)
        (bind-Ensures (Isolated (Placed ctx [])) (Isolated (Done model.contexts))
          (place_regions model ctx l.regions a) _
          (place_regions-IsIsolated ctx l found l.regions a t.ranges (layout_IsRest l.regions t)
            (n ctx l found)
            (IsIsolated-iff model.name (owner_of config model) (λ c s. Done-first ctx c s t) k))
          (λ b hb.
            place_contexts-IsIsolated (ctx + 1) left b h n (omega (arith, e))
              (IsIsolated-iff model.name (owner_of config model) (Done-last ctx) hb)))

  empty-IsIsolated : Isolated (Done 0) empty_allocation
  unfolding find_shared find?
  empty-IsIsolated = record {
    bounded = omega arith;
    below = λ c s q. ground (arith, q);
    agree = λ c s c' s' q q'. ground (arith, q);
    known = λ c s n o q e. ground (arith, q);
    origin = λ n o e f. ground (arith, f);
  }

find?-all :
    {A : Type 0} (p q : A → Bool) (xs : List A) {x : A}
    → all p xs ≡ true
    → find? q xs ≡ some x
    → p x ≡ true
unfolding find? all
find?-all p q [] e f = cc
find?-all p q (y ∷ ys) {x} e f = elim (Bool-cases (q y)) [
  | inl here ↦
      subst (λ z. p z ≡ true)
        (some_inj (subst (λ b. (if b then some y else find? q ys) ≡ some x) here f))
        (ground (arith, e))
  | inr away ↦
      find?-all p q ys (ground (arith, e))
        (subst (λ b. (if b then some y else find? q ys) ≡ some x) away f)
]

-- All names of a configuration fit the tables, as they do in the arrays of the source.
abbrev pub names_fit : MemoryConfig → Bool
names_fit config =
    all (λ m. fits m.name) config.models
    && all (λ l. all (λ r. fits r.name) l.regions) config.layouts

resolved-fits :
    (config : MemoryConfig) (model : MemoryModel) (c : ℕ) (l : MemoryLayout)
    → names_fit config ≡ true
    → resolve_layout_for_context config model c ≡ some l
    → all (λ r. fits r.name) l.regions ≡ true
unfolding resolve_layout_for_context find_layout
resolved-fits config model c l n f =
    elim (Option-cases (find_context_binding config model.name c)) [
      | inl none_bound ↦ ground (arith, f, none_bound)
      | inr (b, found) ↦
          find?-all (λ x. all (λ r. fits r.name) x.regions) _ config.layouts (ground (arith, n))
            (rw (found, resolve_layout_for_context) at f)
    ]

-- What the allocation promises for the active model.
abbrev pub Isolates : MemoryConfig → MemoryModel × Allocation → Type 0
Isolates config (model, a) =
    (c s c' s' : ℕ)
    → c < model.contexts
    → s < num_context_pages
    → c' < model.contexts
    → s' < num_context_pages
    → (a.phys_map c s ≡ a.phys_map c' s')
      ↔ (owner_of config model c s ≡ owner_of config model c' s')

-- With a configuration that `validateConfig` accepts and whose names fit the tables, an allocation
-- that succeeds gives two slots the same physical page exactly if they have the same owner: they are
-- the same slot of the same context, or the same page of shared regions of one name.
pub allocate-Isolates :
    (config : MemoryConfig)
    → validate_config config ≡ none
    → names_fit config ≡ true
    → Ensures (Isolates config) (allocate config)
unfolding allocate find_model
allocate-Isolates config accepted n =
    let v = validate_config-IsValidated config accepted in
    let fit = find?-all (λ m. fits m.name) _ config.models (ground (arith, n)) v.found in
    let in_range : (v.active.contexts == 0 || ltb max_memory_contexts v.active.contexts) ≡ false =
      ground (arith, v.some_context, v.contexts_fit) in
    rw (v.found, in_range, allocate)
      (bind-Ensures
        (IsIsolated v.active.name (owner_of config v.active)
          (λ c s. (c < v.active.contexts) × (s < num_context_pages)))
        (Isolates config) (place_contexts config v.active 0 v.active.contexts empty_allocation) _
        (place_contexts-IsIsolated config v.active (fits-FitsName v.active.name fit) 0
          v.active.contexts empty_allocation v.layouts (λ c l. resolved-fits config v.active c l n)
          (omega arith) (empty-IsIsolated config v.active (fits-FitsName v.active.name fit)))
        (λ a h c s c' s' k1 k2 k3 k4. h.agree c s c' s' (k1, k2) (k3, k4)))
