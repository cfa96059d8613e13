-- ===== src/Memory/Bounds.antt =====
-- configureMMUFromActiveModel of NEO6502_MMU_V3/memory_config.cpp on a validated configuration: the bounds of
-- `phys_map[16][16]` and the tables that are written.
use neo6502_mmu_v.Base.{
  ℕ, zero, suc, ◌+◌, ◌*◌, ◌%◌, ◌^◌, ◌≤◌, ◌<◌, Bool, true, false, ◌||◌, none, List, [], ◌∷◌, ◌≡◌,
  ◌≢◌, refl, sym, ap, subst, arith, length, get_elem?, ltb, ◌==◌,
}
use neo6502_mmu_v.Memory.Config.{
  max_memory_contexts, num_context_pages, MemoryModel, LayoutRegion, MemoryConfig,
}
use neo6502_mmu_v.Memory.Allocate.{
  Allocation, Outcome, ok, failed, out_of_bounds, ◌>>=◌, take_page, store_page, place_pages,
  place_regions, place_contexts, PageWrite, write_contexts, empty_allocation, allocate,
  write_tables, configure_mmu,
}
use neo6502_mmu_v.Memory.Coverage.{AllInRange}
use neo6502_mmu_v.Memory.Checked.{IsValidated, validate_config-IsValidated}
use neo6502_mmu_v.Memory.Validate.{validate_config}
use neo6502_mmu_v.Memory.Written.{IsWritten, write_contexts-whole, write_contexts-IsWritten}

-- The write that C++ leaves undefined does not happen.
abbrev pub IsDefined {ℓ} : {A : Type ℓ} → Outcome A → Type ℓ
IsDefined o = o ≢ out_of_bounds

is_ok {ℓ} : {A : Type ℓ} → Outcome A → Bool
is_ok (ok _) = true
is_ok failed = true
is_ok out_of_bounds = false

ok-IsDefined {ℓ} : {A : Type ℓ} (x : A) → IsDefined (ok x)
unfolding is_ok
ok-IsDefined x e = ground (arith, ap is_ok e)

failed-IsDefined {ℓ} : {A : Type ℓ} → IsDefined {A = A} failed
unfolding is_ok
failed-IsDefined e = ground (arith, ap is_ok e)

bind-IsDefined {ℓ κ} :
    {A : Type ℓ} {B : Type κ} (o : Outcome A) (f : A → Outcome B)
    → IsDefined o
    → ((x : A) → IsDefined (f x))
    → IsDefined (o >>= f)
bind-IsDefined (ok x) f h k = k x
bind-IsDefined failed f h k = failed-IsDefined
bind-IsDefined out_of_bounds f h k = absurd (h refl)

take_page-IsDefined :
    (model : MemoryModel) (region : LayoutRegion) (p : ℕ) (a : Allocation)
    → IsDefined (take_page model region p a)
unfolding take_page
take_page-IsDefined model region p a = ground arith

store_page-IsDefined :
    (ctx logical phys : ℕ) (a : Allocation)
    → ctx < max_memory_contexts
    → logical < num_context_pages
    → IsDefined (store_page ctx logical phys a)
unfolding store_page
store_page-IsDefined ctx logical phys a h k = ground (arith, h, k)

place_pages-IsDefined :
    (model : MemoryModel) (ctx : ℕ) (region : LayoutRegion) (p left : ℕ) (a : Allocation)
    → ctx < max_memory_contexts
    → region.start + p + left ≤ num_context_pages
    → IsDefined (place_pages model ctx region p left a)
unfolding place_pages
place_pages-IsDefined model ctx region p zero a h k = ok-IsDefined a
place_pages-IsDefined model ctx region p (suc left) a h k =
    bind-IsDefined (take_page model region p a) _ (take_page-IsDefined model region p a) (λ x.
      bind-IsDefined (store_page ctx ((region.start + p) % 2 ^ 8) x.0 x.1) _
        (store_page-IsDefined ctx ((region.start + p) % 2 ^ 8) x.0 x.1 h (omega (arith, k)))
        (λ c. place_pages-IsDefined model ctx region (p + 1) left c h (omega (arith, k))))

place_regions-IsDefined :
    (model : MemoryModel) (ctx : ℕ) (rs : List LayoutRegion) (a : Allocation)
    → ctx < max_memory_contexts
    → AllInRange rs
    → IsDefined (place_regions model ctx rs a)
unfolding place_regions
place_regions-IsDefined model ctx [] a h k = ok-IsDefined a
place_regions-IsDefined model ctx (r ∷ rs) a h (AllInRange.more kr ks) =
    bind-IsDefined (place_pages model ctx r 0 r.pages a) _
      (place_pages-IsDefined model ctx r 0 r.pages a h (omega (arith, kr.fits)))
      (λ b. place_regions-IsDefined model ctx rs b h ks)

-- The contexts from `ctx` on have layouts in range.
place_contexts-IsDefined :
    (config : MemoryConfig) (v : IsValidated config) (ctx left : ℕ) (a : Allocation)
    → ctx + left ≡ v.active.contexts
    → IsDefined (place_contexts config v.active ctx left a)
unfolding place_contexts
place_contexts-IsDefined config v ctx zero a h = ok-IsDefined a
place_contexts-IsDefined config v ctx (suc left) a h =
    let (l, found, tiled) = v.layouts ctx (omega (arith, h)) in
    rw (found, place_contexts)
      (bind-IsDefined (place_regions v.active ctx l.regions a) _
        (place_regions-IsDefined v.active ctx l.regions a (omega (arith, h, v.contexts_fit))
          tiled.ranges)
        (λ b. place_contexts-IsDefined config v (ctx + 1) left b (omega (arith, h))))

allocate_active :
    (config : MemoryConfig) (v : IsValidated config)
    → allocate config ≡ (
        place_contexts config v.active 0 v.active.contexts empty_allocation >>= λ a.
        ok (v.active, a))
unfolding allocate
allocate_active config v =
    let fits : (v.active.contexts == 0 || ltb max_memory_contexts v.active.contexts) ≡ false =
      ground (arith, v.some_context, v.contexts_fit) in
    rw (v.found, fits, allocate) refl

-- No page is left and nothing is written, or the page tables of all contexts of the active model in full: 16 writes for
-- each context, in order, and each slot gets the page that it was given.
pub data IsAllOrNothing (config : MemoryConfig) (o : Outcome (List PageWrite × Bool)) : Type 0 where
  nothing : allocate config ≡ failed → o ≡ ok ([], false) → IsAllOrNothing config o
  all_tables :
      (model : MemoryModel) (a : Allocation) (writes : List PageWrite)
      → allocate config ≡ ok (model, a)
      → o ≡ ok (writes, true)
      → length writes ≡ num_context_pages * model.contexts
      → ((ctx slot : ℕ)
          → ctx < model.contexts
          → slot < num_context_pages
          → IsWritten config model a.phys_map ctx slot
              (get_elem? writes (num_context_pages * ctx + slot)))
      → IsAllOrNothing config o

write_tables-IsAllOrNothing :
    (config : MemoryConfig) (v : IsValidated config) (o : Outcome Allocation)
    → IsDefined o
    → allocate config ≡ (o >>= λ a. ok (v.active, a))
    → IsAllOrNothing config (write_tables config (o >>= λ a. ok (v.active, a)))
unfolding write_tables
write_tables-IsAllOrNothing config v (ok a) h given =
    let (whole, n) = write_contexts-whole config v a.phys_map 0 v.active.contexts (omega arith) in
    IsAllOrNothing.all_tables v.active a
      (write_contexts config v.active a.phys_map 0 v.active.contexts).0 given
      (ap (λ b. ok ((write_contexts config v.active a.phys_map 0 v.active.contexts).0, b)) whole) n
      (λ ctx slot k small.
        write_contexts-IsWritten config v a.phys_map 0 v.active.contexts ctx ctx slot
          (num_context_pages * ctx + slot) (omega arith) k (omega arith) small refl)
write_tables-IsAllOrNothing config v failed h given = IsAllOrNothing.nothing given refl
write_tables-IsAllOrNothing config v out_of_bounds h given = absurd (h refl)

-- With a configuration that `validateConfig` accepts, configureMMUFromActiveModel never writes
-- outside `phys_map`: if the allocation of the physical pages fails, it returns false and has written no page
-- table; else it returns true and has
-- written, context by context and slot by slot, for each of the 16 slots of each context of the active
-- model the page that `phys_map` gives it, flagged as the region that holds the slot says.
pub configure_mmu-IsAllOrNothing :
    (config : MemoryConfig)
    → validate_config config ≡ none
    → IsAllOrNothing config (configure_mmu config)
unfolding configure_mmu
configure_mmu-IsAllOrNothing config e =
    let v = validate_config-IsValidated config e in
    let given = allocate_active config v in
    subst (λ o. IsAllOrNothing config (write_tables config o)) (sym given)
      (write_tables-IsAllOrNothing config v
        (place_contexts config v.active 0 v.active.contexts empty_allocation)
        (place_contexts-IsDefined config v 0 v.active.contexts empty_allocation (omega arith))
        given)
