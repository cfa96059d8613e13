-- ===== src/Memory/Filling.antt =====
-- The loops of configureMMUFromActiveModel in NEO6502_MMU_V3/memory_config.cpp: the slots that have
-- their page already.
use neo6502_mmu_v.Base.{
  take, ℕ, zero, suc, ◌+◌, ◌≤◌, ◌<◌, true, false, List, [], ◌∷◌, ◌≡◌, ◌↔◌, ◌⊎◌, refl, ap, ◌∙◌,
  arith, find?, length,
}
use neo6502_mmu_v.Memory.Config.{max_memory_name, num_context_pages, LayoutRegion}
use neo6502_mmu_v.Memory.Allocate.{Outcome, ok, failed, out_of_bounds, ◌>>=◌, region_of_slot}
use neo6502_mmu_v.Memory.Pages.{Ensures}
use neo6502_mmu_v.Memory.Sharing.{FitsName, Also}
use neo6502_mmu_v.Memory.Coverage.{IsInRange, holds_slot, holders}
use neo6502_mmu_v.Memory.Owner.{fits}

-- The rest of a layout that has no overlaps: the region of a slot of it is the layout's.
pub record IsRest (regions rs : List LayoutRegion) : Type 0 where
  pub once : (s : ℕ) → s < num_context_pages → holders rs s ≤ 1
  pub region :
      (s : ℕ)
      → s < num_context_pages
      → 0 < holders rs s
      → region_of_slot regions s ≡ region_of_slot rs s

pub IsRest-tail :
    {regions rs : List LayoutRegion} {r : LayoutRegion}
    → IsRest regions (r ∷ rs)
    → IsRest regions rs
unfolding holders region_of_slot find?
IsRest-tail {regions} {rs} {r} h = record {
  once = λ s k. ground (arith, h.once s k);
  region = λ s k e.
      (let away : holds_slot r s ≡ false = ground (arith, h.once s k, e) in
        h.region s k (ground (arith, e)) ∙ rw away refl);
}

-- The slots that have their page when the regions `rs` of the context `ctx` are left, and with `p`
-- pages of `r` more.
abbrev pub Placed : ℕ → List LayoutRegion → ℕ → ℕ → Type 0
Placed ctx rs c s =
    ((c < ctx) × (s < num_context_pages))
    ⊎ ((c ≡ ctx) × (s < num_context_pages) × (holders rs s ≡ 0))

abbrev pub Filling : ℕ → LayoutRegion → List LayoutRegion → ℕ → ℕ → ℕ → Type 0
Filling ctx r rs p c s = Placed ctx (r ∷ rs) c s ⊎ ((c ≡ ctx) × (r.start ≤ s) × (s < r.start + p))

pub Filling-next :
    (ctx : ℕ) (r : LayoutRegion) (rs : List LayoutRegion) (p slot c s : ℕ)
    → slot ≡ r.start + p
    → Also (Filling ctx r rs p) ctx slot c s ↔ Filling ctx r rs (p + 1) c s
Filling-next ctx r rs p slot c s e = ground (arith, e)

pub Filling-first :
    (ctx : ℕ) (r : LayoutRegion) (rs : List LayoutRegion) (c s : ℕ)
    → Placed ctx (r ∷ rs) c s ↔ Filling ctx r rs 0 c s
Filling-first ctx r rs c s = ground arith

pub Filling-fresh :
    {regions : List LayoutRegion} (ctx : ℕ) (r : LayoutRegion) (rs : List LayoutRegion) (p slot : ℕ)
    → IsRest regions (r ∷ rs)
    → slot ≡ r.start + p
    → r.start + p < num_context_pages
    → holds_slot r (r.start + p) ≡ true
    → ¬ Filling ctx r rs p ctx slot
unfolding holders
Filling-fresh ctx r rs p slot h e small here q = ground (arith, q, e, here, small)

pub Filling-last :
    {regions : List LayoutRegion} (ctx : ℕ) (r : LayoutRegion) (rs : List LayoutRegion) (c s : ℕ)
    → IsInRange r
    → IsRest regions (r ∷ rs)
    → Filling ctx r rs r.pages c s ↔ Placed ctx rs c s
unfolding holders
Filling-last ctx r rs c s hr h =
    (λ q. ground (arith, q, hr.fits, h.once s), λ q. ground (arith, q, hr.fits, h.once s))

pub take-whole : (n : ℕ) (xs : List ℕ) → length xs ≤ n → take n xs ≡ xs
take-whole zero [] h = refl
take-whole zero (x ∷ xs) h = ground (arith, h)
take-whole (suc n) [] h = refl
take-whole (suc n) (x ∷ xs) h = ap (x ∷◌) (take-whole n xs (omega (arith, h)))

pub fits-FitsName : (name : List ℕ) → fits name ≡ true → FitsName name
fits-FitsName name e = take-whole max_memory_name name (ground (arith, e))

-- Two steps before a third.
pub bind_assoc :
    {A B C : Type 0} (Q : C → Type 0) (o : Outcome A) (f : A → Outcome B) (g : B → Outcome C)
    → Ensures Q (o >>= f >>= g)
    → Ensures Q (o >>= (λ x. f x >>= g))
bind_assoc Q (ok x) f g h = h
bind_assoc Q failed f g h = h
bind_assoc Q out_of_bounds f g h = h
