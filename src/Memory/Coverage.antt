-- ===== src/Memory/Coverage.antt =====
-- The checks of a layout's regions in NEO6502_MMU_V3/memory_config.cpp, told by the slots instead of by pairs of
-- regions and a table of marks.
use neo6502_mmu_v.Base.{
  ℕ, zero, suc, ◌+◌, ◌≤◌, ◌<◌, Bool, true, false, ◌&&◌, ◌||◌, some, List, [], ◌∷◌, ◌≡◌, ◌≢◌, ◌⊎◌,
  ◌↔◌, inl, inr, refl, sym, ap, ◌∙◌, arith, any, all, set, get_elem?, get_elem?-set_ne, length-set,
  replicate, length, ltb, leb, ◌==◌, if◌then◌else◌, Bool-cases,
}
use neo6502_mmu_v.Memory.Config.{num_context_pages, LayoutRegion}
use neo6502_mmu_v.Memory.Validate.{
  is_valid_region_range, regions_overlap, layout_has_overlaps, cover_pages, cover,
  layout_is_complete,
}

-- A region lies in the 16 slots of a context.
pub record IsInRange (r : LayoutRegion) : Type 0 where
  pub some_page : 0 < r.pages
  pub fits : r.start + r.pages ≤ num_context_pages

pub is_valid_region_range_iff : (r : LayoutRegion) → (is_valid_region_range r ≡ true) ↔ IsInRange r
unfolding is_valid_region_range
is_valid_region_range_iff r = ground arith

pub data AllInRange : List LayoutRegion → Type 0 where
  empty : AllInRange []
  more :
      {r : LayoutRegion} {rs : List LayoutRegion}
      → IsInRange r
      → AllInRange rs
      → AllInRange (r ∷ rs)

abbrev pub holds_slot : LayoutRegion → ℕ → Bool
holds_slot r slot = leb r.start slot && ltb slot (r.start + r.pages)

-- The number of regions that hold a slot.
unfoldable pub holders : List LayoutRegion → ℕ → ℕ
holders [] slot = 0
holders (r ∷ rs) slot = if holds_slot r slot then suc (holders rs slot) else holders rs slot

or_false : (a b : Bool) → (a || b) ≡ false → (a ≡ false) × (b ≡ false)
or_false true b e = ground (arith, e)
or_false false b e = (refl, e)

and_true : (a b : Bool) → (a && b) ≡ true → (a ≡ true) × (b ≡ true)
and_true true b e = (refl, e)
and_true false b e = ground (arith, e)

disjoint_slot :
    (a b : LayoutRegion) (slot : ℕ)
    → IsInRange a
    → IsInRange b
    → regions_overlap a b ≡ false
    → holds_slot a slot ≡ true
    → holds_slot b slot ≡ false
unfolding regions_overlap
disjoint_slot a b slot ha hb e h = ground (arith, ha.fits, hb.fits, e, h)

disjoint_rest :
    (a : LayoutRegion) (rs : List LayoutRegion) (slot : ℕ)
    → IsInRange a
    → AllInRange rs
    → any (regions_overlap a) rs ≡ false
    → holds_slot a slot ≡ true
    → holders rs slot ≡ 0
unfolding any holders
disjoint_rest a [] slot ha hs e h = refl
disjoint_rest a (r ∷ rs) slot ha (AllInRange.more hr hs) e h =
    let (no_r, no_rs) = or_false (regions_overlap a r) (any (regions_overlap a) rs) e in
    rw (disjoint_slot a r slot ha hr no_r h) (disjoint_rest a rs slot ha hs no_rs h)

-- Regions without overlaps share no slot.
pub holders-bounded :
    (rs : List LayoutRegion) (slot : ℕ)
    → AllInRange rs
    → layout_has_overlaps rs ≡ false
    → holders rs slot ≤ 1
unfolding layout_has_overlaps holders
holders-bounded [] slot hs e = omega arith
holders-bounded (r ∷ rs) slot (AllInRange.more hr hs) e =
    let (no_r, no_rs) = or_false (any (regions_overlap r) rs) (layout_has_overlaps rs) e in
    elim (Bool-cases (holds_slot r slot)) [
      | inl h ↦ rw h (omega (arith, disjoint_rest r rs slot hr hs no_r h))
      | inr h ↦ rw h (holders-bounded rs slot hs no_rs)
    ]

cover_pages-marks :
    (covered : List Bool) (start p left slot : ℕ)
    → get_elem? (cover_pages covered start p left) slot ≡ some true
    → (get_elem? covered slot ≡ some true) ⊎ ((start + p ≤ slot) × (slot < start + p + left))
unfolding cover_pages
cover_pages-marks covered start p zero slot e = inl e
cover_pages-marks covered start p (suc left) slot e =
    elim (cover_pages-marks (set covered (start + p) true) start (p + 1) left slot e) [
      | inl marked ↦ elim (Bool-cases (start + p == slot)) [
        | inl here ↦ inr (ground (arith, here))
        | inr away ↦ inl (
            sym (get_elem?-set_ne covered (start + p) slot true (λ q. ground (arith, q, away)))
            ∙ marked)
      ]
      | inr (low, high) ↦ inr (omega (arith, low, high))
    ]

cover-marks :
    (covered : List Bool) (rs : List LayoutRegion) (slot : ℕ)
    → get_elem? (cover covered rs) slot ≡ some true
    → (get_elem? covered slot ≡ some true) ⊎ (0 < holders rs slot)
unfolding cover holders
cover-marks covered [] slot e = inl e
cover-marks covered (r ∷ rs) slot e =
    elim (cover-marks (cover_pages covered r.start 0 r.pages) rs slot e) [
      | inl marked ↦ elim (cover_pages-marks covered r.start 0 r.pages slot marked) [
        | inl before ↦ inl before
        | inr (low, high) ↦ inr (ground (arith, low, high))
      ]
      | inr held ↦ inr (ground (arith, held))
    ]

length-cover_pages :
    (covered : List Bool) (start p left : ℕ)
    → length (cover_pages covered start p left) ≡ length covered
unfolding cover_pages
length-cover_pages covered start p zero = refl
length-cover_pages covered start p (suc left) =
    length-cover_pages (set covered (start + p) true) start (p + 1) left
    ∙ length-set covered (start + p) true

length-cover :
    (covered : List Bool) (rs : List LayoutRegion) → length (cover covered rs) ≡ length covered
unfolding cover
length-cover covered [] = refl
length-cover covered (r ∷ rs) =
    length-cover (cover_pages covered r.start 0 r.pages) rs
    ∙ length-cover_pages covered r.start 0 r.pages

all_set :
    (bs : List Bool) (slot : ℕ)
    → all (λ b. b) bs ≡ true
    → slot < length bs
    → get_elem? bs slot ≡ some true
unfolding all
all_set [] slot e h = ground (arith, h)
all_set (b ∷ bs) zero e h = ap some (and_true b (all (λ b. b) bs) e).0
all_set (b ∷ bs) (suc slot) e h =
    all_set bs slot (and_true b (all (λ b. b) bs) e).1 (omega (arith, h))

unset : (n slot : ℕ) → get_elem? (replicate n false) slot ≢ some true
unset zero slot e = ground (arith, e)
unset (suc n) zero e = ground (arith, e)
unset (suc n) (suc slot) e = unset n slot e

-- A complete table of marks means that a region holds each slot.
pub holders-positive :
    (rs : List LayoutRegion) (slot : ℕ)
    → slot < num_context_pages
    → layout_is_complete rs ≡ true
    → 0 < holders rs slot
unfolding layout_is_complete
holders-positive rs slot h e =
    elim (cover-marks (replicate num_context_pages false) rs slot (
      all_set (cover (replicate num_context_pages false) rs) slot e
        (omega (arith, h, length-cover (replicate num_context_pages false) rs)))) [
          | inl marked ↦ absurd (unset num_context_pages slot marked)
          | inr held ↦ held
        ]
