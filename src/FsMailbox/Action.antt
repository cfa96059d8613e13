-- ===== src/FsMailbox/Action.antt =====
-- How an operation of NEO6502_MMU_V3/rp_fs_mailbox.cpp runs: it goes on with a value or ends the request
-- with an error, and its changes of the state stay.
use neo6502_mmu_v.Base.{ℕ, Bool, true, false, Option, none, some}

pub data Reply (A : Type 0) : Type 0 where
  value : A → Reply A
  refused : ℕ → ℕ → Reply A

abbrev pub Action : Type 0 → Type 0 → Type 0
Action S A = S → Reply A × S

infixl 5 ◌>>=◌ ◌>>◌
unfoldable pub ◌>>=◌ : {S A B : Type 0} → Action S A → (A → Action S B) → Action S B
◌>>=◌ m f s = let (r, s') = m s in elim r [ value a ↦ f a s' | refused e p ↦ (refused e p, s') ]

unfoldable pub ◌>>◌ : {S A B : Type 0} → Action S A → Action S B → Action S B
◌>>◌ m k s = let (r, s') = m s in elim r [ value a ↦ k s' | refused e p ↦ (refused e p, s') ]

module _ {S A : Type 0} where
  abbrev pub pure : A → Action S A
  pure a s = (value a, s)

  -- A value that the state gives.
  abbrev pub gets : (S → A) → Action S A
  gets f s = (value (f s), s)

  -- A call that answers with a value and cannot refuse.
  abbrev pub calls : (S → A × S) → Action S A
  calls f s = let (a, s') = f s in (value a, s')

  -- A call whose `none` ends the request with the error.
  abbrev pub or_error : ℕ → (S → Option A × S) → Action S A
  or_error e f s = let (o, s') = f s in elim o [ none ↦ (refused e 0, s') | some a ↦ (value a, s') ]

  -- Where the error depends on the state that the call left.
  abbrev pub or_error_in : (S → ℕ) → (S → Option A × S) → Action S A
  or_error_in e f s =
      let (o, s') = f s in elim o [ none ↦ (refused (e s') 0, s') | some a ↦ (value a, s') ]

module _ {S : Type 0} where
  -- The test must hold.
  abbrev pub require : ℕ → (S → Bool) → Action S (Unit {0})
  require e f s = elim (f s) [ true ↦ (value tt, s) | false ↦ (refused e 0, s) ]

  -- A call whose `false` ends the request with the error.
  abbrev pub true_or_error_in : (S → ℕ) → (S → Bool × S) → Action S (Unit {0})
  true_or_error_in e f s =
      let (b, s') = f s in elim b [ true ↦ (value tt, s') | false ↦ (refused (e s') 0, s') ]

  abbrev pub changes : (S → S) → Action S (Unit {0})
  changes f s = (value tt, f s)
