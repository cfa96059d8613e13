-- ===== src/FsMailbox/Proper.antt =====
-- How the operations of NEO6502_MMU_V3/rp_fs_mailbox.cpp end: with the MMU's context as it was, and with
-- an error code where they refuse.
use neo6502_mmu_v.Base.{
  ℕ, ◌<◌, ◌≡◌, refl, ◌∙◌, arith, Bool, true, false, Option, none, some, List, if◌then◌else◌,
}
use neo6502_mmu_v.Ram.{Ram}
use neo6502_mmu_v.Mailbox.{Mailbox}
use neo6502_mmu_v.FsMailbox.{FsState, bump}
use neo6502_mmu_v.FsMailbox.Action.{
  Reply, value, refused, Action, ◌>>=◌, ◌>>◌, pure, gets, calls, or_error, or_error_in, require,
  true_or_error_in, changes,
}
use neo6502_mmu_v.FsMailbox.Access.{
  set_mmu_context, begin_access, end_access, read_context_block, write_context_block,
  read_context_path,
}

module _ {Disk File Folder Hidden : Type 0} where
  -- A reply, with the context `c` in force.
  abbrev pub Ended : {A : Type 0} → ℕ → Reply A × Mailbox (FsState Disk File Folder Hidden) → Type 0
  Ended c (value a, s) = s.fs.context ≡ c
  Ended c (refused e p, s) = (s.fs.context ≡ c) × (0 < e) × (e < 8)

  -- A step that keeps the context and refuses with an error code only.
  pub record IsProper {A : Type 0} (m : Action (Mailbox (FsState Disk File Folder Hidden)) A)
      : Type 0 where
    pub ends : (s : Mailbox (FsState Disk File Folder Hidden)) → Ended s.fs.context (m s)

  -- A call that keeps the context.
  abbrev pub Keeps :
      {A : Type 0}
      → (Mailbox (FsState Disk File Folder Hidden) → A × Mailbox (FsState Disk File Folder Hidden))
      → Type 0
  Keeps f = (s : Mailbox (FsState Disk File Folder Hidden)) → (f s).1.fs.context ≡ s.fs.context

  module _ {A : Type 0} where
    Ended-by :
        {c d : ℕ} (r : Reply A × Mailbox (FsState Disk File Folder Hidden))
        → d ≡ c
        → Ended d r
        → Ended c r
    Ended-by (value a, s) e h = h ∙ e
    Ended-by (refused x p, s) e (h, low, high) = (h ∙ e, low, high)

    option_Ended :
        {c : ℕ} (e : ℕ) (r : Option A × Mailbox (FsState Disk File Folder Hidden))
        → 0 < e
        → e < 8
        → r.1.fs.context ≡ c
        → Ended {A = A} c (elim r.0 [ none ↦ (refused e 0, r.1) | some a ↦ (value a, r.1) ])
    option_Ended e (none, s) low high k = (k, low, high)
    option_Ended e (some a, s) low high k = k

    pub or_error-IsProper :
        (e : ℕ)
        (f : Mailbox (FsState Disk File Folder Hidden)
          → Option A × Mailbox (FsState Disk File Folder Hidden))
        → 0 < e
        → e < 8
        → Keeps f
        → IsProper (or_error e f)
    or_error-IsProper e f low high k = record { ends = λ s. option_Ended e (f s) low high (k s) }

    pub or_error_in-IsProper :
        (e : Mailbox (FsState Disk File Folder Hidden) → ℕ)
        (f : Mailbox (FsState Disk File Folder Hidden)
          → Option A × Mailbox (FsState Disk File Folder Hidden))
        → ((s : Mailbox (FsState Disk File Folder Hidden)) → (0 < e s) × (e s < 8))
        → Keeps f
        → IsProper (or_error_in e f)
    or_error_in-IsProper e f code k = record {
      ends = λ s. option_Ended (e (f s).1) (f s) (code (f s).1).0 (code (f s).1).1 (k s);
    }

    pub pure-IsProper : (a : A) → IsProper (pure a)
    pure-IsProper a = record { ends = λ s. refl }

    pub gets-IsProper : (f : Mailbox (FsState Disk File Folder Hidden) → A) → IsProper (gets f)
    gets-IsProper f = record { ends = λ s. refl }

    pub calls-IsProper :
        (f : Mailbox (FsState Disk File Folder Hidden)
          → A × Mailbox (FsState Disk File Folder Hidden))
        → Keeps f
        → IsProper (calls f)
    calls-IsProper f k = record { ends = k }

    pub if-IsProper :
        (b : Bool) (m n : Action (Mailbox (FsState Disk File Folder Hidden)) A)
        → IsProper m
        → IsProper n
        → IsProper (if b then m else n)
    if-IsProper true m n h k = h
    if-IsProper false m n h k = k

  bind_Ended :
      {A B : Type 0} (c : ℕ) (r : Reply A × Mailbox (FsState Disk File Folder Hidden))
      (f : A → Action (Mailbox (FsState Disk File Folder Hidden)) B)
      → Ended c r
      → ((a : A) (t : Mailbox (FsState Disk File Folder Hidden)) → Ended t.fs.context (f a t))
      → Ended {A = B} c (elim r.0 [ value a ↦ f a r.1 | refused e p ↦ (refused e p, r.1) ])
  bind_Ended c (value a, s) f h hf = Ended-by (f a s) h (hf a s)
  bind_Ended c (refused e p, s) f h hf = h

  pub bind-IsProper :
      {A B : Type 0} (m : Action (Mailbox (FsState Disk File Folder Hidden)) A)
      (f : A → Action (Mailbox (FsState Disk File Folder Hidden)) B)
      → IsProper m
      → ((a : A) → IsProper (f a))
      → IsProper (m >>= f)
  unfolding ◌>>=◌
  bind-IsProper m f hm hf = record {
    ends = λ s. bind_Ended s.fs.context (m s) f (hm.ends s) (λ a. (hf a).ends);
  }

  pub then-IsProper :
      {A B : Type 0} (m : Action (Mailbox (FsState Disk File Folder Hidden)) A)
      (k : Action (Mailbox (FsState Disk File Folder Hidden)) B)
      → IsProper m
      → IsProper k
      → IsProper (m >> k)
  unfolding ◌>>◌
  then-IsProper m k hm hk = record {
    ends = λ s. bind_Ended s.fs.context (m s) (λ a. k) (hm.ends s) (λ a. hk.ends);
  }

  bool_Ended :
      {c : ℕ} (e : ℕ) (b : Bool) (s : Mailbox (FsState Disk File Folder Hidden))
      → 0 < e
      → e < 8
      → s.fs.context ≡ c
      → Ended {A = Unit} c (elim b [ true ↦ (value tt, s) | false ↦ (refused e 0, s) ])
  bool_Ended e true s low high k = k
  bool_Ended e false s low high k = (k, low, high)

  pub require-IsProper :
      (e : ℕ) (f : Mailbox (FsState Disk File Folder Hidden) → Bool)
      → 0 < e
      → e < 8
      → IsProper (require e f)
  require-IsProper e f low high = record { ends = λ s. bool_Ended e (f s) s low high refl }

  pub true_or_error_in-IsProper :
      (e : Mailbox (FsState Disk File Folder Hidden) → ℕ)
      (f : Mailbox (FsState Disk File Folder Hidden)
        → Bool × Mailbox (FsState Disk File Folder Hidden))
      → ((s : Mailbox (FsState Disk File Folder Hidden)) → (0 < e s) × (e s < 8))
      → Keeps f
      → IsProper (true_or_error_in e f)
  true_or_error_in-IsProper e f code k = record {
    ends = λ s. bool_Ended (e (f s).1) (f s).0 (f s).1 (code (f s).1).0 (code (f s).1).1 (k s);
  }

  pub bump-IsProper : (operation : ℕ) → IsProper (changes (bump operation))
  bump-IsProper operation = record { ends = λ s. refl }

module _ {Disk File Folder Hidden : Type 0} (select : ℕ → Ram → Hidden → Ram × Hidden) where
  -- Whatever happens between `begin` and `end`, the context comes back.
  pub end_access-context :
      (saved : ℕ) (s : Mailbox (FsState Disk File Folder Hidden))
      → (end_access select saved s).fs.context ≡ saved
  unfolding end_access set_mmu_context
  end_access-context saved s = ground arith

  pub read_context_block-Keeps :
      (context address len : ℕ) (s : Mailbox (FsState Disk File Folder Hidden))
      → (read_context_block select context address len s).1.fs.context ≡ s.fs.context
  unfolding read_context_block begin_access end_access set_mmu_context
  read_context_block-Keeps context address len s = ground arith

  pub write_context_block-Keeps :
      (context address : ℕ) (src : List ℕ) (s : Mailbox (FsState Disk File Folder Hidden))
      → (write_context_block select context address src s).1.fs.context ≡ s.fs.context
  unfolding write_context_block begin_access end_access set_mmu_context
  write_context_block-Keeps context address src s = ground arith

  pub read_context_path-Keeps :
      (context address max_len dst_len : ℕ) (s : Mailbox (FsState Disk File Folder Hidden))
      → (read_context_path select context address max_len dst_len s).1.fs.context ≡ s.fs.context
  unfolding read_context_path begin_access end_access set_mmu_context
  read_context_path-Keeps context address max_len dst_len s = ground arith
