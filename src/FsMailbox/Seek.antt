-- ===== src/FsMailbox/Seek.antt =====
-- exec_seek of NEO6502_MMU_V3/rp_fs_mailbox.cpp: where a seek goes, and when it is refused.
use neo6502_mmu_v.Base.{
  ℕ, ◌+◌, ◌*◌, ◌^◌, ◌<◌, ◌≡◌, refl, ap, Option-cases, inl, inr, ◌%◌, sym, subst, ◌∙◌, arith, Bool,
  true, false, Option, none, some, List, ltb, if◌then◌else◌,
}
use neo6502_mmu_v.Ram.{Ram}
use neo6502_mmu_v.RpFs.FatFs.{FatFs}
use neo6502_mmu_v.RpFs.Storage.{Storage, is_open}
use neo6502_mmu_v.RpFs.Files.{seek_file, file_size, file_position}
use neo6502_mmu_v.Mailbox.{Mailbox}
use neo6502_mmu_v.Mailbox.Rp.{err_einval}
use neo6502_mmu_v.FsMailbox.{FsState, bump}
use neo6502_mmu_v.FsMailbox.Op.{op_seek, err_eio}
use neo6502_mmu_v.FsMailbox.Action.{
  Action, Reply, value, refused, ◌>>=◌, ◌>>◌, pure, gets, or_error, require, true_or_error_in,
  changes,
}
use neo6502_mmu_v.FsMailbox.Access.{byte_at, u16_at, read_context_block}
use neo6502_mmu_v.FsMailbox.Paths.{on_storage, store}
use neo6502_mmu_v.FsMailbox.Handles.{
  Act, position, seek_base, seek_target, little_endian, exec_seek,
}

module _ {S A B : Type 0} where
  bind_value :
      (m : Action S A) (f : A → Action S B) (s s' : S) (a : A)
      → m s ≡ (value a, s')
      → (m >>= f) s ≡ f a s'
  unfolding ◌>>=◌
  bind_value m f s s' a e =
      ap (λ (p : Reply A × S). elim p.0 [ value a ↦ f a p.1 | refused e q ↦ (refused e q, p.1) ]) e

  bind_refused :
      (m : Action S A) (f : A → Action S B) (s s' : S) (e q : ℕ)
      → m s ≡ (refused e q, s')
      → (m >>= f) s ≡ (refused e q, s')
  unfolding ◌>>=◌
  bind_refused m f s s' e q h =
      ap (λ (p : Reply A × S). elim p.0 [ value a ↦ f a p.1 | refused e q ↦ (refused e q, p.1) ]) h

  then_value :
      (m : Action S A) (k : Action S B) (s s' : S) (a : A) → m s ≡ (value a, s') → (m >> k) s ≡ k s'
  unfolding ◌>>◌
  then_value m k s s' a e =
      ap (λ (p : Reply A × S). elim p.0 [ value a ↦ k p.1 | refused e q ↦ (refused e q, p.1) ]) e

module _ {S A B : Type 0} where
  then_refused :
      (m : Action S A) (k : Action S B) (s s' : S) (e q : ℕ)
      → m s ≡ (refused e q, s')
      → (m >> k) s ≡ (refused e q, s')
  unfolding ◌>>◌
  then_refused m k s s' e q h =
      ap (λ (p : Reply A × S). elim p.0 [ value a ↦ k p.1 | refused e q ↦ (refused e q, p.1) ]) h

-- The bytes 2 to 5 of the arguments, as a 32-bit word.
abbrev pub offset_of : List ℕ → ℕ
offset_of raw =
    byte_at raw 2 + byte_at raw 3 * 2 ^ 8 + byte_at raw 4 * 2 ^ 16 + byte_at raw 5 * 2 ^ 24

-- `target` is `base` and the offset added up, the offset taken as signed.
abbrev pub IsSum : ℕ → ℕ → ℕ → Type 0
IsSum base offset target = target + (if ltb offset (2 ^ 31) then 0 else 2 ^ 32) ≡ base + offset

seek_target-some :
    (base offset t : ℕ)
    → base < 2 ^ 32
    → offset < 2 ^ 32
    → t < 2 ^ 32
    → IsSum base offset t
    → seek_target base offset ≡ some t
unfolding seek_target
seek_target-some base offset t hb ho ht e = ground (arith, hb, ho, ht, e)

seek_target-IsSum :
    (base offset t : ℕ)
    → base < 2 ^ 32
    → offset < 2 ^ 32
    → seek_target base offset ≡ some t
    → (t < 2 ^ 32) × IsSum base offset t
unfolding seek_target
seek_target-IsSum base offset t hb ho e = ground (arith, hb, ho, e)

seek_target-none :
    (base offset t : ℕ)
    → base < 2 ^ 32
    → offset < 2 ^ 32
    → seek_target base offset ≡ none
    → t < 2 ^ 32
    → ¬ IsSum base offset t
unfolding seek_target
seek_target-none base offset t hb ho e ht sum = ground (arith, hb, ho, e, ht, sum)

module _ {Disk File Folder Hidden : Type 0} (fat : FatFs Disk File Folder)
    (select : ℕ → Ram → Hidden → Ram × Hidden) where
  -- Whence the seek counts: the start, the position or the end of the file.
  pub data IsOrigin (handle : ℕ) (st : Storage Disk File Folder) (whence base : ℕ) : Type 0 where
    from_start : whence ≡ 0 → base ≡ 0 → IsOrigin handle st whence base
    from_position : whence ≡ 1 → base ≡ file_position fat handle st → IsOrigin handle st whence base
    from_end : whence ≡ 2 → base ≡ file_size fat handle st → IsOrigin handle st whence base

  IsOrigin-seek_base :
      (handle whence base : ℕ) (s : Mailbox (FsState Disk File Folder Hidden))
      → IsOrigin handle s.fs.storage whence base
      → seek_base fat select whence handle s ≡ some base
  IsOrigin-seek_base handle whence base s (IsOrigin.from_start w b) = ground (arith, w, b)
  IsOrigin-seek_base handle whence base s (IsOrigin.from_position w b) = ground (arith, w, b)
  IsOrigin-seek_base handle whence base s (IsOrigin.from_end w b) = ground (arith, w, b)

  IsOrigin-bound :
      (handle whence base : ℕ) (st : Storage Disk File Folder)
      → IsOrigin handle st whence base
      → base < 2 ^ 32
  unfolding file_position file_size
  IsOrigin-bound handle whence base st (IsOrigin.from_start w b) = ground (arith, w, b)
  IsOrigin-bound handle whence base st (IsOrigin.from_position w b) = ground (arith, w, b)
  IsOrigin-bound handle whence base st (IsOrigin.from_end w b) = ground (arith, w, b)

  -- The result of a seek that moved the file: the position it has then, which is also stored behind
  -- the arguments.
  abbrev pub report : ℕ → ℕ → ℕ → Act fat select ℕ
  report context args_ptr handle = do
    reached ← gets (position fat select handle)
    store fat select context ((args_ptr + 6) % 2 ^ 16) (little_endian reached)
    changes (bump op_seek)
    pure reached

  -- The seek up to the call of rp_fs_seek, for what the arguments and the origin come to.
  exec_seek-until :
      (context args_ptr handle base : ℕ) (raw : List ℕ)
      (s s1 : Mailbox (FsState Disk File Folder Hidden))
      → read_context_block select context args_ptr 10 s ≡ (some raw, s1)
      → is_open handle s1.fs.storage ≡ true
      → IsOrigin handle s1.fs.storage (byte_at raw 1) base
      → exec_seek fat select context args_ptr handle s
        ≡ (do
          target ←
              or_error err_einval
                (λ s. (seek_target base (u16_at raw 2 + u16_at raw 4 * 2 ^ 16), s))
          true_or_error_in (λ s. err_eio) (on_storage (seek_file fat handle target))
          report context args_ptr handle)
            s1
  unfolding exec_seek
  exec_seek-until context args_ptr handle base raw s s1 e o w =
      bind_value _ _ s s1 raw (
        ap
          (λ (p : Option (List ℕ) × Mailbox (FsState Disk File Folder Hidden)). elim p.0 [
            | none ↦ (refused err_einval 0, p.1)
            | some a ↦ (value a, p.1)
          ])
          e)
      ∙ then_value _ _ s1 s1 tt (rw (o, require) refl)
      ∙ bind_value _ _ s1 s1 base (
          ap
            (λ (b : Option ℕ).
              elim b as (λ _. Reply ℕ × Mailbox (FsState Disk File Folder Hidden)) [
                | none ↦ (refused err_einval 0, s1)
                | some a ↦ (value a, s1)
              ])
            (IsOrigin-seek_base handle (byte_at raw 1) base s1 w))

  abbrev pub with_storage :
      Storage Disk File Folder
      → Mailbox (FsState Disk File Folder Hidden)
      → Mailbox (FsState Disk File Folder Hidden)
  with_storage st s = record s { fs = record s.fs { storage = st } }

  -- How a seek by `offset` from `base` ends: at a 32-bit position that is their sum, or with an error.
  pub data IsSeek (context args_ptr handle base offset : ℕ)
      (s : Mailbox (FsState Disk File Folder Hidden))
      (o : Reply ℕ × Mailbox (FsState Disk File Folder Hidden)) : Type 0 where
    moved :
        (target : ℕ) (st : Storage Disk File Folder)
        → target < 2 ^ 32
        → IsSum base offset target
        → seek_file fat handle target s.fs.storage ≡ (true, st)
        → o ≡ report context args_ptr handle (with_storage st s)
        → IsSeek context args_ptr handle base offset s o
    not_moved :
        (target : ℕ) (st : Storage Disk File Folder)
        → target < 2 ^ 32
        → IsSum base offset target
        → seek_file fat handle target s.fs.storage ≡ (false, st)
        → o ≡ (refused err_eio 0, with_storage st s)
        → IsSeek context args_ptr handle base offset s o
    out_of_range :
        ((target : ℕ) → target < 2 ^ 32 → ¬ IsSum base offset target)
        → o ≡ (refused err_einval 0, s)
        → IsSeek context args_ptr handle base offset s o

  -- The rest of a seek.
  abbrev seek_by : ℕ → ℕ → ℕ → ℕ → ℕ → Act fat select ℕ
  seek_by context args_ptr handle base offset = do
    target ← or_error err_einval (λ s. (seek_target base offset, s))
    true_or_error_in (λ s. err_eio) (on_storage (seek_file fat handle target))
    report context args_ptr handle

  -- What rp_fs_seek answers.
  seek_answer :
      (handle target : ℕ) (s : Mailbox (FsState Disk File Folder Hidden)) (b : Bool)
      (st : Storage Disk File Folder)
      → seek_file fat handle target s.fs.storage ≡ (b, st)
      → true_or_error_in (λ s. err_eio) (on_storage (seek_file fat handle target)) s ≡ (elim b [
        | true ↦ (value tt, with_storage st s)
        | false ↦ (refused err_eio 0, with_storage st s)
      ])
  seek_answer handle target s b st e =
      ap
        (λ (p : Bool × Storage Disk File Folder).
          elim p.0 as (λ _. Reply (Unit {0}) × Mailbox (FsState Disk File Folder Hidden)) [
            | true ↦ (value tt, with_storage p.1 s)
            | false ↦ (refused err_eio 0, with_storage p.1 s)
          ])
        e

  seek_by-IsSeek :
      (context args_ptr handle base offset : ℕ) (s : Mailbox (FsState Disk File Folder Hidden))
      → base < 2 ^ 32
      → offset < 2 ^ 32
      → IsSeek context args_ptr handle base offset s (seek_by context args_ptr handle base offset s)
  seek_by-IsSeek context args_ptr handle base offset s hb ho =
      elim (Option-cases (seek_target base offset)) [
        | inl e ↦
            IsSeek.out_of_range (λ t. seek_target-none base offset t hb ho e)
              (bind_refused _ _ s s err_einval 0 (rw e refl))
        | inr (t, e) ↦
            let (small, sum) = seek_target-IsSum base offset t hb ho e in
            subst (IsSeek context args_ptr handle base offset s)
              (sym (bind_value _ _ s s t (rw e refl)))
              (answered t (seek_file fat handle t s.fs.storage).0
                (seek_file fat handle t s.fs.storage).1 small sum refl)
      ]
    where
      answered :
          (t : ℕ) (b : Bool) (st : Storage Disk File Folder)
          → t < 2 ^ 32
          → IsSum base offset t
          → seek_file fat handle t s.fs.storage ≡ (b, st)
          → IsSeek context args_ptr handle base offset s (
              (true_or_error_in (λ s. err_eio) (on_storage (seek_file fat handle t))
                  >> report context args_ptr handle)
                s)
      answered t true st small sum e =
          IsSeek.moved t st small sum e
            (then_value _ _ s (with_storage st s) tt (seek_answer handle t s true st e))
      answered t false st small sum e =
          IsSeek.not_moved t st small sum e
            (then_refused _ _ s (with_storage st s) err_eio 0 (seek_answer handle t s false st e))

  pub exec_seek-IsSeek :
      (context args_ptr handle base : ℕ) (raw : List ℕ)
      (s s1 : Mailbox (FsState Disk File Folder Hidden))
      → read_context_block select context args_ptr 10 s ≡ (some raw, s1)
      → is_open handle s1.fs.storage ≡ true
      → IsOrigin handle s1.fs.storage (byte_at raw 1) base
      → offset_of raw < 2 ^ 32
      → IsSeek context args_ptr handle base
          (offset_of raw)
          s1
          (exec_seek fat select context args_ptr handle s)
  exec_seek-IsSeek context args_ptr handle base raw s s1 e o w h =
      let words : u16_at raw 2 + u16_at raw 4 * 2 ^ 16 ≡ offset_of raw = omega arith in
      subst (IsSeek context args_ptr handle base (offset_of raw) s1)
        (sym (
          exec_seek-until context args_ptr handle base raw s s1 e o w
          ∙ ap (λ offset. seek_by context args_ptr handle base offset s1) words))
        (seek_by-IsSeek context args_ptr handle base (offset_of raw) s1
          (IsOrigin-bound handle (byte_at raw 1) base s1.fs.storage w) h)
