-- ===== src/FsMailbox/BulkEnding.antt =====
-- fs.load and fs.save of NEO6502_MMU_V3/rp_fs_mailbox.cpp, by how they end, and the rounds of their loops.
use neo6502_mmu_v.Base.{
  ℕ, zero, suc, ◌+◌, ◌-◌, ◌%◌, ◌^◌, ◌≤◌, ◌≡◌, refl, arith, inl, inr, true, not, ◌||◌, Option, none,
  some, length, leb, ◌==◌, Bool-cases, Option-cases, subst,
}
use neo6502_mmu_v.Ram.{Ram}
use neo6502_mmu_v.RpFs.FatFs.{FatFs}
use neo6502_mmu_v.RpFs.Files.{close, read_file, write_file}
use neo6502_mmu_v.Mailbox.{Mailbox}
use neo6502_mmu_v.FsMailbox.{FsState}
use neo6502_mmu_v.FsMailbox.Access.{valid_64k_range, begin_access, end_access, read_context_bytes}
use neo6502_mmu_v.FsMailbox.Bulk.{
  chunk_of, Progress, load_loop, save_loop, transfer_file, close_transfer, in_context, exec_bulk,
}
use neo6502_mmu_v.FsMailbox.Proper.{
  Ended, IsProper, bind-IsProper, then-IsProper, gets-IsProper, end_access-context,
}
use neo6502_mmu_v.FsMailbox.Ending.{valid, present, arguments-IsProper, resolved-IsProper}

module _ {Disk File Folder Hidden : Type 0} (fat : FatFs Disk File Folder)
    (select : ℕ → Ram → Hidden → Ram × Hidden) where
  load_loop-context :
      (fuel handle mem_ptr size total : ℕ) (s : Mailbox (FsState Disk File Folder Hidden))
      → (load_loop fat select fuel handle mem_ptr size total s).1.fs.context ≡ s.fs.context
  unfolding load_loop
  load_loop-context zero handle mem_ptr size total s = refl
  load_loop-context (suc fuel) handle mem_ptr size total s = elim (Bool-cases (leb size total)) [
    | inl e ↦ rw (e, load_loop) refl
    | inr e ↦ elim (Option-cases (read_file fat handle (chunk_of (size - total)) s.fs.storage).0) [
      | inl n ↦ rw (e, n, load_loop) refl
      | inr (bs, f) ↦ elim (Bool-cases (length bs == 0)) [
        | inl z ↦ rw (e, f, z, load_loop) refl
        | inr z ↦
            rw (e, f, z, load_loop)
              (load_loop-context fuel handle mem_ptr size (total + length bs) _)
      ]
    ]
  ]

  save_loop-context :
      (fuel handle mem_ptr size total : ℕ) (s : Mailbox (FsState Disk File Folder Hidden))
      → (save_loop fat select fuel handle mem_ptr size total s).1.fs.context ≡ s.fs.context
  unfolding save_loop
  save_loop-context zero handle mem_ptr size total s = refl
  save_loop-context (suc fuel) handle mem_ptr size total s =
      let bytes = read_context_bytes s.ram ((mem_ptr + total) % 2 ^ 16) (chunk_of (size - total)) in
      elim (Bool-cases (leb size total)) [
        | inl e ↦ rw (e, save_loop) refl
        | inr e ↦ elim (Option-cases (write_file fat handle bytes s.fs.storage).0) [
          | inl n ↦ rw (e, n, save_loop) refl
          | inr (k, f) ↦ elim (Bool-cases (k == chunk_of (size - total))) [
            | inl z ↦
                rw (e, f, z, save_loop) (save_loop-context fuel handle mem_ptr size (total + k) _)
            | inr z ↦ rw (e, f, z, save_loop) refl
          ]
        ]
      ]

  -- The rounds that the loop has are enough: more change nothing.
  pub load_loop_lem :
      (fuel more handle mem_ptr size total : ℕ) (s : Mailbox (FsState Disk File Folder Hidden))
      → size ≤ total + fuel
      → size ≤ total + more
      → load_loop fat select fuel handle mem_ptr size total s
        ≡ load_loop fat select more handle mem_ptr size total s
  unfolding load_loop
  load_loop_lem zero zero handle mem_ptr size total s h k = refl
  load_loop_lem zero (suc more) handle mem_ptr size total s h k =
      let e : leb size total ≡ true = ground (arith, h) in rw (e, load_loop) refl
  load_loop_lem (suc fuel) zero handle mem_ptr size total s h k =
      let e : leb size total ≡ true = ground (arith, k) in rw (e, load_loop) refl
  load_loop_lem (suc fuel) (suc more) handle mem_ptr size total s h k =
      elim (Bool-cases (leb size total)) [
        | inl e ↦ rw (e, load_loop) refl
        | inr e ↦
            elim (Option-cases (read_file fat handle (chunk_of (size - total)) s.fs.storage).0) [
              | inl n ↦ rw (e, n, load_loop) refl
              | inr (bs, f) ↦ elim (Bool-cases (length bs == 0)) [
                | inl z ↦ rw (e, f, z, load_loop) refl
                | inr z ↦
                    rw (e, f, z, load_loop)
                      (load_loop_lem fuel more handle mem_ptr size (total + length bs) _
                        (ground (arith, h, z)) (ground (arith, k, z)))
              ]
            ]
      ]

  close_transfer-Ended :
      (operation device handle size saved : ℕ)
      (r : Progress × Mailbox (FsState Disk File Folder Hidden))
      → Ended saved (close_transfer fat select operation device handle size saved r)
  unfolding close_transfer
  close_transfer-Ended operation device handle size saved (p, s) =
      elim (Bool-cases (
        p.failed
        || not (close fat handle (end_access select saved s).fs.storage).0
        || not (p.total == size))) [
          | inl e ↦ rw e (end_access-context select saved s, omega arith, omega arith)
          | inr e ↦ rw e (end_access-context select saved s)
        ]

  in_context-Ended :
      (operation device handle mem_ptr size c : ℕ)
      (r : Option ℕ × Mailbox (FsState Disk File Folder Hidden))
      → (r.0 ≡ none → r.1.fs.context ≡ c)
      → ((saved : ℕ) → r.0 ≡ some saved → saved ≡ c)
      → Ended c (in_context fat select operation device handle mem_ptr size r)
  unfolding in_context
  in_context-Ended operation device handle mem_ptr size c (none, s) h k =
      (h refl, omega arith, omega arith)
  in_context-Ended operation device handle mem_ptr size c (some saved, s) h k =
      subst
        (λ x. Ended x (in_context fat select operation device handle mem_ptr size (some saved, s)))
        (k saved refl) (close_transfer-Ended operation device handle size saved _)

  transfer_file-ends :
      (operation context device handle mem_ptr size : ℕ)
      (s : Mailbox (FsState Disk File Folder Hidden))
      → Ended s.fs.context (transfer_file fat select operation context device handle mem_ptr size s)
  unfolding transfer_file begin_access
  transfer_file-ends operation context device handle mem_ptr size s =
      elim (Bool-cases (valid_64k_range mem_ptr size)) [
        | inr e ↦ rw e (refl, omega arith, omega arith)
        | inl e ↦ rw e (
            in_context-Ended operation device handle mem_ptr size s.fs.context
              (begin_access select context s) (λ n. ground (arith, n))
              (λ saved n. ground (arith, n)))
      ]

  transfer_file-IsProper :
      (operation context device handle mem_ptr size : ℕ)
      → IsProper (transfer_file fat select operation context device handle mem_ptr size)
  transfer_file-IsProper operation context device handle mem_ptr size = record {
    ends = transfer_file-ends operation context device handle mem_ptr size;
  }

  pub exec_bulk-IsProper :
      (operation pid context args_ptr : ℕ)
      → IsProper (exec_bulk fat select operation pid context args_ptr)
  unfolding exec_bulk
  exec_bulk-IsProper operation pid context args_ptr =
      search
        (
          bind-IsProper, then-IsProper, gets-IsProper, valid, present, arguments-IsProper,
          resolved-IsProper, transfer_file-IsProper,
        )
        depth 12
