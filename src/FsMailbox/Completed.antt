-- ===== src/FsMailbox/Completed.antt =====
-- `rp_fs_mailbox_handle_exec` of NEO6502_MMU_V3/rp_fs_mailbox.cpp: what the 6502 finds in the mailbox
-- afterwards.
use neo6502_mmu_v.Base.{
  ℕ, ◌<◌, ◌≡◌, ◌≢◌, ◌⊎◌, refl, arith, inl, inr, Bool, true, false, ◌||◌, leb, ◌==◌, if◌then◌else◌,
  Bool-cases,
}
use neo6502_mmu_v.Ram.{Ram, read, rp_read16, rp_write16}
use neo6502_mmu_v.RpFs.FatFs.{FatFs}
use neo6502_mmu_v.FsPath.Text.{max_procs}
use neo6502_mmu_v.FsPath.Cwd.{init_root, clone_cwd}
use neo6502_mmu_v.Memory.Config.{max_memory_contexts}
use neo6502_mmu_v.Mailbox.{mb_done, Mailbox, set_done, set_done32, set_error, clear_doorbell}
use neo6502_mmu_v.Mailbox.Rp
use neo6502_mmu_v.Mailbox.Rp.{rp_done, rp_error, err_ok, err_einval}
use neo6502_mmu_v.FsMailbox.{FsState, bump, fs_error}
use neo6502_mmu_v.FsMailbox.Action.{Reply, value, refused, Action}
use neo6502_mmu_v.FsMailbox.Paths.{
  Completion, exec_open, exec_single_path, exec_rename, exec_opendir, exec_chdir, exec_getcwd,
}
use neo6502_mmu_v.FsMailbox.Handles.{
  exec_read, exec_write, exec_seek, exec_tell, exec_readdir, exec_status, exec_close, exec_closedir,
}
use neo6502_mmu_v.FsMailbox.Bulk.{exec_bulk}
use neo6502_mmu_v.FsMailbox.Exec.{
  finish, finish32, exec_cwd, execute, request_completion, fs_handle_exec,
}
use neo6502_mmu_v.FsMailbox.Proper.{Ended, IsProper}
use neo6502_mmu_v.FsMailbox.Ending.{
  exec_open-IsProper, exec_single_path-IsProper, exec_rename-IsProper, exec_opendir-IsProper,
  exec_chdir-IsProper, exec_getcwd-IsProper, exec_read-IsProper, exec_write-IsProper,
  exec_seek-IsProper, exec_tell-IsProper, exec_readdir-IsProper, exec_status-IsProper,
  exec_close-IsProper, exec_closedir-IsProper, exec_cwd-IsProper,
}
use neo6502_mmu_v.FsMailbox.BulkEnding.{exec_bulk-IsProper}

-- A request that is over: done without an error, or an error with its code, and the bell is silent.
pub record IsOver (m : Ram) : Type 0 where
  pub silent : read m Rp.rp_doorbell ≡ 0
  pub outcome :
      ((read m Rp.rp_status ≡ rp_done) × (read m Rp.rp_err ≡ err_ok))
      ⊎ ((read m Rp.rp_status ≡ rp_error) × (0 < read m Rp.rp_err))

module _ {Disk File Folder Hidden : Type 0} where
  -- Over, with the context `c` in force.
  pub record IsCompleted (c : ℕ) (s : Mailbox (FsState Disk File Folder Hidden)) : Type 0 where
    pub over : IsOver s.ram
    pub restored : s.fs.context ≡ c

  fs_error-IsCompleted :
      (c e part : ℕ) (s : Mailbox (FsState Disk File Folder Hidden))
      → s.fs.context ≡ c
      → 0 < e
      → e < 8
      → IsCompleted c (fs_error e part s)
  unfolding fs_error set_error clear_doorbell rp_write16
  fs_error-IsCompleted c e part s k low high = record {
    over = record {
      silent = ground arith;
      outcome = inr (ground arith, ground (arith, low, high));
    };
    restored = k;
  }

  finish-IsCompleted :
      (c : ℕ) (r : Reply Completion × Mailbox (FsState Disk File Folder Hidden))
      → Ended c r
      → IsCompleted c (finish r)
  unfolding finish set_done clear_doorbell rp_write16
  finish-IsCompleted c (value a, s) h = record {
    over = record { silent = ground arith; outcome = inl (ground arith, ground arith) };
    restored = h;
  }
  finish-IsCompleted c (refused e p, s) (h, low, high) = fs_error-IsCompleted c e p s h low high

  finish32-IsCompleted :
      (c : ℕ) (r : Reply ℕ × Mailbox (FsState Disk File Folder Hidden))
      → Ended c r
      → IsCompleted c (finish32 r)
  unfolding finish32 set_done32 clear_doorbell rp_write16
  finish32-IsCompleted c (value a, s) h = record {
    over = record { silent = ground arith; outcome = inl (ground arith, ground arith) };
    restored = h;
  }
  finish32-IsCompleted c (refused e p, s) (h, low, high) = fs_error-IsCompleted c e p s h low high

  if_either :
      (c : ℕ) (b : Bool) (s t : Mailbox (FsState Disk File Folder Hidden))
      → IsCompleted c s
      → IsCompleted c t
      → IsCompleted c (if b then s else t)
  if_either c true s t h k = h
  if_either c false s t h k = k

module _ {Disk File Folder Hidden : Type 0} (fat : FatFs Disk File Folder)
    (select : ℕ → Ram → Hidden → Ram × Hidden) where
  done_by :
      (m : Action (Mailbox (FsState Disk File Folder Hidden)) Completion)
      (s : Mailbox (FsState Disk File Folder Hidden))
      → IsProper m
      → IsCompleted s.fs.context (finish (m s))
  done_by m s h = finish-IsCompleted s.fs.context (m s) (h.ends s)

  done_by32 :
      (m : Action (Mailbox (FsState Disk File Folder Hidden)) ℕ)
      (s : Mailbox (FsState Disk File Folder Hidden))
      → IsProper m
      → IsCompleted s.fs.context (finish32 (m s))
  done_by32 m s h = finish32-IsCompleted s.fs.context (m s) (h.ends s)

  execute-IsCompleted :
      (operation pid context : ℕ) (s : Mailbox (FsState Disk File Folder Hidden))
      → IsCompleted s.fs.context (execute fat select operation pid context s)
  unfolding execute
  execute-IsCompleted operation pid context s =
      let args = rp_read16 s.ram Rp.rp_arg0l in
      let low = read s.ram Rp.rp_arg2l in
      let high = read s.ram Rp.rp_arg2h in
      if_either s.fs.context _ _ _
        (done_by (exec_status fat select) s (exec_status-IsProper fat select))
        (if_either s.fs.context _ _ _
          (done_by (exec_open fat select pid context args) s
            (exec_open-IsProper fat select pid context args))
          (if_either s.fs.context _ _ _
            (done_by (exec_read fat select context args low) s
              (exec_read-IsProper fat select context args low))
            (if_either s.fs.context _ _ _
              (done_by (exec_write fat select context args low) s
                (exec_write-IsProper fat select context args low))
              (if_either s.fs.context _ _ _
                (done_by (exec_close fat select low) s (exec_close-IsProper fat select low))
                (if_either s.fs.context _ _ _
                  (done_by (exec_bulk fat select operation pid context args) s
                    (exec_bulk-IsProper fat select operation pid context args))
                  (if_either s.fs.context _ _ _
                    (done_by (exec_single_path fat select operation pid context args) s
                      (exec_single_path-IsProper fat select operation pid context args))
                    (if_either s.fs.context _ _ _
                      (done_by (exec_rename fat select pid context args) s
                        (exec_rename-IsProper fat select pid context args))
                      (if_either s.fs.context _ _ _
                        (done_by (exec_opendir fat select pid context args) s
                          (exec_opendir-IsProper fat select pid context args))
                        (if_either s.fs.context _ _ _
                          (done_by32 (exec_seek fat select context args low) s
                            (exec_seek-IsProper fat select context args low))
                          (if_either s.fs.context _ _ _
                            (done_by32 (exec_tell fat select context args low) s
                              (exec_tell-IsProper fat select context args low))
                            (if_either s.fs.context _ _ _
                              (done_by (exec_readdir fat select context args low) s
                                (exec_readdir-IsProper fat select context args low))
                              (if_either s.fs.context _ _ _
                                (done_by (exec_closedir fat select low) s
                                  (exec_closedir-IsProper fat select low))
                                (if_either s.fs.context _ _ _
                                  (done_by (exec_chdir fat select pid context args) s
                                    (exec_chdir-IsProper fat select pid context args))
                                  (if_either s.fs.context _ _ _
                                    (done_by (exec_getcwd fat select pid context args) s
                                      (exec_getcwd-IsProper fat select pid context args))
                                    (if_either s.fs.context _ _ _
                                      (done_by (exec_cwd (λ t. init_root t low high)) s
                                        (exec_cwd-IsProper (λ t. init_root t low high)))
                                      (if_either s.fs.context _ _ _
                                        (done_by (exec_cwd (λ t. clone_cwd t low high)) s
                                          (exec_cwd-IsProper (λ t. clone_cwd t low high)))
                                        (invalid s)))))))))))))))))
    where
      invalid :
          (s : Mailbox (FsState Disk File Folder Hidden))
          → IsCompleted s.fs.context (fs_error err_einval 0 s)
      invalid s = fs_error-IsCompleted s.fs.context err_einval 0 s refl (omega arith) (omega arith)

  -- A request fs.exec, whatever it asks for, ends at once: the state machine goes on to mbDONE, the
  -- doorbell is silent, the status is DONE without an error code or ERROR with one, the MMU shows the
  -- context it showed before, and a process other than 0 has its completion interrupt requested.
  pub fs_handle_exec-IsCompleted :
      (s : Mailbox (FsState Disk File Folder Hidden))
      → ((fs_handle_exec fat select s).0 ≡ mb_done)
        × IsCompleted s.fs.context (fs_handle_exec fat select s).1
        × (read s.ram Rp.rp_arg1l ≢ 0
            → (fs_handle_exec fat select s).1.fs.completion_pending ≡ true)
  unfolding fs_handle_exec
  fs_handle_exec-IsCompleted s =
      let operation = read s.ram Rp.rp_state in
      let pid = read s.ram Rp.rp_arg1l in
      let context = read s.ram Rp.rp_arg1h in
      (
        refl,
        requested pid _ (
            if_either s.fs.context (leb max_procs pid || leb max_memory_contexts context) _ _
              (fs_error-IsCompleted s.fs.context err_einval 0 (bump 0 s) refl (omega arith)
                (omega arith))
              (execute-IsCompleted operation pid context (bump 0 s))),
        λ p. awake pid _ p,
      )
    where
      requested :
          (pid : ℕ) (t : Mailbox (FsState Disk File Folder Hidden))
          → IsCompleted s.fs.context t
          → IsCompleted s.fs.context (request_completion pid t)
      requested pid t h = elim (Bool-cases (pid == 0)) [
        | inl e ↦ rw e h
        | inr e ↦ rw e (record { over = h.over; restored = h.restored })
      ]

      awake :
          (pid : ℕ) (t : Mailbox (FsState Disk File Folder Hidden))
          → pid ≢ 0
          → (request_completion pid t).fs.completion_pending ≡ true
      awake pid t p = ground (arith, p)
