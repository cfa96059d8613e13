-- ===== src/FsMailbox/PathRead.antt =====
-- NEO6502_MMU_V3/rp_fs_mailbox.cpp: which paths rp_fs_mb_read_context_path reads from a context.
use neo6502_mmu_v.Base.{
  ℕ, zero, suc, ◌+◌, ◌<◌, ◌≤◌, ◌≡◌, ◌≢◌, ◌⊎◌, ◌↔◌, refl, sym, ap, Option, Bool, false, ◌∙◌, arith,
  inl, inr, true, if◌then◌else◌, ◌||◌, none, some, some_inj, List, [], ◌∷◌, length, ltb, leb, ◌==◌,
  Bool-cases, Option-cases, subst,
}
use neo6502_mmu_v.Ram.{Ram, read}
use neo6502_mmu_v.Memory.Config.{max_memory_contexts}
use neo6502_mmu_v.Mailbox.{Mailbox}
use neo6502_mmu_v.FsMailbox.{FsState}
use neo6502_mmu_v.FsMailbox.Op.{private_limit}
use neo6502_mmu_v.FsMailbox.Access.{
  scan_path, not_empty, begin_access, set_mmu_context, read_context_path,
}

-- A path as it lies in memory: printable characters below $8000 and a 0 behind them, in `left` bytes.
pub data IsPathAt : Ram → ℕ → ℕ → List ℕ → Type 0 where
  ends :
      {m : Ram} {address left : ℕ}
      → address < private_limit
      → read m address ≡ 0
      → IsPathAt m address (suc left) []
  goes_on :
      {m : Ram} {address left c : ℕ} {cs : List ℕ}
      → address < private_limit
      → read m address ≡ c
      → 32 ≤ c
      → c < 127
      → IsPathAt m (address + 1) left cs
      → IsPathAt m address (suc left) (c ∷ cs)

none≢some : {A : Type 0} {a : A} → none ≢ some a
none≢some e = cc

scan_path-IsPathAt :
    (m : Ram) (address left : ℕ) (cs : List ℕ)
    → scan_path m address left ≡ some cs
    → IsPathAt m address left cs
unfolding scan_path
scan_path-IsPathAt m address zero cs e = cc
scan_path-IsPathAt m address (suc left) cs e = elim (Bool-cases (leb private_limit address)) [
  | inl far ↦ absurd (none≢some (rw (far, scan_path) at e))
  | inr near ↦ elim (Bool-cases (read m address == 0)) [
    | inl stop ↦
        subst (IsPathAt m address (suc left)) (some_inj (rw (near, stop, scan_path) at e))
          (IsPathAt.ends (ground (arith, near)) (ground (arith, stop)))
    | inr more ↦ elim (Bool-cases (ltb (read m address) 32 || leb 127 (read m address))) [
      | inl odd ↦ absurd (none≢some (rw (near, more, odd, scan_path) at e))
      | inr plain ↦ elim (Option-cases (scan_path m (address + 1) left)) [
        | inl n ↦ absurd (none≢some (rw (near, more, plain, n, scan_path) at e))
        | inr (rest, f) ↦
            subst (IsPathAt m address (suc left))
              (some_inj (rw (near, more, plain, f, scan_path) at e))
              (IsPathAt.goes_on (ground (arith, near)) refl (ground (arith, plain))
                (ground (arith, plain)) (scan_path-IsPathAt m (address + 1) left rest f))
      ]
    ]
  ]
]

IsPathAt-scan_path :
    {m : Ram} {address left : ℕ} {cs : List ℕ}
    → IsPathAt m address left cs
    → scan_path m address left ≡ some cs
unfolding scan_path
IsPathAt-scan_path (IsPathAt.ends near stop) = ground (arith, near, stop)
IsPathAt-scan_path (IsPathAt.goes_on near here low high rest) =
    ground (arith, near, here, low, high, IsPathAt-scan_path rest)

IsPathAt-bounds :
    {m : Ram} {address left : ℕ} {cs : List ℕ}
    → IsPathAt m address left cs
    → (address < private_limit) × (0 < left)
IsPathAt-bounds (IsPathAt.ends near stop) = (near, omega arith)
IsPathAt-bounds (IsPathAt.goes_on near here low high rest) = (near, omega arith)

-- The memory of a context, as the board shows it.
abbrev pub memory_of :
    {Disk File Folder Hidden : Type 0}
    → (ℕ → Ram → Hidden → Ram × Hidden)
    → ℕ
    → Mailbox (FsState Disk File Folder Hidden)
    → Ram
memory_of select context s =
    if context == s.fs.context then s.ram else (select context s.ram s.fs.hidden).0

-- The tests in front of the loop.
abbrev refuses : ℕ → ℕ → ℕ → Bool
refuses address max_len dst_len =
    ltb dst_len 2
    || max_len == 0
    || ltb dst_len max_len
    || address == 0
    || leb private_limit address

not_empty-some :
    (o : Option (List ℕ)) (cs : List ℕ) → not_empty o ≡ some cs → (o ≡ some cs) × (0 < length cs)
not_empty-some none cs e = absurd (none≢some e)
not_empty-some (some []) cs e = absurd (none≢some e)
not_empty-some (some (c ∷ o)) cs e = (e, subst (λ x. 0 < length x) (some_inj e) (omega arith))

some-not_empty : (cs : List ℕ) → 0 < length cs → not_empty (some cs) ≡ some cs
some-not_empty [] h = elim h [ ]
some-not_empty (c ∷ cs) h = refl

module _ {Disk File Folder Hidden : Type 0} (select : ℕ → Ram → Hidden → Ram × Hidden) where
  begin_access-memory :
      (context : ℕ) (s : Mailbox (FsState Disk File Folder Hidden))
      → context < max_memory_contexts
      → ((begin_access select context s).0 ≡ some s.fs.context)
        × ((begin_access select context s).1.ram ≡ memory_of select context s)
  unfolding begin_access set_mmu_context
  begin_access-memory context s h = (ground (arith, h), ground (arith, h))

  begin_access-refused :
      (context : ℕ) (s : Mailbox (FsState Disk File Folder Hidden))
      → max_memory_contexts ≤ context
      → (begin_access select context s).0 ≡ none
  unfolding begin_access
  begin_access-refused context s h = ground (arith, h)

  read_context_path-text :
      (context address max_len dst_len : ℕ) (s : Mailbox (FsState Disk File Folder Hidden))
      → context < max_memory_contexts
      → refuses address max_len dst_len ≡ false
      → (read_context_path select context address max_len dst_len s).0
        ≡ not_empty (scan_path (memory_of select context s) address max_len)
  unfolding read_context_path
  read_context_path-text context address max_len dst_len s h e =
      let (saved, ram) = begin_access-memory context s h in
      rw (e, saved) (ap (λ m. not_empty (scan_path m address max_len)) ram)

  read_context_path-none :
      (context address max_len dst_len : ℕ) (s : Mailbox (FsState Disk File Folder Hidden))
      → (refuses address max_len dst_len ≡ true) ⊎ (max_memory_contexts ≤ context)
      → (read_context_path select context address max_len dst_len s).0 ≡ none
  unfolding read_context_path
  read_context_path-none context address max_len dst_len s (inl e) = rw e refl
  read_context_path-none context address max_len dst_len s (inr h) =
      elim (Bool-cases (refuses address max_len dst_len)) [
        | inl e ↦ rw e refl
        | inr e ↦ rw (e, begin_access-refused context s h) refl
      ]

  -- A path that is handed over by its address: it lies there, is not empty, and its caller's buffer holds
  -- as many bytes as it may have.
  pub record IsPathArgument (context address max_len dst_len : ℕ)
      (s : Mailbox (FsState Disk File Folder Hidden)) (cs : List ℕ) : Type 0 where
    pub context_in : context < max_memory_contexts
    pub buffer_fits : max_len ≤ dst_len
    pub buffer_has_room : 2 ≤ dst_len
    pub not_null : 0 < address
    pub some_text : 0 < length cs
    pub placed : IsPathAt (memory_of select context s) address max_len cs

  -- `rp_fs_mb_read_context_path` gives exactly the printable texts of at least one character that lie in
  -- the context below $8000 and are closed by a 0 within the length allowed.
  pub read_context_path_iff :
      (context address max_len dst_len : ℕ) (s : Mailbox (FsState Disk File Folder Hidden))
      (cs : List ℕ)
      → ((read_context_path select context address max_len dst_len s).0 ≡ some cs)
        ↔ IsPathArgument context address max_len dst_len s cs
  read_context_path_iff context address max_len dst_len s cs = (there, back)
    where
      there :
          (read_context_path select context address max_len dst_len s).0 ≡ some cs
          → IsPathArgument context address max_len dst_len s cs
      there e = elim (Bool-cases (refuses address max_len dst_len)) [
        | inl bad ↦ absurd (
            none≢some
              (sym (read_context_path-none context address max_len dst_len s (inl bad)) ∙ e))
        | inr good ↦ elim (Bool-cases (leb max_memory_contexts context)) [
          | inl far ↦ absurd (
              none≢some (
                sym (
                  read_context_path-none context address max_len dst_len s
                    (inr (ground (arith, far))))
                ∙ e))
          | inr near ↦
              let h : context < max_memory_contexts = ground (arith, near) in
              let (found, some_text) =
                not_empty-some (scan_path (memory_of select context s) address max_len) cs
                  (sym (read_context_path-text context address max_len dst_len s h good) ∙ e) in
              record {
                context_in = h;
                buffer_fits = ground (arith, good);
                buffer_has_room = ground (arith, good);
                not_null = ground (arith, good);
                some_text = some_text;
                placed = scan_path-IsPathAt (memory_of select context s) address max_len cs found;
              }
        ]
      ]

      back :
          IsPathArgument context address max_len dst_len s cs
          → (read_context_path select context address max_len dst_len s).0 ≡ some cs
      back p =
          let (low, long) = IsPathAt-bounds p.placed in
          read_context_path-text context address max_len dst_len s p.context_in
            (ground (arith, low, long, p.buffer_fits, p.buffer_has_room, p.not_null))
          ∙ ap not_empty (IsPathAt-scan_path p.placed)
          ∙ some-not_empty cs p.some_text
