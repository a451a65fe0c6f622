-- ===== src/Capman/Frame.antt =====
-- Which calls of the kernel each operation of the table makes: a predicate of the kernel's state
-- that those calls keep is kept by the operation.
pub mod Calls
use s3k_monitor.Prelude.{
  ℕ, zero, suc, ◌+◌, Bool, true, false, not, ◌||◌, ◌==◌, pure, Hoare, Keeps, Keeps-bind, Keeps-if,
  Ensures, Ensures-bind, to_u64, minus_one, Option, none, some, get_elem?, length, ltb, done, fault,
  Bool-cases, inl, inr,
}
use s3k_monitor.S3k.{S3k, ncap}
use s3k_monitor.Capman.{Caps, load, store, syscall}
use s3k_monitor.Capman.Table.{
  update, update_loop, get, move, note_move, delete, find_down, find_free,
}
use s3k_monitor.Capman.Derive.{find_memory_derive, drvcap_from, refresh, derive_pmp}
use s3k_monitor.Capman.Replace.{update_pmp}

module _ (s3k : S3k) (P : s3k.Kernel → Type 0) where
  open s3k use {
    Kernel, Cap, raw, with_raw, captype, capty_none, excpt_none, getcap, movcap, delcap, drvcap,
    make_pmp, napot_addr, napot_begin, napot_end,
  }

  -- The predicate of the table's state.
  abbrev pub On : Caps s3k → Type 0
  On s = P s.kernel

  pub load-Keeps : (i : ℕ) → Keeps On (load s3k i)
  unfolding load
  load-Keeps i s p = go (get_elem? s.caps i)
    where
      go :
          (o : Option Cap)
          → Ensures (elim o [ none ↦ fault | some c ↦ done (c, s) ]) (λ _ s'. On s')
      go none = tt
      go (some c) = p

  pub store-Keeps : (i : ℕ) (c : Cap) → Keeps On (store s3k i c)
  unfolding store
  store-Keeps i c s p = elim (Bool-cases (ltb i (length s.caps))) [
    | inl e ↦ rw e p
    | inr e ↦ rw e tt
  ]

  pub syscall-Keeps :
      (f : Kernel → ℕ × Kernel) → ((k : Kernel) → P k → P (f k).1) → Keeps On (syscall s3k f)
  syscall-Keeps f h s p = h s.kernel p

  pub find_down-Keeps : (test : Cap → Bool) (n : ℕ) → Keeps On (find_down s3k test n)
  unfolding find_down
  find_down-Keeps test zero = λ s p. p
  find_down-Keeps test (suc i) =
      Keeps-bind On (load s3k i) _ (load-Keeps i)
        λ c. Keeps-if On (test c) _ _ (λ s p. p) (find_down-Keeps test i)

  update_loop-Keeps : (left i : ℕ) → Keeps On (update_loop s3k left i)
  unfolding update_loop
  update_loop-Keeps zero i s p = p
  update_loop-Keeps (suc left) i s p =
      Ensures-bind (store s3k i (getcap i s.kernel)) _ s (λ _ s'. On s') _
        (store-Keeps i (getcap i s.kernel) s p) (λ _ s' p'. update_loop-Keeps left (i + 1) _ p')

  -- Reading the table makes no call that changes the kernel.
  pub update-Keeps : Keeps On (update s3k)
  unfolding update
  update-Keeps s p = update_loop-Keeps ncap 0 _ p

  pub get-Keeps : (i : ℕ) → Keeps On (get s3k i)
  unfolding get
  get-Keeps i = load-Keeps i

  module _ (moves : (src dst : ℕ) (k : Kernel) → P k → P (movcap src dst k).1) where
    note_move-Keeps : (src dst : ℕ) → Keeps On (note_move s3k src dst)
    unfolding note_move
    note_move-Keeps src dst = Keeps-bind On (load s3k src) _ (load-Keeps src) λ a.
        Keeps-bind On (store s3k dst (with_raw (raw a))) _ (store-Keeps dst _) λ _.
          Keeps-bind On (store s3k src (with_raw 0)) (λ _. pure true) (store-Keeps src _) λ _ s p. p

    pub move-Keeps : (src dst : ℕ) → Keeps On (move s3k src dst)
    unfolding move
    move-Keeps src dst = Keeps-bind On (load s3k src) _ (load-Keeps src) λ a.
        Keeps-bind On (load s3k dst) _ (load-Keeps dst) λ b.
          Keeps-if On (raw a == 0 || not (raw b == 0)) (pure false) _ (λ s p. p)
            (Keeps-bind On (syscall s3k (movcap src dst)) _
              (syscall-Keeps (movcap src dst) (moves src dst))
              λ r.
                Keeps-if On (r == excpt_none) (note_move s3k src dst) (pure false)
                  (note_move-Keeps src dst) (λ s p. p))

  pub delete-Keeps :
      ((i : ℕ) (k : Kernel) → P k → P (delcap i k).1) → (i : ℕ) → Keeps On (delete s3k i)
  unfolding delete
  delete-Keeps deletes i = Keeps-bind On (load s3k i) _ (load-Keeps i) λ c.
      Keeps-if On (not (raw c == 0)) _ (pure false)
        (Keeps-bind On (syscall s3k (delcap i)) _ (syscall-Keeps (delcap i) (deletes i)) λ _.
          Keeps-bind On (store s3k i (with_raw 0)) (λ _. pure true) (store-Keeps i _) λ _ s p. p)
        (λ s p. p)

  refresh-Keeps : (i idx : ℕ) → Keeps On (refresh s3k i idx)
  unfolding refresh
  refresh-Keeps i idx s p =
      Ensures-bind (store s3k i (getcap i s.kernel)) _ s (λ _ s'. On s') _ (store-Keeps i _ s p)
        (λ _ s' p'.
          Ensures-bind (store s3k idx (getcap idx s'.kernel)) _ s' (λ _ s''. On s'') _
            (store-Keeps idx _ s' p') (λ _ s'' p''. p''))

  -- A derivation is one call of the kernel, in the state it began in.
  pub drvcap_from-Hoare :
      (i idx : ℕ) (c : Cap) (Pre : Kernel → Type 0)
      → ((k : Kernel) → Pre k → P (drvcap i idx c k).1)
      → Hoare (λ s. Pre s.kernel) (drvcap_from s3k i idx c) (λ _ s. On s)
  unfolding drvcap_from
  drvcap_from-Hoare i idx c Pre derives s p =
      Keeps-if On ((drvcap i idx c s.kernel).0 == excpt_none) (refresh s3k i idx) (pure false)
        (refresh-Keeps i idx) (λ s p. p) (record s { kernel = (drvcap i idx c s.kernel).1 })
        (derives s.kernel p)

module _ (s3k : S3k) (P : s3k.Kernel → Type 0) where
  open s3k use {
    Kernel, movcap, delcap, drvcap, make_pmp, napot_addr, napot_begin, napot_end, memory_derive,
    captype, capty_none,
  }

  -- Deriving a PMP capability makes one call that changes the kernel: the derivation of a PMP
  -- capability with the permissions given, in the state the operation began in.
  pub derive_pmp-Hoare :
      (idx begin end rwx : ℕ) (Pre : Kernel → Type 0)
      → ((k : Kernel) → Pre k → P k)
      → ((i addr : ℕ) (k : Kernel) → Pre k → P (drvcap i idx (make_pmp addr rwx) k).1)
      → Hoare (On s3k Pre) (derive_pmp s3k idx begin end rwx) (λ _ s. On s3k P s)
  unfolding derive_pmp find_memory_derive
  derive_pmp-Hoare idx begin end rwx Pre weak derives s p =
      let pmp = make_pmp (napot_addr begin end) rwx in
      let test = λ (c : s3k.Cap). memory_derive c pmp in
      elim (Bool-cases (
        not (begin == napot_begin (napot_addr begin end))
        || not (end == napot_end (napot_addr begin end)))) [
          | inl bad ↦ rw bad (weak s.kernel p)
          | inr good ↦ rw good (
              Ensures-bind (find_down s3k test ncap) (λ i. drvcap_from s3k (to_u64 i) idx pmp) s
                (λ _ s'. On s3k Pre s') (λ _ s'. On s3k P s')
                (find_down-Keeps s3k Pre test ncap s p)
                (λ i s' p'.
                  drvcap_from-Hoare s3k P (to_u64 i) idx pmp Pre (derives (to_u64 i) _) s' p'))
        ]

  -- Replacing a PMP capability derives one with the permissions given, in the state the operation
  -- began in, and else only moves and deletes.
  pub update_pmp-Hoare :
      (idx begin end rwx : ℕ) (Pre : Kernel → Type 0)
      → ((k : Kernel) → Pre k → P k)
      → ((i tidx addr : ℕ) (k : Kernel) → Pre k → P (drvcap i tidx (make_pmp addr rwx) k).1)
      → ((src dst : ℕ) (k : Kernel) → P k → P (movcap src dst k).1)
      → ((i : ℕ) (k : Kernel) → P k → P (delcap i k).1)
      → Hoare (On s3k Pre) (update_pmp s3k idx begin end rwx) (λ _ s. On s3k P s)
  unfolding update_pmp find_free
  update_pmp-Hoare idx begin end rwx Pre weak derives moves deletes s p =
      Ensures-bind (find_down s3k (λ c. captype c == capty_none) ncap) _ s (λ _ s'. On s3k Pre s')
        (λ _ s'. On s3k P s') (find_down-Keeps s3k Pre _ ncap s p)
        (λ free s' p'. elim (Bool-cases (to_u64 free == to_u64 minus_one)) [
          | inl none_free ↦ rw none_free (weak s'.kernel p')
          | inr found ↦ rw found (
              Ensures-bind (derive_pmp s3k (to_u64 free) begin end rwx) _ s' (λ _ s''. On s3k P s'')
                (λ _ s''. On s3k P s'')
                (derive_pmp-Hoare (to_u64 free) begin end rwx Pre weak
                  (λ i addr k q. derives i (to_u64 free) addr k q) s' p')
                (λ derived.
                  Keeps-if (On s3k P) (not derived) (pure 2) _ (λ s p. p)
                    (Keeps-bind (On s3k P) (delete s3k idx) _ (delete-Keeps s3k P deletes idx)
                      λ deleted.
                        Keeps-if (On s3k P) (not deleted) (pure 3) _ (λ s p. p)
                          (Keeps-bind (On s3k P) (move s3k (to_u64 free) idx) _
                            (move-Keeps s3k P moves (to_u64 free) idx)
                            λ moved.
                              Keeps-if (On s3k P) (not moved) (pure 4) (pure 0) (λ s p. p)
                                (λ s p. p)))))
        ])
