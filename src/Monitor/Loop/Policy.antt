-- ===== src/Monitor/Loop/Policy.antt =====
-- The policy that `loop` enforces when `SECURITY` is defined: which derivations it asks the kernel
-- for.
use s3k_monitor.Prelude.{
  ℕ, suc, zero, Bool, true, false, ◌&&◌, not, ◌==◌, ◌≡◌, ◌⊎◌, inl, inr, List, Option, none, some,
  get_elem?, length, ltb, done, fault, spin, Outcome, Run, pure, ◌>>◌, Keeps, Keeps-bind, Keeps-if,
  Hoare, Ensures, Ensures-bind, Bool-cases, modify, ◌^◌, ◌-◌,
}
use s3k_monitor.S3k.{S3k}
use s3k_monitor.Capman.{Caps}
use s3k_monitor.Capman.Table.{update, get}
use s3k_monitor.Capman.Replace.{update_pmp}
use s3k_monitor.Capman.Frame.{On, update-Keeps, get-Keeps, update_pmp-Hoare}
use s3k_monitor.Codeauth.{Aes128}
use s3k_monitor.Monitor.{Monitor, lift, element, set_buf}
use s3k_monitor.Monitor.Loop.{
  writable, executable, wait, receive, answer, is_signed, apply_update, check_update, handle_update,
  dispatch, loop,
}

module _ (s3k : S3k) (aes : Aes128) where
  open s3k use {
    Kernel, Cap, captype, capty_pmp, pmp_addr, napot_begin, napot_end, movcap, delcap, drvcap,
    make_pmp, yield_time, send, recv,
  }

  -- Permissions that may be granted in a state of the memory: never writing and executing together,
  -- and executing only where some address holds code behind its valid signature.
  abbrev pub Permitted : Kernel → ℕ → Type 0
  Permitted k rwx =
      ((writable rwx && executable rwx) ≡ false)
      × ((executable rwx ≡ false) ⊎ ((address : ℕ) × (is_signed s3k aes true k address ≡ true)))

  -- A predicate of the kernel's state that holds on through moves, deletions, waiting, messages, and
  -- derivations of PMP capabilities with permitted permissions; it may end at any other call.
  pub record IsKept (P : Kernel → Type 0) : Type 0 where
    pub moves : (src dst : ℕ) (k : Kernel) → P k → P (movcap src dst k).1
    pub deletes : (i : ℕ) (k : Kernel) → P k → P (delcap i k).1
    pub yields : (k : Kernel) → P k → P (yield_time k)
    pub sends :
        (socket : ℕ) (words : List ℕ) (at : ℕ) (b : Bool) (k : Kernel)
        → P k
        → P (send socket words at b k)
    pub receives :
        (socket : ℕ) (words : List ℕ) (at tag : ℕ) (k : Kernel)
        → P k
        → P ((recv socket words at tag k).kernel)
    pub derives :
        (i idx addr rwx : ℕ) (k : Kernel)
        → P k
        → Permitted k rwx
        → P (drvcap i idx (make_pmp addr rwx) k).1

  module _ (P : Kernel → Type 0) (kept : IsKept P) where
    abbrev pub In : Monitor s3k → Type 0
    In s = P s.caps.kernel

    lift-Hoare :
        {A : Type 0} (m : Run (Caps s3k) A) (Pre : Kernel → Type 0)
        → Hoare (On s3k Pre) m (λ _ c. On s3k P c)
        → Hoare (λ (s : Monitor s3k). Pre s.caps.kernel) (lift m) (λ _ s. In s)
    lift-Hoare {A} m Pre h s p = go (m s.caps) (h s.caps p)
      where
        go :
            (o : Outcome (A × Caps s3k))
            → Ensures o (λ _ c. On s3k P c)
            → Ensures {S = Monitor s3k} {A = A}
                (elim o [
                  | done (a, c) ↦ done (a, record s { caps = c })
                  | fault ↦ fault
                  | spin ↦ spin
                ])
                (λ _ s'. In s')
        go (done r) q = q
        go fault q = tt
        go spin q = tt

    -- An access of one of the arrays.
    pub element-Keeps : (f : Monitor s3k → List ℕ) (i : ℕ) → Keeps In (element f i)
    element-Keeps f i s p = go (get_elem? (f s) i)
      where
        go :
            (o : Option ℕ)
            → Ensures {S = Monitor s3k} {A = ℕ}
                (elim o [ none ↦ fault | some a ↦ done (a, s) ])
                (λ _ s'. In s')
        go none = tt
        go (some a) = p

    set_buf-Keeps : (i v : ℕ) → Keeps In (set_buf i v)
    set_buf-Keeps i v s p = elim (Bool-cases (ltb i (length s.recv_buf))) [
      | inl e ↦ rw e p
      | inr e ↦ rw e tt
    ]

    answer-Keeps : (status : ℕ) → Keeps In (answer s3k aes true status)
    unfolding answer
    answer-Keeps status = Keeps-bind In _ _ (set_buf-Keeps 0 status) λ _.
        Keeps-bind In _ _ (element-Keeps (λ s. s.soccaps) 1)
          λ socket s p. kept.sends socket s.recv_buf 0x30 false s.caps.kernel p

    wait-Keeps : (fuel : ℕ) → Keeps In (wait s3k aes true fuel)
    unfolding wait
    wait-Keeps zero s p = tt
    wait-Keeps (suc fuel) s p = elim (Bool-cases s.app_running) [
      | inl e ↦ rw e p
      | inr e ↦ rw e (wait-Keeps fuel _ (kept.yields s.caps.kernel p))
    ]

    receive-Keeps : Keeps In (receive s3k aes true)
    unfolding receive
    receive-Keeps =
        Keeps-bind In _ _ (element-Keeps (λ s. s.soccaps) 0)
          λ socket s p. kept.receives socket s.recv_buf 0x30 s.tag s.caps.kernel p

    pub lift-Keeps : {A : Type 0} (m : Run (Caps s3k) A) → Keeps (On s3k P) m → Keeps In (lift m)
    lift-Keeps m h = lift-Hoare m P h

    answer_and_update-Keeps :
        (status : ℕ) → Keeps In (answer s3k aes true status >> lift (update s3k))
    answer_and_update-Keeps status =
        Keeps-bind In _ _ (answer-Keeps status) λ _. lift-Keeps (update s3k) (update-Keeps s3k P)

    -- The replacement, where its permissions are permitted.
    apply_update-Hoare :
        (pmp : Cap) (rwx : ℕ)
        → Hoare
            (λ (s : Monitor s3k). P s.caps.kernel × Permitted s.caps.kernel rwx)
            (apply_update s3k aes true pmp rwx)
            (λ _ s. In s)
    unfolding apply_update
    apply_update-Hoare pmp rwx s p =
        let begin = napot_begin (pmp_addr pmp) in
        let end = napot_end (pmp_addr pmp) in
        Ensures-bind (lift (update_pmp s3k 0x30 begin end rwx)) _ s (λ _ s'. In s') (λ _ s'. In s')
          (lift-Hoare (update_pmp s3k 0x30 begin end rwx) (λ k. P k × Permitted k rwx)
            (update_pmp-Hoare s3k P 0x30 begin end rwx (λ k. P k × Permitted k rwx) (λ k q. q.0)
              (λ i tidx addr k q. kept.derives i tidx addr rwx k q.0 q.1) kept.moves kept.deletes)
            s p)
          (λ err.
            Keeps-if In (not (err == 0)) (answer s3k aes true err) _ (answer-Keeps err)
              (answer_and_update-Keeps 0x00))

    check_update-Keeps : (pmp : Cap) → Keeps In (check_update s3k aes true pmp)
    unfolding check_update
    check_update-Keeps pmp = Keeps-bind In _ _ (element-Keeps (λ s. s.recv_buf) 3) λ rwx.
        Keeps-bind In _ _ (element-Keeps (λ s. s.recv_buf) 1) λ address s p.
          elim (Bool-cases (writable rwx && executable rwx)) [
            | inl both ↦ rw both (answer_and_update-Keeps 0x03 s p)
            | inr apart ↦ elim (Bool-cases (executable rwx)) [
              | inr plain ↦ rw (apart, plain) (apply_update-Hoare pmp rwx s (p, (apart, inl plain)))
              | inl code ↦ elim (Bool-cases (is_signed s3k aes true s.caps.kernel address)) [
                | inr forged ↦ rw (apart, code, forged) (answer_and_update-Keeps 0x01 s p)
                | inl signed ↦
                    rw (apart, code, signed)
                      (apply_update-Hoare pmp rwx s (p, (apart, inr (address, signed))))
              ]
            ]
          ]

    handle_update-Keeps : Keeps In (handle_update s3k aes true)
    unfolding handle_update
    handle_update-Keeps = Keeps-bind In _ _ (lift-Keeps (update s3k) (update-Keeps s3k P)) λ _.
        Keeps-bind In _ _ (lift-Keeps (get s3k 0x30) (get-Keeps s3k P 0x30)) λ pmp.
          Keeps-if In (not (captype pmp == capty_pmp)) _ (check_update s3k aes true pmp)
            (answer_and_update-Keeps 0x02) (check_update-Keeps pmp)

    dispatch-Keeps : (word : ℕ) → Keeps In (dispatch s3k aes true word)
    unfolding dispatch
    dispatch-Keeps word =
        Keeps-if In (word == 2 ^ 64 - 1) (modify (λ s. record s { app_running = false })) _
          (λ s p. p)
          (Keeps-if In (word == 0x02) (handle_update s3k aes true) (pure tt) handle_update-Keeps
            (λ s p. p))

    loop-Keeps : (fuel : ℕ) → Keeps In (loop s3k aes true fuel)
    unfolding loop
    loop-Keeps fuel s p =
        Keeps-bind In (wait s3k aes true fuel) _ (wait-Keeps fuel)
          (λ _.
            Keeps-bind In _ _ receive-Keeps
              λ _. Keeps-bind In _ _ (element-Keeps (λ s. s.recv_buf) 0) dispatch-Keeps)
          _ p

module _ (s3k : S3k) (aes : Aes128) (P : s3k.Kernel → Type 0) (kept : IsKept s3k aes P) where
  -- With `SECURITY`, every permission that `loop` asks the kernel for is permitted in the state of
  -- the memory at that time: not writing and executing together, and executing only with a valid
  -- signature somewhere in memory. So where one run of `loop` ends, whatever message it received
  -- and however long it waited, it has kept every predicate of the kernel's state that holds on
  -- through permitted derivations, moves, deletions, waiting and messages.
  pub loop_only_permitted :
      (fuel : ℕ) (s : Monitor s3k)
      → P s.caps.kernel
      → Ensures (loop s3k aes true fuel s) (λ _ s'. P s'.caps.kernel)
  loop_only_permitted fuel s p = loop-Keeps s3k aes P kept fuel s p
