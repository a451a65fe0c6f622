-- ===== src/Monitor/Setup/Refusal.antt =====
-- `setup` for an app whose signature is not the one computed for it.
use s3k_monitor.Prelude.{
  ℕ, true, false, ◌&&◌, not, if◌then◌else◌, ◌≡◌, List, length, ltb, Outcome, done, fault, spin, Run,
  pure, Ensures, Keeps, Keeps-bind, Keeps-if, Bool-cases, add64, to_u64, inl, inr,
}
use s3k_monitor.S3k.{S3k, ncap}
use s3k_monitor.Capman.{Caps}
use s3k_monitor.Capman.Table.{init, find_down}
use s3k_monitor.Capman.Derive.{derive_pmp, derive_time, find_time_derive}
use s3k_monitor.Capman.Pmp.{setpmp, pack_loop}
use s3k_monitor.Capman.Frame.{
  On, update-Keeps, find_down-Keeps, drvcap_from-Hoare, derive_pmp-Hoare,
}
use s3k_monitor.Codeauth.{Aes128}
use s3k_monitor.Monitor.{Monitor, lift, app_base, app_size, uart_base, app_pid}
use s3k_monitor.Monitor.Parse.{Process, parse_executable}
use s3k_monitor.Monitor.Setup.{
  setup, prepare, setup_monitor, setup_time_slices, set_pmpcap, set_pmps, is_authentic, start_app,
}

module _ (s3k : S3k) where
  open s3k use {
    Kernel, Cap, delcap, drvcap, setreg, make_pmp, make_time, rw_perm, reg_pmp, time_derive,
  }

  -- A predicate of the kernel's state that holds on through deletions, derivations of time slices
  -- and of PMP capabilities that allow reading and writing, and the monitor's own PMP register. It
  -- may end at any other call: at a resumption of a process, at a capability or a register given to
  -- one, and at a copy into memory.
  pub record IsPrepared (P : Kernel → Type 0) : Type 0 where
    pub deletes : (i : ℕ) (k : Kernel) → P k → P (delcap i k).1
    pub derives : (i idx addr : ℕ) (k : Kernel) → P k → P (drvcap i idx (make_pmp addr rw_perm) k).1
    pub slices :
        (i idx hart begin end : ℕ) (k : Kernel)
        → P k
        → P (drvcap i idx (make_time hart begin end) k).1
    pub maps : (v : ℕ) (k : Kernel) → P k → P (setreg reg_pmp v k)

  module _ (P : Kernel → Type 0) (kept : IsPrepared P) where
    -- The predicate, and that the app does not count as running.
    abbrev pub Idle : Monitor s3k → Type 0
    Idle s = P s.caps.kernel × (s.app_running ≡ false)

    lift-Idle : {A : Type 0} (m : Run (Caps s3k) A) → Keeps (On s3k P) m → Keeps Idle (lift m)
    lift-Idle {A} m h s (p, stopped) = go (m s.caps) (h s.caps p)
      where
        go :
            (o : Outcome (A × Caps s3k))
            → Ensures o (λ _ c. On s3k P c)
            → Ensures {S = Monitor s3k} {A = A}
                (elim o [
                  | done (a, c) ↦ done (a, record s { caps = c })
                  | fault ↦ fault
                  | spin ↦ spin
                ])
                (λ _ s'. Idle s')
        go (done r) q = (q, stopped)
        go fault q = tt
        go spin q = tt

    derive_rw-Keeps : (idx begin end : ℕ) → Keeps (On s3k P) (derive_pmp s3k idx begin end rw_perm)
    derive_rw-Keeps idx begin end =
        derive_pmp-Hoare s3k P idx begin end rw_perm P (λ k p. p)
          (λ i addr k p. kept.derives i idx addr k p)

    derive_time-Keeps :
        (idx hart begin end : ℕ) → Keeps (On s3k P) (derive_time s3k idx hart begin end)
    unfolding derive_time find_time_derive
    derive_time-Keeps idx hart begin end =
        let slice = make_time hart begin end in
        Keeps-if (On s3k P) (ltb end begin) (pure false) _ (λ s p. p)
          (Keeps-bind (On s3k P) (find_down s3k (λ c. time_derive c slice) ncap) _
            (find_down-Keeps s3k P (λ c. time_derive c slice) ncap)
            (λ i.
              drvcap_from-Hoare s3k P (to_u64 i) idx slice P
                (λ k p. kept.slices (to_u64 i) idx hart begin end k p)))

    setpmp-Keeps : (pmps : List ℕ) → Keeps (On s3k P) (setpmp s3k pmps)
    unfolding setpmp
    setpmp-Keeps pmps s p = go (pack_loop 8 0 0 pmps)
      where
        go :
            (o : Outcome ℕ)
            → Ensures {S = Caps s3k} {A = Unit {0}}
                (elim o [
                  | done v ↦ done (tt, record s { kernel = setreg reg_pmp v s.kernel })
                  | fault ↦ fault
                  | spin ↦ spin
                ])
                (λ _ s'. On s3k P s')
        go (done v) = kept.maps v s.kernel p
        go fault = tt
        go spin = tt

    set_pmpcap-Keeps : (i v : ℕ) → Keeps Idle (set_pmpcap s3k i v)
    unfolding set_pmpcap
    set_pmpcap-Keeps i v s p = elim (Bool-cases (ltb i (length s.pmpcaps))) [
      | inl e ↦ rw e p
      | inr e ↦ rw e tt
    ]

    set_pmps-Keeps : Keeps Idle (set_pmps s3k)
    unfolding set_pmps
    set_pmps-Keeps s p = lift-Idle (setpmp s3k s.pmpcaps) (setpmp-Keeps s.pmpcaps) s p

    setup_monitor-Keeps : Keeps Idle (setup_monitor s3k)
    unfolding setup_monitor
    setup_monitor-Keeps =
        Keeps-bind Idle _ _ (lift-Idle _ (derive_rw-Keeps 0x09 uart_base (add64 uart_base 0x100)))
          λ _. Keeps-bind Idle _ _ (set_pmpcap-Keeps 2 0x09) λ _.
            Keeps-bind Idle _ _
              (lift-Idle _ (derive_rw-Keeps 0xc app_base (add64 app_base app_size)))
              λ _.
                Keeps-bind Idle _ _ (set_pmpcap-Keeps 1 0xc)
                  λ _. Keeps-bind Idle _ _ set_pmps-Keeps λ _. set_pmps-Keeps

    setup_time_slices-Keeps : Keeps Idle (setup_time_slices s3k)
    unfolding setup_time_slices
    setup_time_slices-Keeps =
        Keeps-bind Idle _ (λ _. pure tt) (lift-Idle _ (derive_time-Keeps 0x18 0 0 32)) (λ _ s p. p)

    pub prepare-Keeps : Keeps Idle (prepare s3k)
    unfolding prepare init
    prepare-Keeps s (p, stopped) =
        Keeps-bind Idle (lift (init s3k)) _ (lift-Idle (init s3k) (update-Keeps s3k P))
          (λ _. Keeps-bind Idle _ _ setup_monitor-Keeps λ _. setup_time_slices-Keeps) _
          (kept.deletes 6 _ (kept.deletes 5 _ (kept.deletes 4 _ p)), stopped)

    setup-Idle :
        (aes : Aes128) (app_bin : List ℕ)
        → is_authentic s3k aes app_bin ≡ false
        → Keeps Idle (setup s3k aes true app_bin)
    unfolding setup
    setup-Idle aes app_bin forged =
        Keeps-bind Idle (prepare s3k) _ prepare-Keeps
          λ _ s p. go (parse_executable app_pid app_bin) s p
      where
        go :
            (o : Outcome Process) (s : Monitor s3k)
            → Idle s
            → Ensures {S = Monitor s3k} {A = Unit {0}}
                (elim o [
                  | done app ↦
                      if true && not (is_authentic s3k aes app_bin)
                      then done (tt, s)
                      else (start_app s3k true app_bin app s)
                  | fault ↦ fault
                  | spin ↦ spin
                ])
                (λ _ s'. Idle s')
        go (done app) s p = rw forged p
        go fault s p = tt
        go spin s p = tt

module _ (s3k : S3k) (P : s3k.Kernel → Type 0) (kept : IsPrepared s3k P) where
  -- With `SECURITY`, an image whose signature is not the one computed for it is never loaded or
  -- started, and no capability is given to the app: where `setup` ends it has kept every predicate
  -- of the kernel's state that only such a call could end, and the app does not count as running.
  pub setup_refuses :
      (aes : Aes128) (app_bin : List ℕ) (s : Monitor s3k)
      → is_authentic s3k aes app_bin ≡ false
      → P s.caps.kernel
      → s.app_running ≡ false
      → Ensures (setup s3k aes true app_bin s) (λ _ s'. P s'.caps.kernel × (s'.app_running ≡ false))
  setup_refuses aes app_bin s forged p stopped =
      setup-Idle s3k P kept aes app_bin forged s (p, stopped)
