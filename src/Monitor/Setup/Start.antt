-- ===== src/Monitor/Setup/Start.antt =====
-- `setup` ends, and leaves a monitor that `loop` can run on.
use s3k_monitor.Prelude.{
  ℕ, ◌-◌, ◌^◌, ◌≡◌, ◌≤◌, ◌∙◌, inl, inr, Bool, false, ◌&&◌, not, if◌then◌else◌, ◌==◌, arith, List,
  length, ltb, add64, done, fault, spin, Returns, Returns-bind, zoom-Returns, ◌>>=◌, ◌>>◌,
  get_elem?-some, Bool-cases,
}
use s3k_monitor.S3k.{S3k}
use s3k_monitor.S3k.Laws.{Laws, Quiet}
use s3k_monitor.Codeauth.{Aes128}
use s3k_monitor.Monitor.{
  Monitor, lift, call, element, app_base, uart_base, app_size, app_pid, header_size,
}
use s3k_monitor.Monitor.Parse.{Process, parse_executable}
use s3k_monitor.Monitor.Setup.{
  setup_time_slices, setup_ipc, setup_monitor, load_app, await_app, start_app, prepare,
  is_authentic, setup,
}
use s3k_monitor.Capman.Table.{init}
use s3k_monitor.Capman.Coherent.Update.{update-IsCoherent}
use s3k_monitor.Monitor.Loop.Answers.{IsSized}
use s3k_monitor.Monitor.Setup.Steady.{
  Leads, Leads-bind, IsSteady, Steady, Steady-bind, call-Steady, derive_pmp-Steady,
  derive_time-Steady, derive_socket-Steady, mgivecap-Steady, mresume-Steady, set_pmpcap-Steady,
  set_pmps-Steady, get_socs-Steady,
}
use s3k_monitor.Monitor.Setup.Sections.{AllDivisible, setup_app-Steady}

module _ (s3k : S3k) (laws : Laws s3k) (quiet : Quiet s3k) where
  open s3k use {rw_perm}

  setup_ipc-Steady : Steady s3k (setup_ipc s3k)
  unfolding setup_ipc
  setup_ipc-Steady = Steady-bind s3k _ _ (derive_socket-Steady s3k laws quiet _ 0 0) λ _.
      Steady-bind s3k _ _ (derive_socket-Steady s3k laws quiet 0x20 0 1) λ _.
        Steady-bind s3k _ _ (mgivecap-Steady s3k laws quiet app_pid 0x20 _ (omega arith)) λ _.
          Steady-bind s3k _ _ (derive_socket-Steady s3k laws quiet 0x20 1 0) λ _.
            Steady-bind s3k _ _ (derive_socket-Steady s3k laws quiet _ 1 1) λ _.
              Steady-bind s3k _ _ (mgivecap-Steady s3k laws quiet app_pid 0x20 _ (omega arith))
                λ _ s p. p

  setup_monitor-Steady : Steady s3k (setup_monitor s3k)
  unfolding setup_monitor
  setup_monitor-Steady =
      Steady-bind s3k _ _
        (derive_pmp-Steady s3k laws quiet 0x09 uart_base (add64 uart_base 0x100) rw_perm)
        λ _. Steady-bind s3k _ _ (set_pmpcap-Steady s3k laws quiet 2 0x09 (omega arith)) λ _.
          Steady-bind s3k _ _
            (derive_pmp-Steady s3k laws quiet 0xc app_base (add64 app_base app_size) rw_perm)
            λ _. Steady-bind s3k _ _ (set_pmpcap-Steady s3k laws quiet 1 0xc (omega arith)) λ _.
              Steady-bind s3k _ _ (set_pmps-Steady s3k laws quiet)
                λ _. set_pmps-Steady s3k laws quiet

  setup_time_slices-Steady : Steady s3k (setup_time_slices s3k)
  unfolding setup_time_slices
  setup_time_slices-Steady =
      Steady-bind s3k _ _ (derive_time-Steady s3k laws quiet 0x18 0 0 32) λ _ s p. p

  load_app-Steady :
      (app_bin : List ℕ) → header_size ≤ length app_bin → Steady s3k (load_app s3k app_bin)
  unfolding load_app
  load_app-Steady app_bin long s p =
      let enough : ltb (length app_bin) header_size ≡ false = ground arith in
      rw enough (call-Steady s3k _ (quiet.memcpy_same app_base _) s p)

  await_app-IsSized : Leads s3k (await_app s3k) (IsSized s3k)
  unfolding await_app
  await_app-IsSized s p =
      let (socket, found) = get_elem?-some s.soccaps 0 (omega (arith, p.sockets)) in
      let m = s3k.recv socket s.recv_buf (2 ^ 64 - 1) s.tag s.caps.kernel in
      let four = laws.length-recv socket s.recv_buf (2 ^ 64 - 1) s.tag s.caps.kernel ∙ p.words in
      let (word, head) = get_elem?-some m.words 0 (omega (arith, four)) in
      rw (found, ◌>>=◌, element)
        (rw (head, ◌>>=◌, element)
          (elim (Bool-cases (not (word == 2 ^ 64 - 1))) [
            | inl other ↦
                rw other (record { table = p.whole.size; sockets = p.sockets; words = four })
            | inr started ↦
                rw started (record { table = p.whole.size; sockets = p.sockets; words = four })
          ]))

  start_app-IsSized :
      (secure : Bool) (app_bin : List ℕ) (app : Process)
      → header_size ≤ length app_bin
      → AllDivisible app.header
      → Leads s3k (start_app s3k secure app_bin app) (IsSized s3k)
  unfolding start_app
  start_app-IsSized secure app_bin app long fine =
      let Q = IsSized s3k in
      Leads-bind s3k _ _ Q (load_app-Steady app_bin long) λ _.
        Leads-bind s3k _ _ Q (setup_app-Steady s3k laws quiet secure app fine) λ _.
          Leads-bind s3k _ _ Q setup_ipc-Steady λ _.
            Leads-bind s3k _ _ Q (get_socs-Steady s3k laws quiet) λ _.
              Leads-bind s3k (call {s3k = s3k} s3k.yield_time) _ Q
                (call-Steady s3k s3k.yield_time quiet.yield_same)
                λ _.
                  Leads-bind s3k _ _ Q (mresume-Steady s3k laws quiet app_pid)
                    λ _. await_app-IsSized

  prepare-Steady :
      (s : Monitor s3k)
      → IsSized s3k s
      → length s.pmpcaps ≡ 8
      → Returns (prepare s3k s) (λ _ s'. IsSteady s3k s')
  unfolding prepare init
  prepare-Steady s h eight =
      let k = (s3k.delcap 6 (s3k.delcap 5 (s3k.delcap 4 s.caps.kernel).1).1).1 in
      let t : Monitor s3k = record s { caps = record (s.caps) { kernel = k } } in
      Returns-bind (lift (init s3k)) (λ _. setup_monitor s3k >> setup_time_slices s3k) t
        (λ _ s'. IsSteady s3k s') _
        (zoom-Returns (init s3k t.caps) (λ c. record t { caps = c }) _ _
          (update-IsCoherent s3k t.caps h.table)
          (λ _ c q. record { whole = q.0; pmps = eight; sockets = h.sockets; words = h.words }))
        (λ _. Steady-bind s3k _ _ setup_monitor-Steady λ _. setup_time_slices-Steady)

  -- What stands behind the preparation, on what the parser made of the image.
  verified-IsSized :
      (aes : Aes128) (secure : Bool) (app_bin : List ℕ) (app : Process)
      → parse_executable app_pid app_bin ≡ done app
      → header_size ≤ length app_bin
      → AllDivisible app.header
      → (s : Monitor s3k) → IsSteady s3k s
      → Returns {S = Monitor s3k} {A = Unit {0}}
          (elim (parse_executable app_pid app_bin) [
            | done app ↦
                if secure && not (is_authentic s3k aes app_bin)
                then done (tt, s)
                else (start_app s3k secure app_bin app s)
            | fault ↦ fault
            | spin ↦ spin
          ])
          (λ _ s'. IsSized s3k s')
  verified-IsSized aes secure app_bin app parsed long fine s p =
      elim (Bool-cases (secure && not (is_authentic s3k aes app_bin))) [
        | inl forged ↦
            rw (parsed, forged)
              (record { table = p.whole.size; sockets = p.sockets; words = p.words })
        | inr good ↦ rw (parsed, good) (start_app-IsSized secure app_bin app long fine s p)
      ]

  -- For an authentic image and for a forged one.
  pub setup-IsSized :
      (aes : Aes128) (secure : Bool) (app_bin : List ℕ) (app : Process) (s : Monitor s3k)
      → parse_executable app_pid app_bin ≡ done app
      → header_size ≤ length app_bin
      → AllDivisible app.header
      → IsSized s3k s
      → length s.pmpcaps ≡ 8
      → Returns (setup s3k aes secure app_bin s) (λ _ s'. IsSized s3k s')
  unfolding setup
  setup-IsSized aes secure app_bin app s parsed long fine h eight =
      Returns-bind (prepare s3k) _ s (λ _ s'. IsSteady s3k s') (λ _ s'. IsSized s3k s')
        (prepare-Steady s h eight)
        (λ _ s' p. verified-IsSized aes secure app_bin app parsed long fine s' p)
