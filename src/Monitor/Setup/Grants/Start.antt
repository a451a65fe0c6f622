-- ===== src/Monitor/Setup/Grants/Start.antt =====
-- The whole of `setup`.
use s3k_monitor.Prelude.{
  ℕ, ◌^◌, ◌-◌, ◌≡◌, true, false, not, ◌==◌, List, length, ltb, done, pure, Keeps, Keeps-bind,
  Keeps-if, Ensures, Ensures-bind, Bool-cases, inl, inr, modify,
}
use s3k_monitor.S3k.{S3k}
use s3k_monitor.Capman.Process.{mresume}
use s3k_monitor.Capman.Pmp.{getsoc}
use s3k_monitor.Capman.Frame.Calls.{mresume-Keeps, getsoc-Keeps}
use s3k_monitor.Codeauth.{Aes128}
use s3k_monitor.Monitor.{Monitor, call, element, app_base, app_pid, header_size}
use s3k_monitor.Monitor.Parse.{Process, parse_executable}
use s3k_monitor.Monitor.Setup.{
  setup, prepare, is_authentic, start_app, load_app, setup_app, setup_ipc, get_socs, await_app,
  drop,
}
use s3k_monitor.Monitor.Setup.Refusal.{prepare-Keeps}
use s3k_monitor.Monitor.Loop.Policy.{element-Keeps}
use s3k_monitor.Monitor.Setup.Grants.{
  Apart, AllApart, IsGuarded, guarded-IsKept, guarded-IsPrepared,
}
use s3k_monitor.Monitor.Setup.Grants.Sections.{after, setup_app-Keeps, setup_ipc-Keeps}

module _ (s3k : S3k) (aes : Aes128) (P : s3k.Kernel → Type 0) where
  module _ (kept : IsGuarded s3k P) (apart : Apart s3k.rw_perm) where
    open s3k use {yield_time, recv}

    abbrev Holds : Monitor s3k → Type 0
    Holds s = P s.caps.kernel

    load_app-Keeps : (app_bin : List ℕ) → Keeps Holds (load_app s3k app_bin)
    unfolding load_app
    load_app-Keeps app_bin s p = elim (Bool-cases (ltb (length app_bin) header_size)) [
      | inl short ↦ rw short tt
      | inr long ↦ rw long (kept.copies app_base (drop header_size app_bin) s.caps.kernel p)
    ]

    get_socs-Keeps : Keeps Holds (get_socs s3k)
    unfolding get_socs
    get_socs-Keeps s p =
        after s3k aes P kept apart (getsoc s3k s.soccaps)
          (λ found. modify (λ s. record s { soccaps = found })) (getsoc-Keeps s3k P s.soccaps)
          (λ _ s' q. q) s p

    await_app-Keeps : Keeps Holds (await_app s3k)
    unfolding await_app
    await_app-Keeps =
        Keeps-bind Holds (element (λ s. s.soccaps) 0) _
          (element-Keeps s3k aes P (guarded-IsKept s3k aes P kept apart) (λ s. s.soccaps) 0)
          λ socket s p.
            let m = recv socket s.recv_buf (2 ^ 64 - 1) s.tag s.caps.kernel in
            let t : Monitor s3k = record s {
              recv_buf = m.words;
              tag = m.tag;
              caps = record (s.caps) { kernel = m.kernel };
            } in
            Keeps-bind Holds (element (λ s. s.recv_buf) 0) _
              (element-Keeps s3k aes P (guarded-IsKept s3k aes P kept apart) (λ s. s.recv_buf) 0)
              (λ word.
                Keeps-if Holds (not (word == 2 ^ 64 - 1)) (pure tt)
                  (modify (λ s. record s { app_running = true })) (λ s p. p) (λ s p. p))
              t (kept.receives socket s.recv_buf (2 ^ 64 - 1) s.tag s.caps.kernel p)

    start_app-Keeps :
        (app_bin : List ℕ) (app : Process)
        → AllApart app.header
        → Keeps Holds (start_app s3k true app_bin app)
    unfolding start_app
    start_app-Keeps app_bin app fine =
        Keeps-bind Holds (load_app s3k app_bin) _ (load_app-Keeps app_bin) λ _.
          Keeps-bind Holds (setup_app s3k true app) _
            (setup_app-Keeps s3k aes P kept apart app fine)
            λ _. Keeps-bind Holds (setup_ipc s3k) _ (setup_ipc-Keeps s3k aes P kept apart) λ _.
              Keeps-bind Holds (get_socs s3k) _ get_socs-Keeps λ _.
                Keeps-bind Holds (call {s3k = s3k} yield_time) _
                  (λ s p. kept.yields s.caps.kernel p)
                  λ _.
                    after s3k aes P kept apart (mresume s3k app_pid) _
                      (mresume-Keeps s3k P kept.resumes app_pid) λ _. await_app-Keeps

    -- `setup` for an image that the parser reads, authentic or not, none of whose sections asks for
    -- writing and executing.
    pub setup-Keeps :
        (app_bin : List ℕ) (app : Process) (s : Monitor s3k)
        → parse_executable app_pid app_bin ≡ done app
        → AllApart app.header
        → Holds s
        → s.app_running ≡ false
        → Ensures (setup s3k aes true app_bin s) (λ _ s'. Holds s')
    unfolding setup
    setup-Keeps app_bin app s parsed fine p stopped =
        Ensures-bind (prepare s3k) _ s (λ _ s'. P s'.caps.kernel × (s'.app_running ≡ false))
          (λ _ s'. Holds s')
          (prepare-Keeps s3k P (guarded-IsPrepared s3k aes P kept apart) s (p, stopped))
          (λ _ s' q. elim (Bool-cases (not (is_authentic s3k aes app_bin))) [
            | inl forged ↦ rw (parsed, forged) (q.0)
            | inr good ↦ rw (parsed, good) (start_app-Keeps app_bin app fine s' q.0)
          ])
