-- ===== src/Monitor/Lifetime.antt =====
-- The monitor over its whole life: every number of runs of `loop`, whatever messages come in.
use s3k_monitor.Prelude.{
  ℕ, List, length, ◌≤◌, suc, zero, ◌≡◌, ◌⊎◌, inl, inr, ◌∙◌, sym, arith, subst, true, false,
  get_elem?-some, done, spin, Returns, Returns-mono, Ensures, Bool-cases,
}
use s3k_monitor.S3k.{S3k}
use s3k_monitor.S3k.Laws.{Laws, Quiet}
use s3k_monitor.Codeauth.{Aes128}
use s3k_monitor.Monitor.{Monitor, app_pid, header_size}
use s3k_monitor.Monitor.Parse.{Process, parse_executable}
use s3k_monitor.Monitor.Setup.{setup}
use s3k_monitor.Monitor.Setup.Sections.{AllDivisible}
use s3k_monitor.Monitor.Setup.Start.{setup-IsSized}
use s3k_monitor.Monitor.Loop.{wait, loop}
use s3k_monitor.Monitor.Loop.Answers.{IsSized}
use s3k_monitor.Monitor.Loop.Policy.{IsKept, loop_only_permitted}
use s3k_monitor.Monitor.Loop.Turns.{
  Turn, finished, replied, printed, received, loop-Turn, loop-spin,
}

module _ (s3k : S3k) (aes : Aes128) where
  -- The states that any number of runs of `loop` leads to, with `SECURITY` defined.
  pub data Runs (s : Monitor s3k) : Monitor s3k → Type 0 where
    no_run : Runs s s
    turn :
        (s₁ s₂ : Monitor s3k) (fuel : ℕ)
        → Runs s s₁
        → loop s3k aes true fuel s₁ ≡ done (tt, s₂)
        → Runs s s₂

  module _ (laws : Laws s3k) where
    Turn-IsSized :
        (s s' : Monitor s3k) → IsSized s3k s → Turn s3k laws aes true s s' → IsSized s3k s'
    Turn-IsSized s s' h (finished _ e) =
        subst (IsSized s3k) (sym e)
          (record { table = h.table; sockets = h.sockets; words = h.words })
    Turn-IsSized s s' h (replied _ _ _ _ _ (_, _, _, _, (_, same))) = same.sized
    Turn-IsSized s s' h (printed _ _ _ _ e) = subst (IsSized s3k) (sym e) h

    loop-IsSized :
        (fuel : ℕ) (s : Monitor s3k)
        → IsSized s3k s
        → s.app_running ≡ true
        → Returns (loop s3k aes true (suc fuel) s) (λ _ s'. IsSized s3k s')
    loop-IsSized fuel s h running =
        let (socket, found) = get_elem?-some s.soccaps 0 (omega (arith, h.sockets)) in
        let sized : IsSized s3k (received s3k socket s) = record {
          table = h.table;
          sockets = h.sockets;
          words = laws.length-recv socket s.recv_buf 0x30 s.tag s.caps.kernel ∙ h.words;
        } in
        Returns-mono (loop s3k aes true (suc fuel) s) _ _
          (loop-Turn s3k laws aes true fuel socket s h running found)
          (λ _ s' t. Turn-IsSized (received s3k socket s) s' sized t)

    ended-IsSized :
        (fuel : ℕ) (s s' : Monitor s3k)
        → IsSized s3k s
        → loop s3k aes true fuel s ≡ done (tt, s')
        → IsSized s3k s'
    unfolding loop wait
    ended-IsSized zero s s' h ended = absurd (subst (λ o. Returns o (λ _ _. Unit)) (sym ended) tt)
    ended-IsSized (suc fuel) s s' h ended = elim (Bool-cases s.app_running) [
      | inl running ↦
          subst (λ o. Returns o (λ _ t. IsSized s3k t)) ended (loop-IsSized fuel s h running)
      | inr stopped ↦ absurd (
          subst (λ o. Returns o (λ _ _. Unit))
            (sym ended ∙ loop-spin s3k laws aes true (suc fuel) s stopped) tt)
    ]

    module _ (P : s3k.Kernel → Type 0) (kept : IsKept s3k aes P) where
      Runs-kept :
          (s s' : Monitor s3k)
          → Runs s s'
          → IsSized s3k s
          → P s.caps.kernel
          → IsSized s3k s' × P s'.caps.kernel
      Runs-kept s s' no_run h p = (h, p)
      Runs-kept s s' (turn s₁ s₂ fuel before ended) h p =
          let (sized, holds) = Runs-kept s s₁ before h p in
          (
            ended-IsSized fuel s₁ s₂ sized ended,
            subst (λ o. Ensures o (λ _ t. P t.caps.kernel)) ended
                (loop_only_permitted s3k aes P kept fuel s₁ holds),
          )

      -- With `SECURITY`, from arrays of the lengths that the code declares, after any number of
      -- runs of `loop`, whatever messages came in: every predicate of the kernel's state still
      -- holds that holds on through permitted derivations, moves, deletions, waiting and
      -- messages; the arrays have those lengths; and either the app is running, and the next run
      -- of `loop` ends again, or it has finished, and `loop` never returns.
      pub lifetime_permitted :
          (s s' : Monitor s3k)
          → Runs s s'
          → IsSized s3k s
          → P s.caps.kernel
          → P s'.caps.kernel
            × IsSized s3k s'
            × (((s'.app_running ≡ true)
                  × ((fuel : ℕ) → Returns (loop s3k aes true (suc fuel) s') (λ _ _. Unit {0})))
                ⊎ ((s'.app_running ≡ false) × ((fuel : ℕ) → loop s3k aes true fuel s' ≡ spin)))
      lifetime_permitted s s' runs h p =
          let (sized, holds) = Runs-kept s s' runs h p in
          (
            holds,
            sized,
            elim (Bool-cases s'.app_running) [
              | inl running ↦ inl (
                running,
                λ fuel.
                    Returns-mono (loop s3k aes true (suc fuel) s') _ _
                      (loop-IsSized fuel s' sized running) (λ _ _ _. tt),
              )
              | inr stopped ↦ inr (stopped, λ fuel. loop-spin s3k laws aes true fuel s' stopped)
            ],
          )

    anything-IsKept : IsKept s3k aes (λ _. Unit {0})
    anything-IsKept = record {
      moves = λ _ _ _ _. tt;
      deletes = λ _ _ _. tt;
      yields = λ _ _. tt;
      sends = λ _ _ _ _ _ _. tt;
      receives = λ _ _ _ _ _ _. tt;
      derives = λ _ _ _ _ _ _ _. tt;
    }

    -- From the start to any later time, with `SECURITY`: for an image of 512 bytes or more that
    -- the parser reads, authentic or not, with no `.heap` section of exactly one chunk, or of
    -- 2^63 or more, `setup` returns without an access outside its arrays; and after any number of
    -- runs of `loop` that follow, the arrays have the lengths that the code declares, and either
    -- the app is running and the next run of `loop` ends again, or it is not and `loop` never
    -- returns. The arrays have those lengths at the start, and the kernel has its laws.
    pub setup-Runs :
        Quiet s3k
        → (app_bin : List ℕ) (app : Process) (s : Monitor s3k)
        → parse_executable app_pid app_bin ≡ done app
        → header_size ≤ length app_bin
        → AllDivisible app.header
        → IsSized s3k s
        → length s.pmpcaps ≡ 8
        → Returns (setup s3k aes true app_bin s) (λ _ s₁.
          (s₂ : Monitor s3k)
          → Runs s₁ s₂
          → IsSized s3k s₂
            × (((s₂.app_running ≡ true)
                  × ((fuel : ℕ) → Returns (loop s3k aes true (suc fuel) s₂) (λ _ _. Unit {0})))
                ⊎ ((s₂.app_running ≡ false) × ((fuel : ℕ) → loop s3k aes true fuel s₂ ≡ spin))))
    setup-Runs quiet app_bin app s parsed long fine h eight =
        Returns-mono (setup s3k aes true app_bin s) _ _
          (setup-IsSized s3k laws quiet aes true app_bin app s parsed long fine h eight)
          (λ _ s₁ sized s₂ runs.
            let all = lifetime_permitted (λ _. Unit {0}) anything-IsKept s₁ s₂ runs sized tt in
            (all.1, all.2))
