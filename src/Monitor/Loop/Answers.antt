-- ===== src/Monitor/Loop/Answers.antt =====
-- How `loop` answers a message, on every branch.
use s3k_monitor.Prelude.{
  ℕ, subst, some, false, get_elem?, ◌≡◌, inl, inr, ◌∙◌, sym, refl, arith, ap, Bool, true, ◌==◌, set,
  length, length-set, get_elem?-some, ltb, done, fault, spin, Outcome, Run, ◌>>=◌, ◌>>◌, Returns,
  Returns-bind, Returns-mono, Bool-cases,
}
use s3k_monitor.S3k.{S3k, ncap}
use s3k_monitor.S3k.Laws.{Laws}
use s3k_monitor.Capman.{Caps}
use s3k_monitor.Capman.Table.{update}
use s3k_monitor.Capman.Replace.{update_pmp}
use s3k_monitor.Capman.Coherent.{IsCoherent}
use s3k_monitor.Capman.Coherent.Update.{update-IsCoherent}
use s3k_monitor.Capman.Coherent.Replacement.{Replacement, update_pmp-Replacement}
use s3k_monitor.Codeauth.{Aes128}
use s3k_monitor.Monitor.{Monitor, lift, element, set_buf}
use s3k_monitor.Monitor.Loop.{answer, apply_update}

module _ (s3k : S3k) where
  -- The arrays have the lengths that monitor.c declares.
  pub record IsSized (s : Monitor s3k) : Type 0 where
    pub table : length s.caps.caps ≡ ncap
    pub sockets : length s.soccaps ≡ 8
    pub words : length s.recv_buf ≡ 4

  -- The app runs as before, the sockets are as they were, and the arrays have their lengths.
  pub record SameVars (s s' : Monitor s3k) : Type 0 where
    pub running : s'.app_running ≡ s.app_running
    pub sockets : s'.soccaps ≡ s.soccaps
    pub sized : IsSized s'

  -- The kernel state is the one after the reply was sent from `k`, with the capability at 0x30 not
  -- given along.
  abbrev pub Sent : s3k.Kernel → ℕ → Monitor s3k → Monitor s3k → Type 0
  Sent k status s s' =
      (socket : ℕ) × (get_elem? s.soccaps 1 ≡ some socket)
      × (s'.caps.kernel ≡ s3k.send socket (set s.recv_buf 0 status) 0x30 false k)

  -- The replacement from the table `t`, which ended with the status and left the kernel state `k`.
  pub record Attempt (t : Caps s3k) (rwx status : ℕ) (k : s3k.Kernel) : Type 0 where
    pub mirrors : IsCoherent s3k t
    pub after : Caps s3k
    pub left : after.kernel ≡ k
    pub outcome :
        Replacement s3k 0x30
          (s3k.napot_begin (s3k.pmp_addr (s3k.getcap 0x30 t.kernel)))
          (s3k.napot_end (s3k.pmp_addr (s3k.getcap 0x30 t.kernel)))
          rwx
          t
          status
          after

  pub lift-Returns :
      {A : Type 0} (m : Run (Caps s3k) A) (s : Monitor s3k) (Q : A → Caps s3k → Type 0)
      → Returns (m s.caps) Q
      → Returns (lift m s) (λ a s'. Q a s'.caps × (s' ≡ record s { caps = s'.caps }))
  lift-Returns {A} m s Q h = go (m s.caps) h
    where
      go :
          (o : Outcome (A × Caps s3k))
          → Returns o Q
          → Returns {S = Monitor s3k} {A = A}
              (elim o [
                | done (a, c) ↦ done (a, record s { caps = c })
                | fault ↦ fault
                | spin ↦ spin
              ])
              (λ a s'. Q a s'.caps × (s' ≡ record s { caps = s'.caps }))
      go (done r) q = (q, refl)
      go fault q = absurd q
      go spin q = absurd q

  module _ (aes : Aes128) (secure : Bool) where
    -- An answer puts its status into the first word of the message and sends it.
    answer-Returns :
        (status : ℕ) (s : Monitor s3k)
        → IsSized s
        → Returns (answer s3k aes secure status s) (λ _ s'.
          Sent s.caps.kernel status s s' × (s'.recv_buf ≡ set s.recv_buf 0 status) × SameVars s s')
    unfolding answer
    answer-Returns status s h =
        let room : ltb 0 (length s.recv_buf) ≡ true = ground (arith, h.words) in
        let (socket, found) = get_elem?-some s.soccaps 1 (omega (arith, h.sockets)) in
        rw (room, found, ◌>>=◌, ◌>>◌, set_buf, element)
          (
            (socket, refl, refl),
            refl,
            record {
              running = refl;
              sockets = refl;
              sized = record {
                table = h.table;
                sockets = h.sockets;
                words = length-set s.recv_buf 0 status ∙ h.words;
              };
            },
          )

    pub update-Returns :
        (s : Monitor s3k)
        → IsSized s
        → Returns (lift (update s3k) s) (λ _ s'.
          IsCoherent s3k s'.caps
          × (s'.caps.kernel ≡ s.caps.kernel)
          × (s'.recv_buf ≡ s.recv_buf)
          × SameVars s s')
    update-Returns s h =
        Returns-mono (lift (update s3k) s) _ _
          (lift-Returns (update s3k) s _ (update-IsCoherent s3k s.caps h.table))
          (λ _ s' (q, e).
            let (whole, same, _) = q in
            (
              whole,
              same,
              ap (λ t. t.recv_buf) e,
              record {
                running = ap (λ t. t.app_running) e;
                sockets = ap (λ t. t.soccaps) e;
                sized = record {
                  table = whole.size;
                  sockets = ap (λ t. length t.soccaps) e ∙ h.sockets;
                  words = ap (λ t. length t.recv_buf) e ∙ h.words;
                };
              },
            ))

    pub SameVars-trans : {s s' s'' : Monitor s3k} → SameVars s s' → SameVars s' s'' → SameVars s s''
    SameVars-trans a b = record {
      running = b.running ∙ a.running;
      sockets = b.sockets ∙ a.sockets;
      sized = b.sized;
    }

    -- What an answer leaves in the message and in the other variables.
    abbrev pub Answers : ℕ → Monitor s3k → Monitor s3k → Type 0
    Answers status s s' = (s'.recv_buf ≡ set s.recv_buf 0 status) × SameVars s s'

    pub answer_and_update-Returns :
        (status : ℕ) (s : Monitor s3k)
        → IsSized s
        → Returns
            ((answer s3k aes secure status >> lift (update s3k)) s)
            (λ _ s'. Sent s.caps.kernel status s s' × Answers status s s')
    answer_and_update-Returns status s h =
        Returns-bind (answer s3k aes secure status) _ s _ _ (answer-Returns status s h)
          (λ _ s' ((socket, found, sent), words, same).
            Returns-mono (lift (update s3k) s') _ _ (update-Returns s' same.sized)
              (λ _ s'' (_, same_kernel, kept, same').
                ((socket, found, same_kernel ∙ sent), (kept ∙ words, SameVars-trans same same'))))

    -- A reply after a step that keeps the other variables is a reply before it.
    pub Sent-earlier :
        (k : s3k.Kernel) (status : ℕ) (s s₁ s' : Monitor s3k)
        → s₁.recv_buf ≡ s.recv_buf
        → SameVars s s₁
        → Sent k status s₁ s' × Answers status s₁ s'
        → Sent k status s s' × Answers status s s'
    Sent-earlier k status s s₁ s' same_words same ((socket, found, sent), (words, same')) = (
      (
        socket,
        sym (ap (λ t. get_elem? t 1) same.sockets) ∙ found,
        sent ∙ ap (λ t. s3k.send socket (set t 0 status) 0x30 false k) same_words,
      ),
      (words ∙ ap (λ t. set t 0 status) same_words, SameVars-trans same same'),
    )

  module _ (laws : Laws s3k) (aes : Aes128) (secure : Bool) where
    open s3k use {Kernel, Cap, captype, capty_pmp, pmp_addr, napot_begin, napot_end, getcap, recv}

    pub apply_update-Returns :
        (rwx : ℕ) (s : Monitor s3k)
        → IsSized s
        → IsCoherent s3k s.caps
        → Returns (apply_update s3k aes secure (getcap 0x30 s.caps.kernel) rwx s) (λ _ s'.
          (status : ℕ) × (k : Kernel) × Attempt s.caps rwx status k
          × Sent k status s s'
          × Answers aes secure status s s')
    unfolding apply_update
    apply_update-Returns rwx s h whole =
        let pmp = getcap 0x30 s.caps.kernel in
        let begin = napot_begin (pmp_addr pmp) in
        let end = napot_end (pmp_addr pmp) in
        Returns-bind (lift (update_pmp s3k 0x30 begin end rwx)) _ s _ _
          (lift-Returns (update_pmp s3k 0x30 begin end rwx) s _
            (update_pmp-Replacement s3k laws whole 0x30 (omega arith) begin end rwx))
          (λ err s' (q, e).
            let (whole', ended) = q in
            let try : Attempt s.caps rwx err s'.caps.kernel = record {
              mirrors = whole;
              after = s'.caps;
              left = refl;
              outcome = ended;
            } in
            let same : SameVars s s' = record {
              running = ap (λ t. t.app_running) e;
              sockets = ap (λ t. t.soccaps) e;
              sized = record {
                table = whole'.size;
                sockets = ap (λ t. length t.soccaps) e ∙ h.sockets;
                words = ap (λ t. length t.recv_buf) e ∙ h.words;
              };
            } in
            let words : s'.recv_buf ≡ s.recv_buf = ap (λ t. t.recv_buf) e in
            let earlier = Sent-earlier aes secure s'.caps.kernel err s s' in
            elim (Bool-cases (err == 0)) [
              | inr failed ↦ rw failed (
                  Returns-mono (answer s3k aes secure err s') _ _
                    (answer-Returns aes secure err s' same.sized)
                    (λ _ s'' (sent, words', same').
                      let (sent', answers) = earlier s'' words same (sent, (words', same')) in
                      (err, s'.caps.kernel, try, sent', answers)))
              | inl success ↦
                  let zero_err : err ≡ 0 = ground arith in
                  rw success (
                    Returns-mono ((answer s3k aes secure 0 >> lift (update s3k)) s') _ _
                      (answer_and_update-Returns aes secure 0 s' same.sized)
                      (λ _ s'' q.
                        let (sent', answers) = earlier s'' words same (
                          subst (λ n. Sent s'.caps.kernel n s' s'' × Answers aes secure n s' s'')
                            (sym zero_err) q) in
                        (err, s'.caps.kernel, try, sent', answers)))
            ])
