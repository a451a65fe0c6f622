-- ===== src/Monitor/Loop/Turns.antt =====
-- One whole run of `loop`: it returns, and what it did with the message.
use s3k_monitor.Prelude.{
  ℕ, suc, zero, ◌+◌, ◌-◌, ◌^◌, ◌≡◌, ◌≢◌, inl, inr, ◌∙◌, refl, arith, ap, subst, Bool, true, false,
  ◌==◌, if◌then◌else◌, some, get_elem?, get_elem?-some, u8, done, spin, ◌>>=◌, ◌>>◌, Returns,
  Returns-bind, Returns-mono, Bool-cases,
}
use s3k_monitor.S3k.{S3k}
use s3k_monitor.S3k.Laws.{Laws}
use s3k_monitor.Capman.Table.{update, get}
use s3k_monitor.Capman.Coherent.{load-eq_done}
use s3k_monitor.Codeauth.{Aes128}
use s3k_monitor.Monitor.{Monitor, lift, element}
use s3k_monitor.Monitor.Loop.{wait, receive, answer, check_update, handle_update, dispatch, loop}
use s3k_monitor.Monitor.Loop.Answers.{IsSized, SameVars, Sent-earlier, update-Returns}
use s3k_monitor.Monitor.Loop.Replies.{Reply, not_pmp, Replied, refuse-Returns, check_update-Returns}

module _ (s3k : S3k) where
  -- What `loop` has received from the socket, at its own count of runs.
  abbrev pub received : ℕ → Monitor s3k → Monitor s3k
  received socket s =
      let m = s3k.recv socket s.recv_buf 0x30 s.tag s.caps.kernel in
      record s {
        iloop = u8 (s.iloop + 1);
        recv_buf = m.words;
        tag = m.tag;
        caps = record (s.caps) { kernel = m.kernel };
      }

module _ (s3k : S3k) (laws : Laws s3k) (aes : Aes128) (secure : Bool) where
  open s3k use {Kernel, Cap, captype, capty_pmp, getcap, recv}

  -- What becomes of a message whose state is `s`: the app has finished, or its request is replied
  -- to, or the message is only printed.
  pub data Turn (s s' : Monitor s3k) : Type 0 where
    finished :
        get_elem? s.recv_buf 0 ≡ some (2 ^ 64 - 1)
        → s' ≡ record s { app_running = false }
        → Turn s s'
    replied :
        (rwx address : ℕ)
        → get_elem? s.recv_buf 0 ≡ some 2
        → get_elem? s.recv_buf 3 ≡ some rwx
        → get_elem? s.recv_buf 1 ≡ some address
        → Replied s3k laws aes secure rwx address s s'
        → Turn s s'
    printed :
        (word : ℕ)
        → get_elem? s.recv_buf 0 ≡ some word
        → word ≢ 2
        → word ≢ 2 ^ 64 - 1
        → s' ≡ s
        → Turn s s'

  -- A reply after an update of the table is a reply before it.
  Replied-earlier :
      (rwx address : ℕ) (s s₁ s' : Monitor s3k)
      → s₁.caps.kernel ≡ s.caps.kernel
      → s₁.recv_buf ≡ s.recv_buf
      → SameVars s3k s s₁
      → Replied s3k laws aes secure rwx address s₁ s'
      → Replied s3k laws aes secure rwx address s s'
  Replied-earlier rwx address s s₁ s' same_kernel same_words same
        (status, k', reply, sent, answers) =
      let (sent', answers') =
        Sent-earlier s3k aes secure k' status s s₁ s' same_words same (sent, answers) in
      (
        status,
        k',
        subst (λ k. Reply s3k laws aes secure k rwx address status k') same_kernel reply,
        sent',
        answers',
      )

  handle_update-Returns :
      (rwx address : ℕ) (s : Monitor s3k)
      → IsSized s3k s
      → get_elem? s.recv_buf 3 ≡ some rwx
      → get_elem? s.recv_buf 1 ≡ some address
      → Returns
          (handle_update s3k aes secure s)
          (λ _ s'. Replied s3k laws aes secure rwx address s s')
  unfolding handle_update get
  handle_update-Returns rwx address s h third first =
      Returns-bind (lift (update s3k)) _ s _ _ (update-Returns s3k aes secure s h)
        (λ _ s₁ (whole, same_kernel, same_words, same).
          let earlier = Replied-earlier rwx address s s₁ in
          let k = s₁.caps.kernel in
          let found =
            load-eq_done s3k 0x30 (getcap 0x30 k) s₁.caps (whole.mirror 0x30 (omega arith)) in
          rw (found, ◌>>=◌)
            (elim (Bool-cases (captype (getcap 0x30 k) == capty_pmp)) [
              | inr other ↦ rw other (
                  Returns-mono ((answer s3k aes secure 2 >> lift (update s3k)) s₁) _ _
                    (refuse-Returns s3k laws aes secure rwx address 2 s₁ same.sized
                      (not_pmp refl refl (ground arith)))
                    (λ _ s' q. earlier s' same_kernel same_words same q))
              | inl is_pmp ↦ rw is_pmp (
                  Returns-mono (check_update s3k aes secure (getcap 0x30 k) s₁) _ _
                    (check_update-Returns s3k laws aes secure rwx address s₁ same.sized whole
                      (ground arith) (ap (λ t. get_elem? t 3) same_words ∙ third)
                      (ap (λ t. get_elem? t 1) same_words ∙ first))
                    (λ _ s' q. earlier s' same_kernel same_words same q))
            ]))

  dispatch-Turn :
      (word : ℕ) (s : Monitor s3k)
      → IsSized s3k s
      → get_elem? s.recv_buf 0 ≡ some word
      → Returns (dispatch s3k aes secure word s) (λ _ s'. Turn s s')
  unfolding dispatch
  dispatch-Turn word s h head =
      let (rwx, third) = get_elem?-some s.recv_buf 3 (omega (arith, h.words)) in
      let (address, first) = get_elem?-some s.recv_buf 1 (omega (arith, h.words)) in
      elim (Bool-cases (word == 2 ^ 64 - 1)) [
        | inl last ↦
            let e : word ≡ 2 ^ 64 - 1 = ground arith in rw last (finished (head ∙ ap some e) refl)
        | inr other ↦ elim (Bool-cases (word == 2)) [
          | inl asks ↦
              let e : word ≡ 2 = ground arith in
              rw (other, asks)
                (Returns-mono (handle_update s3k aes secure s) _ _
                  (handle_update-Returns rwx address s h third first)
                  (λ _ s' q. replied rwx address (head ∙ ap some e) third first q))
          | inr noted ↦ rw (other, noted) (printed word head (ground arith) (ground arith) refl)
        ]
      ]

  if_false : {A : Type 0} (b : Bool) (x y : A) → b ≡ false → (if b then x else y) ≡ y
  if_false b x y e = rw e refl

  wait-done :
      (fuel : ℕ) (s : Monitor s3k)
      → s.app_running ≡ true
      → wait s3k aes secure (suc fuel) s ≡ done (tt, s)
  unfolding wait
  wait-done fuel s running = simp (running) refl

  wait-spin :
      (fuel : ℕ) (s : Monitor s3k) → s.app_running ≡ false → wait s3k aes secure fuel s ≡ spin
  unfolding wait
  wait-spin zero s stopped = refl
  wait-spin (suc fuel) s stopped =
      let rest =
        wait-spin fuel
          (record s { caps = record (s.caps) { kernel = s3k.yield_time s.caps.kernel } }) stopped in
      if_false s.app_running _ _ stopped ∙ rest

  receive-done :
      (socket : ℕ) (s : Monitor s3k)
      → get_elem? s.soccaps 0 ≡ some socket
      → receive s3k aes secure (record s { iloop = u8 (s.iloop + 1) })
        ≡ done (tt, received s3k socket s)
  unfolding receive
  receive-done socket s found = rw (found, ◌>>=◌, element) refl

  -- While the app is running and the arrays have their lengths, one run of `loop` ends for every
  -- message, without an access outside its arrays, and does with the message what `Turn` lists:
  -- the message -1 only marks the app as finished; the message 2 is replied to: the status stands
  -- in the first word, and the message was sent from the kernel state that the request had left,
  -- with the status and for the reason that `Reply` gives in the kernel state in which it was
  -- received; every other one changes nothing further. Where the checks pass, that status and that
  -- state are those of the replacement.
  pub loop-Turn :
      (fuel socket : ℕ) (s : Monitor s3k)
      → IsSized s3k s
      → s.app_running ≡ true
      → get_elem? s.soccaps 0 ≡ some socket
      → Returns (loop s3k aes secure (suc fuel) s) (λ _ s'. Turn (received s3k socket s) s')
  unfolding loop
  loop-Turn fuel socket s h running found =
      let m = recv socket s.recv_buf 0x30 s.tag s.caps.kernel in
      let sized : IsSized s3k (received s3k socket s) = record {
        table = h.table;
        sockets = h.sockets;
        words = laws.length-recv socket s.recv_buf 0x30 s.tag s.caps.kernel ∙ h.words;
      } in
      let (word, head) = get_elem?-some m.words 0 (omega (arith, sized.words)) in
      let waited = wait-done fuel (record s { iloop = u8 (s.iloop + 1) }) running in
      let arrived = receive-done socket s found in
      rw (waited, ◌>>=◌, ◌>>◌)
        (rw (arrived, ◌>>=◌, ◌>>◌)
          (rw (head, ◌>>=◌, ◌>>◌, element) (dispatch-Turn word (received s3k socket s) sized head)))

  -- Once the app has finished, `loop` never returns, however many rounds it is given.
  pub loop-spin :
      (fuel : ℕ) (s : Monitor s3k) → s.app_running ≡ false → loop s3k aes secure fuel s ≡ spin
  unfolding loop
  loop-spin fuel s stopped =
      let again = wait-spin fuel (record s { iloop = u8 (s.iloop + 1) }) stopped in
      rw (again, ◌>>=◌, ◌>>◌) refl
