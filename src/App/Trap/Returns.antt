-- ===== src/App/Trap/Returns.antt =====
-- The trap handler comes to an end for every cause, and what it reports.
use s3k_monitor.Prelude.{
  ℕ, ◌-◌, ◌^◌, ◌≢◌, ◌≡◌, ◌⊎◌, inl, inr, Bool, true, false, arith, refl, ◌∙◌, List, some, ltb,
  length, set, length-set, get_elem?, get_elem?-some, get_elem?-set_self, ◌==◌, to_u64, to_int,
  pure, ◌>>=◌, ◌>>◌, Returns, Returns-bind, Returns-mono, zoom-Returns, Bool-cases, ℤ,
}
use s3k_monitor.S3k.{S3k, Message, ncap}
use s3k_monitor.S3k.Laws.{Laws}
use s3k_monitor.Capman.Table.{update}
use s3k_monitor.Capman.Coherent.Update.{update-IsCoherent}
use s3k_monitor.App.{Symbols, App, lift_caps, element, set_buf}
use s3k_monitor.App.Trap.{report, th_softreset, th_hardreset, request, conclude, refuse}

module _ (s3k : S3k) where
  -- The arrays have the lengths that the code declares.
  pub record IsReady (s : App s3k) : Type 0 where
    pub table : length s.caps.caps ≡ ncap
    pub sockets : length s.soccaps ≡ 8
    pub words : length s.buf ≡ 4

  -- The first word of the buffer, which is the last message sent.
  abbrev pub Says : ℕ → App s3k → Type 0
  Says w s = get_elem? s.buf 0 ≡ some w

  -- The last calls of the kernel, from the state `k`, sent the buffer with the word `w` in front to
  -- the monitor, and yielded.
  abbrev pub Reports : ℕ → s3k.Kernel → App s3k → Type 0
  Reports w k s =
      Says w s
      × (socket : ℕ) × (get_elem? s.soccaps 0 ≡ some socket)
      × (s.caps.kernel ≡ s3k.yield_time (s3k.send socket s.buf (2 ^ 64 - 1) false k))

  -- The buffer with a request in it.
  abbrev pub asking : ℕ → ℕ → App s3k → List ℕ
  asking sig_addr rwx s = set (set (set (set s.buf 0 0x02) 1 sig_addr) 2 0x00) 3 rwx

  -- What the kernel gives the app for the request, from the socket `source`.
  abbrev pub answered : ℕ → ℕ → ℕ → ℕ → ℕ → App s3k → Message (s3k.Kernel)
  answered idx sig_addr rwx to source s =
      let words = asking sig_addr rwx s in
      s3k.recv source words idx s.tag (s3k.send to words idx false s.caps.kernel)

  module _ (at : Symbols) where
    pub report-Returns :
        (w : ℕ) (s : App s3k)
        → IsReady s
        → Returns (report s3k at w s) (λ _ s'. IsReady s' × Reports w s.caps.kernel s')
    unfolding report
    report-Returns w s h =
        let room : ltb 0 (length s.buf) ≡ true = ground (arith, h.words) in
        let (socket, found) = get_elem?-some s.soccaps 0 (omega (arith, h.sockets)) in
        rw (room, found, ◌>>=◌, ◌>>◌, set_buf, element)
          (
            record { table = h.table; sockets = h.sockets; words = length-set s.buf 0 w ∙ h.words },
            (get_elem?-set_self s.buf 0 w (omega (arith, h.words)), socket, found, refl),
          )

    -- The kernel state with the two registers set.
    abbrev pub redirected : ℕ → s3k.Kernel → s3k.Kernel
    redirected entry k = s3k.setreg s3k.reg_esp at.stack_top (s3k.setreg s3k.reg_epc entry k)

    abbrev going_to : ℕ → App s3k → App s3k
    going_to entry s = record s {
      caps = record (s.caps) { kernel = redirected entry s.caps.kernel };
    }

    going_to-IsReady : (entry : ℕ) (s : App s3k) → IsReady s → IsReady (going_to entry s)
    going_to-IsReady entry s h = record { table = h.table; sockets = h.sockets; words = h.words }

    -- From the kernel state `k`, the app is sent to its loop with an empty stack, the failure is
    -- reported, and the handler does not go on.
    abbrev pub Refused : s3k.Kernel → Bool → App s3k → Type 0
    Refused k b s = (b ≡ false) × IsReady s × Reports 1 (redirected at.loop_entry k) s

    pub refuse-Returns :
        (s : App s3k) → IsReady s → Returns (refuse s3k at s) (λ b s'. Refused s.caps.kernel b s')
    unfolding refuse th_softreset
    refuse-Returns s h =
        let reset = going_to at.loop_entry s in
        Returns-bind (report s3k at 1) (λ _. pure false) reset _
          (λ b s'. Refused s.caps.kernel b s')
          (report-Returns 1 reset (going_to-IsReady at.loop_entry s h)) (λ _ s' q. (refl, q.0, q.1))

    pub th_hardreset-Returns :
        (s : App s3k)
        → IsReady s
        → Returns
            (th_hardreset s3k at s)
            (λ _ s'. IsReady s' × Reports 1 (redirected at.setup_entry s.caps.kernel) s')
    unfolding th_hardreset
    th_hardreset-Returns s h =
        report-Returns 1 (going_to at.setup_entry s) (going_to-IsReady at.setup_entry s h)

    -- What follows a request that has returned `err` in the state `m`: the handler goes on from there
    -- when `err` is 0, and else the app is reset.
    abbrev pub Decides : ℤ → App s3k → Bool → App s3k → Type 0
    Decides err m b s =
        ((to_u64 err ≡ 0) × (b ≡ true) × IsReady s × (s ≡ m))
        ⊎ ((to_u64 err ≢ 0) × Refused m.caps.kernel b s)

    pub conclude-Returns :
        (err : ℤ) (m : App s3k)
        → IsReady m
        → Returns (conclude s3k at err m) (λ b s'. Decides err m b s')
    unfolding conclude
    conclude-Returns err m h = elim (Bool-cases (to_u64 err == 0)) [
      | inl good ↦ rw good (inl (ground arith, refl, h, refl))
      | inr bad ↦
          let nonzero : to_u64 err ≢ 0 = ground arith in
          rw bad
            (Returns-mono (refuse s3k at m) _ _ (refuse-Returns m h) (λ b s' q. inr (nonzero, q)))
    ]

    module _ (laws : Laws s3k) where
      read_answer-Returns :
          (word : ℕ) (s : App s3k)
          → IsReady s
          → get_elem? s.buf 0 ≡ some word
          → Returns
              ((lift_caps (update s3k) >> (element (λ s. s.buf) 0 >>= λ word. pure (to_int word)))
                s)
              (λ err s'. (err ≡ to_int word) × IsReady s')
      read_answer-Returns word s h found =
          Returns-bind (lift_caps (update s3k)) _ s
            (λ _ s'. IsReady s' × (get_elem? s'.buf 0 ≡ some word))
            (λ err s'. (err ≡ to_int word) × IsReady s')
            (zoom-Returns (update s3k s.caps) (λ c. record s { caps = c }) _ _
              (update-IsCoherent s3k s.caps h.table)
              (λ _ c q. (record { table = q.0.size; sockets = h.sockets; words = h.words }, found)))
            (λ _ s' (ready, kept). rw (kept, element, ◌>>=◌) (refl, ready))

      length-asking :
          (sig_addr rwx : ℕ) (s : App s3k) → length (asking sig_addr rwx s) ≡ length s.buf
      length-asking sig_addr rwx s =
          length-set _ 3 rwx ∙ length-set _ 2 0 ∙ length-set _ 1 sig_addr ∙ length-set s.buf 0 2

      -- A request comes back with the word that the answer begins with.
      pub request-Answered :
          (idx sig_addr rwx to source word : ℕ) (s : App s3k)
          → IsReady s
          → get_elem? s.soccaps 0 ≡ some to
          → get_elem? s.soccaps 1 ≡ some source
          → get_elem? (answered idx sig_addr rwx to source s).words 0 ≡ some word
          → Returns (request s3k at idx sig_addr rwx s) (λ err s'. (err ≡ to_int word) × IsReady s')
      unfolding request
      request-Answered idx sig_addr rwx to source word s h first second came =
          let words = asking sig_addr rwx s in
          let k = s3k.send to words idx false s.caps.kernel in
          let m = answered idx sig_addr rwx to source s in
          let after : App s3k = record s {
            caps = record (s.caps) { kernel = m.kernel };
            buf = m.words;
            tag = m.tag;
          } in
          let ready : IsReady after = record {
            table = h.table;
            sockets = h.sockets;
            words =
                laws.length-recv source words idx s.tag k ∙ length-asking sig_addr rwx s ∙ h.words;
          } in
          let l0 = length-set s.buf 0 2 in
          let l1 = length-set (set s.buf 0 2) 1 sig_addr in
          let l2 = length-set (set (set s.buf 0 2) 1 sig_addr) 2 0 in
          let r0 : ltb 0 (length s.buf) ≡ true = ground (arith, h.words) in
          let r1 : ltb 1 (length (set s.buf 0 2)) ≡ true = ground (arith, h.words, l0) in
          let r2 : ltb 2 (length (set (set s.buf 0 2) 1 sig_addr)) ≡ true =
            ground (arith, h.words, l0, l1) in
          let r3 : ltb 3 (length (set (set (set s.buf 0 2) 1 sig_addr) 2 0)) ≡ true =
            ground (arith, h.words, l0, l1, l2) in
          rw (r0, ◌>>=◌, ◌>>◌, set_buf)
            (rw (r1, ◌>>=◌, ◌>>◌, set_buf)
              (rw (r2, ◌>>=◌, ◌>>◌, set_buf)
                (rw (r3, ◌>>=◌, ◌>>◌, set_buf)
                  (rw (first, ◌>>=◌, ◌>>◌, element)
                    (rw (second, ◌>>=◌, ◌>>◌, element)
                      (read_answer-Returns word after ready came))))))

      pub request-Returns :
          (idx sig_addr rwx : ℕ) (s : App s3k)
          → IsReady s
          → Returns (request s3k at idx sig_addr rwx s) (λ _ s'. IsReady s')
      request-Returns idx sig_addr rwx s h =
          let (to, first) = get_elem?-some s.soccaps 0 (omega (arith, h.sockets)) in
          let (source, second) = get_elem?-some s.soccaps 1 (omega (arith, h.sockets)) in
          let m = answered idx sig_addr rwx to source s in
          let size =
            laws.length-recv source (asking sig_addr rwx s) idx s.tag
              (s3k.send to (asking sig_addr rwx s) idx false s.caps.kernel)
            ∙ length-asking sig_addr rwx s
            ∙ h.words in
          let (word, came) = get_elem?-some m.words 0 (omega (arith, size)) in
          Returns-mono (request s3k at idx sig_addr rwx s) _ _
            (request-Answered idx sig_addr rwx to source word s h first second came) (λ _ s' q. q.1)
