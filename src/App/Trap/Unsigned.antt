-- ===== src/App/Trap/Unsigned.antt =====
-- A fetch fault (app/trap.c) in code that the monitor (monitor/monitor.c) finds not to be signed.
use s3k_monitor.Prelude.{
  ℕ, suc, ◌+◌, ◌*◌, ◌≤◌, ◌≡◌, inl, inr, ◌∙◌, sym, ap, arith, subst, Bool, true, false, some,
  get_elem?, done, ◌>>=◌, Returns, Returns-mono,
}
use s3k_monitor.S3k.{S3k}
use s3k_monitor.S3k.Laws.{Laws}
use s3k_monitor.Capman.Coherent.{IsCoherent}
use s3k_monitor.Altmem.{chunk_size, max_chunks}
use s3k_monitor.Altmem.Valid.{IsHeap}
use s3k_monitor.Altmem.Lookup.{InChunk}
use s3k_monitor.Codeauth.{Aes128}
use s3k_monitor.Monitor.{Monitor}
use s3k_monitor.Monitor.Loop.{loop, is_signed}
use s3k_monitor.Monitor.Loop.Answers.{IsSized}
use s3k_monitor.Monitor.Loop.Replies.{Reply, not_pmp, forbidden, unverified, attempted}
use s3k_monitor.Monitor.Loop.Turns.{received}
use s3k_monitor.App.{Symbols, App}
use s3k_monitor.App.Trap.{fetch_fault, execute_chunk, request, conclude, refuse}
use s3k_monitor.App.Trap.Returns.{IsReady, asking, answered, Refused, refuse-Returns}
use s3k_monitor.App.Trap.Faults.{fetch_fault_lem}
use s3k_monitor.App.Trap.Requests.{execute_chunk-write_chunk}
use s3k_monitor.App.Trap.Exchange.{Concluded, request-loop}

-- An address lies in one chunk only.
same_chunk : (heap i k addr : ℕ) → InChunk heap i addr → InChunk heap k addr → i ≡ k
same_chunk heap i k addr p q = omega (arith, p, q)

module _ (s3k : S3k) (laws : Laws s3k) (aes : Aes128) where
  -- The status 0 is never replied to a request to execute what is not signed.
  never_granted :
      (k k' : s3k.Kernel) (address status : ℕ)
      → is_signed s3k aes true k address ≡ false
      → Reply s3k laws aes true k 5 address status k'
      → status ≡ 0
      → ⊥
  never_granted k k' address status unsigned (not_pmp e _ _) z = ground (arith, e, z)
  never_granted k k' address status unsigned (forbidden e _ _ _ _) z = ground (arith, e, z)
  never_granted k k' address status unsigned (unverified e _ _ _ _ _ _) z = ground (arith, e, z)
  never_granted k k' address status unsigned (attempted _ checks _ _ _) z = elim checks [
    | inl insecure ↦ absurd (ground (arith, insecure))
    | inr (_, inl not_executable) ↦ absurd (ground (arith, not_executable))
    | inr (_, inr verified) ↦ absurd (ground (arith, verified, unsigned))
  ]

  module _ (at : Symbols) {heap n : ℕ} {used : ℕ → Bool} (a : App s3k)
      (h : IsHeap heap n used a.heap) (room : n ≤ max_chunks) (whole : IsCoherent s3k a.caps) where
    no_other_end :
        (r s' : Monitor s3k) (idx address : ℕ) (b : Bool) (a' : App s3k)
        → is_signed s3k aes true r.caps.kernel address ≡ false
        → Concluded s3k laws aes true at r s' idx address 5 a b a'
        → (k : s3k.Kernel) × Refused s3k at k b a'
    no_other_end r s' idx address b a' unsigned (status, k', reply, _, _, m, _, ended) =
        elim ended [
          | inl (z, _, _, _) ↦
              absurd (never_granted r.caps.kernel k' address status unsigned reply z)
          | inr (_, refused) ↦ (m.caps.kernel, refused)
        ]

    -- With `SECURITY`, the app faults on a fetch in a chunk of its heap, and the running monitor,
    -- in the state in which it has received a request to execute that chunk, does not find at the
    -- start of the chunk what is signed; `loop` ends in `s'`, and the words that arrive at the app,
    -- for whichever capability it has sent, are those that `loop` has left. Then the handling of
    -- the fault returns and does not go on: the last calls of the kernel set the registers for the
    -- app's loop with an empty stack, send the word 1 to the monitor, and yield. The heap has at
    -- most 16 chunks and is laid out, the app's table mirrors the kernel's, and the arrays of both
    -- have their lengths.
    pub fetch_fault-unsigned :
        (k epc fuel socket to source : ℕ) (s s' : Monitor s3k)
        → let r = received s3k socket s in
          let address = heap + k * chunk_size in
          InChunk heap k epc
          → is_signed s3k aes true r.caps.kernel address ≡ false
          → IsSized s3k s
          → s.app_running ≡ true
          → get_elem? s.soccaps 0 ≡ some socket
          → loop s3k aes true (suc fuel) s ≡ done (tt, s')
          → IsReady s3k a
          → get_elem? a.soccaps 0 ≡ some to
          → get_elem? a.soccaps 1 ≡ some source
          → r.recv_buf ≡ asking s3k address 5 a
          → ((idx : ℕ) → (answered s3k idx address 5 to source a).words ≡ s'.recv_buf)
          → Returns (fetch_fault s3k at epc a) (λ b a'. (k' : s3k.Kernel) × Refused s3k at k' b a')
    fetch_fault-unsigned k epc fuel socket to source s s' inside unsigned sized running found ran
          ready first second sent came =
        let r = received s3k socket s in
        let Q : Bool → App s3k → Type 0 = λ b a'. (k' : s3k.Kernel) × Refused s3k at k' b a' in
        elim (fetch_fault_lem s3k at a h room epc) [
          | inr (_, e) ↦
              subst (λ o. Returns o Q) (sym e)
                (Returns-mono (refuse s3k at a) _ _ (refuse-Returns s3k at a ready)
                  (λ b a' q. (a.caps.kernel, q)))
          | inl (i, _, _, below, here, _, e) ↦
              let same = same_chunk heap i k epc here inside in
              let (j, _, asks, _) =
                execute_chunk-write_chunk s3k at a h room whole k (omega (arith, below, same)) in
              let asked = e ∙ ap (λ i. execute_chunk s3k at i a) same ∙ asks in
              subst (λ o. Returns o Q) (sym asked)
                (Returns-mono ((request s3k at j (heap + k * chunk_size) 5 >>= conclude s3k at) a) _
                  _
                  (request-loop s3k laws aes true at fuel socket j 5 (heap + k * chunk_size) to
                    source s s' a sized running found ran ready first second sent (came j))
                  (λ b a' q. no_other_end r s' j (heap + k * chunk_size) b a' unsigned q))
        ]
