-- ===== src/App/Trap/Exchange.antt =====
-- A request of the app (app/trap.c) that meets the reply of `loop` (monitor/monitor.c).
use s3k_monitor.Prelude.{
  ℕ, List, [], ◌∷◌, ◌%◌, suc, ◌^◌, ◌<◌, ◌≤◌, ◌≡◌, ◌≢◌, ◌⊎◌, ◌∙◌, sym, refl, arith, ap, subst, Bool,
  true, some, ltb, length, get_elem?, get_elem?-set_self, set, done, to_int, to_u64, ◌>>=◌, Returns,
  Returns-bind, Returns-mono, Returns-run,
}
use s3k_monitor.S3k.{S3k}
use s3k_monitor.S3k.Laws.{Laws}
use s3k_monitor.Capman.{Caps}
use s3k_monitor.Capman.Coherent.Replacement.{
  Replacement, replaced, full, underivable, nothing_there, not_moved,
}
use s3k_monitor.Codeauth.{Aes128}
use s3k_monitor.Monitor.{Monitor}
use s3k_monitor.Monitor.Loop.{loop}
use s3k_monitor.Monitor.Loop.Answers.{IsSized, Sent}
use s3k_monitor.Monitor.Loop.Replies.{Reply, not_pmp, forbidden, unverified, attempted}
use s3k_monitor.Monitor.Loop.Asked.{Turn-asked}
use s3k_monitor.Monitor.Loop.Turns.{Turn, received, loop-Turn}
use s3k_monitor.App.{Symbols, App}
use s3k_monitor.App.Trap.{request, conclude}
use s3k_monitor.App.Trap.Returns.{
  IsReady, asking, answered, Refused, conclude-Returns, request-Answered,
}

to_u64-to_int : (status : ℕ) → status ≤ 4 → to_u64 (to_int status) ≡ status
to_u64-to_int status p =
    let small : ltb (status % 2 ^ 32) (2 ^ 31) ≡ true = ground (arith, p) in
    rw small (omega (arith, p))

-- A buffer of four words after four stores.
set_all :
    (ws : List ℕ) (a b c d : ℕ)
    → length ws ≡ 4
    → set (set (set (set ws 0 a) 1 b) 2 c) 3 d ≡ a ∷ b ∷ c ∷ d ∷ []
set_all [] a b c d e = absurd (omega (arith, e))
set_all (w ∷ []) a b c d e = absurd (omega (arith, e))
set_all (w ∷ x ∷ []) a b c d e = absurd (omega (arith, e))
set_all (w ∷ x ∷ y ∷ []) a b c d e = absurd (omega (arith, e))
set_all (w ∷ x ∷ y ∷ z ∷ []) a b c d e = refl
set_all (w ∷ x ∷ y ∷ z ∷ v ∷ vs) a b c d e = absurd (omega (arith, e))

module _ (s3k : S3k) (laws : Laws s3k) (aes : Aes128) (secure : Bool) where
  replaced_in_range :
      (begin end rwx : ℕ) (t t' : Caps s3k) (status : ℕ)
      → Replacement s3k 0x30 begin end rwx t status t'
      → status ≤ 4
  replaced_in_range begin end rwx t t' status r = elim r [
    | replaced _ _ _ e _ _ _ _ _ ↦ ground (arith, e)
    | full e _ _ ↦ ground (arith, e)
    | underivable _ e _ _ ↦ ground (arith, e)
    | nothing_there _ _ e _ _ _ _ ↦ ground (arith, e)
    | not_moved _ _ _ e _ _ _ _ _ ↦ ground (arith, e)
  ]

  status_in_range :
      (k k' : s3k.Kernel) (rwx address status : ℕ)
      → Reply s3k laws aes secure k rwx address status k'
      → status ≤ 4
  status_in_range k k' rwx address status r = elim r [
    | not_pmp e _ _ ↦ ground (arith, e)
    | forbidden e _ _ _ _ ↦ ground (arith, e)
    | unverified e _ _ _ _ _ _ ↦ ground (arith, e)
    | attempted _ _ t _ try ↦ replaced_in_range _ _ rwx t try.after status try.outcome
  ]

  module _ (at : Symbols) where
    -- How a request of the app, made in the state `a`, ends when `loop` goes from `r` to `s'` for it:
    -- the monitor has sent a reply; its status is the first word that `loop` leaves, and what the
    -- request returns in the state `m`; the app goes on from there when it is 0, and else it is
    -- reset.
    abbrev pub Concluded : Monitor s3k → Monitor s3k → ℕ → ℕ → ℕ → App s3k → Bool → App s3k → Type 0
    Concluded r s' idx address rwx a b a' =
        (status : ℕ) × (k' : s3k.Kernel) × Reply s3k laws aes secure r.caps.kernel rwx address
          status k'
        × Sent s3k k' status r s'
        × (get_elem? s'.recv_buf 0 ≡ some status)
        × (m : App s3k) × (request s3k at idx address rwx a ≡ done (to_int status, m))
        × (((status ≡ 0) × (b ≡ true) × IsReady s3k a' × (a' ≡ m))
            ⊎ ((status ≢ 0) × Refused s3k at m.caps.kernel b a'))

    conclude-status :
        (status : ℕ) (m : App s3k)
        → status ≤ 4
        → IsReady s3k m
        → Returns (conclude s3k at (to_int status) m) (λ b a'.
          ((status ≡ 0) × (b ≡ true) × IsReady s3k a' × (a' ≡ m))
          ⊎ ((status ≢ 0) × Refused s3k at m.caps.kernel b a'))
    conclude-status status m small h =
        subst
          (λ n. Returns (conclude s3k at (to_int status) m) (λ b a'.
            ((n ≡ 0) × (b ≡ true) × IsReady s3k a' × (a' ≡ m))
            ⊎ ((n ≢ 0) × Refused s3k at m.caps.kernel b a')))
          (to_u64-to_int status small) (conclude-Returns s3k at (to_int status) m h)

    -- The app sends a request, and the words that arrive at the running monitor are those of the
    -- request; `loop` ends in `s'`, and the words that arrive at the app are those that `loop` has
    -- left. Then the request of the app and what follows it return, and the first of these words is
    -- a status that the monitor had a reason to send. When it is 0, the app goes on from the state
    -- that the request has left; otherwise the registers are set for the app's loop with an empty
    -- stack, the word 1 is sent, and the handler does not go on. The arrays of both have their
    -- lengths.
    pub request-loop :
        (fuel socket idx rwx address to source : ℕ) (s s' : Monitor s3k) (a : App s3k)
        → IsSized s3k s
        → s.app_running ≡ true
        → get_elem? s.soccaps 0 ≡ some socket
        → loop s3k aes secure (suc fuel) s ≡ done (tt, s')
        → IsReady s3k a
        → get_elem? a.soccaps 0 ≡ some to
        → get_elem? a.soccaps 1 ≡ some source
        → (received s3k socket s).recv_buf ≡ asking s3k address rwx a
        → (answered s3k idx address rwx to source a).words ≡ s'.recv_buf
        → Returns
            ((request s3k at idx address rwx >>= conclude s3k at) a)
            (λ b a'. Concluded (received s3k socket s) s' idx address rwx a b a')
    request-loop fuel socket idx rwx address to source s s' a sized running found ran h first second
          sent came =
        let r = received s3k socket s in
        let turn : Turn s3k laws aes secure r s' =
          subst (λ o. Returns o (λ _ m. Turn s3k laws aes secure r m)) ran
            (loop-Turn s3k laws aes secure fuel socket s sized running found) in
        let asked = sent ∙ set_all a.buf 2 address 0 rwx h.words in
        let (status, k', reply, sent_back, (words, same)) =
          Turn-asked s3k laws aes secure rwx address r s' asked turn in
        let left : get_elem? s'.recv_buf 0 ≡ some status =
          ap (λ ws. get_elem? ws 0) words
          ∙ get_elem?-set_self r.recv_buf 0 status
              (subst (λ ws. 0 < length ws) (sym asked) (omega arith)) in
        let small = status_in_range r.caps.kernel k' rwx address status reply in
        Returns-bind (request s3k at idx address rwx) (conclude s3k at) a _ _
          (Returns-run (request s3k at idx address rwx a) _ (
            request-Answered s3k at laws idx address rwx to source status a h first second
              (ap (λ ws. get_elem? ws 0) came ∙ left)))
          (λ err m ((e, ready), asks).
            subst
              (λ x. Returns (conclude s3k at x m) (λ b a'. Concluded r s' idx address rwx a b a'))
              (sym e)
              (Returns-mono (conclude s3k at (to_int status) m) _ _
                (conclude-status status m small ready)
                (λ b a' q.
                  (status, k', reply, sent_back, left, m, asks ∙ ap (λ x. done (x, m)) e, q))))
