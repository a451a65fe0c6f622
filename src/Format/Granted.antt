-- ===== src/Format/Granted.antt =====
-- What the monitor replies to the request to execute code that `app_format_sig` signed.
use s3k_monitor.Prelude.{
  ℕ, suc, ◌^◌, ◌≤◌, ◌<◌, ◌≡◌, ◌⊎◌, ◌∙◌, inl, inr, sym, arith, Bool, true, false, ◌&&◌, ◌||◌, not,
  ◌==◌, List, [], ◌∷◌, length, some, get_elem?, pos, Returns, Returns-mono,
}
use s3k_monitor.S3k.{S3k}
use s3k_monitor.S3k.Laws.{Laws}
use s3k_monitor.Capman.{Caps}
use s3k_monitor.Codeauth.{Aes128, calc_sig}
use s3k_monitor.Monitor.{Monitor}
use s3k_monitor.Monitor.Setup.{bytes_from}
use s3k_monitor.Monitor.Loop.{loop, memory, is_signed}
use s3k_monitor.Monitor.Loop.Answers.{IsSized, Sent, Answers, Attempt}
use s3k_monitor.Monitor.Loop.Replies.{Reply, not_pmp, forbidden, unverified, attempted}
use s3k_monitor.Monitor.Loop.Asked.{Turn-asked}
use s3k_monitor.Monitor.Loop.Turns.{Turn, received, loop-Turn}
use s3k_monitor.Format.Code.{ReadsBuffer, Stored, image_of_code, format_sig-is_signed}

module _ (s3k : S3k) (laws : Laws s3k) (aes : Aes128) (good : Bool) where
  open s3k use {Kernel, captype, getcap, capty_pmp}

  -- The reply that was sent to a request whose signature was found `good` or not: its status is that
  -- of the replacement, and the kernel state that it was sent from is the one that the replacement
  -- left; or the status is 1, and it was sent from the state in which the request was received.
  abbrev pub Verified : Monitor s3k → Monitor s3k → Type 0
  Verified s s' =
      (status : ℕ) × (k : Kernel) × Sent s3k k status s s'
      × Answers s3k aes true status s s'
      × (((good ≡ true) × (t : Caps s3k) × (t.kernel ≡ s.caps.kernel) × Attempt s3k t 5 status k)
          ⊎ ((good ≡ false) × (status ≡ 1) × (k ≡ s.caps.kernel)))

  Reply-Verified :
      (address status : ℕ) (k : Kernel) (s s' : Monitor s3k)
      → captype (getcap 0x30 s.caps.kernel) ≡ capty_pmp
      → is_signed s3k aes true s.caps.kernel address ≡ good
      → Sent s3k k status s s'
      → Answers s3k aes true status s s'
      → Reply s3k laws aes true s.caps.kernel 5 address status k
      → Verified s s'
  Reply-Verified address status k s s' pmp signed sent answers (not_pmp e _ other) =
      absurd (other pmp)
  Reply-Verified address status k s s' pmp signed sent answers (forbidden e _ _ _ both) =
      absurd (ground (arith, both))
  Reply-Verified address status k s s' pmp signed sent answers (unverified e from _ _ _ _ forged) =
      (status, k, sent, answers, inr (sym signed ∙ forged, e, from))
  Reply-Verified address status k s s' pmp signed sent answers (attempted _ checks t same tried) = (
    status,
    k,
    sent,
    answers,
    elim checks [
      | inl insecure ↦ absurd (ground (arith, insecure))
      | inr (_, inl not_executable) ↦ absurd (ground (arith, not_executable))
      | inr (_, inr verified) ↦ inl (sym signed ∙ verified, t, same, tried)
    ],
  )

  pub Turn-Verified :
      (address : ℕ) (s s' : Monitor s3k)
      → s.recv_buf ≡ 2 ∷ address ∷ 0 ∷ 5 ∷ []
      → captype (getcap 0x30 s.caps.kernel) ≡ capty_pmp
      → is_signed s3k aes true s.caps.kernel address ≡ good
      → Turn s3k laws aes true s s'
      → Verified s s'
  Turn-Verified address s s' asked pmp signed t =
      let (status, k, reply, sent, answers) = Turn-asked s3k laws aes true 5 address s s' asked t in
      Reply-Verified address status k s s' pmp signed sent answers reply

module _ (s3k : S3k) (laws : Laws s3k) (aes : Aes128) (reads : ReadsBuffer aes) where
  -- The whole way of signed code, with `SECURITY`: the app has stored code at an address with the
  -- signature that `app_format_sig` wrote for it, its size and eight bytes more between them, and asks
  -- for its execution in a message with that address, together with a PMP capability. Then `loop`
  -- returns; it replaces the capability, or fails to for a reason in `Replacement`, and sends a reply
  -- with the status of that from the kernel state which that has left; the signature is never refused. With `SIG_BROKEN` it replies 1, verification failed, unless the computed
  -- signature itself begins with the two bytes 0xFF. The app is running, the arrays have their
  -- lengths, the code has 16 bytes or more, less than 2^31, and the MAC of a buffer depends on the
  -- buffer's bytes only.
  pub loop-Verified :
      (broken : Bool) (pad code : List ℕ) (fuel socket address : ℕ) (s : Monitor s3k)
      → let r = received s3k socket s in
        let signature = calc_sig aes (bytes_from code 0) (pos (length code)) in
        let good = not broken || ((signature 0 == 0xFF) && (signature 1 == 0xFF)) in
        length pad ≡ 8
        → 16 ≤ length code
        → length code < 2 ^ 31
        → Stored (memory s3k aes true r.caps.kernel address) 0 (image_of_code aes broken pad code)
        → r.recv_buf ≡ 2 ∷ address ∷ 0 ∷ 5 ∷ []
        → s3k.captype (s3k.getcap 0x30 r.caps.kernel) ≡ s3k.capty_pmp
        → IsSized s3k s
        → s.app_running ≡ true
        → get_elem? s.soccaps 0 ≡ some socket
        → Returns (loop s3k aes true (suc fuel) s) (λ _ s'. Verified s3k laws aes good r s')
  loop-Verified broken pad code fuel socket address s eight large small stored asked pmp h running
        found =
      let r = received s3k socket s in
      let signed =
        format_sig-is_signed s3k aes reads broken pad code r.caps.kernel address eight large small
          stored in
      Returns-mono (loop s3k aes true (suc fuel) s) _ _
        (loop-Turn s3k laws aes true fuel socket s h running found)
        (λ _ s' t. Turn-Verified s3k laws aes _ address r s' asked pmp signed t)
