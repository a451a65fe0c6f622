-- ===== src/Monitor/Loop/Replies.antt =====
-- One run of `loop`: when it returns, and what it replies, on every branch.
use s3k_monitor.Prelude.{
  ℕ, ◌≡◌, ◌≢◌, ◌⊎◌, inl, inr, refl, arith, Bool, true, false, ◌&&◌, not, some, get_elem?, ◌>>=◌,
  ◌>>◌, Returns, Returns-mono, Bool-cases,
}
use s3k_monitor.S3k.{S3k}
use s3k_monitor.S3k.Laws.{Laws}
use s3k_monitor.Capman.{Caps}
use s3k_monitor.Capman.Table.{update}
use s3k_monitor.Capman.Coherent.{IsCoherent}
use s3k_monitor.Codeauth.{Aes128}
use s3k_monitor.Monitor.{Monitor, lift, element}
use s3k_monitor.Monitor.Loop.{writable, executable, answer, is_signed, apply_update, check_update}
use s3k_monitor.Monitor.Loop.Answers.{
  IsSized, Sent, Answers, Attempt, answer_and_update-Returns, apply_update-Returns,
}

and_true : (a b : Bool) → (a && b) ≡ true → (a ≡ true) × (b ≡ true)
and_true a b e = ground arith

forged_true : (a b c : Bool) → (a && (b && not c)) ≡ true → (a ≡ true) × (b ≡ true) × (c ≡ false)
forged_true a b c e = ground arith

apart_of_on : (a b : Bool) → (a && b) ≡ false → a ≡ true → b ≡ false
apart_of_on a b e f = ground arith

checks_passed :
    (a b c d : Bool)
    → (a && b) ≡ false
    → (a && (c && not d)) ≡ false
    → (a ≡ false) ⊎ ((b ≡ false) × ((c ≡ false) ⊎ (d ≡ true)))
checks_passed a b c d e f = ground arith

module _ (s3k : S3k) (laws : Laws s3k) (aes : Aes128) (secure : Bool) where
  open s3k use {Kernel, Cap, captype, capty_pmp, getcap, recv}

  -- Why a request for the permissions `rwx`, with a signature at `address`, that came with the
  -- capability at index 0x30 of the kernel state `k` gets the reply `status`, sent from `k'`.
  pub data Reply (k : Kernel) (rwx address status : ℕ) (k' : Kernel) : Type 0 where
    not_pmp :
        status ≡ 2 → k' ≡ k → captype (getcap 0x30 k) ≢ capty_pmp → Reply k rwx address status k'
    forbidden :
        status ≡ 3
        → k' ≡ k
        → captype (getcap 0x30 k) ≡ capty_pmp
        → secure ≡ true
        → (writable rwx && executable rwx) ≡ true
        → Reply k rwx address status k'
    unverified :
        status ≡ 1
        → k' ≡ k
        → captype (getcap 0x30 k) ≡ capty_pmp
        → secure ≡ true
        → (writable rwx && executable rwx) ≡ false
        → executable rwx ≡ true
        → is_signed s3k aes secure k address ≡ false
        → Reply k rwx address status k'
    -- The checks passed, or there are none; the status and `k'` are those of the replacement.
    attempted :
        captype (getcap 0x30 k) ≡ capty_pmp
        → (secure ≡ false)
          ⊎ (((writable rwx && executable rwx) ≡ false)
              × ((executable rwx ≡ false) ⊎ (is_signed s3k aes secure k address ≡ true)))
        → (t : Caps s3k) → t.kernel ≡ k
        → Attempt s3k t rwx status k'
        → Reply k rwx address status k'

  module _ (rwx address : ℕ) where
    -- What a request leaves: the reply was sent; it stands in the first word, and the other words
    -- are kept.
    abbrev pub Replied : Monitor s3k → Monitor s3k → Type 0
    Replied s s' =
        (status : ℕ) × (k' : Kernel) × Reply s.caps.kernel rwx address status k'
        × Sent s3k k' status s s'
        × Answers s3k aes secure status s s'

    pub refuse-Returns :
        (status : ℕ) (s : Monitor s3k)
        → IsSized s3k s
        → Reply s.caps.kernel rwx address status s.caps.kernel
        → Returns ((answer s3k aes secure status >> lift (update s3k)) s) (λ _ s'. Replied s s')
    refuse-Returns status s h reply =
        Returns-mono ((answer s3k aes secure status >> lift (update s3k)) s) _ _
          (answer_and_update-Returns s3k aes secure status s h)
          (λ _ s' (sent, answers). (status, s.caps.kernel, reply, sent, answers))

    attempt-Returns :
        (s : Monitor s3k)
        → IsSized s3k s
        → IsCoherent s3k s.caps
        → captype (getcap 0x30 s.caps.kernel) ≡ capty_pmp
        → (secure ≡ false)
          ⊎ (((writable rwx && executable rwx) ≡ false)
              × ((executable rwx ≡ false)
                  ⊎ (is_signed s3k aes secure s.caps.kernel address ≡ true)))
        → Returns
            (apply_update s3k aes secure (getcap 0x30 s.caps.kernel) rwx s)
            (λ _ s'. Replied s s')
    attempt-Returns s h whole is_pmp checks =
        Returns-mono (apply_update s3k aes secure (getcap 0x30 s.caps.kernel) rwx s) _ _
          (apply_update-Returns s3k laws aes secure rwx s h whole)
          (λ _ s' (status, k, try, sent, answers).
            (status, k, attempted is_pmp checks s.caps refl try, sent, answers))

    pub check_update-Returns :
        (s : Monitor s3k)
        → IsSized s3k s
        → IsCoherent s3k s.caps
        → captype (getcap 0x30 s.caps.kernel) ≡ capty_pmp
        → get_elem? s.recv_buf 3 ≡ some rwx
        → get_elem? s.recv_buf 1 ≡ some address
        → Returns (check_update s3k aes secure (getcap 0x30 s.caps.kernel) s) (λ _ s'. Replied s s')
    unfolding check_update
    check_update-Returns s h whole is_pmp third first =
        let k = s.caps.kernel in
        let both = secure && (writable rwx && executable rwx) in
        let forged = secure && (executable rwx && not (is_signed s3k aes secure k address)) in
        rw (third, ◌>>=◌, element)
          (rw (first, ◌>>=◌, element)
            (elim (Bool-cases both) [
              | inl e ↦
                  let (on, together) = and_true _ _ e in
                  rw e (refuse-Returns 3 s h (forbidden refl refl is_pmp on together))
              | inr e ↦ elim (Bool-cases forged) [
                | inl f ↦
                    let (on, code, bad) = forged_true _ _ _ f in
                    let apart = apart_of_on _ _ e on in
                    rw (e, f) (refuse-Returns 1 s h (unverified refl refl is_pmp on apart code bad))
                | inr f ↦ rw (e, f) (attempt-Returns s h whole is_pmp (checks_passed _ _ _ _ e f))
              ]
            ]))
