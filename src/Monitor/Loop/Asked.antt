-- ===== src/Monitor/Loop/Asked.antt =====
-- What `loop` does with a message that is a request, from its four words.
use s3k_monitor.Prelude.{
  ℕ, ◌^◌, ◌-◌, ◌≡◌, ◌∙◌, sym, ap, subst, arith, Bool, [], ◌∷◌, some, get_elem?,
}
use s3k_monitor.S3k.{S3k}
use s3k_monitor.S3k.Laws.{Laws}
use s3k_monitor.Codeauth.{Aes128}
use s3k_monitor.Monitor.{Monitor}
use s3k_monitor.Monitor.Loop.Replies.{Reply, Replied}
use s3k_monitor.Monitor.Loop.Turns.{Turn, finished, replied, printed}

some_inj : {a b : ℕ} → some a ≡ some b → a ≡ b
some_inj e = ground (arith, e)

module _ (s3k : S3k) (laws : Laws s3k) (aes : Aes128) (secure : Bool) where
  -- A request is replied to, with the permissions and the address that it asks for.
  pub Turn-asked :
      (rwx address : ℕ) (r s' : Monitor s3k)
      → r.recv_buf ≡ 2 ∷ address ∷ 0 ∷ rwx ∷ []
      → Turn s3k laws aes secure r s'
      → Replied s3k laws aes secure rwx address r s'
  Turn-asked rwx address r s' asked (finished head _) =
      let e : 2 ≡ 2 ^ 64 - 1 = some_inj (sym (ap (λ ws. get_elem? ws 0) asked) ∙ head) in
      absurd (omega (arith, e))
  Turn-asked rwx address r s' asked (printed word head not_two _ _) =
      absurd (not_two (sym (some_inj (sym (ap (λ ws. get_elem? ws 0) asked) ∙ head))))
  Turn-asked rwx address r s' asked
        (replied rwx' at head third first (status, k', reply, sent, answers)) =
      let perm : rwx' ≡ rwx = sym (some_inj (sym (ap (λ ws. get_elem? ws 3) asked) ∙ third)) in
      let here : at ≡ address = sym (some_inj (sym (ap (λ ws. get_elem? ws 1) asked) ∙ first)) in
      (
        status,
        k',
        subst (λ a. Reply s3k laws aes secure r.caps.kernel rwx a status k') here
            (subst (λ p. Reply s3k laws aes secure r.caps.kernel p at status k') perm reply),
        sent,
        answers,
      )
