-- ===== src/App/Test/Signatures.antt =====
-- The signed code of tests 5 and 7, as the monitor verifies it.
use s3k_monitor.Prelude.{
  ℕ, ◌+◌, ◌^◌, ◌≤◌, ◌<◌, ◌≡◌, inl, inr, refl, ap, ◌∙◌, sym, arith, subst, true, false, Bool-cases,
  ◌==◌, List, [], ◌∷◌, ◌++◌, length, pos, suc, some, get_elem?, Returns, Returns-mono,
}
use s3k_monitor.S3k.{S3k}
use s3k_monitor.Codeauth.{Aes128, mac_key, calc_sig, comp_sig}
use s3k_monitor.Codeauth.Compare.{comp_sig_lem}
use s3k_monitor.Monitor.Setup.{bytes_from, drop}
use s3k_monitor.Monitor.Parse.Encoding.{little_endian}
use s3k_monitor.Monitor.Loop.{load_word, memory, is_signed}
use s3k_monitor.Format.Code.{
  ReadsBuffer, Stored, take, load_word-little_endian, Stored-append, Stored-bytes_from, int_small,
  memory_add,
}
use s3k_monitor.S3k.Laws.{Laws}
use s3k_monitor.Monitor.{Monitor}
use s3k_monitor.Monitor.Loop.{loop}
use s3k_monitor.Monitor.Loop.Answers.{IsSized, Answers}
use s3k_monitor.Monitor.Loop.Turns.{received, loop-Turn}
use s3k_monitor.Format.Granted.{Verified, Turn-Verified}
use s3k_monitor.App.Test.Code.{code_new_code, code_broken_sig}

-- The code behind the signature, the size and eight bytes more.
abbrev pub code : List ℕ
code = drop 32 code_new_code

-- Both arrays are a signature, the size of the code, eight bytes of 0, and the same code.
abbrev first_16 : ℕ → List ℕ
first_16 first = first ∷ drop 1 (take 16 code_new_code)

abbrev zeros : List ℕ
zeros = 0 ∷ 0 ∷ 0 ∷ 0 ∷ 0 ∷ 0 ∷ 0 ∷ 0 ∷ []

abbrev layout : ℕ → List ℕ
layout first = first_16 first ++ (little_endian 8 (length code) ++ (zeros ++ code))

new_code-layout : code_new_code ≡ layout 0x44
new_code-layout = refl

broken_sig-layout : code_broken_sig ≡ layout 0xFF
broken_sig-layout = refl

module _ (s3k : S3k) (aes : Aes128) (reads : ReadsBuffer aes) where
  -- A signature that is accepted is the one of the code, byte by byte.
  signed_bytes :
      (sig pad bytes : List ℕ) (k : s3k.Kernel) (address : ℕ)
      → length sig ≡ 16
      → length pad ≡ 8
      → 16 ≤ length bytes
      → length bytes < 2 ^ 31
      → Stored
          (memory s3k aes true k address)
          0
          (sig ++ (little_endian 8 (length bytes) ++ (pad ++ bytes)))
      → is_signed s3k aes true k address ≡ true
      → (j : ℕ) → j < 16
      → bytes_from sig 0 j ≡ calc_sig aes (bytes_from bytes 0) (pos (length bytes)) j
  unfolding is_signed calc_sig
  signed_bytes sig pad bytes k address sixteen eight large small h accepted j below =
      let p = memory s3k aes true k address in
      let (first, h₁) =
        Stored-append p 0 sig (little_endian 8 (length bytes) ++ (pad ++ bytes)) h in
      let (size, h₂) = Stored-append p 16 (little_endian 8 (length bytes)) (pad ++ bytes) (
        subst (λ n. Stored p n (little_endian 8 (length bytes) ++ (pad ++ bytes)))
          (omega (arith, sixteen)) h₁) in
      let (_, h₃) = Stored-append p 24 pad bytes h₂ in
      let here : Stored p 0x20 bytes = subst (λ n. Stored p n bytes) (omega (arith, eight)) h₃ in
      let word =
        ap (load_word 8) (memory_add s3k aes reads k address 0x10)
        ∙ load_word-little_endian 8 0x10 (length bytes) p (omega (arith, small)) size in
      let positive = int_small (length bytes) small in
      let code_at = memory_add s3k aes reads k address 0x20 in
      let q = calc_sig aes (λ i. p (0x20 + i)) (pos (length bytes)) in
      let tested : (comp_sig p q == 1) ≡ true =
        rw (is_signed, word, positive, code_at) at accepted in
      elim (comp_sig_lem p q) [
        | inr (differs, _, _, _) ↦ absurd (ground (arith, differs, tested))
        | inl (_, same) ↦
            let start : 0 + j ≡ j = omega arith in
            sym (rw start at (Stored-bytes_from p 0 sig j first (omega (arith, sixteen))))
            ∙ same j below
            ∙ reads (aes.keyexpansion mac_key) (length bytes) (λ i. p (0x20 + i))
                (bytes_from bytes 0) large
                (λ i inside. Stored-bytes_from p 0x20 bytes i here inside) j below
      ]

  -- Where the one signature is accepted, the other is not.
  new_code-broken_sig :
      (k k' : s3k.Kernel) (address address' : ℕ)
      → Stored (memory s3k aes true k address) 0 code_new_code
      → is_signed s3k aes true k address ≡ true
      → Stored (memory s3k aes true k' address') 0 code_broken_sig
      → is_signed s3k aes true k' address' ≡ false
  new_code-broken_sig k k' address address' new accepted broken =
      elim (Bool-cases (is_signed s3k aes true k' address')) [
        | inr refused ↦ refused
        | inl wrong ↦
            let good =
              signed_bytes (first_16 0x44) zeros code k address refl refl (omega arith)
                (omega arith) (subst (Stored (memory s3k aes true k address) 0) new_code-layout new)
                accepted 0 (omega arith) in
            let bad =
              signed_bytes (first_16 0xFF) zeros code k' address' refl refl (omega arith)
                (omega arith)
                (subst (Stored (memory s3k aes true k' address') 0) broken_sig-layout broken) wrong
                0 (omega arith) in
            let same : 0x44 ≡ 0xFF = good ∙ sym bad in absurd (omega (arith, same))
      ]

  module _ (laws : Laws s3k) where
    -- For every AES library whose MAC of a buffer depends on the buffer's bytes only, and with
    -- `SECURITY`: where the signature of the code of test 5 is accepted, at any address and in any
    -- state of the memory, the request of test 7 is not. For the message that asks for the execution
    -- of the code of test 7, with the address of its signature and a PMP capability, `loop` returns,
    -- and replies 1, verification failed. The app is running and the arrays have their lengths.
    pub loop-refuses_broken_sig :
        (k : s3k.Kernel) (address address' fuel socket : ℕ) (s : Monitor s3k)
        → let r = received s3k socket s in
          Stored (memory s3k aes true k address) 0 code_new_code
          → is_signed s3k aes true k address ≡ true
          → Stored (memory s3k aes true r.caps.kernel address') 0 code_broken_sig
          → r.recv_buf ≡ 2 ∷ address' ∷ 0 ∷ 5 ∷ []
          → s3k.captype (s3k.getcap 0x30 r.caps.kernel) ≡ s3k.capty_pmp
          → IsSized s3k s
          → s.app_running ≡ true
          → get_elem? s.soccaps 0 ≡ some socket
          → Returns (loop s3k aes true (suc fuel) s) (λ _ s'. Answers s3k aes true 1 r s')
    loop-refuses_broken_sig k address address' fuel socket s new accepted broken asked pmp h running
          found =
        let r = received s3k socket s in
        let refused = new_code-broken_sig k r.caps.kernel address address' new accepted broken in
        Returns-mono (loop s3k aes true (suc fuel) s) _ _
          (loop-Turn s3k laws aes true fuel socket s h running found)
          (λ _ s' t.
            status_1 s' (Turn-Verified s3k laws aes false address' r s' asked pmp refused t))
      where
        status_1 :
            (s' : Monitor s3k)
            → Verified s3k laws aes false (received s3k socket s) s'
            → Answers s3k aes true 1 (received s3k socket s) s'
        status_1 s' (status, k, sent, answers, inl (never, _, _, _)) =
            absurd (ground (arith, never))
        status_1 s' (status, k, sent, answers, inr (_, one, _)) =
            subst (λ n. Answers s3k aes true n (received s3k socket s) s') one answers
