-- ===== src/Monitor/Setup/Heap.antt =====
-- The loop of `setup_app` over the chunks of the heap.
use s3k_monitor.Prelude.{
  inl, inr, ◌⊎◌, refl, done, ℕ, zero, suc, ◌-◌, ◌*◌, ◌^◌, ◌≤◌, ◌<◌, ◌≡◌, refl, arith, true, false,
  ltb, u64, add64, sub64, Outcome, done, fault, spin, Run, pure, ◌>>=◌, Ensures, Ensures-bind,
}
use s3k_monitor.S3k.{S3k}
use s3k_monitor.Monitor.{Monitor, app_base, chunk_size}
use s3k_monitor.Monitor.Parse.{Section}
use s3k_monitor.Monitor.Setup.{heap_loop, give_pmp}

module _ (s3k : S3k) (section : Section) where
  -- The capability for chunk `k`.
  abbrev pub give_chunk : ℕ → ℕ → Run (Monitor s3k) ℕ
  give_chunk k npmp =
      let begin = add64 (add64 app_base section.offset) (u64 (k * chunk_size)) in
      give_pmp s3k begin (add64 begin chunk_size) section.rwx npmp

  -- For a heap of one chunk the loop adds 0 to its counter: however many rounds it is given, it
  -- never comes to its end.
  pub heap_loop-one :
      (fuel npmp : ℕ) (s : Monitor s3k) → Ensures (heap_loop s3k fuel section 1 0 npmp s) (λ _ _. ⊥)
  unfolding heap_loop
  heap_loop-one zero npmp s = tt
  heap_loop-one (suc fuel) npmp s =
      Ensures-bind (give_chunk 0 npmp) (heap_loop s3k fuel section 1 0) s (λ _ _. Unit) (λ _ _. ⊥)
        (any (give_chunk 0 npmp s)) (λ n s' _. heap_loop-one fuel n s')
    where
      any : (o : Outcome (ℕ × Monitor s3k)) → Ensures o (λ _ _. Unit)
      any (done r) = tt
      any fault = tt
      any spin = tt

  -- For a heap of two chunks or more, and fewer than 2^63, the loop gives the first chunk and then
  -- the last one, and three rounds are enough.
  pub heap_loop_lem :
      (fuel n npmp : ℕ) (s : Monitor s3k)
      → 2 ≤ n
      → n < 2 ^ 63
      → heap_loop s3k (suc (suc (suc fuel))) section n 0 npmp s
        ≡ (give_chunk 0 npmp >>= give_chunk (n - 1)) s
  unfolding heap_loop
  heap_loop_lem fuel n npmp s low high =
      let step : sub64 n 1 ≡ n - 1 = omega arith in
      let first : ltb 0 n ≡ true = ground arith in
      let second : ltb (n - 1) n ≡ true = ground arith in
      let third : ltb (add64 (n - 1) (n - 1)) n ≡ false = ground arith in
      let k₁ : add64 0 (n - 1) ≡ n - 1 = omega arith in
      rw (step, first, k₁, second, third) (go (give_chunk 0 npmp s))
    where
      twice :
          (o : Outcome (ℕ × Monitor s3k))
          → (elim o [ done (a, t) ↦ done (a, t) | fault ↦ fault | spin ↦ spin ]) ≡ o
      twice (done r) = refl
      twice fault = refl
      twice spin = refl

      go :
          (o : Outcome (ℕ × Monitor s3k))
          → (elim o [
            | done (a, t) ↦ (give_chunk (n - 1) a >>= pure) t
            | fault ↦ fault
            | spin ↦ spin
          ])
            ≡ (elim o [ done (a, t) ↦ give_chunk (n - 1) a t | fault ↦ fault | spin ↦ spin ])
      go (done r) = twice (give_chunk (n - 1) r.0 r.1)
      go fault = refl
      go spin = refl

  heap_loop-none :
      (fuel npmp : ℕ) (s : Monitor s3k)
      → heap_loop s3k (suc fuel) section 0 0 npmp s ≡ done (npmp, s)
  unfolding heap_loop
  heap_loop-none fuel npmp s = refl

  -- The loop over the chunks of a heap, of fewer than 2^63: for no chunk it gives nothing; for one
  -- chunk it adds 0 to its counter, and however many rounds it is given, it never comes to its end;
  -- for two or more it gives the first chunk and then the last one, and three rounds are enough.
  pub heap_loop-give_chunk :
      (n npmp : ℕ) (s : Monitor s3k)
      → n < 2 ^ 63
      → ((n ≡ 0) × ((fuel : ℕ) → heap_loop s3k (suc fuel) section n 0 npmp s ≡ done (npmp, s)))
        ⊎ ((n ≡ 1) × ((fuel : ℕ) → Ensures (heap_loop s3k fuel section n 0 npmp s) (λ _ _. ⊥)))
        ⊎ ((2 ≤ n)
            × ((fuel : ℕ)
                → heap_loop s3k (suc (suc (suc fuel))) section n 0 npmp s
                  ≡ (give_chunk 0 npmp >>= give_chunk (n - 1)) s))
  heap_loop-give_chunk zero npmp s small = inl (refl, λ fuel. heap_loop-none fuel npmp s)
  heap_loop-give_chunk (suc zero) npmp s small = inr (inl (refl, λ fuel. heap_loop-one fuel npmp s))
  heap_loop-give_chunk (suc (suc n)) npmp s small =
      inr (inr (omega arith, λ fuel. heap_loop_lem fuel (suc (suc n)) npmp s (omega arith) small))
