-- ===== src/Capman/Coherent/Update.antt =====
-- `capman_update` makes the cached table coherent, whatever it held.
use s3k_monitor.Prelude.{
  ℕ, zero, suc, ◌+◌, ◌<◌, ◌≡◌, ◌∙◌, some, arith, if◌then◌else◌, ◌==◌, length, get_elem?, length-set,
  get_elem?-set_self, get_elem?-set_ne, Returns, Returns-mono, refl,
}
use s3k_monitor.S3k.{S3k, ncap}
use s3k_monitor.Capman.{Caps}
use s3k_monitor.Capman.Table.{update, update_loop}
use s3k_monitor.Capman.Coherent.{IsCoherent, stored, store-eq_done}

module _ (s3k : S3k) where
  open s3k use {Cap, captype, capty_none, getcap, Kernel}

  -- The number of entries below `n` that hold a capability.
  pub count_used : ℕ → Kernel → ℕ
  count_used zero k = 0
  count_used (suc n) k =
      if captype (getcap n k) == capty_none then count_used n k else count_used n k + 1

  -- One round of the loop.
  abbrev round : ℕ → Caps s3k → Caps s3k
  round i s = record (stored s3k i (getcap i s.kernel) s) {
    ncaps = if captype (getcap i s.kernel) == capty_none then s.ncaps else s.ncaps + 1;
  }

  update_loop-suc :
      (left i : ℕ) (s : Caps s3k)
      → length s.caps ≡ ncap
      → i < ncap
      → update_loop s3k (suc left) i s ≡ update_loop s3k left (i + 1) (round i s)
  unfolding update_loop
  update_loop-suc left i s e p = ground (arith, store-eq_done s3k i (getcap i s.kernel) s e p)

  -- The entries below `i` have been read and counted.
  record IsRead (i : ℕ) (k : Kernel) (s : Caps s3k) : Type 0 where
    size : length s.caps ≡ ncap
    fixed : s.kernel ≡ k
    counted : s.ncaps ≡ count_used i k
    mirror : (j : ℕ) → j < i → get_elem? s.caps j ≡ some (getcap j k)

  round-IsRead :
      {i : ℕ} {k : Kernel} {s : Caps s3k} → IsRead i k s → i < ncap → IsRead (suc i) k (round i s)
  unfolding count_used
  round-IsRead {i} {k} {s} h p = record {
    size = length-set s.caps i (getcap i s.kernel) ∙ h.size;
    fixed = h.fixed;
    counted = ground (arith, h.fixed, h.counted);
    mirror = λ j q. ground (
      arith,
      h.fixed,
      h.size,
      h.mirror j,
      get_elem?-set_self s.caps i (getcap i s.kernel),
      get_elem?-set_ne s.caps i j (getcap i s.kernel),
    );
  }

  update_loop-IsRead :
      (left i : ℕ) (k : Kernel) (s : Caps s3k)
      → i + left ≡ ncap
      → IsRead i k s
      → Returns (update_loop s3k left i s) (λ _ s'. IsRead ncap k s')
  update_loop-IsRead zero i k s e h =
      let last : i ≡ ncap = omega arith in unfold update_loop in rw (← last) h
  update_loop-IsRead (suc left) i k s e h =
      let next : suc i ≡ i + 1 = omega arith in
      let h' = rw next at (round-IsRead h (omega arith)) in
      rw (update_loop-suc left i s h.size (omega arith))
        (update_loop-IsRead left (i + 1) k (round i s) (omega arith) h')

  IsRead-IsCoherent : {k : Kernel} {s : Caps s3k} → IsRead ncap k s → IsCoherent s3k s
  IsRead-IsCoherent h = record {
    size = h.size;
    mirror = λ j p. ground (arith, h.fixed, h.mirror j p);
  }

  -- After an update the cached table is the kernel's, which is as it was, and `ncaps` is the number
  -- of its entries whose type is not NONE.
  pub update-IsCoherent :
      (s : Caps s3k)
      → length s.caps ≡ ncap
      → Returns (update s3k s) (λ _ s'.
        IsCoherent s3k s' × (s'.kernel ≡ s.kernel) × (s'.ncaps ≡ count_used ncap s.kernel))
  unfolding update
  update-IsCoherent s e =
      let start = record s { ncaps = 0 } in
      let empty : IsRead 0 s.kernel start =
        unfold count_used in
        record { size = e; fixed = refl; counted = refl; mirror = λ j q. absurd (omega arith) } in
      Returns-mono (update_loop s3k ncap 0 start) _ _
        (update_loop-IsRead ncap 0 s.kernel start (omega arith) empty)
        (λ _ s' r. (IsRead-IsCoherent r, r.fixed, r.counted))
