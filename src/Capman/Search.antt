-- ===== src/Capman/Search.antt =====
-- What the searches of the table return, on a coherent table: the highest or the lowest index whose
-- capability passes the test, or -1.
use s3k_monitor.Prelude.{
  ℕ, zero, suc, ◌+◌, ◌≤◌, ◌<◌, ◌≡◌, ◌⊎◌, inl, inr, ◌∙◌, refl, Bool, true, false, arith, pos,
  minus_one, done, Bool-cases, ◌==◌, if◌then◌else◌,
}
use s3k_monitor.S3k.{S3k, ncap}
use s3k_monitor.Capman.{Caps}
use s3k_monitor.Capman.Table.{find_down, find_up, find_free, find_monitor, monitors}
use s3k_monitor.Capman.Pmp.{find_existing_pmp, matches_pmp}
use s3k_monitor.Capman.Coherent.{IsCoherent, load-eq_done}

module _ (s3k : S3k) where
  open s3k use {
    Cap, captype, capty_none, capty_monitor, capty_pmp, getcap, Kernel, monitor_free, monitor_end,
    pmp_addr, napot_begin, napot_end,
  }

  -- `i` is the highest index below `n` whose capability passes the test.
  pub record IsHighest (test : Cap → Bool) (n : ℕ) (k : Kernel) (i : ℕ) : Type 0 where
    pub below : i < n
    pub passes : test (getcap i k) ≡ true
    pub above_fail : (j : ℕ) → i < j → j < n → test (getcap j k) ≡ false

  -- `i` is the lowest index from `from` on, below `NCAP`, whose capability passes the test.
  pub record IsLowest (test : Cap → Bool) (from : ℕ) (k : Kernel) (i : ℕ) : Type 0 where
    pub above : from ≤ i
    pub below : i < ncap
    pub passes : test (getcap i k) ≡ true
    pub before_fail : (j : ℕ) → from ≤ j → j < i → test (getcap j k) ≡ false

  module _ {s : Caps s3k} (h : IsCoherent s3k s) (test : Cap → Bool) where
    find_down-suc :
        (i : ℕ) {b : Bool}
        → i < ncap
        → test (getcap i s.kernel) ≡ b
        → find_down s3k test (suc i) s ≡ (if b then done (pos i, s) else find_down s3k test i s)
    unfolding find_down
    find_down-suc i p e = ground (arith, load-eq_done s3k i _ s (h.mirror i p))

    pub find_down_lem :
        (n : ℕ)
        → n ≤ ncap
        → ((i : ℕ) × IsHighest test n s.kernel i × (find_down s3k test n s ≡ done (pos i, s)))
          ⊎ (((j : ℕ) → j < n → test (getcap j s.kernel) ≡ false)
              × (find_down s3k test n s ≡ done (minus_one, s)))
    find_down_lem zero p = inr (λ j q. absurd (omega arith), unfold find_down in refl)
    find_down_lem (suc n) p = elim (Bool-cases (test (getcap n s.kernel))) [
      | inl hit ↦ inl (
        n,
        record { below = omega arith; passes = hit; above_fail = λ j a b. absurd (omega arith) },
        find_down-suc n (omega arith) hit,
      )
      | inr miss ↦
          let step = find_down-suc n (omega arith) miss in
          elim (find_down_lem n (omega arith)) [
            | inl (i, found, result) ↦ inl (
              i,
              record {
                below = omega (arith, found.below);
                passes = found.passes;
                above_fail = λ j a b. ground (arith, found.above_fail j a, miss);
              },
              step ∙ result,
            )
            | inr (fail, result) ↦ inr (λ j q. ground (arith, fail j), step ∙ result)
          ]
    ]

    find_up-suc :
        (left i : ℕ) {b : Bool}
        → i < ncap
        → test (getcap i s.kernel) ≡ b
        → find_up s3k test (suc left) i s
          ≡ (if b then done (pos i, s) else find_up s3k test left (i + 1) s)
    unfolding find_up
    find_up-suc left i p e = ground (arith, load-eq_done s3k i _ s (h.mirror i p))

    pub find_up_lem :
        (left i : ℕ)
        → i + left ≡ ncap
        → ((k : ℕ) × IsLowest test i s.kernel k × (find_up s3k test left i s ≡ done (pos k, s)))
          ⊎ (((j : ℕ) → i ≤ j → j < ncap → test (getcap j s.kernel) ≡ false)
              × (find_up s3k test left i s ≡ done (minus_one, s)))
    find_up_lem zero i e = inr (λ j p q. absurd (omega arith), unfold find_up in refl)
    find_up_lem (suc left) i e = elim (Bool-cases (test (getcap i s.kernel))) [
      | inl hit ↦ inl (
        i,
        record {
          above = omega arith;
          below = omega arith;
          passes = hit;
          before_fail = λ j a b. absurd (omega arith);
        },
        find_up-suc left i (omega arith) hit,
      )
      | inr miss ↦
          let step = find_up-suc left i (omega arith) miss in
          elim (find_up_lem left (i + 1) (omega arith)) [
            | inl (k, found, result) ↦ inl (
              k,
              record {
                above = omega (arith, found.above);
                below = found.below;
                passes = found.passes;
                before_fail = λ j a b. ground (arith, found.before_fail j, miss);
              },
              step ∙ result,
            )
            | inr (fail, result) ↦ inr (λ j p q. ground (arith, fail j), step ∙ result)
          ]
    ]

  -- On a table that mirrors the kernel's, the free index found is the highest one of type NONE, and
  -- -1 where the table is full.
  pub find_free-IsHighest :
      {s : Caps s3k}
      → IsCoherent s3k s
      → ((i : ℕ) × IsHighest (λ c. captype c == capty_none) ncap s.kernel i
          × (find_free s3k s ≡ done (pos i, s)))
        ⊎ (((j : ℕ) → j < ncap → (captype (getcap j s.kernel) == capty_none) ≡ false)
            × (find_free s3k s ≡ done (minus_one, s)))
  unfolding find_free
  find_free-IsHighest h = find_down_lem h _ ncap (omega arith)

  -- On a table that mirrors the kernel's, the capability found covers the process: it is the first
  -- monitor capability whose range from its free part to its end has the process in it. Where there
  -- is none the answer is -1.
  pub find_monitor_covers :
      (pid : ℕ) {s : Caps s3k}
      → IsCoherent s3k s
      → ((i : ℕ) × IsLowest (monitors s3k pid) 0 s.kernel i
          × (captype (getcap i s.kernel) ≡ capty_monitor)
          × (monitor_free (getcap i s.kernel) ≤ pid)
          × (pid < monitor_end (getcap i s.kernel))
          × (find_monitor s3k pid s ≡ done (pos i, s)))
        ⊎ (((j : ℕ) → j < ncap → monitors s3k pid (getcap j s.kernel) ≡ false)
            × (find_monitor s3k pid s ≡ done (minus_one, s)))
  unfolding find_monitor
  find_monitor_covers pid h = elim (find_up_lem h (monitors s3k pid) ncap 0 (omega arith)) [
    | inl (i, found, result) ↦
        let hit = found.passes in inl (i, found, ground arith, ground arith, ground arith, result)
    | inr (fail, result) ↦ inr (λ j q. fail j (omega arith) q, result)
  ]

  -- A PMP capability whose range has the same begin or the same end.
  abbrev pub SharesEnd : ℕ → ℕ → Cap → Type 0
  SharesEnd begin end c =
      (captype c ≡ capty_pmp)
      × ((napot_begin (pmp_addr c) ≡ begin) ⊎ (napot_end (pmp_addr c) ≡ end))

  matches_pmp-true :
      (begin end : ℕ) (c : Cap) → matches_pmp s3k begin end c ≡ true → SharesEnd begin end c
  matches_pmp-true begin end c e = ground arith

  matches_pmp-false :
      (begin end : ℕ) (c : Cap) → matches_pmp s3k begin end c ≡ false → ¬ (SharesEnd begin end c)
  matches_pmp-false begin end c e (t, m) = ground arith

  -- On a table that mirrors the kernel's, what is found is the first PMP capability that shares the
  -- begin or the end of the range asked for: one of the two is enough, so another range can be
  -- found. Where no capability shares either the answer is -1.
  pub find_existing_pmp-SharesEnd :
      (begin end : ℕ) {s : Caps s3k}
      → IsCoherent s3k s
      → ((i : ℕ) × (i < ncap)
          × SharesEnd begin end (getcap i s.kernel)
          × ((j : ℕ) → j < i → ¬ (SharesEnd begin end (getcap j s.kernel)))
          × (find_existing_pmp s3k begin end s ≡ done (pos i, s)))
        ⊎ (((j : ℕ) → j < ncap → ¬ (SharesEnd begin end (getcap j s.kernel)))
            × (find_existing_pmp s3k begin end s ≡ done (minus_one, s)))
  unfolding find_existing_pmp
  find_existing_pmp-SharesEnd begin end h =
      elim (find_up_lem h (matches_pmp s3k begin end) ncap 0 (omega arith)) [
        | inl (i, found, result) ↦ inl (
          i,
          found.below,
          matches_pmp-true begin end _ found.passes,
          λ j q. matches_pmp-false begin end _ (found.before_fail j (omega arith) q),
          result,
        )
        | inr (fail, result) ↦
            inr (λ j q. matches_pmp-false begin end _ (fail j (omega arith) q), result)
      ]
