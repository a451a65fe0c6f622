-- ===== src/Capman/Coherent/Calls.antt =====
-- The four derivations on a coherent table: none faults, and each leaves the table coherent.
use s3k_monitor.Prelude.{
  ℕ, ◌/◌, ◌^◌, ◌<◌, ◌≤◌, ◌≡◌, ◌≢◌, ◌⊎◌, inl, inr, refl, Bool, true, false, ◌||◌, not, arith, ◌==◌,
  ℤ, minus_one, to_u64, Returns, Returns-mono, Returns-bind, Bool-cases, ltb, ◌>>=◌, pure,
  if◌then◌else◌,
}
use s3k_monitor.S3k.{S3k, ncap}
use s3k_monitor.S3k.Laws.{Laws, SameTable}
use s3k_monitor.Capman.{Caps}
use s3k_monitor.Capman.Table.{find_down}
use s3k_monitor.Capman.Derive.{
  drvcap_from, derive_pmp, derive_mem, derive_time, derive_socket, find_memory_derive,
  find_time_derive, find_channel_derive, find_socket_derive, page_field,
}
use s3k_monitor.Capman.Coherent.{IsCoherent}
use s3k_monitor.Capman.Coherent.Derives.{drvcap_from-IsCoherent}
use s3k_monitor.Capman.Search.{find_down_lem}

module _ (s3k : S3k) (laws : Laws s3k) where
  open s3k use {
    Cap, getcap, make_pmp, make_memory, make_time, make_socket, channel_derive, memory_derive,
    time_derive, napot_addr, napot_begin, napot_end,
  }

  -- A derivation whose source is left open.
  abbrev pub DerivedFrom : ℕ → Cap → Caps s3k → Bool → Caps s3k → Type 0
  DerivedFrom idx c s r s' =
      ((r ≡ false) × SameTable s3k s.kernel s'.kernel)
      ⊎ ((r ≡ true)
          × (i : ℕ) × (i < ncap)
          × (getcap idx s'.kernel ≡ c)
          × ((j : ℕ) → j ≢ i → j ≢ idx → getcap j s'.kernel ≡ getcap j s.kernel))

  module _ {s : Caps s3k} (h : IsCoherent s3k s) where
    -- A search that ends and leaves the state alone, whatever it finds.
    find_down-Returns : (test : Cap → Bool) → Returns (find_down s3k test ncap s) (λ _ s'. s' ≡ s)
    find_down-Returns test = elim (find_down_lem s3k h test ncap (omega arith)) [
      | inl (i, found, result) ↦ rw result refl
      | inr (fail, result) ↦ rw result refl
    ]

    drvcap_from-Returns :
        (i idx : ℕ) (c : Cap)
        → Returns (drvcap_from s3k i idx c s) (λ r s'. IsCoherent s3k s' × DerivedFrom idx c s r s')
    drvcap_from-Returns i idx c =
        Returns-mono (drvcap_from s3k i idx c s) _ _ (drvcap_from-IsCoherent s3k laws h i idx c)
          (λ r s' (whole, derived). (
            whole,
            elim derived [
              | inl refused ↦ inl refused
              | inr (e, p, at, others) ↦ inr (e, i, p, at, others)
            ],
          ))

    -- A search followed by a derivation from what it found.
    search-drvcap_from :
        (test : Cap → Bool) (idx : ℕ) (c : Cap)
        → Returns
            ((find_down s3k test ncap >>= λ i. drvcap_from s3k (to_u64 i) idx c) s)
            (λ r s'. IsCoherent s3k s' × DerivedFrom idx c s r s')
    search-drvcap_from test idx c =
        Returns-bind (find_down s3k test ncap) _ s _ _ (find_down-Returns test)
          (λ i s' e. rw e (drvcap_from-Returns (to_u64 i) idx c))

    -- The same after a test of the arguments, which gave the fact `R`.
    checked-drvcap_from :
        {R : Type 0} (fact : R) (test : Cap → Bool) (idx : ℕ) (c : Cap)
        → Returns
            ((find_down s3k test ncap >>= λ i. drvcap_from s3k (to_u64 i) idx c) s)
            (λ r s'. IsCoherent s3k s' × DerivedFrom idx c s r s' × ((r ≡ false) ⊎ R))
    checked-drvcap_from fact test idx c =
        Returns-mono ((find_down s3k test ncap >>= λ i. drvcap_from s3k (to_u64 i) idx c) s)
          (λ r s'. IsCoherent s3k s' × DerivedFrom idx c s r s') _ (search-drvcap_from test idx c)
          (λ r s' t. (t.0, t.1, inr fact))

    abbrev bad_mem : ℕ → ℕ → Bool
    bad_mem begin end =
        ltb (page_field end) (page_field begin) || not (begin / 2 ^ 27 == end / 2 ^ 27)

    abbrev not_napot : ℕ → ℕ → Bool
    not_napot begin end =
        not (begin == napot_begin (napot_addr begin end))
        || not (end == napot_end (napot_addr begin end))

    -- On a table that mirrors the kernel's, deriving a PMP capability ends and leaves such a table.
    -- It fails and changes no entry; or the new capability stands at its index and no other entry
    -- changes but the one that it was derived from, and the range is the one that its NAPOT address
    -- stands for.
    pub derive_pmp-IsCoherent :
        (idx begin end rwx : ℕ)
        → Returns (derive_pmp s3k idx begin end rwx s) (λ r s'.
          IsCoherent s3k s'
          × DerivedFrom idx (make_pmp (napot_addr begin end) rwx) s r s'
          × ((r ≡ false)
              ⊎ ((begin ≡ napot_begin (napot_addr begin end))
                  × (end ≡ napot_end (napot_addr begin end)))))
    unfolding derive_pmp find_memory_derive
    derive_pmp-IsCoherent idx begin end rwx = elim (Bool-cases (not_napot begin end)) [
      | inl bad ↦ rw bad (h, inl (refl, λ j. refl), inl refl)
      | inr fits ↦
          let range : (begin ≡ napot_begin (napot_addr begin end))
              × (end ≡ napot_end (napot_addr begin end)) =
            ground arith in
          rw fits (
            checked-drvcap_from range (λ c. memory_derive c (make_pmp (napot_addr begin end) rwx))
              idx (make_pmp (napot_addr begin end) rwx))
    ]

    -- On a table that mirrors the kernel's, deriving a time slice ends and leaves such a table. It
    -- fails and changes no entry; or the slice stands at its index, does not end before it begins,
    -- and no other entry changes but its source.
    pub derive_time-IsCoherent :
        (idx hartid begin end : ℕ)
        → Returns (derive_time s3k idx hartid begin end s) (λ r s'.
          IsCoherent s3k s'
          × DerivedFrom idx (make_time hartid begin end) s r s'
          × ((r ≡ false) ⊎ (begin ≤ end)))
    unfolding derive_time find_time_derive
    derive_time-IsCoherent idx hartid begin end = elim (Bool-cases (ltb end begin)) [
      | inl bad ↦ rw bad (h, inl (refl, λ j. refl), inl refl)
      | inr fits ↦
          let range : begin ≤ end = ground arith in
          rw fits (
            checked-drvcap_from range (λ c. time_derive c (make_time hartid begin end)) idx
              (make_time hartid begin end))
    ]

    -- On a table that mirrors the kernel's, deriving a memory capability ends and leaves such a
    -- table. It fails and changes no entry; or the capability with the page fields stands at its
    -- index and no other entry changes but its source, and the range lies within one block of 2^27
    -- bytes, its page fields in order.
    pub derive_mem-IsCoherent :
        (idx begin end rwx : ℕ)
        → Returns (derive_mem s3k idx begin end rwx s) (λ r s'.
          IsCoherent s3k s'
          × DerivedFrom idx
              (make_memory (page_field begin) (page_field end) (begin / 2 ^ 27) rwx)
              s
              r
              s'
          × ((r ≡ false) ⊎ ((page_field begin ≤ page_field end) × (begin / 2 ^ 27 ≡ end / 2 ^ 27))))
    unfolding derive_mem find_memory_derive
    derive_mem-IsCoherent idx begin end rwx = elim (Bool-cases (bad_mem begin end)) [
      | inl bad ↦ rw bad (h, inl (refl, λ j. refl), inl refl)
      | inr fits ↦
          let range : (page_field begin ≤ page_field end) × (begin / 2 ^ 27 ≡ end / 2 ^ 27) =
            ground arith in
          rw fits (
            checked-drvcap_from range
              (λ c.
                memory_derive c
                  (make_memory (page_field begin) (page_field end) (begin / 2 ^ 27) rwx))
              idx (make_memory (page_field begin) (page_field end) (begin / 2 ^ 27) rwx))
    ]

    socket_source :
        (soc : Cap) (i : ℤ)
        → Returns
            ((if to_u64 i == to_u64 minus_one then find_socket_derive s3k soc else pure i) s)
            (λ _ s'. s' ≡ s)
    unfolding find_socket_derive
    socket_source soc i = elim (Bool-cases (to_u64 i == to_u64 minus_one)) [
      | inl e ↦ rw e (find_down-Returns _)
      | inr e ↦ rw e refl
    ]

    -- On a table that mirrors the kernel's, deriving a socket ends and leaves such a table. It
    -- fails and changes no entry; or the socket stands at its index and no other entry changes but
    -- its source, whichever of the two searches found it.
    pub derive_socket-IsCoherent :
        (idx port tag : ℕ)
        → Returns
            (derive_socket s3k idx port tag s)
            (λ r s'. IsCoherent s3k s' × DerivedFrom idx (make_socket port tag) s r s')
    unfolding derive_socket find_channel_derive
    derive_socket-IsCoherent idx port tag =
        let soc = make_socket port tag in
        Returns-bind (find_down s3k (λ c. channel_derive c soc) ncap) _ s _ _ (find_down-Returns _)
          (λ i s' e. rw e (
            Returns-bind
              (if to_u64 i == to_u64 minus_one then find_socket_derive s3k soc else pure i) _ s _ _
              (socket_source soc i) (λ j s'' e'. rw e' (drvcap_from-Returns (to_u64 j) idx soc))))
