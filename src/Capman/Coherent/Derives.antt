-- ===== src/Capman/Coherent/Derives.antt =====
-- Deriving keeps the cached table coherent, and never reads or writes outside it: the kernel refuses
-- an index outside its table, also the -1 of a search that found nothing.
use native.Mathlib.Decide.{ℕ_discrete}
use s3k_monitor.Prelude.{
  ℕ, ◌+◌, ◌<◌, ◌≡◌, ◌≢◌, ◌⊎◌, inl, inr, ◌∙◌, refl, Bool, true, false, arith, done, Returns,
  length-set,
}
use s3k_monitor.S3k.{S3k, ncap}
use s3k_monitor.S3k.Laws.{Laws, SameTable}
use s3k_monitor.Capman.{Caps}
use s3k_monitor.Capman.Derive.{refresh, drvcap_from}
use s3k_monitor.Capman.Coherent.{
  IsCoherent, stored, stored-IsStale, stored-IsCoherent, IsCoherent-IsStale, IsCoherent-same,
  store-eq_done,
}

module _ (s3k : S3k) (laws : Laws s3k) where
  open s3k use {Cap, excpt_none, getcap, drvcap}

  -- What a derivation of `c` at `idx` from the entry `i` may do: nothing, or put `c` there and
  -- change no entry but these two.
  abbrev pub Derived : ℕ → ℕ → Cap → Caps s3k → Bool → Caps s3k → Type 0
  Derived i idx c s r s' =
      ((r ≡ false) × SameTable s3k s.kernel s'.kernel)
      ⊎ ((r ≡ true)
          × (i < ncap)
          × (getcap idx s'.kernel ≡ c)
          × ((j : ℕ) → j ≢ i → j ≢ idx → getcap j s'.kernel ≡ getcap j s.kernel))

  module _ {s : Caps s3k} (h : IsCoherent s3k s) (i idx : ℕ) (c : Cap) where
    abbrev after_drvcap : Caps s3k
    after_drvcap = record s { kernel = (drvcap i idx c s.kernel).1 }

    drvcap_from-failed :
        (drvcap i idx c s.kernel).0 ≢ excpt_none
        → drvcap_from s3k i idx c s ≡ done (false, after_drvcap)
    unfolding drvcap_from
    drvcap_from-failed e = ground arith

    drvcap_from-made :
        (drvcap i idx c s.kernel).0 ≡ excpt_none
        → drvcap_from s3k i idx c s ≡ refresh s3k i idx after_drvcap
    unfolding drvcap_from
    drvcap_from-made e = ground arith

    abbrev refreshed : Caps s3k
    refreshed =
        stored s3k idx (getcap idx after_drvcap.kernel)
          (stored s3k i (getcap i after_drvcap.kernel) after_drvcap)

    refresh-stored :
        i < ncap
        → idx < ncap
        → refresh s3k i idx after_drvcap ≡ done (true, record refreshed { ncaps = s.ncaps + 1 })
    unfolding refresh
    refresh-stored p q =
        let parent = getcap i after_drvcap.kernel in
        ground (
          arith,
          store-eq_done s3k i parent after_drvcap h.size p,
          store-eq_done s3k idx (getcap idx after_drvcap.kernel) (stored s3k i parent after_drvcap)
              (length-set s.caps i parent ∙ h.size) q,
        )

    pub drvcap_from-IsCoherent :
        Returns (drvcap_from s3k i idx c s) (λ r s'. IsCoherent s3k s' × Derived i idx c s r s')
    drvcap_from-IsCoherent = elim (ℕ_discrete (drvcap i idx c s.kernel).0 excpt_none) [
      | no e ↦
          let same = laws.drvcap_failed i idx c s.kernel e in
          rw (drvcap_from-failed e) (IsCoherent-same s3k _ h same, inl (refl, λ j. same j))
      | yes e ↦
          let (p, q) = laws.drvcap_in_table i idx c s.kernel e in
          let others =
            λ (j : ℕ) (a : j ≢ i) (b : j ≢ idx). laws.drvcap_others i idx j c s.kernel a b in
          let stale =
            IsCoherent-IsStale s3k {i = i} {i' = idx} (drvcap i idx c s.kernel).1 h others in
          let whole : IsCoherent s3k refreshed =
            stored-IsCoherent s3k (stored-IsStale s3k stale p refl) q refl in
          rw (drvcap_from-made e, refresh-stored p q)
            (
              record { size = whole.size; mirror = whole.mirror },
              inr (refl, p, laws.drvcap_derived i idx c s.kernel e, others),
            )
    ]
