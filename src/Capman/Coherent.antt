-- ===== src/Capman/Coherent.antt =====
-- The cached table mirrors the kernel's: the invariant, and how stores restore it after a call that
-- changed two entries.
pub mod Moves
pub mod Derives
pub mod Update
pub mod Calls
pub mod Gifts
pub mod Replacement
pub mod Sequences
use s3k_monitor.Prelude.{
  ℕ, ◌<◌, ◌≡◌, ◌≢◌, ◌∙◌, sym, ap, some, arith, length, get_elem?, set, length-set,
  get_elem?-set_self, get_elem?-set_ne, done,
}
use s3k_monitor.S3k.{S3k, ncap}
use s3k_monitor.Capman.{Caps, load, store}

module _ (s3k : S3k) where
  open s3k use {Cap, getcap}

  -- Every entry is what the kernel holds at its index.
  pub record IsCoherent (s : Caps s3k) : Type 0 where
    pub size : length s.caps ≡ ncap
    pub mirror : (j : ℕ) → j < ncap → get_elem? s.caps j ≡ some (getcap j s.kernel)

  -- Every entry is, but perhaps those at `i` and `i'`.
  pub record IsStale (i i' : ℕ) (s : Caps s3k) : Type 0 where
    pub size : length s.caps ≡ ncap
    pub mirror : (j : ℕ) → j < ncap → j ≢ i → j ≢ i' → get_elem? s.caps j ≡ some (getcap j s.kernel)

  -- The state after `caps[i] = c`.
  abbrev pub stored : ℕ → Cap → Caps s3k → Caps s3k
  stored i c s = record s { caps = set s.caps i c }

  pub store-eq_done :
      (i : ℕ) (c : Cap) (s : Caps s3k)
      → length s.caps ≡ ncap
      → i < ncap
      → store s3k i c s ≡ done (tt, stored i c s)
  unfolding store
  store-eq_done i c s e p = ground arith

  pub load-eq_done :
      (i : ℕ) (c : Cap) (s : Caps s3k) → get_elem? s.caps i ≡ some c → load s3k i s ≡ done (c, s)
  unfolding load
  load-eq_done i c s e = ground arith

  pub stored-IsStale :
      {i i' : ℕ} {c : Cap} {s : Caps s3k}
      → IsStale i i' s
      → i < ncap
      → c ≡ getcap i s.kernel
      → IsStale i' i' (stored i c s)
  stored-IsStale {i} {i'} {c} {s} h p e = record {
    size = length-set s.caps i c ∙ h.size;
    mirror = λ j q ne _.
        ground (
          arith,
          h.size,
          h.mirror j q,
          get_elem?-set_self s.caps i c,
          get_elem?-set_ne s.caps i j c,
        );
  }

  pub stored-IsCoherent :
      {i : ℕ} {c : Cap} {s : Caps s3k}
      → IsStale i i s
      → i < ncap
      → c ≡ getcap i s.kernel
      → IsCoherent (stored i c s)
  stored-IsCoherent {i} {c} {s} h p e = record {
    size = length-set s.caps i c ∙ h.size;
    mirror = λ j q.
        ground (
          arith,
          h.size,
          h.mirror j q,
          get_elem?-set_self s.caps i c,
          get_elem?-set_ne s.caps i j c,
        );
  }

  -- The kernel moved on and changed at most two entries.
  pub IsCoherent-IsStale :
      {i i' : ℕ} {s : Caps s3k} (k : s3k.Kernel)
      → IsCoherent s
      → ((j : ℕ) → j ≢ i → j ≢ i' → getcap j k ≡ getcap j s.kernel)
      → IsStale i i' (record s { kernel = k })
  IsCoherent-IsStale k h same = record {
    size = h.size;
    mirror = λ j p ne ne'. h.mirror j p ∙ ap some (sym (same j ne ne'));
  }

  pub IsCoherent-same :
      {s : Caps s3k} (k : s3k.Kernel)
      → IsCoherent s
      → ((j : ℕ) → getcap j k ≡ getcap j s.kernel)
      → IsCoherent (record s { kernel = k })
  IsCoherent-same k h same = record {
    size = h.size;
    mirror = λ j p. ground (arith, h.mirror j p, same j);
  }
