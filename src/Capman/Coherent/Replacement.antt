-- ===== src/Capman/Coherent/Replacement.antt =====
-- `capman_update_pmp` on a coherent table: the step that each status stands for, and what is left.
use s3k_monitor.Prelude.{
  ℕ, ap, Bool, true, Returns-run, ◌<◌, ◌≡◌, ◌≢◌, inl, inr, ◌∙◌, refl, false, not, arith, ◌==◌, pos,
  done, Returns, Returns-bind, ◌>>=◌, to_u64, minus_one, pure, if◌then◌else◌, Run,
}
use s3k_monitor.S3k.{S3k, ncap}
use s3k_monitor.S3k.Laws.{Laws, SameTable}
use s3k_monitor.Capman.{Caps}
use s3k_monitor.Capman.Table.{find_free, move, delete}
use s3k_monitor.Capman.Derive.{derive_pmp}
use s3k_monitor.Capman.Replace.{update_pmp}
use s3k_monitor.Capman.Coherent.{IsCoherent}
use s3k_monitor.Capman.Coherent.Moves.{move-IsCoherent, delete-IsCoherent}
use s3k_monitor.Capman.Coherent.Calls.{derive_pmp-IsCoherent}
use s3k_monitor.Capman.Search.{IsHighest, find_free-IsHighest}

module _ (s3k : S3k) where
  open s3k use {raw, with_raw, captype, capty_none, getcap, make_pmp, napot_addr}

  -- At `tidx`, the highest free entry, the derivation of the new capability ends so.
  pub record Tried (tidx begin end rwx : ℕ) (s : Caps s3k) (b : Bool) (m : Caps s3k) : Type 0 where
    pub free : IsHighest s3k (λ c. captype c == capty_none) ncap s.kernel tidx
    pub run : derive_pmp s3k tidx begin end rwx s ≡ done (b, m)

  -- How the replacement of the entry `idx` by a PMP capability ends, by its status. `m` is the state
  -- after the new capability was derived at `tidx`.
  pub data Replacement (idx begin end rwx : ℕ) (s : Caps s3k) (r : ℕ) (s' : Caps s3k) : Type 0 where
    -- The new capability stands at `idx`; besides it, only the entry it was derived from may differ.
    replaced :
        (tidx i : ℕ) (m : Caps s3k)
        → r ≡ 0
        → Tried tidx begin end rwx s true m
        → raw (getcap idx m.kernel) ≢ 0
        → getcap idx s'.kernel ≡ make_pmp (napot_addr begin end) rwx
        → getcap tidx s'.kernel ≡ with_raw 0
        → ((j : ℕ) → j ≢ idx → j ≢ tidx → j ≢ i → getcap j s'.kernel ≡ getcap j s.kernel)
        → Replacement idx begin end rwx s r s'
    -- No entry is free: nothing changes.
    full :
        r ≡ 1
        → ((j : ℕ) → j < ncap → captype (getcap j s.kernel) ≢ capty_none)
        → s' ≡ s
        → Replacement idx begin end rwx s r s'
    -- The derivation failed: the kernel's table is as it was.
    underivable :
        (tidx : ℕ)
        → r ≡ 2
        → Tried tidx begin end rwx s false s'
        → SameTable s3k s.kernel s'.kernel
        → Replacement idx begin end rwx s r s'
    -- There is nothing to replace: the new capability stays behind at the free index.
    nothing_there :
        (tidx i : ℕ)
        → r ≡ 3
        → Tried tidx begin end rwx s true s'
        → raw (getcap idx s'.kernel) ≡ 0
        → getcap tidx s'.kernel ≡ make_pmp (napot_addr begin end) rwx
        → ((j : ℕ) → j ≢ tidx → j ≢ i → getcap j s'.kernel ≡ getcap j s.kernel)
        → Replacement idx begin end rwx s r s'
    -- There was a capability, it is deleted, and the new one did not get its place.
    not_moved :
        (tidx i : ℕ) (m : Caps s3k)
        → r ≡ 4
        → Tried tidx begin end rwx s true m
        → raw (getcap idx m.kernel) ≢ 0
        → getcap idx s'.kernel ≡ with_raw 0
        → (tidx ≢ idx → getcap tidx s'.kernel ≡ make_pmp (napot_addr begin end) rwx)
        → ((j : ℕ) → j ≢ idx → j ≢ tidx → j ≢ i → getcap j s'.kernel ≡ getcap j s.kernel)
        → Replacement idx begin end rwx s r s'

module _ (s3k : S3k) (laws : Laws s3k) where
  open s3k use {Cap, raw, with_raw, captype, capty_none, getcap, make_pmp, napot_addr}

  module _ {s : Caps s3k} (h : IsCoherent s3k s) (idx : ℕ) (p : idx < ncap)
      (begin end rwx : ℕ) where
    abbrev new_pmp : Cap
    new_pmp = make_pmp (napot_addr begin end) rwx

    -- The last step, after the old capability was deleted.
    finish-Returns :
        (tidx i : ℕ) {d m : Caps s3k}
        → IsCoherent s3k m
        → Tried s3k tidx begin end rwx s true d
        → raw (getcap idx d.kernel) ≢ 0
        → (tidx ≢ idx → getcap tidx m.kernel ≡ new_pmp)
        → getcap idx m.kernel ≡ with_raw 0
        → ((j : ℕ) → j ≢ idx → j ≢ tidx → j ≢ i → getcap j m.kernel ≡ getcap j s.kernel)
        → Returns
            ((move s3k tidx idx >>= λ moved. if not moved then pure 4 else pure 0) m)
            (λ r s'. IsCoherent s3k s' × Replacement s3k idx begin end rwx s r s')
    finish-Returns tidx i {d} {m} hm tried there new empty others =
        Returns-bind (move s3k tidx idx) _ m _ _
          (move-IsCoherent s3k laws hm tidx idx tried.free.below p)
          (λ moved s' (whole, ended). elim ended [
            | inl (e, same) ↦ rw e (
              whole,
              not_moved tidx i d refl tried there (same idx ∙ empty) (λ ne. same tidx ∙ new ne)
                  (λ j a b c. same j ∙ others j a b c),
            )
            | inr (e, ne, came, left, rest) ↦ rw e (
              whole,
              replaced tidx i d refl tried there (came ∙ new ne) left
                  (λ j a b c. rest j b a ∙ others j a b c),
            )
          ])

    -- From the derivation on, at the free index `tidx`.
    abbrev rest_at : ℕ → Run (Caps s3k) ℕ
    rest_at tidx = do
      derived ← derive_pmp s3k tidx begin end rwx
      if not derived then pure 2 else (do
        deleted ← delete s3k idx
        if not deleted
            then pure 3
            else (do moved ← move s3k tidx idx; if not moved then pure 4 else pure 0))

    delete-Returns :
        (tidx i : ℕ) {m : Caps s3k}
        → IsCoherent s3k m
        → Tried s3k tidx begin end rwx s true m
        → getcap tidx m.kernel ≡ new_pmp
        → ((j : ℕ) → j ≢ i → j ≢ tidx → getcap j m.kernel ≡ getcap j s.kernel)
        → Returns
            ((delete s3k idx >>= λ deleted.
                if not deleted
                then pure 3
                else (move s3k tidx idx >>= λ moved. if not moved then pure 4 else pure 0))
              m)
            (λ r s'. IsCoherent s3k s' × Replacement s3k idx begin end rwx s r s')
    delete-Returns tidx i {m} hm tried new others =
        Returns-bind (delete s3k idx) _ m _ _ (delete-IsCoherent s3k laws hm idx p)
          (λ deleted s' (whole, ended). elim ended [
            | inl (e, empty, same) ↦
                rw (e, same) (hm, nothing_there tidx i refl tried empty new (λ j a b. others j b a))
            | inr (e, there, gone, rest) ↦ rw e (
                finish-Returns tidx i whole tried there (λ ne. rest tidx ne ∙ new) gone
                  (λ j a b c. rest j a ∙ others j c b))
          ])

    derive-Returns :
        (tidx : ℕ)
        → IsHighest s3k (λ c. captype c == capty_none) ncap s.kernel tidx
        → Returns
            (rest_at tidx s)
            (λ r s'. IsCoherent s3k s' × Replacement s3k idx begin end rwx s r s')
    derive-Returns tidx free =
        Returns-bind (derive_pmp s3k tidx begin end rwx) _ s _ _
          (Returns-run (derive_pmp s3k tidx begin end rwx s) _
            (derive_pmp-IsCoherent s3k laws h tidx begin end rwx))
          (λ derived m ((whole, ended, _), run). elim ended [
            | inl (e, same) ↦
                let tried : Tried s3k tidx begin end rwx s false m = record {
                  free = free;
                  run = run ∙ ap (λ b. done (b, m)) e;
                } in
                rw e (whole, underivable tidx refl tried same)
            | inr (e, i, _, new, others) ↦
                let tried : Tried s3k tidx begin end rwx s true m = record {
                  free = free;
                  run = run ∙ ap (λ b. done (b, m)) e;
                } in
                rw e (delete-Returns tidx i whole tried new others)
          ])

    pub update_pmp-Replacement :
        Returns
          (update_pmp s3k idx begin end rwx s)
          (λ r s'. IsCoherent s3k s' × Replacement s3k idx begin end rwx s r s')
    unfolding update_pmp
    update_pmp-Replacement = elim (find_free-IsHighest s3k h) [
      | inr (taken, result) ↦
          let r : find_free s3k s ≡ done (minus_one, s) = result in
          rw (r, ◌>>=◌) (h, full refl (λ j q e. ground (arith, taken j q)) refl)
      | inl (i, found, result) ↦
          let r : find_free s3k s ≡ done (pos i, s) = result in
          let small : to_u64 (pos i) ≡ i = omega (arith, found.below) in
          let other : (i == to_u64 minus_one) ≡ false = ground (arith, found.below) in
          rw (r, ◌>>=◌) (rw (small, other) (derive-Returns i found))
    ]
