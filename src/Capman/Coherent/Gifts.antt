-- ===== src/Capman/Coherent/Gifts.antt =====
-- The calls that carry a capability between the monitor and a monitored process, on a coherent
-- table.
use s3k_monitor.Prelude.{
  ℕ, ◌<◌, ◌≡◌, ◌≢◌, ◌⊎◌, inl, inr, sym, refl, Bool, true, false, arith, ◌==◌, done, Returns, Run,
  Bool-cases, ◌>>=◌, pos,
}
use s3k_monitor.S3k.{S3k, ncap}
use s3k_monitor.S3k.Laws.{Laws, SameTable}
use s3k_monitor.Capman.Table.{find_monitor}
use s3k_monitor.Capman.{Caps}
use s3k_monitor.Capman.Process.{mgivecap, mtakecap, with_monitor}
use s3k_monitor.Capman.Coherent.{
  IsCoherent, stored-IsCoherent, IsCoherent-IsStale, IsCoherent-same, store-eq_done,
}
use s3k_monitor.Capman.Search.{find_monitor_covers}

module _ (s3k : S3k) (laws : Laws s3k) where
  open s3k use {
    Cap, with_raw, excpt_none, capty_none, getcap, mgivecap as s3k_mgivecap,
    mtakecap as s3k_mtakecap,
  }

  -- A call that changes at most the entry `at`: it reports failure and the kernel's table is as it
  -- was, or it reports success.
  abbrev pub Changes : ℕ → Caps s3k → Bool → Caps s3k → Type 0
  Changes at s r s' =
      IsCoherent s3k s'
      × (((r ≡ false) × SameTable s3k s.kernel s'.kernel)
          ⊎ ((r ≡ true) × ((j : ℕ) → j ≢ at → getcap j s'.kernel ≡ getcap j s.kernel)))

  module _ {s : Caps s3k} (h : IsCoherent s3k s) (pid : ℕ) where
    -- Where no capability covers the process the call returns false and changes nothing.
    pub with_monitor-Returns :
        (rest : ℕ → Run (Caps s3k) Bool) (Q : Bool → Caps s3k → Type 0)
        → Q false s
        → ((moncap : ℕ) → moncap < ncap → Returns (rest moncap s) Q)
        → Returns (with_monitor s3k pid rest s) Q
    unfolding with_monitor
    with_monitor-Returns rest Q refused covered = elim (find_monitor_covers s3k pid h) [
      | inl (i, found, _, _, _, result) ↦
          let r : find_monitor s3k pid s ≡ done (pos i, s) = result in
          rw (r, ◌>>=◌) (covered i found.below)
      | inr (fail, result) ↦ rw (result, ◌>>=◌) refused
    ]

    module _ (src dest : ℕ) where
      abbrev after_give : ℕ → Caps s3k
      after_give mon = record s { kernel = (s3k_mgivecap mon pid src dest s.kernel).1 }

      abbrev after_take : ℕ → Caps s3k
      after_take mon = record s { kernel = (s3k_mtakecap mon pid src dest s.kernel).1 }

      -- On a table that mirrors the kernel's, a capability given away is gone from both tables and
      -- no other entry changes; a refusal by the kernel, or the want of a monitor capability,
      -- leaves every entry as it was. Either way the cached table mirrors the kernel's afterwards.
      pub mgivecap-IsCoherent :
          src < ncap
          → Returns
              (mgivecap s3k pid src dest s)
              (λ r s'. Changes src s r s' × ((r ≡ false) ⊎ (getcap src s'.kernel ≡ with_raw 0)))
      unfolding mgivecap
      mgivecap-IsCoherent p =
          with_monitor-Returns _ _ ((h, inl (refl, λ j. refl)), inl refl)
            λ mon q.
              let k = (s3k_mgivecap mon pid src dest s.kernel).1 in
              elim (Bool-cases ((s3k_mgivecap mon pid src dest s.kernel).0 == capty_none)) [
                | inr e ↦
                    let same =
                      laws.mgivecap_failed mon pid src dest s.kernel
                        (ground (arith, laws.none_is_none)) in
                    rw e ((IsCoherent-same s3k k h same, inl (refl, same)), inl refl)
                | inl e ↦
                    let gone =
                      laws.mgivecap_given mon pid src dest s.kernel
                        (ground (arith, laws.none_is_none)) in
                    let others = λ (j : ℕ) (ne : j ≢ src).
                      laws.mgivecap_others mon pid src dest j s.kernel ne in
                    let stale =
                      IsCoherent-IsStale s3k {i = src} {i' = src} k h (λ j a b. others j a) in
                    rw (e, store-eq_done s3k src (with_raw 0) (after_give mon) h.size p, ◌>>=◌)
                      ((stored-IsCoherent s3k stale p (sym gone), inr (refl, others)), inr gone)
              ]

      -- On a table that mirrors the kernel's, taking a capability changes no entry but its target,
      -- and leaves such a table; a refusal, or the want of a monitor capability, leaves every entry
      -- as it was.
      pub mtakecap-IsCoherent :
          dest < ncap → Returns (mtakecap s3k pid src dest s) (λ r s'. Changes dest s r s')
      unfolding mtakecap
      mtakecap-IsCoherent p =
          with_monitor-Returns _ _ (h, inl (refl, λ j. refl))
            λ mon q.
              let k = (s3k_mtakecap mon pid src dest s.kernel).1 in
              elim (Bool-cases ((s3k_mtakecap mon pid src dest s.kernel).0 == capty_none)) [
                | inr e ↦
                    let same =
                      laws.mtakecap_failed mon pid src dest s.kernel
                        (ground (arith, laws.none_is_none)) in
                    rw e (IsCoherent-same s3k k h same, inl (refl, same))
                | inl e ↦
                    let others = λ (j : ℕ) (ne : j ≢ dest).
                      laws.mtakecap_others mon pid src dest j s.kernel ne in
                    let stale =
                      IsCoherent-IsStale s3k {i = dest} {i' = dest} k h (λ j a b. others j a) in
                    rw (e, store-eq_done s3k dest (getcap dest k) (after_take mon) h.size p, ◌>>=◌)
                      (stored-IsCoherent s3k stale p refl, inr (refl, others))
              ]
