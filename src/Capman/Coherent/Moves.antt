-- ===== src/Capman/Coherent/Moves.antt =====
-- Moving and deleting keep the cached table coherent.
use native.Mathlib.Decide.{ℕ_discrete}
use s3k_monitor.Prelude.{
  ℕ, ◌<◌, ◌≡◌, ◌≢◌, ◌⊎◌, inl, inr, ◌∙◌, sym, Bool, true, false, ◌||◌, not, arith, ◌==◌, done,
  Bool-cases, Returns, refl, length-set,
}
use s3k_monitor.S3k.{S3k, ncap}
use s3k_monitor.S3k.Laws.{Laws, SameTable}
use s3k_monitor.Capman.{Caps, load}
use s3k_monitor.Capman.Table.{move, note_move, delete}
use s3k_monitor.Capman.Coherent.{
  IsCoherent, stored, stored-IsStale, stored-IsCoherent, IsCoherent-IsStale, IsCoherent-same,
  load-eq_done, store-eq_done,
}

module _ (s3k : S3k) (laws : Laws s3k) where
  open s3k use {Cap, raw, with_raw, excpt_none, getcap, movcap, delcap}

  module _ {s : Caps s3k} (h : IsCoherent s3k s) (src dst : ℕ) (p : src < ncap)
      (q : dst < ncap) where
    abbrev refuses : Bool
    refuses = raw (getcap src s.kernel) == 0 || not (raw (getcap dst s.kernel) == 0)

    abbrev after_movcap : Caps s3k
    after_movcap = record s { kernel = (movcap src dst s.kernel).1 }

    load_src : load s3k src s ≡ done (getcap src s.kernel, s)
    load_src = load-eq_done s3k src _ s (h.mirror src p)

    load_dst : load s3k dst s ≡ done (getcap dst s.kernel, s)
    load_dst = load-eq_done s3k dst _ s (h.mirror dst q)

    move-refused : refuses ≡ true → move s3k src dst s ≡ done (false, s)
    unfolding move
    move-refused g = ground (arith, load_src, load_dst)

    move-failed :
        refuses ≡ false
        → (movcap src dst s.kernel).0 ≢ excpt_none
        → move s3k src dst s ≡ done (false, after_movcap)
    unfolding move
    move-failed g e = ground (arith, load_src, load_dst)

    move-made :
        refuses ≡ false
        → (movcap src dst s.kernel).0 ≡ excpt_none
        → move s3k src dst s ≡ note_move s3k src dst after_movcap
    unfolding move
    move-made g e = ground (arith, load_src, load_dst)

    note_move-stored :
        note_move s3k src dst after_movcap
        ≡ done (
          true,
          stored s3k src
              (with_raw 0)
              (stored s3k dst (with_raw (raw (getcap src s.kernel))) after_movcap),
        )
    unfolding note_move
    note_move-stored =
        let moved = with_raw (raw (getcap src s.kernel)) in
        ground (
          arith,
          load-eq_done s3k src _ after_movcap (h.mirror src p),
          store-eq_done s3k dst moved after_movcap h.size q,
          store-eq_done s3k src (with_raw 0) (stored s3k dst moved after_movcap)
              (length-set s.caps dst moved ∙ h.size) p,
        )

    move-parts :
        refuses ≡ false
        → (raw (getcap src s.kernel) ≢ 0) × (raw (getcap dst s.kernel) ≡ 0) × (src ≢ dst)
    move-parts g = ground arith

    -- On a table that mirrors the kernel's, a move between two of its indices ends and leaves such
    -- a table. It is refused, by the cached entries or by the kernel, and then no entry changes; or
    -- it is made, the capability has changed its place, and no other entry changes.
    pub move-IsCoherent : Returns (move s3k src dst s) (λ r s'.
        IsCoherent s3k s'
        × (((r ≡ false) × SameTable s3k s.kernel s'.kernel)
            ⊎ ((r ≡ true)
                × (src ≢ dst)
                × (getcap dst s'.kernel ≡ getcap src s.kernel)
                × (getcap src s'.kernel ≡ with_raw 0)
                × ((j : ℕ) → j ≢ src → j ≢ dst → getcap j s'.kernel ≡ getcap j s.kernel))))
    move-IsCoherent = elim (Bool-cases refuses) [
      | inl g ↦ rw (move-refused g) (h, inl (refl, λ j. refl))
      | inr g ↦ elim (ℕ_discrete (movcap src dst s.kernel).0 excpt_none) [
        | no e ↦
            let same = laws.movcap_failed src dst s.kernel e in
            rw (move-failed g e) (IsCoherent-same s3k _ h same, inl (refl, λ j. same j))
        | yes e ↦
            let (full, empty, ne) = move-parts g in
            let (came, left) = laws.movcap_moved src dst s.kernel e in
            let stale =
              IsCoherent-IsStale s3k {i = dst} {i' = src} (movcap src dst s.kernel).1 h
                (λ j a b. laws.movcap_others src dst j s.kernel b a) in
            let half = stored-IsStale s3k stale q (laws.with_raw-raw _ ∙ sym came) in
            rw (move-made g e, note_move-stored)
              (
                stored-IsCoherent s3k half p (sym (left ne)),
                inr (refl, ne, came, left ne, λ j a b. laws.movcap_others src dst j s.kernel a b),
              )
      ]
    ]

  module _ {s : Caps s3k} (h : IsCoherent s3k s) (idx : ℕ) (p : idx < ncap) where
    abbrev after_delcap : Caps s3k
    after_delcap = record s { kernel = (delcap idx s.kernel).1 }

    delete-refused : raw (getcap idx s.kernel) ≡ 0 → delete s3k idx s ≡ done (false, s)
    unfolding delete
    delete-refused e = ground (arith, load-eq_done s3k idx _ s (h.mirror idx p))

    delete-made :
        raw (getcap idx s.kernel) ≢ 0
        → delete s3k idx s ≡ done (true, stored s3k idx (with_raw 0) after_delcap)
    unfolding delete
    delete-made e = ground (
      arith,
      load-eq_done s3k idx _ s (h.mirror idx p),
      store-eq_done s3k idx (with_raw 0) after_delcap h.size p,
    )

    -- On a table that mirrors the kernel's, an empty entry is reported and nothing changes; any
    -- other is emptied, in the kernel and in the cached table, and no other entry changes.
    pub delete-IsCoherent : Returns (delete s3k idx s) (λ r s'.
        IsCoherent s3k s'
        × (((r ≡ false) × (raw (getcap idx s.kernel) ≡ 0) × (s' ≡ s))
            ⊎ ((r ≡ true)
                × (raw (getcap idx s.kernel) ≢ 0)
                × (getcap idx s'.kernel ≡ with_raw 0)
                × ((j : ℕ) → j ≢ idx → getcap j s'.kernel ≡ getcap j s.kernel))))
    delete-IsCoherent = elim (ℕ_discrete (raw (getcap idx s.kernel)) 0) [
      | yes e ↦ rw (delete-refused e) (h, inl (refl, e, refl))
      | no e ↦
          let gone = laws.delcap_deleted idx s.kernel e in
          let others = λ (j : ℕ) (ne : j ≢ idx). laws.delcap_others idx j s.kernel ne in
          let stale =
            IsCoherent-IsStale s3k {i = idx} {i' = idx} (delcap idx s.kernel).1 h
              (λ j a b. others j a) in
          rw (delete-made e) (stored-IsCoherent s3k stale p (sym gone), inr (refl, e, gone, others))
    ]
