-- ===== src/App/Test/Heaps.antt =====
-- What tests 5 to 7 leave of the heap.
use s3k_monitor.Prelude.{
  ℕ, ◌≡◌, ◌≢◌, ◌∙◌, refl, sym, subst, Bool, true, false, if◌then◌else◌, List, length, Run, pure,
  done, ◌>>=◌, ◌>>◌, Returns, Returns-bind, add64,
}
use s3k_monitor.S3k.{S3k}
use s3k_monitor.Altmem.{Mem, null, alloc, free}
use s3k_monitor.Altmem.Valid.{IsHeap}
use s3k_monitor.Altmem.Alloc.{free-alloc}
use s3k_monitor.App.{Symbols, App, lift_heap}
use s3k_monitor.App.Main.{test}
use s3k_monitor.App.Test.{Machine, Places, after, test5, test6, test7, tests}
use s3k_monitor.App.Test.Code.{code_new_code, code_broken_sig}

module _ (s3k : S3k) where
  -- A machine whose accesses end and leave the heap as it is. A `memcpy` to the heap completes, after
  -- the trap handler where it was not allowed; a call completes, or the handler resets the app.
  pub record IsOrderly (machine : Machine s3k) (completes : Bool) : Type 0 where
    pub stores :
        (at : ℕ) (bytes : List ℕ) (s : App s3k)
        → Returns (machine.store at bytes s) (λ ok s'. (ok ≡ true) × (s'.heap ≡ s.heap))
    pub jumps :
        (at : ℕ) (s : App s3k)
        → Returns (machine.jump at s) (λ ok s'. (ok ≡ completes) × (s'.heap ≡ s.heap))

  module _ (machine : Machine s3k) (at : Symbols) (places : Places) (completes : Bool)
      (orderly : IsOrderly machine completes) where
    abbrev Left : Mem → Mem → App s3k → Type 0
    Left before taken s' = s'.heap ≡ (if completes then before else taken)

    -- The heap's part of a test behind the access that takes it to the end or resets the app.
    last_jump :
        (ptr target : ℕ) (before taken : Mem) (s : App s3k)
        → s.heap ≡ taken
        → free ptr taken ≡ done (tt, before)
        → Returns
            (after s3k machine at places (machine.jump target) (lift_heap (free ptr)) s)
            (λ _ s'. Left before taken s')
    last_jump ptr target before taken s here back =
        Returns-bind (machine.jump target) _ s (λ ok s'. (ok ≡ completes) × (s'.heap ≡ s.heap)) _
          (orderly.jumps target s) (λ ok s' (answer, same). go completes ok s' answer (same ∙ here))
      where
        go :
            (c ok : Bool) (s' : App s3k)
            → ok ≡ c
            → s'.heap ≡ taken
            → Returns
                ((if ok then lift_heap (free ptr) else pure tt) s')
                (λ _ t. t.heap ≡ (if c then before else taken))
        go true ok s' e same = rw (e, same, back, lift_heap) refl
        go false ok s' e same = rw e same

    test7_lem :
        {heap n : ℕ} {used : ℕ → Bool} (s : App s3k) (ptr : ℕ) (taken : Mem)
        → IsHeap heap n used s.heap
        → alloc (length code_broken_sig) s.heap ≡ done (ptr, taken)
        → ptr ≢ null
        → Returns (test7 s3k machine at places s) (λ _ s'. Left s.heap taken s')
    unfolding test7
    test7_lem s ptr taken h allocated ne =
        let back = free-alloc h (length code_broken_sig) ptr allocated ne in
        let t : App s3k = record s { heap = taken } in
        rw (allocated, ◌>>=◌, lift_heap)
          (Returns-bind (machine.store ptr code_broken_sig) _ t
            (λ ok s'. (ok ≡ true) × (s'.heap ≡ taken)) _ (orderly.stores ptr code_broken_sig t)
            (λ ok s' (went_on, same).
              rw went_on (last_jump ptr (add64 ptr 0x20) s.heap taken s' same back)))

    abbrev M : Type 0 → Type 0
    M A = Run (App s3k) A

    -- A test of the main loop.
    abbrev run : ℕ → M (Unit {0})
    run = test s3k (tests s3k machine at places)

    test5_lem :
        (s : App s3k) (ptr : ℕ) (taken : Mem)
        → alloc (length code_new_code) s.heap ≡ done (ptr, taken)
        → Returns (test5 s3k machine at places s) (λ p s'. (p ≡ ptr) × (s'.heap ≡ taken))
    unfolding test5
    test5_lem s ptr taken allocated =
        let t : App s3k = record s { heap = taken } in
        rw (allocated, ◌>>=◌, lift_heap)
          (Returns-bind (machine.store ptr code_new_code) _ t
            (λ ok s'. (ok ≡ true) × (s'.heap ≡ taken)) _ (orderly.stores ptr code_new_code t)
            (λ ok s' (went_on, same). rw went_on (refl, same)))

    -- On a heap that is laid out with a free chunk, where a store to a chunk completes and leaves the
    -- heap as it is: tests 5 and 6 of the main loop, one after the other, return, and so does test
    -- 7. Where the call of the code completes, each leaves the heap as it was; where it resets the
    -- app, the chunk that the test took stays occupied.
    pub test-Left :
        {heap n : ℕ} {used : ℕ → Bool} (s : App s3k) (ptr : ℕ) (taken : Mem)
        → IsHeap heap n used s.heap
        → alloc (length code_new_code) s.heap ≡ done (ptr, taken)
        → ptr ≢ null
        → Returns ((run 5 >> run 6) s) (λ _ s'. Left s.heap taken s')
          × Returns (run 7 s) (λ _ s'. Left s.heap taken s')
    unfolding test test6
    test-Left s ptr taken h allocated ne =
        let back = free-alloc h (length code_new_code) ptr allocated ne in
        (
          Returns-bind (run 5) (λ _. run 6) s (λ _ s'. (s'.ptr ≡ ptr) × (s'.heap ≡ taken)) _
              (Returns-bind (test5 s3k machine at places) _ s
                (λ p s'. (p ≡ ptr) × (s'.heap ≡ taken)) _ (test5_lem s ptr taken allocated)
                (λ p s' q. q))
              (λ _ s' (pointer, same).
                subst (λ p. Returns (test6 s3k machine at places p s') (λ _ t. Left s.heap taken t))
                  (sym pointer) (last_jump ptr (add64 ptr 0x20) s.heap taken s' same back)),
          test7_lem s ptr taken h allocated ne,
        )
