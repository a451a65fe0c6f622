-- ===== src/App/Main/Order.antt =====
-- Which tests the app runs, and in which order.
use s3k_monitor.Prelude.{
  ℕ, zero, suc, ◌+◌, ◌-◌, ◌≤◌, ◌<◌, ◌≡◌, inl, inr, Bool, true, false, ltb, add64, if◌then◌else◌,
  arith, refl, ap, sym, ◌∙◌, List, [], ◌∷◌, Outcome, done, fault, spin, Run, pure, modify, ◌>>=◌,
  ◌>>◌, Ensures, Keeps, Keeps-if, Keeps-bind, ◌==◌, Bool-cases, bind_alike,
}
use s3k_monitor.S3k.{S3k}
use s3k_monitor.App.{App}
use s3k_monitor.App.Main.{Tests, selects, test, test_loop, announce, idle, loop}

-- The numbers of the selected tests among the `left` ones above `c`, in ascending order.
abbrev pub selected : (ℕ → Bool) → ℕ → ℕ → List ℕ
selected chosen zero c = []
selected chosen (suc left) c =
    let rest = selected chosen left (c + 1) in if chosen (c + 1) then (c + 1) ∷ rest else rest

-- What comes after an outcome.
abbrev next_run : {S A B : Type 0} → Outcome (A × S) → (A → Run S B) → Outcome (B × S)
next_run o f = elim o [ done (a, s) ↦ f a s | fault ↦ fault | spin ↦ spin ]

bind_assoc :
    {S A B C : Type 0} (m : Run S A) (f : A → Run S B) (g : B → Run S C) (s : S)
    → ((m >>= f) >>= g) s ≡ (m >>= λ a. f a >>= g) s
bind_assoc {S} {A} {B} {C} m f g s = go (m s)
  where
    go :
        (o : Outcome (A × S))
        → next_run {B = C} (next_run {B = B} o f) g ≡ next_run {B = C} o (λ a. f a >>= g)
    go (done r) = refl
    go fault = refl
    go spin = refl

-- Code that goes on alike wherever the run before it can end.
bind_where :
    {S A B : Type 0} (P : A → S → Type 0) (m : Run S A) (f g : A → Run S B) (s : S)
    → Ensures (m s) P
    → ((a : A) (s' : S) → P a s' → f a s' ≡ g a s')
    → (m >>= f) s ≡ (m >>= g) s
bind_where {S} {A} {B} P m f g s h same = go (m s) h
  where
    go : (o : Outcome (A × S)) → Ensures o P → next_run {B = B} o f ≡ next_run {B = B} o g
    go (done r) p = same r.0 r.1 p
    go fault p = refl
    go spin p = refl

module _ (s3k : S3k) (tests : Tests s3k) where
  abbrev pub count : ℕ → Run (App s3k) (Unit {0})
  count i = modify (λ s. record s { counter = i })

  -- The tests of a list, one after the other, each with its number in the counter.
  abbrev pub in_order : List ℕ → Run (App s3k) (Unit {0})
  in_order [] = pure tt
  in_order (i ∷ is) = count i >> (test s3k tests i >> in_order is)

  abbrev pub At : ℕ → App s3k → Type 0
  At c s = s.counter ≡ c

  -- The functions of test.c leave the counter as it is.
  pub record KeepsCounter : Type 0 where
    pub keeps1 : (c : ℕ) → Keeps (At c) tests.test1
    pub keeps2 : (c : ℕ) → Keeps (At c) tests.test2
    pub keeps3 : (c : ℕ) → Keeps (At c) tests.test3
    pub keeps4 : (c : ℕ) → Keeps (At c) tests.test4
    pub keeps5 : (c : ℕ) → Keeps (At c) tests.test5
    pub keeps6 : (p c : ℕ) → Keeps (At c) (tests.test6 p)
    pub keeps7 : (c : ℕ) → Keeps (At c) tests.test7
    pub keeps8 : (c : ℕ) → Keeps (At c) tests.test8
    pub keeps9 : (c : ℕ) → Keeps (At c) tests.test9

  test-Keeps : KeepsCounter → (i c : ℕ) → Keeps (At c) (test s3k tests i)
  unfolding test
  test-Keeps k i c = Keeps-if (At c) (i == 1) _ _ (k.keeps1 c) (
      Keeps-if (At c) (i == 2) _ _ (k.keeps2 c) (
        Keeps-if (At c) (i == 3) _ _ (k.keeps3 c) (
          Keeps-if (At c) (i == 4) _ _ (k.keeps4 c) (
            Keeps-if (At c) (i == 5) _ _ (Keeps-bind (At c) tests.test5 _ (k.keeps5 c) (λ _ _ p. p))
              (Keeps-if (At c) (i == 6) _ _ (λ s p. k.keeps6 s.ptr c s p)
                (Keeps-if (At c) (i == 7) _ _ (k.keeps7 c) (
                  Keeps-if (At c) (i == 8) _ _ (k.keeps8 c)
                    (Keeps-if (At c) (i == 9) _ _ (k.keeps9 c) (λ _ p. p)))))))))

  -- The counter at the start does not matter.
  in_order-count :
      (is : List ℕ) (n : ℕ) (s : App s3k)
      → (in_order is >> count 33) (record s { counter = n }) ≡ (in_order is >> count 33) s
  in_order-count [] n s = refl
  in_order-count (i ∷ is) n s = refl

  idle-spin :
      (test_mask : ℕ) (beyond : ℕ → ℕ) (fuel : ℕ) (s : App s3k)
      → idle s3k tests test_mask beyond fuel s ≡ spin
  unfolding idle
  idle-spin test_mask beyond zero s = refl
  idle-spin test_mask beyond (suc fuel) s = idle-spin test_mask beyond fuel _

  module _ (keeps : KeepsCounter) (test_mask : ℕ) (beyond : ℕ → ℕ) where
    abbrev run_from : ℕ → ℕ → Run (App s3k) (Unit {0})
    run_from left c = in_order (selected (selects test_mask beyond) left c) >> count 33

    test_loop_lem :
        (left fuel : ℕ) (s : App s3k)
        → s.counter + left ≡ 32
        → left < fuel
        → test_loop s3k tests test_mask beyond fuel s ≡ run_from left s.counter s
    unfolding test_loop
    test_loop_lem left zero s total enough = absurd (omega arith)
    test_loop_lem zero (suc fuel) s total enough =
        let ends : ltb s.counter 32 ≡ false = ground arith in
        let last : add64 s.counter 1 ≡ 33 = omega arith in rw (ends, last) refl
    test_loop_lem (suc left) (suc fuel) s total enough =
        let goes_on : ltb s.counter 32 ≡ true = ground arith in
        let next : add64 s.counter 1 ≡ s.counter + 1 = omega arith in
        let i = s.counter + 1 in
        let counted : App s3k = record s { counter = i } in
        let rest = test_loop s3k tests test_mask beyond fuel in
        elim (Bool-cases (selects test_mask beyond i)) [
          | inl chosen ↦
              let others = selected (selects test_mask beyond) left i in
              rw (goes_on, next, chosen)
                (bind_where (λ _ s'. s'.counter ≡ i) (test s3k tests i) (λ _. rest)
                    (λ _. run_from left i) counted (test-Keeps keeps i i counted refl)
                    (λ _ s' kept.
                      test_loop_lem left fuel s' (omega (arith, kept)) (omega arith)
                      ∙ ap (λ c. run_from left c s') kept)
                  ∙ sym (
                      bind_assoc (test s3k tests i) (λ _. in_order others) (λ _. count 33) counted))
          | inr skipped ↦
              rw (goes_on, next, skipped)
                (test_loop_lem left fuel counted (omega arith) (omega arith)
                  ∙ in_order-count (selected (selects test_mask beyond) left i) i s)
        ]

    -- Entered with the counter at `c`, at most 32, at the start or again after a reset, the loop
    -- of the app runs the selected tests with the numbers above `c` up to 32, all of them, each
    -- once and in ascending order, as long as they come back; then it announces the end to the
    -- monitor, and it never returns. The functions of test.c leave the counter as it is.
    pub loop-in_order :
        (fuel : ℕ) (s : App s3k)
        → s.counter ≤ 32
        → loop s3k tests test_mask beyond fuel s
          ≡ ((in_order (selected (selects test_mask beyond) (32 - s.counter) s.counter) >> count 33)
                >> (announce s3k >> (λ s'. spin)))
              s
    unfolding loop
    loop-in_order fuel s small =
        let tests_run = test_loop_lem (32 - s.counter) 33 s (omega arith) (omega arith) in
        let ends =
          bind_alike (announce s3k) (λ _. idle s3k tests test_mask beyond fuel) (λ _ s'. spin) in
        ap (λ o. next_run o (λ _. announce s3k >> idle s3k tests test_mask beyond fuel)) tests_run
        ∙ bind_alike (run_from (32 - s.counter) s.counter) _ _ s
            (λ _ s'. ends s' (λ _ s''. idle-spin test_mask beyond fuel s''))
