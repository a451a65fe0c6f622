-- ===== src/App/Main.antt =====
-- app/app.c: the start of the app, its tests one after the other, and its end.
pub mod Started
pub mod Order
use s3k_monitor.Prelude.{
  ℕ, zero, suc, ◌+◌, ◌-◌, ◌^◌, Bool, true, false, not, if◌then◌else◌, ◌==◌, ltb, add64, List, none,
  some, get_elem?, set, done, fault, spin, Run, pure, gets, modify, ◌>>=◌, ◌>>◌, bit_and,
}
use s3k_monitor.S3k.{S3k}
use s3k_monitor.Capman.Table.{init}
use s3k_monitor.Capman.Pmp.{getpmp, getsoc}
use s3k_monitor.Altmem
use s3k_monitor.App.{Symbols, App, lift_caps, lift_heap, call, element, set_buf}

-- The functions of app/test.c, which provoke exceptions on purpose in machine code and through raw
-- pointers.
pub record Tests (s3k : S3k) : Type 0 where
  pub test1 : Run (App s3k) (Unit {0})
  pub test2 : Run (App s3k) (Unit {0})
  pub test3 : Run (App s3k) (Unit {0})
  pub test4 : Run (App s3k) (Unit {0})
  pub test5 : Run (App s3k) ℕ
  pub test6 : ℕ → Run (App s3k) (Unit {0})
  pub test7 : Run (App s3k) (Unit {0})
  pub test8 : Run (App s3k) (Unit {0})
  pub test9 : Run (App s3k) (Unit {0})

-- `TEST_MASK & (1 << i)` as a test. C leaves `1 << i` undefined from 31 on: `beyond` is what the
-- machine makes of it.
unfoldable pub selects : ℕ → (ℕ → ℕ) → ℕ → Bool
selects test_mask beyond i = not (bit_and test_mask (if ltb i 31 then 2 ^ i else beyond i) == 0)

module _ (s3k : S3k) where
  open s3k use {setreg, send, yield_time, reg_tpc, reg_tsp}

  abbrev M : Type 0 → Type 0
  M A = Run (App s3k) A

  -- `capman_getpmp(pmpcaps[0])`
  unfoldable pub get_pmps : M (Unit {0})
  get_pmps s = elim (get_elem? s.pmpcaps 0) [
    | none ↦ fault
    | some row ↦
        (lift_caps (getpmp s3k row) >>= λ row'.
        modify (λ s'. record s' { pmpcaps = set s'.pmpcaps 0 row' }))
          s
  ]

  -- `capman_getsoc(soccaps)`
  unfoldable pub get_socs : M (Unit {0})
  get_socs = do
    socs ← gets (λ s. s.soccaps)
    found ← lift_caps (getsoc s3k socs)
    modify (λ s. record s { soccaps = found })

  -- `buf[0] = -1ull; s3k_send(soccaps[0], buf, -1ull, false);`
  unfoldable pub announce : M (Unit {0})
  announce = do
    set_buf 0 (2 ^ 64 - 1)
    socket ← element (λ s. s.soccaps) 0
    words ← gets (λ s. s.buf)
    call (send socket words (2 ^ 64 - 1) false)

  unfoldable pub setup : Symbols → M (Unit {0})
  setup at = do
    call (setreg reg_tpc at.trap_entry)
    call (setreg reg_tsp at.trapstack_end)
    lift_caps (init s3k)
    get_pmps
    get_socs
    lift_heap (s3k_monitor.Altmem.init at.heap at.stack)
    announce
    call yield_time

  module _ (tests : Tests s3k) where
    unfoldable pub test : ℕ → M (Unit {0})
    test i =
        if i == 1
        then tests.test1
        else (if i == 2
            then tests.test2
            else (if i == 3
                then tests.test3
                else (if i == 4
                    then tests.test4
                    else (if i == 5
                        then (tests.test5 >>= λ p. modify (λ s. record s { ptr = p }))
                        else (if i == 6
                            then (gets (λ s. s.ptr) >>= λ p. tests.test6 p)
                            else (if i == 7
                                then tests.test7
                                else (if i == 8
                                    then tests.test8
                                    else (if i == 9 then tests.test9 else pure tt))))))))

    module _ (test_mask : ℕ) (beyond : ℕ → ℕ) where
      -- `while (i++ < 32)`. The static `i` only grows, and 33 rounds are enough for each start.
      unfoldable pub test_loop : ℕ → M (Unit {0})
      test_loop zero s = spin
      test_loop (suc fuel) s =
          let rest = test_loop fuel in
          let i = add64 s.counter 1 in
          let counted = record s { counter = i } in
          if ltb s.counter 32
          then (if selects test_mask beyond i then (test i >> rest) counted else rest counted)
          else done (tt, counted)

      -- `while (true) s3k_yield();`
      unfoldable pub idle : ℕ → M (Unit {0})
      idle zero s = spin
      idle (suc fuel) s = let again = idle fuel in (call yield_time >> again) s

      unfoldable pub loop : ℕ → M (Unit {0})
      loop fuel = do test_loop 33; announce; idle fuel
