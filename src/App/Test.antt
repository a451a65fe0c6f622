-- ===== src/App/Test.antt =====
-- app/test.c: the tests, which provoke exceptions on purpose. The accesses that may raise one are
-- parameters, since they are those of the hardware with the app's own trap handler behind it.
pub mod Code
pub mod Signatures
pub mod Heaps
use s3k_monitor.Prelude.{
  ℕ, ◌+◌, ◌*◌, Bool, true, false, if◌then◌else◌, List, length, add64, sub64, Run, pure, gets, ◌>>=◌,
  ◌>>◌,
}
use s3k_monitor.S3k.{S3k}
use s3k_monitor.Altmem.{alloc, free}
use s3k_monitor.Monitor.Parse.Encoding.{little_endian}
use s3k_monitor.App.{Symbols, App, lift_heap}
use s3k_monitor.App.Main.{Tests}
use s3k_monitor.App.Test.Code.{code_out_of_bounds, code_new_code, code_broken_sig, arbitrary_data}

-- The accesses: `memcpy` of some bytes to an address, and a call of the code at an address. The
-- answer says whether the access completed, at once or after the trap handler; otherwise the handler
-- has reset the app, which leaves the test. `stack_pointer` is the register `sp`.
pub record Machine (s3k : S3k) : Type 0 where
  pub store : ℕ → List ℕ → Run (App s3k) Bool
  pub jump : ℕ → Run (App s3k) Bool
  pub stack_pointer : App s3k → ℕ

-- Addresses that the linker gives: `_text`, `_rodata`, and that of the array `code_data`.
pub record Places : Type 0 where
  pub text : ℕ
  pub rodata : ℕ
  pub code_data : ℕ

module _ (s3k : S3k) (machine : Machine s3k) (at : Symbols) (places : Places) where
  open machine use {store, jump, stack_pointer}

  abbrev M : Type 0 → Type 0
  M A = Run (App s3k) A

  -- An access, and what follows it.
  abbrev pub after : M Bool → M (Unit {0}) → M (Unit {0})
  after access rest = do completed ← access; if completed then rest else pure tt

  unfoldable pub test1 : M (Unit {0})
  test1 = after (store at.stack_top code_out_of_bounds) (pure tt)

  unfoldable pub test2 : M (Unit {0})
  test2 = after (jump at.stack_top) (pure tt)

  unfoldable pub test3 : M (Unit {0})
  test3 = after (store (add64 places.text 0x1800) arbitrary_data) (pure tt)

  unfoldable pub test4 : M (Unit {0})
  test4 = after (jump places.code_data) (pure tt)

  -- Where the app is reset the variable `ptr` of app.c, which takes the result, stays as it is.
  unfoldable pub test5 : M ℕ
  test5 = do
    ptr ← lift_heap (alloc (length code_new_code))
    completed ← store ptr code_new_code
    if completed then pure ptr else gets (λ s. s.ptr)

  unfoldable pub test6 : ℕ → M (Unit {0})
  test6 ptr = after (jump (add64 ptr 0x20)) (lift_heap (free ptr))

  unfoldable pub test7 : M (Unit {0})
  test7 = do
    ptr ← lift_heap (alloc (length code_broken_sig))
    after (store ptr code_broken_sig) (after (jump (add64 ptr 0x20)) (lift_heap (free ptr)))

  unfoldable pub test8 : M (Unit {0})
  test8 = after (store places.rodata arbitrary_data) (pure tt)

  -- The store of `t0` below the stack pointer, which comes back to its place.
  unfoldable pub test9 : M (Unit {0})
  test9 = do
    sp ← gets stack_pointer
    after (store (sub64 sp (4 * 1024 + 32)) (little_endian 8 0xDEADBEEF)) (pure tt)

  abbrev pub tests : Tests s3k
  tests = record {
    test1 = test1;
    test2 = test2;
    test3 = test3;
    test4 = test4;
    test5 = test5;
    test6 = test6;
    test7 = test7;
    test8 = test8;
    test9 = test9;
  }
