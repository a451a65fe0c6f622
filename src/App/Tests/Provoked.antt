-- ===== src/App/Tests/Provoked.antt =====
-- The theorems of app/test.c at a heap of three chunks, and at a memory that holds its code.
use s3k_monitor.Prelude.{◌≡◌, refl, arith, true, false, [], ◌∷◌, done, Returns, ◌>>◌}
use s3k_monitor.S3k.Example.{Machine as Kernel, example, example_laws, put}
use s3k_monitor.Codeauth.{Aes128, calc_sig, comp_sig}
use s3k_monitor.Capman.Tests.{machine, start}
use s3k_monitor.Altmem.Valid.{mark}
use s3k_monitor.Altmem.Tests.{three, base, three-IsHeap, three-alloc}
use s3k_monitor.Monitor.{Monitor}
use s3k_monitor.Monitor.Setup.{bytes_from}
use s3k_monitor.Monitor.Loop.{loop, load_word, memory, is_signed}
use s3k_monitor.Monitor.Loop.Answers.{Answers}
use s3k_monitor.Monitor.Loop.Turns.{received}
use s3k_monitor.Monitor.Tests.{running}
use s3k_monitor.Format.Tests.{is_stored-Stored}
use s3k_monitor.App.Main.{test}
use s3k_monitor.App.Test.{Machine, Places, tests}
use s3k_monitor.App.Test.Code.{code_new_code, code_broken_sig}
use s3k_monitor.App.Test.Heaps.{IsOrderly, test-Left}
use s3k_monitor.App.Test.Signatures.{loop-refuses_broken_sig}
use s3k_monitor.App.Tests.{symbols, app}

-- Stores complete, and a call resets the app.
abbrev resetting : Machine example
resetting = record {
  store = λ at bytes s. done (true, s);
  jump = λ at s. done (false, s);
  stack_pointer = λ s. 0x8002FF00;
}

abbrev places : Places
places = record { text = 0x80020000; rodata = 0x80024000; code_data = 0x80026000 }

resetting-IsOrderly : IsOrderly example resetting false
resetting-IsOrderly = record { stores = λ at bytes s. (refl, refl); jumps = λ at s. (refl, refl) }

test-Left_example :
    Returns
      ((test example (tests example resetting symbols places) 5
          >> test example (tests example resetting symbols places) 6)
        app)
      (λ _ s'. s'.heap ≡ mark base 0 true three)
    × Returns
        (test example (tests example resetting symbols places) 7 app)
        (λ _ s'. s'.heap ≡ mark base 0 true three)
test-Left_example =
    test-Left example resetting symbols places false resetting-IsOrderly app base
      (mark base 0 true three) three-IsHeap three-alloc (omega arith)

-- A cipher for which the signature of the code of test 5 is right.
abbrev fitting_aes : Aes128
fitting_aes = record { keyexpansion = λ key. key; cbc_mac = λ rk buf n. bytes_from code_new_code 0 }

abbrev new_memory : Kernel
new_memory = record machine { memory = bytes_from code_new_code 0 }

-- The request of test 7 waits.
abbrev asking : Monitor example
asking = record running {
  caps = record start {
    kernel = record machine { memory = bytes_from code_broken_sig 0; inbox = 2 ∷ 0 ∷ 0 ∷ 5 ∷ [] };
  };
}

new_code-accepted : is_signed example fitting_aes true new_memory 0 ≡ true
unfolding is_signed load_word calc_sig comp_sig
new_code-accepted = refl

loop-refuses_broken_sig_example :
    Returns
      (loop example fitting_aes true 1 asking)
      (λ _ s'. Answers example fitting_aes true 1 (received example 10 asking) s')
unfolding put
loop-refuses_broken_sig_example =
    loop-refuses_broken_sig example fitting_aes (λ rk n p q large same j below. refl) example_laws
      new_memory 0 0 0 10 asking
      (is_stored-Stored (memory example fitting_aes true new_memory 0) 0 code_new_code refl)
      new_code-accepted
      (is_stored-Stored (memory example fitting_aes true (received example 10 asking).caps.kernel 0)
        0 code_broken_sig refl)
      refl refl (record { table = refl; sockets = refl; words = refl }) refl refl
