-- ===== src/App/Tests/Exchanged.antt =====
-- The theorems of the exchange between the app and the monitor at one request for execution.
use s3k_monitor.Prelude.{
  ◌≡◌, refl, arith, true, false, [], ◌∷◌, ℕ, Outcome, done, fault, spin, Returns, ◌>>=◌,
}
use s3k_monitor.S3k.Example.{Machine, example, example_laws, put}
use s3k_monitor.Capman.{store, load}
use s3k_monitor.Capman.Table.{update, update_loop, get}
use s3k_monitor.Capman.Coherent.{IsCoherent}
use s3k_monitor.Capman.Tests.{machine, start, start-IsCoherent}
use s3k_monitor.Altmem.Tests.{three-IsHeap}
use s3k_monitor.Monitor.{Monitor}
use s3k_monitor.Monitor.Loop.{
  loop, is_signed, load_word, wait, receive, dispatch, handle_update, check_update, answer,
}
use s3k_monitor.Monitor.Loop.Turns.{received}
use s3k_monitor.Monitor.Tests.{toy_aes, running}
use s3k_monitor.Codeauth.{calc_sig, comp_sig}
use s3k_monitor.App.{App}
use s3k_monitor.App.Trap.{fetch_fault, request, conclude}
use s3k_monitor.App.Trap.Returns.{Refused, answered}
use s3k_monitor.App.Trap.Exchange.{Concluded, request-loop}
use s3k_monitor.App.Trap.Unsigned.{fetch_fault-unsigned}
use s3k_monitor.App.Tests.{symbols, app}

-- The monitor, at which a request to execute the allocated chunk of the app arrives.
abbrev requested : Monitor example
requested = record running {
  caps = record start { kernel = record machine { inbox = 2 ∷ 0x80029000 ∷ 0 ∷ 5 ∷ [] } };
}

abbrev left : Outcome (Unit {0} × Monitor example) → Monitor example
left (done r) = r.1
left fault = requested
left spin = requested

-- The monitor after one run of `loop`.
abbrev after : Monitor example
after = left (loop example toy_aes true 1 requested)

unsigned :
    is_signed example toy_aes true (received example 10 requested).caps.kernel 0x80029000 ≡ false
unfolding is_signed load_word calc_sig comp_sig
unsigned = refl

after-done : loop example toy_aes true 1 requested ≡ done (tt, after)
unfolding loop wait receive dispatch handle_update check_update answer update update_loop store get
    load put is_signed comp_sig calc_sig
after-done = refl

-- The app, at which the reply 1 arrives.
abbrev faulted : App example
faulted = record app {
  caps = record start { kernel = record machine { inbox = 1 ∷ 0x80029000 ∷ 0 ∷ 5 ∷ [] } };
}

faulted-IsCoherent : IsCoherent example faulted.caps
faulted-IsCoherent = record { size = start-IsCoherent.size; mirror = start-IsCoherent.mirror }

arrived : (idx : ℕ) → (answered example idx 0x80029000 5 11 10 faulted).words ≡ after.recv_buf
unfolding loop wait receive dispatch handle_update check_update answer update update_loop store get
    load put is_signed comp_sig calc_sig
arrived idx = refl

request-loop_example :
    Returns ((request example symbols 4 0x80029000 5 >>= conclude example symbols) faulted) (λ b a'.
      Concluded example example_laws toy_aes true symbols
        (received example 10 requested)
        after
        4
        0x80029000
        5
        faulted
        b
        a')
request-loop_example =
    request-loop example example_laws toy_aes true symbols 0 10 4 5 0x80029000 11 10 requested after
      faulted (record { table = refl; sockets = refl; words = refl }) refl refl after-done
      (record { table = refl; sockets = refl; words = refl }) refl refl refl (arrived 4)

fetch_fault-unsigned_example :
    Returns
      (fetch_fault example symbols 0x80029010 faulted)
      (λ b a'. (k : Machine) × Refused example symbols k b a')
fetch_fault-unsigned_example =
    fetch_fault-unsigned example example_laws toy_aes symbols faulted three-IsHeap (omega arith)
      faulted-IsCoherent 1 0x80029010 0 10 11 10 requested after (omega arith, omega arith) unsigned
      (record { table = refl; sockets = refl; words = refl }) refl refl after-done
      (record { table = refl; sockets = refl; words = refl }) refl refl refl arrived
