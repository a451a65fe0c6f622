-- ===== src/Monitor/Tests.antt =====
-- The theorems of monitor.c and codeauth.c at concrete inputs, over the example kernel.
pub mod Starts
use s3k_monitor.Prelude.{
  ◌≤◌, ℕ, suc, ◌^◌, ◌+◌, ◌-◌, ◌<◌, ◌≡◌, ◌≢◌, ◌⊎◌, Bool, true, false, ◌&&◌, ◌==◌, List, [], ◌∷◌,
  ◌++◌, ap, ◌∙◌, refl, arith, done, spin, Returns, Ensures, replicate, ◌>>=◌, subst, sym,
}
use s3k_monitor.S3k.Example.{Machine, example, example_laws, example_quiet, derive_cap-log}
use s3k_monitor.Capman.Pmp.{unpack_loop}
use s3k_monitor.Capman.Tests.{machine, start}
use s3k_monitor.Codeauth.{Aes128, comp_sig, calc_sig}
use s3k_monitor.Monitor.{Monitor}
use s3k_monitor.Monitor.Parse.{
  Section, Process, parse_executable, parse_loop, name_loop, read_word, read_byte,
}
use s3k_monitor.Monitor.Parse.Encoding.{Entry, IsEntry, encode_all, as_parsed, Holds-concat}
use s3k_monitor.Monitor.Parse.Table.{parse_executable-encode_all}
use s3k_monitor.Monitor.Setup.{mask_loop, heap_loop, setup, is_authentic, strcmp}
use s3k_monitor.Monitor.Setup.Sections.{AllDivisible}
use s3k_monitor.Monitor.Setup.Heap.{give_chunk, heap_loop-give_chunk}
use s3k_monitor.Monitor.Setup.Refusal.{IsPrepared, setup_refuses}
use s3k_monitor.Monitor.Setup.Grants.{IsGuarded}
use s3k_monitor.Monitor.Guarded.{setup-Guarded}
use s3k_monitor.Monitor.Loop.{wait, receive, dispatch, loop, writable, executable}
use s3k_monitor.Monitor.Loop.Policy.{IsKept, loop_only_permitted}
use s3k_monitor.Monitor.Loop.Answers.{IsSized}
use s3k_monitor.Monitor.Lifetime.{Runs, setup-Runs, no_run, turn, lifetime_permitted}
use s3k_monitor.Monitor.Loop.Turns.{Turn, received, loop-Turn}

-- A cipher whose MAC is the first 16 bytes of the buffer, each one more than there.
abbrev pub toy_aes : Aes128
toy_aes = record { keyexpansion = λ key. key; cbc_mac = λ rk buf n j. buf j + 1 }

-- The monitor with the app running, and a request for writing that waits.
abbrev pub running : Monitor example
running = record {
  caps = start;
  app_running = true;
  pmpcaps = replicate 8 0;
  soccaps = 10 ∷ 11 ∷ replicate 6 0;
  recv_buf = replicate 4 0;
  tag = 0;
  iloop = 0;
}

abbrev pub stopped : Monitor example
stopped = record running { app_running = false }

running-IsSized : IsSized example running
running-IsSized = record { table = refl; sockets = refl; words = refl }

loop-Turn_example :
    Returns
      (loop example toy_aes true 1 running)
      (λ _ s'. Turn example example_laws toy_aes true (received example 10 running) s')
loop-Turn_example =
    loop-Turn example example_laws toy_aes true 0 10 running running-IsSized refl refl

-- No derivation of a capability that allows writing and executing was asked for.
abbrev pub forbids : ℕ → Bool
forbids c =
    (writable (example.pmp_cfg c) && executable (example.pmp_cfg c))
    && (example.captype c == example.capty_pmp)

abbrev pub AllApart : List ℕ → Type 0
AllApart [] = Unit
AllApart (c ∷ cs) = (forbids c ≡ false) × AllApart cs

abbrev pub Clean : Machine → Type 0
Clean k = AllApart k.derived

cfg-make_pmp : (addr rwx : ℕ) → example.pmp_cfg (example.make_pmp addr rwx) ≡ rwx
cfg-make_pmp addr rwx = omega arith

pub allows :
    (addr rwx : ℕ)
    → (writable rwx && executable rwx) ≡ false
    → forbids (example.make_pmp addr rwx) ≡ false
allows addr rwx apart =
    ap (λ b. b && (example.captype (example.make_pmp addr rwx) == 3))
      (ap (λ c. writable c && executable c) (cfg-make_pmp addr rwx) ∙ apart)

-- A capability of another kind is none of those.
pub others : (b : Bool) (c : ℕ) → example.captype c ≢ 3 → (b && (example.captype c == 3)) ≡ false
others true c ne = ground (arith, ne)
others false c ne = refl

Clean-IsKept : IsKept example toy_aes Clean
Clean-IsKept = record {
  moves = λ src dst k p. p;
  deletes = λ i k p. p;
  yields = λ k p. p;
  sends = λ socket words at b k p. p;
  receives = λ socket words at tag k p. p;
  derives = λ i idx addr rwx k p (apart, _).
      subst AllApart (sym (derive_cap-log i idx (example.make_pmp addr rwx) k).0)
        (allows addr rwx apart, p);
}

loop_only_permitted_example :
    Ensures (loop example toy_aes true 1 running) (λ _ s'. Clean s'.caps.kernel)
loop_only_permitted_example = loop_only_permitted example toy_aes Clean Clean-IsKept 1 running tt

-- The app reports its end.
abbrev last_turn : Monitor example
last_turn = record running {
  caps = record start { kernel = record machine { inbox = (2 ^ 64 - 1) ∷ [] } };
}

abbrev over : Monitor example
over = record (received example 10 last_turn) { app_running = false }

last_turn-over : loop example toy_aes true 1 last_turn ≡ done (tt, over)
unfolding loop wait receive dispatch
last_turn-over = refl

lifetime_permitted_example :
    Clean over.caps.kernel
    × IsSized example over
    × (((false ≡ true)
          × ((fuel : ℕ) → Returns (loop example toy_aes true (suc fuel) over) (λ _ _. Unit {0})))
        ⊎ ((false ≡ false) × ((fuel : ℕ) → loop example toy_aes true fuel over ≡ spin)))
lifetime_permitted_example =
    lifetime_permitted example toy_aes example_laws Clean Clean-IsKept last_turn over
      (turn last_turn over 1 no_run last_turn-over)
      (record { table = refl; sockets = refl; words = refl }) tt

-- The heap of the app: 7 chunks at the offset 0x8000.
abbrev heap : Section
heap = record {
  section = 46 ∷ 104 ∷ 101 ∷ 97 ∷ 112 ∷ 0 ∷ [];
  offset = 0x8000;
  size = 0x7000;
  rwx = 3;
}

heap_loop-give_chunk_example :
    (◌≡◌ {A = ℕ} 7 0
      × ((fuel : ℕ) → heap_loop example (suc fuel) heap 7 0 2 running ≡ done (2, running)))
    ⊎ (◌≡◌ {A = ℕ} 7 1
        × ((fuel : ℕ) → Ensures (heap_loop example fuel heap 7 0 2 running) (λ _ _. ⊥)))
    ⊎ ((◌≤◌ 2 7)
        × ((fuel : ℕ)
            → heap_loop example (suc (suc (suc fuel))) heap 7 0 2 running
              ≡ (give_chunk example heap 0 2 >>= give_chunk example heap 6) running))
heap_loop-give_chunk_example = heap_loop-give_chunk example heap 7 2 running (omega arith)

-- `.text` at the offset 0, of 0x1000 bytes, readable and executable.
abbrev pub text : Entry
text = record { name = 46 ∷ 116 ∷ 101 ∷ 120 ∷ 116 ∷ []; offset = 0; size = 0x1000; rwx = 5 }

pub text-IsEntry : IsEntry text
text-IsEntry = record {
  named = omega arith;
  short = omega arith;
  letters = (omega arith, (omega arith, (omega arith, (omega arith, (omega arith, tt)))));
  offset_fits = omega arith;
  size_fits = omega arith;
  rwx_fits = omega arith;
}

abbrev pub table_image : List ℕ
table_image = replicate 16 0 ++ encode_all 8 (text ∷ [])

parse_executable-encode_all_example :
    parse_executable 1 table_image ≡ done (record { pid = 1; header = as_parsed 0 (text ∷ []) })
parse_executable-encode_all_example =
    parse_executable-encode_all 1 table_image (text ∷ []) (text-IsEntry, tt) (omega arith)
      (Holds-concat (replicate 16 0) (encode_all 8 (text ∷ [])))
