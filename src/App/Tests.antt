-- ===== src/App/Tests.antt =====
-- The theorems of the trap handler at a heap of three chunks, the middle one allocated.
pub mod Provoked
pub mod Exchanged
use s3k_monitor.Prelude.{
  ℕ, ◌≤◌, ◌<◌, ◌≡◌, ◌⊎◌, true, false, [], ◌∷◌, replicate, arith, if◌then◌else◌, ◌==◌, ◌>>=◌, ◌-◌,
  ◌^◌, ◌+◌, ◌*◌, refl, Returns, Run, ◌>>◌, done, spin,
}
use s3k_monitor.S3k.{ncap}
use s3k_monitor.Capman.Search.{SharesEnd}
use s3k_monitor.App.Trap.Requests.{execute_chunk-write_chunk}
use s3k_monitor.S3k.Example.{example}
use s3k_monitor.Capman.{Caps}
use s3k_monitor.Capman.Tests.{start, start-IsCoherent, first_table}
use s3k_monitor.Altmem.Lookup.{InChunk, Outside}
use s3k_monitor.Altmem.Tests.{three, base, middle, three-IsHeap}
use s3k_monitor.App.{Symbols, App}
use s3k_monitor.App.Trap.{
  refuse, execute_chunk, write_chunk, fetch_fault, store_fault, request, conclude,
}
use s3k_monitor.App.Trap.Faults.{fetch_fault_lem, store_fault_lem}
use s3k_monitor.App.Trap.Expansion.{grown, Covers, store_fault_expansion}
use s3k_monitor.App.Trap.Returns.{IsReady, Says}
use s3k_monitor.App.Main.{Tests, setup, selects, loop, announce}
use s3k_monitor.App.Main.Started.{HasHeap, HasArrays, IsSetUp, trapping, setup-IsSetUp}
use s3k_monitor.App.Main.Order.{in_order, count, KeepsCounter, loop-in_order}

abbrev pub symbols : Symbols
symbols = record {
  start = 0x80020000;
  stack = 0x8002F000;
  stack_top = 0x80030000;
  loop_entry = 0x80020100;
  setup_entry = 0x80020200;
  trap_entry = 0x80020300;
  trapstack_end = 0x80020800;
  heap = 0x8002C000;
}

abbrev pub app : App example
app = record {
  caps = start;
  heap = three;
  soccaps = 11 ∷ 10 ∷ replicate 6 0;
  buf = replicate 4 0;
  tag = 0;
  pmpcaps = replicate 8 0 ∷ replicate 8 0 ∷ [];
  ptr = 0;
  counter = 0;
}

fetch_fault_lem_example :
    ((k : ℕ) × (symbols.start ≤ 0x80029010)
      × (0x80029010 < symbols.stack)
      × (k < 3)
      × InChunk base k 0x80029010
      × (middle k ≡ true)
      × (fetch_fault example symbols 0x80029010 app ≡ execute_chunk example symbols k app))
    ⊎ (((0x80029010 < symbols.start)
          ⊎ (symbols.stack ≤ 0x80029010)
          ⊎ Outside base 3 0x80029010
          ⊎ ((k : ℕ) × (k < 3) × InChunk base k 0x80029010 × (middle k ≡ false)))
        × (fetch_fault example symbols 0x80029010 app ≡ refuse example symbols app))
fetch_fault_lem_example = fetch_fault_lem example symbols app three-IsHeap (omega arith) 0x80029010

store_fault_lem_example :
    ((k : ℕ) × (k < 3)
      × InChunk base k 0x80028010
      × (store_fault example symbols 0x8002FF00 0x80028010 app ≡ write_chunk example symbols k app))
    ⊎ (Outside base 3 0x80028010
        × (store_fault example symbols 0x8002FF00 0x80028010 app ≡ refuse example symbols app))
store_fault_lem_example =
    store_fault_lem example symbols app three-IsHeap (omega arith) 0x8002FF00 0x80028010
      (omega arith)

execute_chunk-write_chunk_example :
    (j : ℕ) × (((j < ncap) × SharesEnd example 0x80029000 0x8002A000 (first_table j))
      ⊎ ((j ≡ 2 ^ 64 - 1)
          × ((i : ℕ) → i < ncap → ¬ (SharesEnd example 0x80029000 0x8002A000 (first_table i)))))
    × (execute_chunk example symbols 1 app
        ≡ (request example symbols j 0x80029000 5 >>= conclude example symbols) app)
    × (write_chunk example symbols 1 app
        ≡ (request example symbols j 0 3 >>= conclude example symbols) app)
execute_chunk-write_chunk_example =
    execute_chunk-write_chunk example symbols app three-IsHeap (omega arith) start-IsCoherent 1
      (omega arith)

store_fault_expansion_example :
    ((k : ℕ) × (k < 3)
      × InChunk base k 0x8002A010
      × (middle k ≡ false)
      × (j : ℕ) × Covers example symbols {heap = base} {n = 3} {used = middle} app three-IsHeap
          (omega arith)
          start-IsCoherent
          0x8002A010
          k
          j
      × (store_fault example symbols 0x8002A010 0x8002A000 app
          ≡ (request example symbols j 0 3 >>= conclude example symbols) (grown base k app)))
    ⊎ ((Outside base 3 0x8002A010
          ⊎ ((k : ℕ) × (k < 3) × InChunk base k 0x8002A010 × (middle k ≡ true)))
        × (store_fault example symbols 0x8002A010 0x8002A000 app ≡ refuse example symbols app))
store_fault_expansion_example =
    store_fault_expansion example symbols app three-IsHeap (omega arith) start-IsCoherent 0x8002A010
      0x8002A000 (omega arith)

-- A fetch fault in the allocated chunk.
abbrev fetching : Caps example
fetching = record start {
  kernel = record (start.kernel) {
    registers = λ r. if r == 4 then 1 else (if r == 2 then 0x80029010 else 0);
  };
}

abbrev faulting : App example
faulting = record app { caps = fetching }

symbols-HasHeap : HasHeap symbols
symbols-HasHeap = record {
  above_null = omega arith;
  order = omega arith;
  page = omega arith;
  in_space = omega arith;
  room = omega arith;
}

-- The app before its start.
abbrev fresh : App example
fresh = record app {
  heap = record {
    nchunks = 0;
    chunks = replicate 16 (record { start = 0; size = 0; occupied = false });
  };
}

fresh-HasArrays : HasArrays example fresh
fresh-HasArrays = record {
  ready = record { table = refl; sockets = refl; words = refl };
  row = replicate 8 0;
  first = refl;
  width = refl;
  chunks = refl;
}

setup-IsSetUp_example : Returns (setup example symbols fresh) (λ _ s'.
    IsSetUp example symbols symbols-HasHeap
      (trapping example symbols symbols-HasHeap start.kernel)
      s')
setup-IsSetUp_example =
    setup-IsSetUp example symbols symbols-HasHeap fresh fresh-HasArrays (λ i p e. omega arith)

-- Tests that only count their runs in `tag`.
abbrev log : ℕ → Run (App example) (Unit {0})
log i s = done (tt, record s { tag = 10 * s.tag + i })

abbrev logged : Tests example
logged = record {
  test1 = log 1;
  test2 = log 2;
  test3 = log 3;
  test4 = log 4;
  test5 = λ s. done (5, s);
  test6 = λ p. log p;
  test7 = log 7;
  test8 = log 8;
  test9 = log 9;
}

logged-KeepsCounter : KeepsCounter example logged
logged-KeepsCounter = record {
  keeps1 = λ c s p. p;
  keeps2 = λ c s p. p;
  keeps3 = λ c s p. p;
  keeps4 = λ c s p. p;
  keeps5 = λ c s p. p;
  keeps6 = λ q c s p. p;
  keeps7 = λ c s p. p;
  keeps8 = λ c s p. p;
  keeps9 = λ c s p. p;
}

-- Tests 1 to 4 are selected, as in `TEST_MASK` 0x1E, and the app comes back from a reset in test 2.
abbrev after_two : App example
after_two = record app { counter = 2 }

loop-in_order_example :
    loop example logged 0x1E (λ i. 0) 5 after_two
    ≡ ((in_order example logged (3 ∷ 4 ∷ []) >> count example logged 33)
          >> (announce example >> (λ s'. spin)))
        after_two
unfolding selects
loop-in_order_example =
    loop-in_order example logged logged-KeepsCounter 0x1E (λ i. 0) 5 after_two (omega arith)
