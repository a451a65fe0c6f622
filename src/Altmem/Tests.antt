-- ===== src/Altmem/Tests.antt =====
-- Runs of the allocator, and its theorems at a small heap.
use s3k_monitor.Prelude.{
  ap, Returns, List, ℕ, zero, suc, some, get_elem?, ◌==◌, ◌≤◌, ◌<◌, ◌≡◌, ◌⊎◌, Bool, true, false, [],
  ◌∷◌, refl, arith, done, fault, pos, minus_one, replicate,
}
use s3k_monitor.Altmem.{
  Chunk, Mem, chunk_size, max_chunks, null, init, alloc, free, findchunk, init_loop, alloc_loop,
  findchunk_loop,
}
use s3k_monitor.Altmem.Valid.{IsHeap, chunk, mark}
use s3k_monitor.Altmem.Init.{init_lem, whole_chunks}
use s3k_monitor.Altmem.Alloc.{FirstFit, address, alloc-FirstFit, free-alloc}
use s3k_monitor.Altmem.Traces.{
  Call, request, give_back, grow, Answer, execute_all, Trace, execute_all-Trace,
}
use s3k_monitor.Altmem.Exclusive.{NotGivenBack, Avoids, alloc-Avoids}

abbrev blank : Chunk
blank = record { start = 0; size = 0; occupied = false }

-- The state before `altmem_init`: zeroed static variables.
abbrev boot : Mem
boot = record { nchunks = 0; chunks = replicate 16 blank }

-- A heap of three chunks from 0x80028000 on, with the middle one taken.
abbrev pub three : Mem
three = record {
  nchunks = 3;
  chunks = chunk 0x80028000 0 false ∷ chunk 0x80028000 1 true ∷ chunk 0x80028000 2 false ∷ [];
}

abbrev pub base : ℕ
base = 0x80028000

abbrev pub middle : ℕ → Bool
middle i = i == 1

three-cells : (i : ℕ) → i < 3 → get_elem? three.chunks i ≡ some (chunk base i (middle i))
three-cells zero p = refl
three-cells (suc zero) p = refl
three-cells (suc (suc zero)) p = refl
three-cells (suc (suc (suc i))) p = absurd (omega arith)

pub three-IsHeap : IsHeap base 3 middle three
three-IsHeap = record {
  count = refl;
  fits = omega arith;
  above_null = omega arith;
  in_space = omega arith;
  cells = three-cells;
}

pub three-alloc : alloc 352 three ≡ done (base, mark base 0 true three)
unfolding alloc alloc_loop
three-alloc = refl

-- The heap of the README's memory layout: seven chunks below the stack at 0x8002F000.
init_layout :
    init base 0x8002F000 boot
    ≡ done (
      pos 0,
      record {
        nchunks = 7;
        chunks =
            chunk base 0 false
            ∷ chunk base 1 false
            ∷ chunk base 2 false
            ∷ chunk base 3 false
            ∷ chunk base 4 false
            ∷ chunk base 5 false
            ∷ chunk base 6 false
            ∷ replicate 9 blank;
      },
    )
unfolding init init_loop
init_layout = refl

-- First fit, a request that is too large, and the two ends of a chunk.
four_runs :
    (alloc 352 three ≡ done (base, mark base 0 true three))
    × (alloc 4097 three ≡ done (null, three))
    × (findchunk 0x80028FFF three ≡ done (pos 0, three))
    × (findchunk 0x8002B000 three ≡ done (minus_one, three))
unfolding alloc alloc_loop findchunk findchunk_loop
four_runs = (refl, refl, refl, refl)

init_lem_example :
    ((whole_chunks base 0x8002F000 ≤ max_chunks)
      × (m' : Mem) × (init base 0x8002F000 boot ≡ done (pos 0, m'))
      × IsHeap base (whole_chunks base 0x8002F000) (λ _. false) m')
    ⊎ ((max_chunks < whole_chunks base 0x8002F000) × (init base 0x8002F000 boot ≡ fault))
init_lem_example =
    init_lem base 0x8002F000 boot (omega arith) (omega arith) (omega arith) (omega arith) refl

alloc-FirstFit_example :
    ((chunk_size < 352) × (alloc 352 three ≡ done (null, three)))
    ⊎ ((352 ≤ chunk_size)
        × (f : FirstFit base 3 middle three 0) × (alloc 352 three
            ≡ done (address base f.0, mark base f.0 true three)))
    ⊎ ((352 ≤ chunk_size)
        × ((j : ℕ) → j < 3 → middle j ≡ true)
        × (alloc 352 three ≡ done (null, three)))
alloc-FirstFit_example = alloc-FirstFit three-IsHeap 352

abbrev calls : List Call
calls = request 352 ∷ grow 0x8002A010 ∷ give_back 0x80029000 ∷ request 16 ∷ []

execute_all-Trace_example :
    (answers : List Answer) × (used : ℕ → Bool) × (m : Mem) × (execute_all calls three
      ≡ done (answers, m))
    × Trace base 3 middle calls answers used
    × IsHeap base 3 used m
execute_all-Trace_example = execute_all-Trace base 3 calls middle three three-IsHeap

alloc-three : alloc 352 three ≡ done (base, mark base 0 true three)
unfolding alloc alloc_loop
alloc-three = refl

alloc_again :
    alloc 16 (mark base 0 true three) ≡ done (0x8002A000, mark base 2 true (mark base 0 true three))
unfolding alloc alloc_loop
alloc_again = refl

free-alloc_example : free base (mark base 0 true three) ≡ done (tt, three)
free-alloc_example = free-alloc three-IsHeap 352 base alloc-three (omega arith)

-- 0 for a call that gives nothing back.
abbrev given : Call → ℕ
given (request size) = 0
given (give_back ptr) = suc ptr
given (grow ptr) = 0

later_calls : NotGivenBack base calls
later_calls = (
  λ e. absurd (omega (arith, ap given e)),
  (
    λ e. absurd (omega (arith, ap given e)),
    (λ e. absurd (omega (arith, ap given e)), (λ e. absurd (omega (arith, ap given e)), tt)),
  ),
)

alloc-Avoids_example :
    Returns (execute_all calls (mark base 0 true three)) (λ answers _. Avoids base answers)
alloc-Avoids_example =
    alloc-Avoids three-IsHeap 352 base calls alloc-three (omega arith) later_calls
