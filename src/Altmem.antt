-- ===== src/Altmem.antt =====
-- app/altmem.c and the constants of inc/base.h it uses: the allocator of the app's heap, which is
-- cut into chunks of one page. The state is the two variables `nchunks` and `chunks`.
pub mod Valid
pub mod Init
pub mod Alloc
pub mod Lookup
pub mod Traces
pub mod Exclusive
pub mod Dump
pub mod Tests
use s3k_monitor.Prelude.{
  ℕ, zero, suc, ◌+◌, ◌/◌, ◌^◌, Bool, true, false, ◌||◌, List, none, some, leb, ltb, ◌==◌,
  if◌then◌else◌, length, get_elem?, set, add64, sub64, ℤ, pos, negsuc, minus_one, to_u64, Outcome,
  done, fault, spin, Run, ◌>>=◌,
}

abbrev pub app_size : ℕ
app_size = 0x10000

abbrev pub chunk_size : ℕ
chunk_size = 0x1000

abbrev pub null : ℕ
null = 0

pub record Chunk : Type 0 where
  pub start : ℕ
  pub size : ℕ
  pub occupied : Bool

pub record Mem : Type 0 where
  pub nchunks : ℕ
  pub chunks : List Chunk

-- The length of the array `chunks`.
abbrev pub max_chunks : ℕ
max_chunks = app_size / chunk_size

-- The loop of `altmem_init` at chunk `i`, where `stack` is `&_stack`. Each round writes one cell of
-- the array or faults, so one round more than the array has cells is never used up.
pub init_loop : ℕ → ℕ → ℕ → ℕ → List Chunk → Outcome (ℕ × List Chunk)
init_loop zero stack temp_counter i chunks = spin
init_loop (suc fuel) stack temp_counter i chunks =
    let cell : Chunk = record { start = temp_counter; size = chunk_size; occupied = false } in
    let rest = init_loop fuel stack (add64 temp_counter chunk_size) (i + 1) (set chunks i cell) in
    if leb temp_counter (sub64 stack chunk_size)
    then (if ltb i (length chunks) then rest else fault)
    else done (i, chunks)

-- `altmem_init`, with the addresses of the linker's `_heap` and `_stack`.
pub init : ℕ → ℕ → Run Mem ℤ
init heap stack m = elim (init_loop (suc max_chunks) stack heap 0 m.chunks) [
  | done (i, chunks) ↦ done (pos 0, record { nchunks = i; chunks = chunks })
  | fault ↦ fault
  | spin ↦ spin
]

-- The loops recur on the rounds left, `nchunks - i`.
pub alloc_loop : ℕ → ℕ → Run Mem ℕ
alloc_loop zero i m = done (null, m)
alloc_loop (suc left) i m =
    let rest = alloc_loop left (i + 1) m in
    elim (get_elem? m.chunks i) [
      | none ↦ fault
      | some c ↦
          if c.occupied
          then rest
          else done (c.start, record m { chunks = set m.chunks i (record c { occupied = true }) })
    ]

pub alloc : ℕ → Run Mem ℕ
alloc size m = if ltb chunk_size size then done (null, m) else alloc_loop m.nchunks 0 m

pub free_loop : ℕ → ℕ → ℕ → Run Mem (Unit {0})
free_loop zero i ptr m = done (tt, m)
free_loop (suc left) i ptr m =
    let rest = free_loop left (i + 1) ptr m in
    elim (get_elem? m.chunks i) [
      | none ↦ fault
      | some c ↦
          if c.start == ptr
          then done (tt, record m { chunks = set m.chunks i (record c { occupied = false }) })
          else rest
    ]

pub free : ℕ → Run Mem (Unit {0})
free ptr m = free_loop m.nchunks 0 ptr m

pub findchunk_loop : ℕ → ℕ → ℕ → Run Mem ℤ
findchunk_loop zero i addr m = done (minus_one, m)
findchunk_loop (suc left) i addr m =
    let rest = findchunk_loop left (i + 1) addr m in
    elim (get_elem? m.chunks i) [
      | none ↦ fault
      | some c ↦
          if ltb addr c.start || leb (add64 c.start c.size) addr then rest else done (pos i, m)
    ]

pub findchunk : ℕ → Run Mem ℤ
findchunk addr m = findchunk_loop m.nchunks 0 addr m

-- `i < 0 || i >= nchunks`: the second test compares as `uint64_t`.
pub out_of_range : ℤ → ℕ → Bool
out_of_range (negsuc n) nchunks = true
out_of_range (pos n) nchunks = leb nchunks (to_u64 (pos n))

-- The chunk with index `i`, after that test.
pub chunk_at : ℤ → Mem → Outcome Chunk
chunk_at (negsuc n) m = fault
chunk_at (pos n) m = elim (get_elem? m.chunks n) [ none ↦ fault | some c ↦ done c ]

pub isoccupied : ℤ → Run Mem ℤ
isoccupied i m = if out_of_range i m.nchunks then done (minus_one, m) else (elim (chunk_at i m) [
  | done c ↦ done ((if c.occupied then pos 1 else pos 0), m)
  | fault ↦ fault
  | spin ↦ spin
])

-- `chunks[i].occupied = true`
pub occupy : ℤ → Run Mem Bool
occupy (negsuc n) m = fault
occupy (pos n) m = elim (get_elem? m.chunks n) [
  | none ↦ fault
  | some c ↦ done (true, record m { chunks = set m.chunks n (record c { occupied = true }) })
]

-- `isoccupied(i) != 0`
abbrev is_nonzero : ℤ → Bool
is_nonzero (negsuc n) = true
is_nonzero (pos zero) = false
is_nonzero (pos (suc n)) = true

pub stackexpansion : ℕ → Run Mem Bool
stackexpansion ptr = do
  i ← findchunk ptr
  r ← isoccupied i
  if is_nonzero r then (λ m. done (false, m)) else occupy i

pub get_start : ℤ → Run Mem ℕ
get_start i m =
    if out_of_range i m.nchunks
    then done (null, m)
    else (elim (chunk_at i m) [ done c ↦ done (c.start, m) | fault ↦ fault | spin ↦ spin ])

pub get_size : ℤ → Run Mem ℕ
get_size i m =
    if out_of_range i m.nchunks
    then done (0, m)
    else (elim (chunk_at i m) [ done c ↦ done (c.size, m) | fault ↦ fault | spin ↦ spin ])
