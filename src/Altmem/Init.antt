-- ===== src/Altmem/Init.antt =====
-- `altmem_init`: the layout it sets up, and the heaps that are too large for the array `chunks`.
use native.Mathlib.Decide.{dec_lt}
use s3k_monitor.Prelude.{
  ℕ, zero, suc, ◌+◌, ◌-◌, ◌*◌, ◌/◌, ◌%◌, ◌^◌, ◌≤◌, ◌<◌, ◌≡◌, ◌∙◌, List, some, false, get_elem?, set,
  length, arith, done, fault, pos, length-set, refl, inl, inr, get_elem?-set_self, get_elem?-set_ne,
  ◌⊎◌,
}
use s3k_monitor.Altmem.{Chunk, Mem, chunk_size, max_chunks, init, init_loop}
use s3k_monitor.Altmem.Valid.{IsHeap, chunk}

-- The number of whole chunks between two addresses.
abbrev pub whole_chunks : ℕ → ℕ → ℕ
whole_chunks heap stack = (stack - heap) / chunk_size

-- The first `n` cells hold free chunks in a row.
abbrev Fresh : ℕ → ℕ → List Chunk → Type 0
Fresh heap n cs = (j : ℕ) → j < n → get_elem? cs j ≡ some (chunk heap j false)

Fresh-set :
    (heap i : ℕ) (cs : List Chunk)
    → i < length cs
    → Fresh heap i cs
    → Fresh heap (i + 1) (set cs i (chunk heap i false))
Fresh-set heap i cs p f j q = ground (
  arith,
  f j,
  get_elem?-set_self cs i (chunk heap i false),
  get_elem?-set_ne cs i j (chunk heap i false),
)

module _ (heap stack n : ℕ) (pages : heap + n * chunk_size ≤ stack)
    (below : stack < heap + n * chunk_size + chunk_size) (page : chunk_size ≤ stack)
    (space : stack < 2 ^ 64) where
  init_loop-step :
      (fuel i : ℕ) (cs : List Chunk)
      → i < n
      → i < length cs
      → init_loop (suc fuel) stack (heap + i * chunk_size) i cs
        ≡ init_loop fuel stack (heap + (i + 1) * chunk_size) (i + 1) (set cs i (chunk heap i false))
  unfolding init_loop
  init_loop-step fuel i cs p q =
      let next : (heap + i * chunk_size + chunk_size) % 2 ^ 64 ≡ heap + (i + 1) * chunk_size =
        omega arith in
      rw next (ground arith)

  init_loop-end :
      (fuel : ℕ) (cs : List Chunk)
      → init_loop (suc fuel) stack (heap + n * chunk_size) n cs ≡ done (n, cs)
  unfolding init_loop
  init_loop-end fuel cs = ground arith

  init_loop_lem :
      (fuel i : ℕ) (cs : List Chunk)
      → i ≤ n
      → n < i + fuel
      → n ≤ length cs
      → Fresh heap i cs
      → (cs' : List Chunk) × (init_loop fuel stack (heap + i * chunk_size) i cs ≡ done (n, cs'))
        × (length cs' ≡ length cs)
        × Fresh heap n cs'
  init_loop_lem zero i cs p q r f = absurd (omega arith)
  init_loop_lem (suc fuel) i cs p q r f = elim (dec_lt i n) [
    | yes more ↦
        let cell = chunk heap i false in
        let same = length-set cs i cell in
        let (cs', result, kept, fresh) =
          init_loop_lem fuel (i + 1) (set cs i cell) (omega arith) (omega arith)
            (omega (arith, same)) (Fresh-set heap i cs (omega arith) f) in
        (cs', init_loop-step fuel i cs more (omega arith) ∙ result, kept ∙ same, fresh)
    | no stop ↦
        let last : i ≡ n = omega arith in (cs, rw last (init_loop-end fuel cs), refl, rw (← last) f)
  ]

  init_loop-fault :
      (fuel i : ℕ) (cs : List Chunk)
      → i ≤ length cs
      → length cs < n
      → length cs < i + fuel
      → init_loop fuel stack (heap + i * chunk_size) i cs ≡ fault
  init_loop-fault zero i cs p q r = absurd (omega arith)
  init_loop-fault (suc fuel) i cs p q r = elim (dec_lt i (length cs)) [
    | yes more ↦
        let cell = chunk heap i false in
        let same = length-set cs i cell in
        init_loop-step fuel i cs (omega arith) more
        ∙ init_loop-fault fuel (i + 1) (set cs i cell) (omega (arith, same)) (omega (arith, same))
            (omega (arith, same))
    | no stop ↦ unfold init_loop in ground arith
  ]

-- For a heap that begins above the null pointer and at or below the stack, within 64 bits: where
-- the array has room for its whole chunks it is laid out in free chunks, in a row from its start;
-- where it has more chunks than the array has cells the loop writes past the array. The loop ends
-- within its rounds either way.
pub init_lem :
    (heap stack : ℕ) (m : Mem)
    → 0 < heap
    → heap ≤ stack
    → chunk_size ≤ stack
    → stack < 2 ^ 64
    → length m.chunks ≡ max_chunks
    → ((whole_chunks heap stack ≤ max_chunks)
        × (m' : Mem) × (init heap stack m ≡ done (pos 0, m'))
        × IsHeap heap (whole_chunks heap stack) (λ _. false) m')
      ⊎ ((max_chunks < whole_chunks heap stack) × (init heap stack m ≡ fault))
unfolding init
init_lem heap stack m some_heap order page space room =
    let n = whole_chunks heap stack in
    let pages : heap + n * chunk_size ≤ stack = omega arith in
    let below : stack < heap + n * chunk_size + chunk_size = omega arith in
    let start : heap + 0 * chunk_size ≡ heap = omega arith in
    elim (dec_lt max_chunks n) [
      | yes large ↦
          let crash =
            init_loop-fault heap stack n pages below page space 17 0 m.chunks (omega arith)
              (omega arith) (omega arith) in
          let crash' = rw start at crash in inr (large, rw (crash', init))
      | no fits ↦
          let (cs', result, kept, fresh) =
            init_loop_lem heap stack n pages below page space 17 0 m.chunks (omega arith)
              (omega arith) (omega arith) (λ j q. absurd (omega arith)) in
          let result' = rw start at result in
          inl (
            omega arith,
            record { nchunks = n; chunks = cs' },
            rw (result', init),
            record {
              count = refl;
              fits = omega arith;
              above_null = some_heap;
              in_space = omega arith;
              cells = fresh;
            },
          )
    ]
