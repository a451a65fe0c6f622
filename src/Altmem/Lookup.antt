-- ===== src/Altmem/Lookup.antt =====
-- `altmem_findchunk`, `altmem_isoccupied`, `altmem_get_start`, `altmem_get_size` and
-- `altmem_stackexpansion`: which chunk an address lies in, and what the trap handler does with it.
use s3k_monitor.Prelude.{
  ℕ, zero, suc, ◌+◌, ◌*◌, ◌≤◌, ◌<◌, ◌≡◌, ◌⊎◌, inl, inr, Bool, true, false, arith, done, refl,
  Bool-cases, ◌∙◌, ltb, ltb→lt, pos, minus_one, if◌then◌else◌,
}
use s3k_monitor.Altmem.{
  Mem, chunk_size, findchunk, findchunk_loop, isoccupied, get_start, get_size, out_of_range,
  chunk_at, occupy, stackexpansion,
}
use s3k_monitor.Altmem.Valid.{IsHeap, mark}

-- The address lies in chunk `i` of the heap.
abbrev pub InChunk : ℕ → ℕ → ℕ → Type 0
InChunk heap i addr = (heap + i * chunk_size ≤ addr) × (addr < heap + i * chunk_size + chunk_size)

-- The address lies in none of the `n` chunks.
abbrev pub Outside : ℕ → ℕ → ℕ → Type 0
Outside heap n addr = (addr < heap) ⊎ (heap + n * chunk_size ≤ addr)

module _ {heap n : ℕ} {used : ℕ → Bool} {m : Mem} (h : IsHeap heap n used m) where
  findchunk_loop-hit :
      (left i addr : ℕ)
      → i < n
      → InChunk heap i addr
      → findchunk_loop (suc left) i addr m ≡ done (pos i, m)
  unfolding findchunk_loop
  findchunk_loop-hit left i addr p at = ground (arith, h.cells i p, h.in_space)

  findchunk_loop-miss :
      (left i addr : ℕ)
      → i < n
      → (addr < heap + i * chunk_size) ⊎ (heap + i * chunk_size + chunk_size ≤ addr)
      → findchunk_loop (suc left) i addr m ≡ findchunk_loop left (i + 1) addr m
  unfolding findchunk_loop
  findchunk_loop-miss left i addr p at = ground (arith, h.cells i p, h.in_space)

  findchunk_loop-below :
      (left i addr : ℕ)
      → i + left ≡ n
      → addr < heap + i * chunk_size
      → findchunk_loop left i addr m ≡ done (minus_one, m)
  findchunk_loop-below zero i addr e p = unfold findchunk_loop in refl
  findchunk_loop-below (suc left) i addr e p =
      findchunk_loop-miss left i addr (omega arith) (inl p)
      ∙ findchunk_loop-below left (i + 1) addr (omega arith) (omega arith)

  findchunk_loop_lem :
      (left i addr : ℕ)
      → i + left ≡ n
      → heap + i * chunk_size ≤ addr
      → ((k : ℕ) × (k < n) × InChunk heap k addr × (findchunk_loop left i addr m ≡ done (pos k, m)))
        ⊎ ((heap + n * chunk_size ≤ addr) × (findchunk_loop left i addr m ≡ done (minus_one, m)))
  findchunk_loop_lem zero i addr e p = inr (omega arith, unfold findchunk_loop in refl)
  findchunk_loop_lem (suc left) i addr e p =
      elim (Bool-cases (ltb addr (heap + i * chunk_size + chunk_size))) [
        | inl within ↦
            let at : InChunk heap i addr = (p, ltb→lt _ _ within) in
            inl (i, omega arith, at, findchunk_loop-hit left i addr (omega arith) at)
        | inr beyond ↦
            let past : heap + i * chunk_size + chunk_size ≤ addr = ground arith in
            let step = findchunk_loop-miss left i addr (omega arith) (inr past) in
            elim (findchunk_loop_lem left (i + 1) addr (omega arith) (omega arith)) [
              | inl (k, below, at, result) ↦ inl (k, below, at, step ∙ result)
              | inr (out, result) ↦ inr (out, step ∙ result)
            ]
      ]

  -- On a heap that is laid out, the index found is that of the chunk the address lies in, and -1
  -- where it lies in none.
  pub findchunk_lem :
      (addr : ℕ)
      → ((k : ℕ) × (k < n) × InChunk heap k addr × (findchunk addr m ≡ done (pos k, m)))
        ⊎ (Outside heap n addr × (findchunk addr m ≡ done (minus_one, m)))
  findchunk_lem addr =
      let entry : findchunk addr m ≡ findchunk_loop n 0 addr m =
        unfold findchunk in ground (arith, h.count) in
      elim (Bool-cases (ltb addr heap)) [
        | inl below ↦
            let p = ltb→lt _ _ below in
            inr (inl p, entry ∙ findchunk_loop-below n 0 addr (omega arith) (omega arith))
        | inr above ↦ elim (findchunk_loop_lem n 0 addr (omega arith) (ground arith)) [
          | inl (k, below, at, result) ↦ inl (k, below, at, entry ∙ result)
          | inr (out, result) ↦ inr (inr out, entry ∙ result)
        ]
      ]

  pub isoccupied-chunk :
      (i : ℕ) → i < n → isoccupied (pos i) m ≡ done ((if used i then pos 1 else pos 0), m)
  unfolding isoccupied out_of_range chunk_at
  isoccupied-chunk i p = ground (arith, h.cells i p, h.count, h.in_space)

  isoccupied-none : isoccupied minus_one m ≡ done (minus_one, m)
  unfolding isoccupied out_of_range
  isoccupied-none = refl

  -- The start and the size of a chunk that was found.
  pub get_start-get_size :
      (i : ℕ)
      → i < n
      → (get_start (pos i) m ≡ done (heap + i * chunk_size, m))
        × (get_size (pos i) m ≡ done (chunk_size, m))
  unfolding get_start get_size out_of_range chunk_at
  get_start-get_size i p = (
    ground (arith, h.cells i p, h.count, h.in_space),
    ground (arith, h.cells i p, h.count, h.in_space),
  )

  occupy-chunk : (i : ℕ) → i < n → occupy (pos i) m ≡ done (true, mark heap i true m)
  unfolding occupy
  occupy-chunk i p = ground (arith, h.cells i p)

  -- On a heap that is laid out, the stack can grow into a free chunk, which is then occupied; a
  -- taken chunk or an address outside the heap is refused and nothing changes.
  pub stackexpansion_lem :
      (ptr : ℕ)
      → ((k : ℕ) × (k < n)
          × InChunk heap k ptr
          × (used k ≡ false)
          × (stackexpansion ptr m ≡ done (true, mark heap k true m)))
        ⊎ ((k : ℕ) × (k < n)
            × InChunk heap k ptr
            × (used k ≡ true)
            × (stackexpansion ptr m ≡ done (false, m)))
        ⊎ (Outside heap n ptr × (stackexpansion ptr m ≡ done (false, m)))
  unfolding stackexpansion
  stackexpansion_lem ptr = elim (findchunk_lem ptr) [
    | inr (out, found) ↦ inr (inr (out, ground (arith, isoccupied-none)))
    | inl (k, below, at, found) ↦ elim (Bool-cases (used k)) [
      | inl taken ↦ inr (inl (k, below, at, taken, ground (arith, isoccupied-chunk k below)))
      | inr is_free ↦
          inl
            (k, below, at, is_free, ground (arith, isoccupied-chunk k below, occupy-chunk k below))
    ]
  ]
