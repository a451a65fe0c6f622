-- ===== src/Altmem/Alloc.antt =====
-- `altmem_alloc` and `altmem_free`: first fit, and the two undo each other.
use native.Mathlib.Decide.{ℕ_discrete}
use s3k_monitor.Prelude.{
  ℕ, zero, suc, ◌+◌, ◌*◌, ◌≤◌, ◌<◌, ◌≡◌, ◌≢◌, ◌⊎◌, inl, inr, Bool, true, false, arith, done, ap,
  refl, Bool-cases, ◌∙◌, ltb, ltb→lt,
}
use s3k_monitor.Altmem.{Mem, chunk_size, null, alloc, alloc_loop, free, free_loop}
use s3k_monitor.Altmem.Valid.{IsHeap, mark, mark-IsHeap, mark-mark}

-- The pointer of chunk `i`.
abbrev pub address : ℕ → ℕ → ℕ
address heap i = heap + i * chunk_size

-- How a request ends that began at chunk `from`: with the first free chunk, now occupied, or with
-- the null pointer and the state as it was, where no chunk is free.
abbrev pub FirstFit : ℕ → ℕ → (ℕ → Bool) → Mem → ℕ → Type 0
FirstFit heap n used m from =
    (i : ℕ) × (from ≤ i) × (i < n) × (used i ≡ false) × ((j : ℕ) → from ≤ j → j < i → used j ≡ true)

module _ {heap n : ℕ} {used : ℕ → Bool} {m : Mem} (h : IsHeap heap n used m) where
  alloc_loop-taken :
      (left i : ℕ) → i < n → used i ≡ true → alloc_loop (suc left) i m ≡ alloc_loop left (i + 1) m
  unfolding alloc_loop
  alloc_loop-taken left i p e = ground (arith, h.cells i p)

  alloc_loop-free :
      (left i : ℕ)
      → i < n
      → used i ≡ false
      → alloc_loop (suc left) i m ≡ done (address heap i, mark heap i true m)
  unfolding alloc_loop
  alloc_loop-free left i p e = ground (arith, h.cells i p)

  alloc_loop_lem :
      (left i : ℕ)
      → i + left ≡ n
      → ((f : FirstFit heap n used m i) × (alloc_loop left i m
            ≡ done (address heap f.0, mark heap f.0 true m)))
        ⊎ (((j : ℕ) → i ≤ j → j < n → used j ≡ true) × (alloc_loop left i m ≡ done (null, m)))
  alloc_loop_lem zero i e = inr (λ j p q. absurd (omega arith), unfold alloc_loop in refl)
  alloc_loop_lem (suc left) i e = elim (Bool-cases (used i)) [
    | inr is_free ↦ inl (
      (i, omega arith, omega arith, is_free, λ j p q. absurd (omega arith)),
      alloc_loop-free left i (omega arith) is_free,
    )
    | inl taken ↦ elim (alloc_loop_lem left (i + 1) (omega arith)) [
      | inl ((k, above, below, is_free, before), result) ↦ inl (
        (k, omega arith, below, is_free, λ j p q. ground (arith, before j)),
        alloc_loop-taken left i (omega arith) taken ∙ result,
      )
      | inr (full, result) ↦
          inr
            (λ j p q. ground (arith, full j), alloc_loop-taken left i (omega arith) taken ∙ result)
    ]
  ]

  alloc-small : (size : ℕ) → size ≤ chunk_size → alloc size m ≡ alloc_loop n 0 m
  unfolding alloc
  alloc-small size p = ground (arith, h.count)

  alloc-large : (size : ℕ) → chunk_size < size → alloc size m ≡ done (null, m)
  unfolding alloc
  alloc-large size p = ground arith

  -- On a heap that is laid out, a request of at most one page takes the first free chunk and marks
  -- it, or, where all chunks are taken, is answered with the null pointer and no change; a larger
  -- request is always answered so.
  pub alloc-FirstFit :
      (size : ℕ)
      → ((chunk_size < size) × (alloc size m ≡ done (null, m)))
        ⊎ ((size ≤ chunk_size)
            × (f : FirstFit heap n used m 0) × (alloc size m
                ≡ done (address heap f.0, mark heap f.0 true m)))
        ⊎ ((size ≤ chunk_size)
            × ((j : ℕ) → j < n → used j ≡ true)
            × (alloc size m ≡ done (null, m)))
  alloc-FirstFit size = elim (Bool-cases (ltb chunk_size size)) [
    | inl large ↦ inl (ltb→lt _ _ large, alloc-large size (ltb→lt _ _ large))
    | inr fits ↦
        let small : size ≤ chunk_size = ground arith in
        elim (alloc_loop_lem n 0 (omega arith)) [
          | inl (f, result) ↦ inr (inl (small, f, alloc-small size small ∙ result))
          | inr (full, result) ↦
              inr (inr (small, λ j p. full j (omega arith) p, alloc-small size small ∙ result))
        ]
  ]

  free_loop-hit :
      (left i : ℕ)
      → i < n
      → free_loop (suc left) i (address heap i) m ≡ done (tt, mark heap i false m)
  unfolding free_loop
  free_loop-hit left i p = ground (arith, h.cells i p)

  free_loop-miss :
      (left i ptr : ℕ)
      → i < n
      → ptr ≢ address heap i
      → free_loop (suc left) i ptr m ≡ free_loop left (i + 1) ptr m
  unfolding free_loop
  free_loop-miss left i ptr p ne = ground (arith, h.cells i p)

  free_loop_lem :
      (left i ptr : ℕ)
      → i + left ≡ n
      → ((k : ℕ) × (i ≤ k)
          × (k < n)
          × (ptr ≡ address heap k)
          × (free_loop left i ptr m ≡ done (tt, mark heap k false m)))
        ⊎ (((k : ℕ) → i ≤ k → k < n → ptr ≢ address heap k)
            × (free_loop left i ptr m ≡ done (tt, m)))
  free_loop_lem zero i ptr e = inr (λ k p q. absurd (omega arith), unfold free_loop in refl)
  free_loop_lem (suc left) i ptr e = elim (ℕ_discrete ptr (address heap i)) [
    | yes same ↦
        inl (i, omega arith, omega arith, same, rw same (free_loop-hit left i (omega arith)))
    | no ne ↦
        let step = free_loop-miss left i ptr (omega arith) ne in
        elim (free_loop_lem left (i + 1) ptr (omega arith)) [
          | inl (k, above, below, at, result) ↦ inl (k, omega arith, below, at, step ∙ result)
          | inr (missed, result) ↦ inr (λ k p q. ground (arith, missed k), step ∙ result)
        ]
  ]

  -- On a heap that is laid out, freeing the start of a chunk clears that chunk's flag and no other;
  -- any other pointer changes nothing.
  pub free_by_start :
      (ptr : ℕ)
      → ((k : ℕ) × (k < n) × (ptr ≡ address heap k) × (free ptr m ≡ done (tt, mark heap k false m)))
        ⊎ (((k : ℕ) → k < n → ptr ≢ address heap k) × (free ptr m ≡ done (tt, m)))
  free_by_start ptr =
      let entry : free ptr m ≡ free_loop n 0 ptr m = unfold free in ground (arith, h.count) in
      elim (free_loop_lem n 0 ptr (omega arith)) [
        | inl (k, above, below, at, result) ↦ inl (k, below, at, entry ∙ result)
        | inr (missed, result) ↦ inr (λ k p. missed k (omega arith) p, entry ∙ result)
      ]

  free-at_chunk : (k : ℕ) → k < n → free (address heap k) m ≡ done (tt, mark heap k false m)
  free-at_chunk k p = elim (free_by_start (address heap k)) [
    | inl (j, below, at, result) ↦
        let same : j ≡ k = omega arith in result ∙ ap (λ t. done (tt, mark heap t false m)) same
    | inr (missed, result) ↦ absurd (missed k p refl)
  ]

  -- The chunk that a successful request got.
  pub alloc-some :
      (size ptr : ℕ) {m' : Mem}
      → alloc size m ≡ done (ptr, m')
      → ptr ≢ null
      → (f : FirstFit heap n used m 0) × (ptr ≡ address heap f.0) × (m' ≡ mark heap f.0 true m)
  alloc-some size ptr e ne = elim (alloc-FirstFit size) [
    | inl (large, result) ↦ absurd (ne (cc))
    | inr (inl (small, f, result)) ↦ (f, cc, cc)
    | inr (inr (small, full, result)) ↦ absurd (ne (cc))
  ]

-- On a heap that is laid out, a pointer that a request got can be given back, which restores the
-- state from before the request.
pub free-alloc :
    {heap n : ℕ} {used : ℕ → Bool} {m m' : Mem}
    → IsHeap heap n used m
    → (size ptr : ℕ) → alloc size m ≡ done (ptr, m')
    → ptr ≢ null
    → free ptr m' ≡ done (tt, m)
free-alloc {heap} {m} h size ptr e ne =
    let (f, at, next) = alloc-some h size ptr e ne in
    let (i, above, below, is_free, before) = f in
    let back = free-at_chunk (mark-IsHeap i true h below) i below in
    rw (at, next) (back ∙ ap (λ t. done (tt, t)) (mark-mark i true false h below is_free))

-- On a heap that is laid out, two requests in a row that both succeed get chunks that do not
-- overlap, the second one higher.
pub alloc-alloc_disjoint :
    {heap n : ℕ} {used : ℕ → Bool} {m m' m'' : Mem}
    → IsHeap heap n used m
    → (size ptr size' ptr' : ℕ) → alloc size m ≡ done (ptr, m')
    → alloc size' m' ≡ done (ptr', m'')
    → ptr ≢ null
    → ptr' ≢ null
    → ptr + chunk_size ≤ ptr'
alloc-alloc_disjoint {heap} {n} {used} {m} h size ptr size' ptr' e e' ne ne' =
    let ((i, _, below, is_free, before), at, next) = alloc-some h size ptr e ne in
    let e'' = rw next at e' in
    let second = alloc-some (mark-IsHeap i true h below) size' ptr' e'' ne' in
    let ((k, _, below', is_free', before'), at', next') = second in ground (arith, before k)
