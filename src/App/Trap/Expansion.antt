-- ===== src/App/Trap/Expansion.antt =====
-- The growth of the stack into the heap.
use s3k_monitor.Prelude.{
  ℕ, ◌+◌, ◌-◌, ◌*◌, ◌^◌, ◌≤◌, ◌<◌, ◌≡◌, ◌⊎◌, inl, inr, Bool, true, false, arith, refl, subst, pos,
  leb, done, ◌>>=◌,
}
use s3k_monitor.S3k.{S3k, ncap}
use s3k_monitor.Capman.Coherent.{IsCoherent}
use s3k_monitor.Capman.Search.{SharesEnd}
use s3k_monitor.Altmem.{chunk_size, max_chunks, findchunk}
use s3k_monitor.Altmem.Valid.{IsHeap, mark, mark-IsHeap}
use s3k_monitor.Altmem.Lookup.{InChunk, Outside, findchunk_lem, stackexpansion_lem}
use s3k_monitor.App.{Symbols, App, lift_heap}
use s3k_monitor.App.Trap.{
  request, th_updatepmp_rw, th_stackexpansion, chunk_pmp, conclude, refuse, store_fault,
}
use s3k_monitor.App.Trap.Faults.{index-to_u64}
use s3k_monitor.App.Trap.Requests.{chunk_pmp_lem}

-- An address lies in one chunk only.
same_chunk : (heap i k addr : ℕ) → InChunk heap i addr → InChunk heap k addr → i ≡ k
same_chunk heap i k addr (a, b) (c, d) = omega arith

-- The state after chunk `k` of the heap has been taken.
abbrev pub grown : {s3k : S3k} → ℕ → ℕ → App s3k → App s3k
grown heap k s = record s { heap = mark heap k true s.heap }

module _ (s3k : S3k) (at : Symbols) {heap n : ℕ} {used : ℕ → Bool} where
  open s3k use {getcap, rw_perm}

  module _ (s : App s3k) (h : IsHeap heap n used s.heap) (room : n ≤ max_chunks)
      (whole : IsCoherent s3k s.caps) (esp : ℕ) where
    -- A PMP capability that shares an end with chunk `k`, or index 2^64 - 1 where there is none.
    abbrev pub Covers : ℕ → ℕ → Type 0
    Covers k j =
        let begin = heap + k * chunk_size in
        ((j < ncap) × SharesEnd s3k begin (begin + chunk_size) (getcap j s.caps.kernel))
        ⊎ ((j ≡ 2 ^ 64 - 1)
            × ((i : ℕ)
                → i < ncap
                → ¬ (SharesEnd s3k begin (begin + chunk_size) (getcap i s.caps.kernel))))

    found_again :
        (k : ℕ)
        → k < n
        → InChunk heap k esp
        → findchunk esp (mark heap k true s.heap) ≡ done (pos k, mark heap k true s.heap)
    found_again k below inside = elim (findchunk_lem (mark-IsHeap k true h below) esp) [
      | inl (i, p, here, result) ↦
          subst
            (λ i. findchunk esp (mark heap k true s.heap) ≡ done (pos i, mark heap k true s.heap))
            (same_chunk heap i k esp here inside) result
      | inr (outside, result) ↦ absurd (elim outside [ inl a ↦ omega arith | inr b ↦ omega arith ])
    ]

    grown-request :
        (k : ℕ)
        → k < n
        → (j : ℕ) × Covers k j
          × (chunk_pmp s3k at k (grown heap k s)
              ≡ done ((heap + k * chunk_size, j), grown heap k s))
    grown-request k below =
        elim (chunk_pmp_lem s3k at (grown heap k s) (mark-IsHeap k true h below) room whole k
          below) [
            | inl (j, q, shares, result) ↦ (j, inl (q, shares), result)
            | inr (fail, result) ↦ (2 ^ 64 - 1, inr (refl, fail), result)
          ]

    th_stackexpansion_lem :
        ((k : ℕ) × (k < n)
          × InChunk heap k esp
          × (used k ≡ false)
          × (j : ℕ) × Covers k j
          × (th_stackexpansion s3k at esp s ≡ request s3k at j 0 rw_perm (grown heap k s)))
        ⊎ ((Outside heap n esp ⊎ ((k : ℕ) × (k < n) × InChunk heap k esp × (used k ≡ true)))
            × (th_stackexpansion s3k at esp s ≡ done (pos 1, s)))
    unfolding th_stackexpansion th_updatepmp_rw
    th_stackexpansion_lem = elim (stackexpansion_lem h esp) [
      | inl (k, below, inside, is_free, result) ↦
          let (j, covers, asked) = grown-request k below in
          let again = found_again k below inside in
          let here = index-to_u64 k (omega arith) in
          inl (
            k,
            below,
            inside,
            is_free,
            j,
            covers,
            rw (result, ◌>>=◌, lift_heap)
                (rw (again, ◌>>=◌, lift_heap) (rw (here, asked, ◌>>=◌) refl)),
          )
      | inr (inl (k, below, inside, taken, result)) ↦
          inr (inr (k, below, inside, taken), rw (result, ◌>>=◌, lift_heap) refl)
      | inr (inr (outside, result)) ↦ inr (inl outside, rw (result, ◌>>=◌, lift_heap) refl)
    ]

    -- On a heap of at most 16 chunks that is laid out, and a table that mirrors the kernel's: a store
    -- fault while the stack pointer is at or below the stack's limit takes the chunk that it points
    -- into, if that is free, and asks for its writing, with a PMP capability that shares an end with
    -- the chunk, or index 2^64 - 1 where there is none; if the chunk is taken, or the pointer is
    -- outside the heap, the heap stays as it is and the app is reset.
    pub store_fault_expansion :
        (eval : ℕ)
        → esp ≤ at.stack
        → ((k : ℕ) × (k < n)
            × InChunk heap k esp
            × (used k ≡ false)
            × (j : ℕ) × Covers k j
            × (store_fault s3k at esp eval s
                ≡ (request s3k at j 0 rw_perm >>= conclude s3k at) (grown heap k s)))
          ⊎ ((Outside heap n esp ⊎ ((k : ℕ) × (k < n) × InChunk heap k esp × (used k ≡ true)))
              × (store_fault s3k at esp eval s ≡ refuse s3k at s))
    unfolding store_fault conclude
    store_fault_expansion eval low =
        let below : leb esp at.stack ≡ true = ground arith in
        elim th_stackexpansion_lem [
          | inl (k, p, inside, is_free, j, covers, result) ↦
              inl (k, p, inside, is_free, j, covers, rw (below, result, ◌>>=◌) refl)
          | inr (why, result) ↦ inr (why, rw (below, result, ◌>>=◌) refl)
        ]
