-- ===== src/App/Trap/Requests.antt =====
-- What the trap handler asks the monitor for, for a chunk of the heap.
use s3k_monitor.Prelude.{
  ℕ, ◌+◌, ◌-◌, ◌*◌, ◌^◌, ◌≤◌, ◌<◌, ◌≡◌, ◌⊎◌, inl, inr, Bool, arith, refl, ap, pos, to_u64, to_int,
  add64, done, ◌>>=◌,
}
use s3k_monitor.S3k.{S3k, ncap}
use s3k_monitor.Capman.Coherent.{IsCoherent}
use s3k_monitor.Capman.Search.{SharesEnd, find_existing_pmp-SharesEnd}
use s3k_monitor.Altmem.{chunk_size, max_chunks}
use s3k_monitor.Altmem.Valid.{IsHeap}
use s3k_monitor.Altmem.Lookup.{get_start-get_size}
use s3k_monitor.App.{Symbols, App, lift_caps, lift_heap}
use s3k_monitor.App.Trap.{
  request, th_updatepmp_rw, th_updatepmp_rx, chunk_pmp, conclude, execute_chunk, write_chunk,
}

index_int : (k : ℕ) → k < max_chunks → to_int k ≡ pos k
index_int k p = ground arith

small_index : (j : ℕ) → j < ncap → to_u64 (pos j) ≡ j
small_index j p = omega arith

module _ (s3k : S3k) (at : Symbols) {heap n : ℕ} {used : ℕ → Bool} where
  open s3k use {getcap, rw_perm}

  module _ (s : App s3k) (h : IsHeap heap n used s.heap) (room : n ≤ max_chunks)
      (whole : IsCoherent s3k s.caps) (k : ℕ) (below : k < n) where
    abbrev begin : ℕ
    begin = heap + k * chunk_size

    abbrev Found : ℕ → Type 0
    Found j = SharesEnd s3k begin (begin + chunk_size) (getcap j s.caps.kernel)

    pub chunk_pmp_lem :
        ((j : ℕ) × (j < ncap) × Found j × (chunk_pmp s3k at k s ≡ done ((begin, j), s)))
        ⊎ (((j : ℕ) → j < ncap → ¬ (Found j))
            × (chunk_pmp s3k at k s ≡ done ((begin, 2 ^ 64 - 1), s)))
    unfolding chunk_pmp
    chunk_pmp_lem =
        let int_k = index_int k (omega arith) in
        let (start, size) = get_start-get_size h k below in
        let end : add64 begin chunk_size ≡ begin + chunk_size = omega (arith, h.in_space) in
        elim (find_existing_pmp-SharesEnd s3k begin (begin + chunk_size) whole) [
          | inl (j, q, shares, _, result) ↦ inl (
            j,
            q,
            shares,
            rw (int_k, start, ◌>>=◌, lift_heap)
                (rw (int_k, size, end, ◌>>=◌, lift_heap)
                  (rw (result, ◌>>=◌, lift_caps)
                    (ap (λ i. done ((begin, i), s)) (small_index j q)))),
          )
          | inr (fail, result) ↦ inr (
            fail,
            rw (int_k, start, ◌>>=◌, lift_heap)
                (rw (int_k, size, end, ◌>>=◌, lift_heap) (rw (result, ◌>>=◌, lift_caps) refl)),
          )
        ]

    -- On a heap of at most 16 chunks that is laid out, and a table that mirrors the kernel's: the
    -- request to execute a chunk has the chunk's start as the address of its signature and the
    -- permissions 5; the request to write one has no signature and the permissions for reading and
    -- writing. Both are made for the same PMP capability, one that shares an end with the chunk,
    -- and with index 2^64 - 1 where there is none.
    pub execute_chunk-write_chunk :
        (j : ℕ) × (((j < ncap) × Found j) ⊎ ((j ≡ 2 ^ 64 - 1) × ((i : ℕ) → i < ncap → ¬ (Found i))))
        × (execute_chunk s3k at k s ≡ (request s3k at j begin 5 >>= conclude s3k at) s)
        × (write_chunk s3k at k s ≡ (request s3k at j 0 rw_perm >>= conclude s3k at) s)
    unfolding execute_chunk write_chunk th_updatepmp_rw th_updatepmp_rx
    execute_chunk-write_chunk = elim chunk_pmp_lem [
      | inl (j, q, shares, result) ↦
          (j, inl (q, shares), rw (result, ◌>>=◌) refl, rw (result, ◌>>=◌) refl)
      | inr (fail, result) ↦
          (2 ^ 64 - 1, inr (refl, fail), rw (result, ◌>>=◌) refl, rw (result, ◌>>=◌) refl)
    ]
