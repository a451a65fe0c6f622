-- ===== src/App/Trap/Faults.antt =====
-- What the trap handler does with an access fault at an address of the heap or elsewhere.
use s3k_monitor.Prelude.{
  ℕ, ◌≤◌, ◌<◌, ◌≡◌, ◌⊎◌, inl, inr, Bool, true, false, ◌||◌, if◌then◌else◌, ◌==◌, ltb, leb, arith,
  refl, ap, ◌∙◌, pos, minus_one, to_u64, to_int, Bool-cases, ◌>>=◌,
}
use s3k_monitor.S3k.{S3k}
use s3k_monitor.Altmem.{max_chunks}
use s3k_monitor.Altmem.Valid.{IsHeap}
use s3k_monitor.Altmem.Lookup.{InChunk, Outside, findchunk_lem, isoccupied-chunk}
use s3k_monitor.App.{Symbols, App, lift_heap}
use s3k_monitor.App.Trap.{
  refuse, execute_chunk, write_chunk, fetch_fault, store_fault, is_minus_one,
}

or_true : (a b : Bool) → (a || b) ≡ true → (a ≡ true) ⊎ (b ≡ true)
or_true true b e = inl refl
or_true false b e = inr e

-- The flag of a chunk is never -1.
not_asked :
    {A : Type 0} (b : Bool) (x y : A)
    → (if is_minus_one (if b then pos 1 else pos 0) then x else y) ≡ y
not_asked true x y = refl
not_asked false x y = refl

pub index-to_int : (k : ℕ) → k < max_chunks → to_int (to_u64 (pos k)) ≡ pos k
index-to_int k p = ground arith

index-found : (k : ℕ) → k < max_chunks → (to_u64 (pos k) == to_u64 minus_one) ≡ false
index-found k p = ground arith

pub index-to_u64 : (k : ℕ) → k < max_chunks → to_u64 (pos k) ≡ k
index-to_u64 k p = omega arith

module _ (s3k : S3k) (at : Symbols) {heap n : ℕ} {used : ℕ → Bool} where
  module _ (s : App s3k) (h : IsHeap heap n used s.heap) (room : n ≤ max_chunks) where
    -- On a heap of at most 16 chunks that is laid out, a fetch from an allocated chunk, within the
    -- program and below the stack, makes the handler ask for that chunk's execution; a fetch from
    -- outside the program, from outside the heap, or from a free chunk resets the app and asks for
    -- nothing.
    pub fetch_fault_lem :
        (epc : ℕ)
        → ((k : ℕ) × (at.start ≤ epc)
            × (epc < at.stack)
            × (k < n)
            × InChunk heap k epc
            × (used k ≡ true)
            × (fetch_fault s3k at epc s ≡ execute_chunk s3k at k s))
          ⊎ (((epc < at.start)
                ⊎ (at.stack ≤ epc)
                ⊎ Outside heap n epc
                ⊎ ((k : ℕ) × (k < n) × InChunk heap k epc × (used k ≡ false)))
              × (fetch_fault s3k at epc s ≡ refuse s3k at s))
    unfolding fetch_fault
    fetch_fault_lem epc = elim (Bool-cases (ltb epc at.start || leb at.stack epc)) [
      | inl out ↦ inr (
        elim (or_true (ltb epc at.start) (leb at.stack epc) out) [
          | inl e ↦ inl (ground arith)
          | inr e ↦ inr (inl (ground arith))
        ],
        rw out refl,
      )
      | inr within ↦ elim (findchunk_lem h epc) [
        | inr (outside, found) ↦
            inr (inr (inr (inl outside)), rw (within, found, ◌>>=◌, lift_heap) refl)
        | inl (k, below, inside, found) ↦
            let int_k = index-to_int k (omega arith) in
            let is_found = index-found k (omega arith) in
            let occupied = isoccupied-chunk h k below in
            let here = index-to_u64 k (omega arith) in
            elim (Bool-cases (used k)) [
              | inl taken ↦ inl (
                k,
                ground arith,
                ground arith,
                below,
                inside,
                taken,
                rw (within, found, ◌>>=◌, lift_heap)
                    (rw (is_found, int_k)
                      (rw (occupied, taken, ◌>>=◌, lift_heap)
                        (ap (λ i. execute_chunk s3k at i s) here))),
              )
              | inr is_free ↦ inr (
                inr (inr (inr (k, below, inside, is_free))),
                rw (within, found, ◌>>=◌, lift_heap)
                    (rw (is_found, int_k) (rw (occupied, is_free, ◌>>=◌, lift_heap) refl)),
              )
            ]
      ]
    ]

    -- On a heap of at most 16 chunks that is laid out, a store fault while the stack pointer is
    -- above the stack's limit, at an address in a chunk, makes the handler ask for that chunk's
    -- writing, whether the chunk is allocated or free; at an address outside the heap it resets the
    -- app and asks for nothing.
    pub store_fault_lem :
        (esp eval : ℕ)
        → at.stack < esp
        → ((k : ℕ) × (k < n)
            × InChunk heap k eval
            × (store_fault s3k at esp eval s ≡ write_chunk s3k at k s))
          ⊎ (Outside heap n eval × (store_fault s3k at esp eval s ≡ refuse s3k at s))
    unfolding store_fault
    store_fault_lem esp eval above =
        let high : leb esp at.stack ≡ false = ground arith in
        elim (findchunk_lem h eval) [
          | inr (outside, found) ↦ inr (outside, rw (high, found, ◌>>=◌, lift_heap) refl)
          | inl (k, below, inside, found) ↦
              let int_k = index-to_int k (omega arith) in
              let is_found = index-found k (omega arith) in
              let occupied = isoccupied-chunk h k below in
              let here = index-to_u64 k (omega arith) in
              inl (
                k,
                below,
                inside,
                rw (high, found, ◌>>=◌, lift_heap)
                    (rw (is_found, int_k)
                      (rw (occupied, ◌>>=◌, lift_heap)
                        (ap (λ f. f s)
                            (not_asked (used k) (refuse s3k at)
                              (write_chunk s3k at (to_u64 (pos k))))
                          ∙ ap (λ i. write_chunk s3k at i s) here))),
              )
        ]
