-- ===== src/Altmem/Traces.antt =====
-- The allocator over any sequence of calls, against an abstract heap that only says which chunks are
-- taken.
use s3k_monitor.Prelude.{
  ℕ, ◌≤◌, ◌<◌, ◌≡◌, ◌≢◌, inl, inr, Bool, true, false, List, [], ◌∷◌, refl, arith, done, Run, pure,
  ◌>>=◌,
}
use s3k_monitor.Altmem.{Mem, chunk_size, null, alloc, free, stackexpansion}
use s3k_monitor.Altmem.Valid.{IsHeap, update, mark, mark-IsHeap}
use s3k_monitor.Altmem.Alloc.{address, alloc-FirstFit, free_by_start}
use s3k_monitor.Altmem.Lookup.{InChunk, Outside, stackexpansion_lem}

-- The calls that change the heap, and what they answer.
pub data Call : Type 0 where
  request give_back grow : ℕ → Call

pub data Answer : Type 0 where
  pointer : ℕ → Answer
  nothing : Answer
  grown : Bool → Answer

abbrev pub execute : Call → Run Mem Answer
execute (request size) = alloc size >>= λ p. pure (pointer p)
execute (give_back ptr) = free ptr >>= λ _. pure nothing
execute (grow ptr) = stackexpansion ptr >>= λ b. pure (grown b)

abbrev pub execute_all : List Call → Run Mem (List Answer)
execute_all [] = pure []
execute_all (c ∷ cs) = execute c >>= λ a. execute_all cs >>= λ answers. pure (a ∷ answers)

module _ (heap n : ℕ) where
  -- A step of the abstract heap, from the chunks taken to the chunks taken: a request takes the
  -- lowest free chunk; giving back the start of a chunk frees it; the stack takes the free chunk that
  -- it grows into. Every other call changes nothing.
  pub data Step (used : ℕ → Bool) : Call → Answer → (ℕ → Bool) → Type 0 where
    takes :
        (size k : ℕ)
        → size ≤ chunk_size
        → k < n
        → used k ≡ false
        → ((j : ℕ) → j < k → used j ≡ true)
        → Step used (request size) (pointer (address heap k)) (update used k true)
    too_large : (size : ℕ) → chunk_size < size → Step used (request size) (pointer null) used
    none_free :
        (size : ℕ)
        → ((j : ℕ) → j < n → used j ≡ true)
        → Step used (request size) (pointer null) used
    frees :
        (ptr k : ℕ)
        → k < n
        → ptr ≡ address heap k
        → Step used (give_back ptr) nothing (update used k false)
    unknown :
        (ptr : ℕ)
        → ((k : ℕ) → k < n → ptr ≢ address heap k)
        → Step used (give_back ptr) nothing used
    grows :
        (ptr k : ℕ)
        → k < n
        → InChunk heap k ptr
        → used k ≡ false
        → Step used (grow ptr) (grown true) (update used k true)
    blocked :
        (ptr k : ℕ)
        → k < n
        → InChunk heap k ptr
        → used k ≡ true
        → Step used (grow ptr) (grown false) used
    outside : (ptr : ℕ) → Outside heap n ptr → Step used (grow ptr) (grown false) used

  pub data Trace : (ℕ → Bool) → List Call → List Answer → (ℕ → Bool) → Type 0 where
    ends : (used : ℕ → Bool) → Trace used [] [] used
    goes_on :
        (used used' used'' : ℕ → Bool) (c : Call) (a : Answer) (cs : List Call)
        (answers : List Answer)
        → Step used c a used'
        → Trace used' cs answers used''
        → Trace used (c ∷ cs) (a ∷ answers) used''

  -- What a call makes of a heap that is laid out.
  abbrev Simulated : (ℕ → Bool) → Call → Mem → Type 0
  Simulated used c m =
      (a : Answer) × (used' : ℕ → Bool) × (m' : Mem) × (execute c m ≡ done (a, m'))
      × Step used c a used'
      × IsHeap heap n used' m'

  execute_lem : (used : ℕ → Bool) (c : Call) (m : Mem) → IsHeap heap n used m → Simulated used c m
  execute_lem used (request size) m h = elim (alloc-FirstFit h size) [
    | inl (large, result) ↦
        (pointer null, used, m, rw (result, ◌>>=◌) refl, too_large size large, h)
    | inr (inl (small, (k, _, below, is_free, before), result)) ↦ (
      pointer (address heap k),
      update used k true,
      mark heap k true m,
      rw (result, ◌>>=◌) refl,
      takes size k small below is_free (λ j p. before j (omega arith) p),
      mark-IsHeap k true h below,
    )
    | inr (inr (small, full, result)) ↦
        (pointer null, used, m, rw (result, ◌>>=◌) refl, none_free size full, h)
  ]
  execute_lem used (give_back ptr) m h = elim (free_by_start h ptr) [
    | inl (k, below, at, result) ↦ (
      nothing,
      update used k false,
      mark heap k false m,
      rw (result, ◌>>=◌) refl,
      frees ptr k below at,
      mark-IsHeap k false h below,
    )
    | inr (missed, result) ↦ (nothing, used, m, rw (result, ◌>>=◌) refl, unknown ptr missed, h)
  ]
  execute_lem used (grow ptr) m h = elim (stackexpansion_lem h ptr) [
    | inl (k, below, inside, is_free, result) ↦ (
      grown true,
      update used k true,
      mark heap k true m,
      rw (result, ◌>>=◌) refl,
      grows ptr k below inside is_free,
      mark-IsHeap k true h below,
    )
    | inr (inl (k, below, inside, taken, result)) ↦
        (grown false, used, m, rw (result, ◌>>=◌) refl, blocked ptr k below inside taken, h)
    | inr (inr (out, result)) ↦ (grown false, used, m, rw (result, ◌>>=◌) refl, outside ptr out, h)
  ]

  -- Any sequence of requests, pointers given back and growths of the stack, on a heap that is laid
  -- out: it ends without an access outside the array, its answers are those of the abstract heap in
  -- the same order, and the heap is laid out again with the chunks taken that are taken there.
  pub execute_all-Trace :
      (calls : List Call) (used : ℕ → Bool) (m : Mem)
      → IsHeap heap n used m
      → (answers : List Answer) × (used' : ℕ → Bool) × (m' : Mem) × (execute_all calls m
          ≡ done (answers, m'))
        × Trace used calls answers used'
        × IsHeap heap n used' m'
  execute_all-Trace [] used m h = ([], used, m, refl, ends used, h)
  execute_all-Trace (c ∷ cs) used m h =
      let (a, used₁, m₁, result, step, h₁) = execute_lem used c m h in
      let (answers, used₂, m₂, rest, trace, h₂) = execute_all-Trace cs used₁ m₁ h₁ in
      (
        a ∷ answers,
        used₂,
        m₂,
        rw (result, ◌>>=◌) (rw (rest, ◌>>=◌) refl),
        goes_on used used₁ used₂ c a cs answers step trace,
        h₂,
      )
