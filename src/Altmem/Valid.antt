-- ===== src/Altmem/Valid.antt =====
-- The states of the allocator that `altmem_init` sets up and the operations keep, and what a state
-- says of each chunk.
use s3k_monitor.Prelude.{
  ℕ, ◌+◌, ◌*◌, ◌^◌, ◌≤◌, ◌<◌, ◌≡◌, Bool, some, get_elem?, set, length, arith, ◌==◌, if◌then◌else◌,
  length-set, get_elem?-set_self, get_elem?-set_ne, set-set, set-get_elem?, ◌∙◌, ap,
}
use s3k_monitor.Altmem.{Chunk, Mem, chunk_size}

-- Chunk `i` of a heap that begins at `heap`.
abbrev pub chunk : ℕ → ℕ → Bool → Chunk
chunk heap i b = record { start = heap + i * chunk_size; size = chunk_size; occupied = b }

-- `n` page-sized chunks in a row from the address `heap` on, within the address space, whose flags
-- are `used`.
pub record IsHeap (heap n : ℕ) (used : ℕ → Bool) (m : Mem) : Type 0 where
  pub count : m.nchunks ≡ n
  pub fits : n ≤ length m.chunks
  pub above_null : 0 < heap
  pub in_space : heap + n * chunk_size < 2 ^ 64
  pub cells : (i : ℕ) → i < n → get_elem? m.chunks i ≡ some (chunk heap i (used i))

-- The flags after chunk `i` has been set to `b`.
abbrev pub update : (ℕ → Bool) → ℕ → Bool → ℕ → Bool
update used i b j = if j == i then b else used j

-- The state after chunk `i` has been set to `b`.
abbrev pub mark : ℕ → ℕ → Bool → Mem → Mem
mark heap i b m = record m { chunks = set m.chunks i (chunk heap i b) }

pub mark-IsHeap :
    {heap n : ℕ} {used : ℕ → Bool} {m : Mem} (i : ℕ) (b : Bool)
    → IsHeap heap n used m
    → i < n
    → IsHeap heap n (update used i b) (mark heap i b m)
mark-IsHeap {heap} {n} {used} {m} i b h lt = record {
  count = h.count;
  fits = omega (arith, h.fits, length-set m.chunks i (chunk heap i b));
  above_null = h.above_null;
  in_space = h.in_space;
  cells = λ j p. ground (
    arith,
    h.cells j p,
    h.fits,
    get_elem?-set_self m.chunks i (chunk heap i b),
    get_elem?-set_ne m.chunks i j (chunk heap i b),
  );
}

-- Setting a flag and then setting it back to what it was restores the state.
pub mark-mark :
    {heap n : ℕ} {used : ℕ → Bool} {m : Mem} (i : ℕ) (a b : Bool)
    → IsHeap heap n used m
    → i < n
    → used i ≡ b
    → mark heap i b (mark heap i a m) ≡ m
mark-mark {heap} {m} i a b h lt e = ap (λ cs. record m { chunks = cs }) restored
  where
    restored : set (set m.chunks i (chunk heap i a)) i (chunk heap i b) ≡ m.chunks
    restored =
        set-set m.chunks i (chunk heap i a) (chunk heap i b)
        ∙ set-get_elem? m.chunks i (h.cells i lt ∙ ap (λ t. some (chunk heap i t)) e)
