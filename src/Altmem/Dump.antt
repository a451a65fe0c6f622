-- ===== src/Altmem/Dump.antt =====
-- `altmem_dump` of app/altmem.c, and what it prints of a heap: a line for each chunk.
use s3k_monitor.Prelude.{
  ℕ, zero, suc, ◌+◌, ◌*◌, ◌%◌, ◌^◌, ◌≡◌, refl, subst, sym, arith, if◌then◌else◌, List, [], ◌∷◌,
  ◌++◌, length, Bool, true, false, some, Run, pure, ◌>>=◌, ◌>>◌, index,
}
use s3k_monitor.Print.{Uart, word, text, codes, printf}
use s3k_monitor.Print.Prints.{Prints, Prints-bind, pure-Prints}
use s3k_monitor.Print.Hex.{hex_text}
use s3k_monitor.Print.Rendered.{rendered, printf-Prints}
use s3k_monitor.Altmem.{Chunk, Mem, chunk_size}
use s3k_monitor.Altmem.Valid.{IsHeap, chunk}

abbrev pub dump_chunk : ℕ → Chunk → Run Uart ℕ
dump_chunk i c = printf (codes "0x%X: chunk{start:0x%X,size:0x%X,occupied:%s}\n") (
    word i
    ∷ word c.start
    ∷ word c.size
    ∷ text (if c.occupied then codes "true" else codes "false")
    ∷ [])

-- The loop at chunk `i`, with `left` rounds left.
unfoldable pub dump_loop : Mem → ℕ → ℕ → Run Uart (Unit {0})
dump_loop m zero i = pure tt
dump_loop m (suc left) i = do c ← index m.chunks i; dump_chunk i c; dump_loop m left (i + 1)

unfoldable pub dump : Mem → Run Uart (Unit {0})
dump m = dump_loop m m.nchunks 0

abbrev pub number : ℕ → List ℕ
number x = codes "0x" ++ hex_text 16 (x % 2 ^ 64)

-- The line of chunk `i`, which begins at `start`.
abbrev pub line : ℕ → ℕ → Bool → List ℕ
line i start occupied =
    number i
    ++ (codes ": chunk{start:"
        ++ (number start
            ++ (codes ",size:0x1000,occupied:"
                ++ (if occupied then codes "true}\n" else codes "false}\n"))))

-- The lines of the chunks from `i` on, of a heap that begins at `heap`.
abbrev pub listing : ℕ → (ℕ → Bool) → ℕ → ℕ → List ℕ
listing heap used zero i = []
listing heap used (suc left) i =
    line i (heap + i * chunk_size) (used i) ++ listing heap used left (i + 1)

rendered-line :
    (i start : ℕ) (occupied : Bool)
    → rendered (codes "0x%X: chunk{start:0x%X,size:0x%X,occupied:%s}\n") (
        word i
        ∷ word start
        ∷ word chunk_size
        ∷ text (if occupied then codes "true" else codes "false")
        ∷ [])
      ≡ some (line i start occupied)
rendered-line i start true = refl
rendered-line i start false = refl

module _ {heap n : ℕ} {used : ℕ → Bool} {m : Mem} (h : IsHeap heap n used m) where
  dump_loop-listing :
      (left i : ℕ) → i + left ≡ n → Prints (dump_loop m left i) tt (listing heap used left i)
  unfolding dump_loop
  dump_loop-listing zero i e u = pure-Prints tt u
  dump_loop-listing (suc left) i e u =
      let s = line i (heap + i * chunk_size) (used i) in
      rw (h.cells i (omega arith)) (
        Prints-bind (dump_chunk i (chunk heap i (used i))) (λ _. dump_loop m left (i + 1))
          (0 + length s) tt s (listing heap used left (i + 1))
          (printf-Prints _ _ s (rendered-line i (heap + i * chunk_size) (used i)))
          (dump_loop-listing left (i + 1) (omega arith)) u)

  -- On a heap `altmem_dump` reads inside its array, and prints a line for each chunk in order: its
  -- index, its first address, its size and whether it is occupied.
  pub dump-listing : Prints (dump m) tt (listing heap used n 0)
  unfolding dump
  dump-listing =
      subst (λ k. Prints (dump_loop m k 0) tt (listing heap used n 0)) (sym h.count)
        (dump_loop-listing n 0 (omega arith))
