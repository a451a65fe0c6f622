-- ===== src/App/Main/Started.antt =====
-- What the start of the app sets up.
use s3k_monitor.Prelude.{
  ℕ, ◌-◌, ◌^◌, ◌≤◌, ◌<◌, ◌≡◌, ◌∙◌, inl, inr, refl, arith, true, false, ltb, List, some, get_elem?,
  get_elem?-some, get_elem?-set_self, set, length, length-set, done, Run, subst, sym, Returns,
  Returns-bind, zoom-Returns, pos, ◌>>=◌, ◌>>◌,
}
use s3k_monitor.S3k.{S3k}
use s3k_monitor.Capman.{Caps}
use s3k_monitor.Capman.Table.{init}
use s3k_monitor.Capman.Coherent.{IsCoherent}
use s3k_monitor.Capman.Coherent.Update.{update-IsCoherent}
use s3k_monitor.Capman.Pmp.Sizes.{FewChannels, getpmp_lem, getsoc_lem}
use s3k_monitor.Altmem
use s3k_monitor.Altmem.{chunk_size, max_chunks}
use s3k_monitor.Altmem.Valid.{IsHeap}
use s3k_monitor.Altmem.Init.{whole_chunks, init_lem}
use s3k_monitor.App.{Symbols, App, lift_caps, lift_heap, call, element, set_buf}
use s3k_monitor.App.Trap.Returns.{IsReady, Says}
use s3k_monitor.App.Main.{get_pmps, get_socs, announce, setup}

-- The linker's heap has whole chunks of its own, and not more than the array holds.
pub record HasHeap (at : Symbols) : Type 0 where
  pub above_null : 0 < at.heap
  pub order : at.heap ≤ at.stack
  pub page : chunk_size ≤ at.stack
  pub in_space : at.stack < 2 ^ 64
  pub room : whole_chunks at.heap at.stack ≤ max_chunks

module _ (s3k : S3k) where
  open s3k use {Kernel, setreg, send, yield_time, reg_tpc, reg_tsp}

  -- The arrays of the app have the lengths that the code declares.
  pub record HasArrays (s : App s3k) : Type 0 where
    pub ready : IsReady s3k s
    pub row : List ℕ
    pub first : get_elem? s.pmpcaps 0 ≡ some row
    pub width : length row ≡ 8
    pub chunks : length s.heap.chunks ≡ max_chunks

  get_pmps_lem :
      (s : App s3k)
      → HasArrays s
      → (bytes : List ℕ) × (get_pmps s3k s
          ≡ done (tt, record s { pmpcaps = set s.pmpcaps 0 bytes }))
  unfolding get_pmps
  get_pmps_lem s h =
      let (bytes, read, _) = getpmp_lem s3k h.row s.caps h.width in
      let first = h.first in (bytes, rw (first, get_pmps) (rw (read, ◌>>=◌) refl))

  get_socs_lem :
      (s : App s3k)
      → IsCoherent s3k s.caps
      → FewChannels s3k s.caps.kernel
      → length s.soccaps ≡ 8
      → (socs : List ℕ) × (get_socs s3k s ≡ done (tt, record s { soccaps = socs }))
        × (length socs ≡ 8)
  unfolding get_socs
  get_socs_lem s whole few eight =
      let (socs, found, size) = getsoc_lem s3k s.soccaps s.caps whole few eight in
      (socs, rw (found, ◌>>=◌) refl, size)

  announce_lem :
      (s : App s3k)
      → length s.soccaps ≡ 8
      → length s.buf ≡ 4
      → (socket : ℕ) × (announce s3k s
          ≡ done (
            tt,
            record s {
              buf = set s.buf 0 (2 ^ 64 - 1);
              caps = record (s.caps) {
                kernel = send socket (set s.buf 0 (2 ^ 64 - 1)) (2 ^ 64 - 1) false s.caps.kernel;
              };
            },
          ))
  unfolding announce
  announce_lem s eight four =
      let inside : ltb 0 (length s.buf) ≡ true = ground (arith, four) in
      let (socket, found) = get_elem?-some s.soccaps 0 (omega (arith, eight)) in
      (socket, rw (inside, found, ◌>>=◌, ◌>>◌, set_buf, element) refl)

  module _ (at : Symbols) (heap : HasHeap at) where
    -- The kernel with the trap vector and its stack set.
    abbrev pub trapping : Kernel → Kernel
    trapping k = setreg reg_tsp at.trapstack_end (setreg reg_tpc at.trap_entry k)

    -- Set up: the arrays, a heap with every chunk free, a table that mirrored the kernel's when it
    -- was read, and the message that reports the start.
    pub record IsSetUp (k : Kernel) (s : App s3k) : Type 0 where
      pub ready : IsReady s3k s
      pub free : IsHeap at.heap (whole_chunks at.heap at.stack) (λ _. false) s.heap
      pub whole : IsCoherent s3k (record (s.caps) { kernel = k })
      pub says : Says s3k (2 ^ 64 - 1) s

    heap_made :
        (s : App s3k)
        → length s.heap.chunks ≡ max_chunks
        → (m : s3k_monitor.Altmem.Mem) × (s3k_monitor.Altmem.init at.heap at.stack s.heap
            ≡ done (pos 0, m))
          × IsHeap at.heap (whole_chunks at.heap at.stack) (λ _. false) m
    heap_made s size =
        elim (init_lem at.heap at.stack s.heap heap.above_null heap.order heap.page heap.in_space
          size) [
            | inl (_, m, made, valid) ↦ (m, made, valid)
            | inr (large, _) ↦ (absurd (omega (arith, large, heap.room)))
          ]

    -- The start behind `capman_init`.
    abbrev behind : Run (App s3k) (Unit {0})
    behind =
        get_pmps s3k
        >> (get_socs s3k
            >> (lift_heap (s3k_monitor.Altmem.init at.heap at.stack)
                >> (announce s3k >> call yield_time)))

    after_init :
        (s : App s3k)
        → HasArrays s
        → IsCoherent s3k s.caps
        → FewChannels s3k s.caps.kernel
        → Returns (behind s) (λ _ s'. IsSetUp s.caps.kernel s')
    after_init s h whole few =
        let (bytes, pmps) = get_pmps_lem s h in
        let s1 : App s3k = record s { pmpcaps = set s.pmpcaps 0 bytes } in
        let (socs, found, eight) = get_socs_lem s1 whole few h.ready.sockets in
        let (m, made, valid) = heap_made s h.chunks in
        let s3 : App s3k = record s1 { soccaps = socs; heap = m } in
        let (socket, announced) = announce_lem s3 eight h.ready.words in
        let words = length-set s.buf 0 (2 ^ 64 - 1) ∙ h.ready.words in
        rw (pmps, ◌>>=◌)
          (rw (found, ◌>>=◌)
            (rw (made, ◌>>=◌)
              (rw (announced, ◌>>=◌)
                (record {
                  ready = record { table = h.ready.table; sockets = eight; words = words };
                  free = valid;
                  whole = record { size = whole.size; mirror = whole.mirror };
                  says = get_elem?-set_self s.buf 0 (2 ^ 64 - 1) (omega (arith, h.ready.words));
                }))))

    -- The start of the app returns where its arrays have the lengths that the code declares, the
    -- linker's heap begins above 0 and not behind the stack, with at most 16 whole chunks, the
    -- stack is at a page or more and below 2^64, and the kernel's sockets have channels below 8.
    -- It leaves what the trap handler builds on: a heap that is laid out with every chunk free, a
    -- table that mirrors the kernel's as it was before the message, and the word 2^64 - 1 in the
    -- buffer, which is the message that the monitor waits for.
    pub setup-IsSetUp :
        (s : App s3k)
        → HasArrays s
        → FewChannels s3k (trapping s.caps.kernel)
        → Returns (setup s3k at s) (λ _ s'. IsSetUp (trapping s.caps.kernel) s')
    unfolding setup init
    setup-IsSetUp s h few =
        let k = trapping s.caps.kernel in
        let trapped : App s3k = record s { caps = record (s.caps) { kernel = k } } in
        let Read : Caps s3k → Type 0 = λ c. IsCoherent s3k c × (c.kernel ≡ k) in
        Returns-bind (lift_caps (init s3k)) (λ _. behind) trapped
          (λ _ s'. HasArrays s' × IsCoherent s3k s'.caps × (s'.caps.kernel ≡ k)) _
          (zoom-Returns (init s3k trapped.caps) (λ c. record trapped { caps = c }) _ _
            (update-IsCoherent s3k trapped.caps h.ready.table)
            (λ _ c q. (
              record {
                ready = record {
                  table = q.0.size;
                  sockets = h.ready.sockets;
                  words = h.ready.words;
                };
                row = h.row;
                first = h.first;
                width = h.width;
                chunks = h.chunks;
              },
              q.0,
              q.1,
            )))
          (λ _ s' (arrays, whole, same).
            subst (λ k. Returns (behind s') (λ _ t. IsSetUp k t)) same
              (after_init s' arrays whole (subst (λ k. FewChannels s3k k) (sym same) few)))
