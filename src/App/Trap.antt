-- ===== src/App/Trap.antt =====
-- app/trap.c: the handler of the app's exceptions.
pub mod Faults
pub mod Requests
pub mod Expansion
pub mod Returns
pub mod Exchange
pub mod Unsigned
pub mod Handler
use s3k_monitor.Prelude.{
  ℕ, zero, suc, ◌-◌, ◌^◌, Bool, true, false, ◌||◌, not, if◌then◌else◌, ◌==◌, ltb, leb, add64, ℤ,
  pos, negsuc, to_u64, to_int, minus_one, Run, pure, gets, modify, ◌>>=◌, ◌>>◌,
}
use s3k_monitor.S3k.{S3k}
use s3k_monitor.Capman.Table.{update}
use s3k_monitor.Capman.Pmp.{find_existing_pmp}
use s3k_monitor.Altmem.{findchunk, isoccupied, stackexpansion, get_start, get_size}
use s3k_monitor.App.{Symbols, App, lift_caps, lift_heap, call, element, set_buf}

-- `altmem_isoccupied(itemp) <= 0`
abbrev pub is_nonpositive : ℤ → Bool
is_nonpositive (negsuc n) = true
is_nonpositive (pos n) = n == 0

-- `altmem_isoccupied(itemp) == -1`
abbrev pub is_minus_one : ℤ → Bool
is_minus_one (negsuc n) = n == 0
is_minus_one (pos n) = false

module _ (s3k : S3k) (at : Symbols) where
  open s3k use {
    setreg, getreg, send, recv, yield_time, reg_epc, reg_esp, reg_ecause, reg_eval, rw_perm,
  }

  abbrev M : Type 0 → Type 0
  M A = Run (App s3k) A

  -- `buf[0] = word; s3k_send(soccaps[0], buf, -1ull, false); s3k_yield();`
  unfoldable pub report : ℕ → M (Unit {0})
  report word = do
    set_buf 0 word
    socket ← element (λ s. s.soccaps) 0
    words ← gets (λ s. s.buf)
    call (send socket words (2 ^ 64 - 1) false)
    call yield_time

  unfoldable pub th_softreset : M (Unit {0})
  th_softreset = do
    call (setreg reg_epc at.loop_entry)
    call (setreg reg_esp at.stack_top)
    report 0x01

  unfoldable pub th_hardreset : M (Unit {0})
  th_hardreset = do
    call (setreg reg_epc at.setup_entry)
    call (setreg reg_esp at.stack_top)
    report 0x01

  -- The request to the monitor that both `th_updatepmp` functions make, and its answer.
  unfoldable pub request : ℕ → ℕ → ℕ → M ℤ
  request idx sig_addr rwx = do
    set_buf 0 0x02
    set_buf 1 sig_addr
    set_buf 2 0x00
    set_buf 3 rwx
    to_monitor ← element (λ s. s.soccaps) 0
    words ← gets (λ s. s.buf)
    call (send to_monitor words idx false)
    from_monitor ← element (λ s. s.soccaps) 1
    modify (λ s.
        let m = recv from_monitor s.buf idx s.tag s.caps.kernel in
        record s { buf = m.words; tag = m.tag; caps = record (s.caps) { kernel = m.kernel } })
    lift_caps (update s3k)
    word ← element (λ s. s.buf) 0
    pure (to_int word)

  unfoldable pub th_updatepmp_rw : ℕ → ℕ → M ℤ
  th_updatepmp_rw idx rwx = request idx 0x00 rwx

  unfoldable pub th_updatepmp_rx : ℕ → ℕ → ℕ → M ℤ
  th_updatepmp_rx idx sig_addr rwx = request idx sig_addr rwx

  -- The start of the chunk, and the index of the PMP capability found for its range.
  unfoldable pub chunk_pmp : ℕ → M (ℕ × ℕ)
  chunk_pmp i = do
    v ← lift_heap (get_start (to_int i))
    n ← lift_heap (get_size (to_int i))
    j ← lift_caps (find_existing_pmp s3k v (add64 v n))
    pure (v, to_u64 j)

  unfoldable pub th_stackexpansion : ℕ → M ℤ
  th_stackexpansion esp = do
    free ← lift_heap (stackexpansion esp)
    if free
        then (do
          i ← lift_heap (findchunk esp)
          found ← chunk_pmp (to_u64 i)
          th_updatepmp_rw found.1 rw_perm)
        else pure (pos 1)

  -- A failure resets the app and leaves the handler: the answer says whether it goes on.
  unfoldable pub refuse : M Bool
  refuse = do th_softreset; pure false

  -- What comes after a request whose answer is `err`.
  unfoldable pub conclude : ℤ → M Bool
  conclude err = if not (to_u64 err == 0x00) then refuse else pure true

  -- The request for executing a chunk.
  unfoldable pub execute_chunk : ℕ → M Bool
  execute_chunk i = do found ← chunk_pmp i; err ← th_updatepmp_rx found.1 found.0 0x5; conclude err

  -- `case 1`
  unfoldable pub fetch_fault : ℕ → M Bool
  fetch_fault epc = if ltb epc at.start || leb at.stack epc then refuse else (do
    i ← lift_heap (findchunk epc)
    if to_u64 i == to_u64 minus_one then refuse else (do
      occupied ← lift_heap (isoccupied (to_int (to_u64 i)))
      if is_nonpositive occupied then refuse else execute_chunk (to_u64 i)))

  -- The request for writing a chunk.
  unfoldable pub write_chunk : ℕ → M Bool
  write_chunk i = do found ← chunk_pmp i; err ← th_updatepmp_rw found.1 rw_perm; conclude err

  -- `case 7`
  unfoldable pub store_fault : ℕ → ℕ → M Bool
  store_fault esp eval =
      if leb esp at.stack then (do err ← th_stackexpansion esp; conclude err) else (do
        i ← lift_heap (findchunk eval)
        if to_u64 i == to_u64 minus_one then refuse else (do
          occupied ← lift_heap (isoccupied (to_int (to_u64 i)))
          if is_minus_one occupied then refuse else write_chunk (to_u64 i)))

  -- `switch (ecause)`; the default goes on behind the switch.
  unfoldable pub handle : ℕ → ℕ → ℕ → ℕ → M Bool
  handle ecause epc eval esp =
      if ecause == 1
      then fetch_fault epc
      else (if ecause == 5
          then refuse
          else (if ecause == 7 then store_fault esp eval else (do th_hardreset; pure true)))

  unfoldable pub trap_handler : M (Unit {0})
  trap_handler = do
    epc ← gets (λ s. getreg reg_epc s.caps.kernel)
    ecause ← gets (λ s. getreg reg_ecause s.caps.kernel)
    eval ← gets (λ s. getreg reg_eval s.caps.kernel)
    esp ← gets (λ s. getreg reg_esp s.caps.kernel)
    handled ← handle ecause epc eval esp
    if handled then report 0x00 else pure tt
