-- ===== src/Monitor/Setup.antt =====
-- `setup` and its parts: the app is parsed, verified, loaded, given its capabilities and started.
pub mod Heap
pub mod Refusal
pub mod Steady
pub mod Sections
pub mod Start
pub mod Grants
use s3k_monitor.Prelude.{
  ℕ, zero, suc, ◌+◌, ◌-◌, ◌*◌, ◌/◌, ◌^◌, Bool, true, false, ◌&&◌, not, if◌then◌else◌, ◌==◌, List,
  [], ◌∷◌, none, some, get_elem?, set, length, ltb, u8, u64, add64, sub64, ℤ, pos, Outcome, done,
  fault, spin, Run, pure, gets, modify, ◌>>=◌, ◌>>◌,
}
use s3k_monitor.S3k.{S3k}
use s3k_monitor.Capman.{Caps}
use s3k_monitor.Capman.Table.{init}
use s3k_monitor.Capman.Derive.{derive_pmp, derive_time, derive_socket}
use s3k_monitor.Capman.Process.{mresume, mgivecap, msetreg}
use s3k_monitor.Capman.Pmp.{setpmp, getsoc}
use s3k_monitor.Codeauth.{Aes128, Bytes, calc_sig, comp_sig}
use s3k_monitor.Monitor.{
  Monitor, lift, call, element, app_base, app_size, chunk_size, uart_base, app_pid, signature_size,
  header_size, socket_port1, socket_port2,
}
use s3k_monitor.Monitor.Parse.{Section, Process, parse_executable}

-- `strcmp(s, t) == 0`, over the bytes that are set. Against a literal it ends at the first
-- difference, so that it reads no byte behind them.
unfoldable pub strcmp : List ℕ → List ℕ → Bool
strcmp [] t = false
strcmp (a ∷ s) [] = false
strcmp (a ∷ s) (b ∷ t) =
    let rest = strcmp s t in if not (a == b) then false else (if a == 0 then true else rest)

-- `".heap"`
abbrev pub heap_name : List ℕ
heap_name = 46 ∷ 104 ∷ 101 ∷ 97 ∷ 112 ∷ 0 ∷ []

-- The loop of `setup_app` over `j`, from `n - 1` down to 0, that makes the byte mask.
unfoldable pub mask_loop : ℕ → ℕ → ℕ
mask_loop zero ipmp = ipmp
mask_loop (suc j) ipmp = mask_loop j (if j == 0 then add64 ipmp j else u64 (add64 ipmp j * 2 ^ 8))

-- A pointer into an image.
abbrev pub bytes_from : List ℕ → ℕ → Bytes
bytes_from image at j = elim (get_elem? image (at + j)) [ none ↦ 0 | some b ↦ b ]

abbrev pub drop : ℕ → List ℕ → List ℕ
drop zero xs = xs
drop (suc n) [] = []
drop (suc n) (x ∷ xs) = drop n xs

module _ (s3k : S3k) where
  open s3k use {delcap, recv, yield_time, memcpy, reg_pc, reg_pmp, rw_perm, rwx_perm}

  abbrev M : Type 0 → Type 0
  M A = Run (Monitor s3k) A

  unfoldable pub setup_time_slices : M (Unit {0})
  setup_time_slices = do lift (derive_time s3k 0x18 0 0 32); pure tt

  unfoldable pub setup_ipc : M (Unit {0})
  setup_ipc = do
    lift (derive_socket s3k socket_port1 0 0)
    lift (derive_socket s3k 0x20 0 1)
    lift (mgivecap s3k app_pid 0x20 socket_port2)
    lift (derive_socket s3k 0x20 1 0)
    lift (derive_socket s3k socket_port2 1 1)
    lift (mgivecap s3k app_pid 0x20 socket_port1)
    pure tt

  -- `pmpcaps[i] = v`
  unfoldable pub set_pmpcap : ℕ → ℕ → M (Unit {0})
  set_pmpcap i v s =
      if ltb i (length s.pmpcaps)
      then done (tt, record s { pmpcaps = set s.pmpcaps i v })
      else fault

  -- `capman_setpmp(pmpcaps)`
  unfoldable pub set_pmps : M (Unit {0})
  set_pmps = do pmps ← gets (λ s. s.pmpcaps); lift (setpmp s3k pmps)

  unfoldable pub setup_monitor : M (Unit {0})
  setup_monitor = do
    lift (derive_pmp s3k 0x09 uart_base (add64 uart_base 0x100) rw_perm)
    set_pmpcap 2 0x09
    lift (derive_pmp s3k 0xc app_base (add64 app_base app_size) rw_perm)
    set_pmpcap 1 0xc
    set_pmps
    set_pmps

  -- A PMP capability for the app, and the number of them so far, which is a `uint8_t`.
  unfoldable pub give_pmp : ℕ → ℕ → ℕ → ℕ → M ℕ
  give_pmp begin end rwx npmp = do
    lift (derive_pmp s3k 0x20 begin end rwx)
    lift (mgivecap s3k app_pid 0x20 npmp)
    pure (u8 (npmp + 1))

  -- The loop over the chunks of the heap, at `k`: it goes on by `nchunks - 1`.
  unfoldable pub heap_loop : ℕ → Section → ℕ → ℕ → ℕ → M ℕ
  heap_loop zero section nchunks k npmp = λ s. spin
  heap_loop (suc fuel) section nchunks k npmp =
      let rest = heap_loop fuel section nchunks (add64 k (sub64 nchunks 1)) in
      let begin = add64 (add64 app_base section.offset) (u64 (k * chunk_size)) in
      if ltb k nchunks
      then give_pmp begin (add64 begin chunk_size) section.rwx npmp >>= rest
      else pure npmp

  -- One section. Three rounds are enough for every heap of two chunks or more.
  unfoldable pub give_section : Section → ℕ → M ℕ
  give_section section npmp =
      let begin = add64 app_base section.offset in
      if strcmp section.section heap_name
      then heap_loop 3 section (section.size / chunk_size) 0 npmp
      else give_pmp begin (add64 begin section.size) section.rwx npmp

  -- The loop over the header.
  unfoldable pub give_sections : List Section → ℕ → M ℕ
  give_sections [] npmp = pure npmp
  give_sections (section ∷ rest) npmp = give_section section npmp >>= give_sections rest

  unfoldable pub setup_app : Bool → Process → M (Unit {0})
  setup_app secure app = do
    n ←
        if secure
        then give_sections app.header 0
        else give_pmp app_base (add64 app_base app_size) rwx_perm 0
    npmp ← give_pmp uart_base (add64 uart_base 0x100) rw_perm n
    lift (mgivecap s3k app_pid 0x18 0xf)
    lift (msetreg s3k app_pid reg_pc app_base)
    lift (msetreg s3k app_pid reg_pmp (mask_loop npmp 0))
    pure tt

  -- `memcpy` of what stands behind the header; a shorter image makes the length wrap around.
  unfoldable pub load_app : List ℕ → M (Unit {0})
  load_app app_bin s =
      if ltb (length app_bin) header_size
      then fault
      else (call (memcpy app_base (drop header_size app_bin)) s)

  -- `capman_getsoc(soccaps)`
  unfoldable pub get_socs : M (Unit {0})
  get_socs = do
    socs ← gets (λ s. s.soccaps)
    found ← lift (getsoc s3k socs)
    modify (λ s. record s { soccaps = found })

  -- The message by which the app reports its start.
  unfoldable pub await_app : M (Unit {0})
  await_app = do
    socket ← element (λ s. s.soccaps) 0
    modify (λ s.
        let m = recv socket s.recv_buf (2 ^ 64 - 1) s.tag s.caps.kernel in
        record s { recv_buf = m.words; tag = m.tag; caps = record (s.caps) { kernel = m.kernel } })
    word ← element (λ s. s.recv_buf) 0
    if not (word == 2 ^ 64 - 1) then pure tt else modify (λ s. record s { app_running = true })

  -- The part of `setup` behind the verification.
  unfoldable pub start_app : Bool → List ℕ → Process → M (Unit {0})
  start_app secure app_bin app = do
    load_app app_bin
    setup_app secure app
    setup_ipc
    get_socs
    call yield_time
    lift (mresume s3k app_pid)
    await_app

  -- The part before it.
  unfoldable pub prepare : M (Unit {0})
  prepare = do
    call (λ k. (delcap 4 k).1)
    call (λ k. (delcap 5 k).1)
    call (λ k. (delcap 6 k).1)
    lift (init s3k)
    setup_monitor
    setup_time_slices

  module _ (aes : Aes128) where
    -- The verification: the signature stands in the first 16 bytes of the image.
    unfoldable pub is_authentic : List ℕ → Bool
    is_authentic app_bin =
        let n = pos (length app_bin - signature_size) in
        let signature = calc_sig aes (bytes_from app_bin signature_size) n in
        comp_sig (bytes_from app_bin 0) signature == 1

    -- `app_bin_len` is the length of the image.
    unfoldable pub setup : Bool → List ℕ → M (Unit {0})
    setup secure app_bin = do
      prepare
      (λ s. elim (parse_executable app_pid app_bin) [
        | done app ↦
            if secure && not (is_authentic app_bin)
            then done (tt, s)
            else (start_app secure app_bin app s)
        | fault ↦ fault
        | spin ↦ spin
      ])
