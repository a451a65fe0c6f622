-- ===== src/Monitor/Loop.antt =====
-- `loop`: one message from the app and its answer. `secure` says whether `SECURITY` of config.h is
-- defined.
pub mod Policy
pub mod Answers
pub mod Replies
pub mod Turns
pub mod Asked
use s3k_monitor.Prelude.{
  ℕ, zero, suc, ◌+◌, ◌-◌, ◌*◌, ◌^◌, Bool, true, false, ◌&&◌, not, if◌then◌else◌, ◌==◌, List, [],
  ◌∷◌, none, some, get_elem?, set, length, ltb, u8, add64, to_int, Outcome, done, fault, spin, Run,
  pure, gets, modify, ◌>>=◌, ◌>>◌, bit_and,
}
use s3k_monitor.S3k.{S3k}
use s3k_monitor.Capman.{Caps}
use s3k_monitor.Capman.Table.{update, get}
use s3k_monitor.Capman.Replace.{update_pmp}
use s3k_monitor.Codeauth.{Aes128, Bytes, calc_sig, comp_sig}
use s3k_monitor.Monitor.{Monitor, lift, call, element, set_buf}

-- `rwx & 0x02` and `rwx & 0x04`, as tests.
abbrev pub writable : ℕ → Bool
writable rwx = not (bit_and rwx 0x02 == 0)

abbrev pub executable : ℕ → Bool
executable rwx = not (bit_and rwx 0x04 == 0)

-- `n` bytes behind a pointer as a number, the lowest byte first.
unfoldable pub load_word : ℕ → Bytes → ℕ
load_word zero p = 0
load_word (suc n) p = p 0 + 256 * load_word n (λ j. p (j + 1))

module _ (s3k : S3k) (aes : Aes128) (secure : Bool) where
  open s3k use {
    Kernel, Cap, captype, capty_pmp, pmp_addr, napot_begin, napot_end, yield_time, send, recv,
    load_byte,
  }

  abbrev M : Type 0 → Type 0
  M A = Run (Monitor s3k) A

  -- The memory behind an address.
  abbrev pub memory : Kernel → ℕ → Bytes
  memory k address j = load_byte (add64 address j) k

  -- `while (!(app_running)) s3k_yield();`
  unfoldable pub wait : ℕ → M (Unit {0})
  wait zero s = spin
  wait (suc fuel) s =
      let again = wait fuel in
      if s.app_running then done (tt, s) else ((call yield_time >> again) s)

  -- `s3k_recv(soccaps[0], recv_buf, 0x30, &tag)`
  unfoldable pub receive : M (Unit {0})
  receive = do
    socket ← element (λ s. s.soccaps) 0
    modify (λ s.
        let m = recv socket s.recv_buf 0x30 s.tag s.caps.kernel in
        record s { recv_buf = m.words; tag = m.tag; caps = record (s.caps) { kernel = m.kernel } })

  -- `recv_buf[0] = status; s3k_send(soccaps[1], recv_buf, 0x30, false);`
  unfoldable pub answer : ℕ → M (Unit {0})
  answer status = do
    set_buf 0 status
    socket ← element (λ s. s.soccaps) 1
    words ← gets (λ s. s.recv_buf)
    call (send socket words 0x30 false)

  -- The check of the signature at the address of the message: the signature, the size of the code
  -- and the code stand at the offsets 0, 0x10 and 0x20.
  unfoldable pub is_signed : Kernel → ℕ → Bool
  is_signed k ptr_sig =
      let code_size = load_word 8 (memory k (add64 ptr_sig 0x10)) in
      let signature = calc_sig aes (memory k (add64 ptr_sig 0x20)) (to_int code_size) in
      comp_sig (memory k ptr_sig) signature == 1

  -- The last part of the request: the replacement and its answer.
  unfoldable pub apply_update : Cap → ℕ → M (Unit {0})
  apply_update pmp rwx = do
    err ← lift (update_pmp s3k 0x30 (napot_begin (pmp_addr pmp)) (napot_end (pmp_addr pmp)) rwx)
    if not (err == 0) then answer err else (do answer 0x00; lift (update s3k))

  -- The checks of the permissions that the request asks for.
  unfoldable pub check_update : Cap → M (Unit {0})
  check_update pmp = do
    rwx ← element (λ s. s.recv_buf) 3
    ptr_sig ← element (λ s. s.recv_buf) 1
    k ← gets (λ s. s.caps.kernel)
    if secure && (writable rwx && executable rwx)
        then (do answer 0x03; lift (update s3k))
        else (if secure && (executable rwx && not (is_signed k ptr_sig))
            then (do answer 0x01; lift (update s3k))
            else apply_update pmp rwx)

  -- `case 0x02`
  unfoldable pub handle_update : M (Unit {0})
  handle_update = do
    lift (update s3k)
    pmp ← lift (get s3k 0x30)
    if not (captype pmp == capty_pmp) then (do answer 0x02; lift (update s3k)) else check_update pmp

  -- `switch (recv_buf[0])`; the cases 0 and 1 and the default only print.
  unfoldable pub dispatch : ℕ → M (Unit {0})
  dispatch word =
      if word == 2 ^ 64 - 1
      then modify (λ s. record s { app_running = false })
      else (if word == 0x02 then handle_update else pure tt)

  unfoldable pub loop : ℕ → M (Unit {0})
  loop fuel = do
    modify (λ s. record s { iloop = u8 (s.iloop + 1) })
    wait fuel
    receive
    word ← element (λ s. s.recv_buf) 0
    dispatch word
