-- ===== src/Monitor.antt =====
-- monitor/monitor.c: the constants (with those of inc/base.h), the variables, and what the parts
-- below share. The messages that it prints are left out.
pub mod Parse
pub mod Setup
pub mod Loop
pub mod Lifetime
pub mod Guarded
pub mod Tests
use s3k_monitor.Prelude.{
  ℕ, Bool, List, none, some, ltb, if◌then◌else◌, length, get_elem?, set, Outcome, done, fault, spin,
  Run,
}
use s3k_monitor.S3k.{S3k}
use s3k_monitor.Capman.{Caps}

abbrev pub app_base : ℕ
app_base = 0x80020000

abbrev pub app_size : ℕ
app_size = 0x10000

abbrev pub chunk_size : ℕ
chunk_size = 0x1000

abbrev pub uart_base : ℕ
uart_base = 0x10000000

abbrev pub app_pid : ℕ
app_pid = 1

abbrev pub signature_size : ℕ
signature_size = 16

abbrev pub header_size : ℕ
header_size = 512

abbrev pub socket_port1 : ℕ
socket_port1 = 0xa

abbrev pub socket_port2 : ℕ
socket_port2 = 0xb

-- The table of capabilities and the variables of monitor.c; `iloop` is the static one of `loop`.
pub record Monitor (s3k : S3k) : Type 0 where
  pub caps : Caps s3k
  pub app_running : Bool
  pub pmpcaps : List ℕ
  pub soccaps : List ℕ
  pub recv_buf : List ℕ
  pub tag : ℕ
  pub iloop : ℕ

module _ {s3k : S3k} where
  -- A call of capman.
  abbrev pub lift : {A : Type 0} → Run (Caps s3k) A → Run (Monitor s3k) A
  lift m s = elim (m s.caps) [
    | done (a, c) ↦ done (a, record s { caps = c })
    | fault ↦ fault
    | spin ↦ spin
  ]

  -- A call of the kernel without a status.
  abbrev pub call : (s3k.Kernel → s3k.Kernel) → Run (Monitor s3k) (Unit {0})
  call f s = done (tt, record s { caps = record (s.caps) { kernel = f s.caps.kernel } })

  -- An element of one of the arrays.
  abbrev pub element : (Monitor s3k → List ℕ) → ℕ → Run (Monitor s3k) ℕ
  element f i s = elim (get_elem? (f s) i) [ none ↦ fault | some a ↦ done (a, s) ]

  -- `recv_buf[i] = v`
  abbrev pub set_buf : ℕ → ℕ → Run (Monitor s3k) (Unit {0})
  set_buf i v s =
      if ltb i (length s.recv_buf)
      then done (tt, record s { recv_buf = set s.recv_buf i v })
      else fault
