-- ===== src/App.antt =====
-- The app: its variables (app/app.c, with those of the allocator and of the capability table), and
-- what its parts share. `alt_printf` only prints and is left out.
pub mod Trap
pub mod Main
pub mod Test
mod Tests
use s3k_monitor.Prelude.{
  ℕ, List, none, some, ltb, if◌then◌else◌, length, get_elem?, set, done, fault, spin, Run,
}
use s3k_monitor.S3k.{S3k}
use s3k_monitor.Capman.{Caps}
use s3k_monitor.Altmem.{Mem}

-- The addresses that the linker gives; the last three are those of `trap_handler`, of the end of
-- `trapstack`, and of the heap.
pub record Symbols : Type 0 where
  pub start : ℕ
  pub stack : ℕ
  pub stack_top : ℕ
  pub loop_entry : ℕ
  pub setup_entry : ℕ
  pub trap_entry : ℕ
  pub trapstack_end : ℕ
  pub heap : ℕ

-- `counter` is the static variable `i` of `loop`.
pub record App (s3k : S3k) : Type 0 where
  pub caps : Caps s3k
  pub heap : Mem
  pub soccaps : List ℕ
  pub buf : List ℕ
  pub tag : ℕ
  pub pmpcaps : List (List ℕ)
  pub ptr : ℕ
  pub counter : ℕ

module _ {s3k : S3k} where
  -- A call of capman, and one of altmem.
  abbrev pub lift_caps : {A : Type 0} → Run (Caps s3k) A → Run (App s3k) A
  lift_caps m s = elim (m s.caps) [
    | done (a, c) ↦ done (a, record s { caps = c })
    | fault ↦ fault
    | spin ↦ spin
  ]

  abbrev pub lift_heap : {A : Type 0} → Run Mem A → Run (App s3k) A
  lift_heap m s = elim (m s.heap) [
    | done (a, h) ↦ done (a, record s { heap = h })
    | fault ↦ fault
    | spin ↦ spin
  ]

  -- A call of the kernel without a status.
  abbrev pub call : (s3k.Kernel → s3k.Kernel) → Run (App s3k) (Unit {0})
  call f s = done (tt, record s { caps = record (s.caps) { kernel = f s.caps.kernel } })

  abbrev pub element : (App s3k → List ℕ) → ℕ → Run (App s3k) ℕ
  element f i s = elim (get_elem? (f s) i) [ none ↦ fault | some a ↦ done (a, s) ]

  -- `buf[i] = v`
  abbrev pub set_buf : ℕ → ℕ → Run (App s3k) (Unit {0})
  set_buf i v s =
      if ltb i (length s.buf) then done (tt, record s { buf = set s.buf i v }) else fault
