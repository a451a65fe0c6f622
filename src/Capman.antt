-- ===== src/Capman.antt =====
-- common/capman.c: the copy of the process's capability table that the monitor and the app keep.
-- The state is the kernel beside the variables `ncaps` and `caps`.
pub mod Table
pub mod Derive
pub mod Process
pub mod Pmp
pub mod Replace
pub mod Dump
pub mod Coherent
pub mod Search
pub mod Frame
pub mod Tests
use s3k_monitor.Prelude.{
  ℕ, List, none, some, ltb, if◌then◌else◌, length, get_elem?, set, done, fault, Run,
}
use s3k_monitor.S3k.{S3k, ncap}

pub record Caps (s3k : S3k) : Type 0 where
  pub kernel : s3k.Kernel
  pub caps : List s3k.Cap
  pub ncaps : ℕ

module _ (s3k : S3k) where
  open s3k use {Kernel, Cap}

  -- `caps[i]` read and written.
  unfoldable pub load : ℕ → Run (Caps s3k) Cap
  load i s = elim (get_elem? s.caps i) [ none ↦ fault | some c ↦ done (c, s) ]

  unfoldable pub store : ℕ → Cap → Run (Caps s3k) (Unit {0})
  store i c s =
      if ltb i (length s.caps) then done (tt, record s { caps = set s.caps i c }) else fault

  -- A call of the kernel that returns a status.
  abbrev pub syscall : (Kernel → ℕ × Kernel) → Run (Caps s3k) ℕ
  syscall f s = let (r, k) = f s.kernel in done (r, record s { kernel = k })
