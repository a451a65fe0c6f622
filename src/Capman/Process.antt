-- ===== src/Capman/Process.antt =====
-- The calls on a monitored process, each through the monitor capability that covers it.
use s3k_monitor.Prelude.{
  ℕ, Bool, true, false, if◌then◌else◌, ◌==◌, pos, negsuc, Run, pure, ◌>>=◌, ◌>>◌, modify, gets,
}
use s3k_monitor.S3k.{S3k}
use s3k_monitor.Capman.{Caps, store, syscall}
use s3k_monitor.Capman.Table.{find_monitor}

module _ (s3k : S3k) where
  open s3k use {
    with_raw, capty_none, getcap, mresume as s3k_mresume, msuspend as s3k_msuspend,
    mgivecap as s3k_mgivecap, mtakecap as s3k_mtakecap, msetreg as s3k_msetreg,
    mgetreg as s3k_mgetreg,
  }

  -- `int moncap = capman_find_monitor(pid); if (moncap < 0) return false;`, and then the rest.
  unfoldable pub with_monitor : ℕ → (ℕ → Run (Caps s3k) Bool) → Run (Caps s3k) Bool
  with_monitor pid rest = do
    moncap ← find_monitor s3k pid
    elim moncap [ pos i ↦ rest i | negsuc n ↦ pure false ]

  unfoldable pub mresume : ℕ → Run (Caps s3k) Bool
  mresume pid =
      with_monitor pid
        λ moncap. do modify (λ s. record s { kernel = s3k_mresume moncap pid s.kernel }); pure true

  unfoldable pub msuspend : ℕ → Run (Caps s3k) Bool
  msuspend pid =
      with_monitor pid
        λ moncap. do modify (λ s. record s { kernel = s3k_msuspend moncap pid s.kernel }); pure true

  -- The statuses are compared with `S3K_CAPTY_NONE`, as in the source.
  unfoldable pub mgivecap : ℕ → ℕ → ℕ → Run (Caps s3k) Bool
  mgivecap pid src dest = with_monitor pid λ moncap. do
    excpt ← syscall s3k (s3k_mgivecap moncap pid src dest)
    if excpt == capty_none then (do store s3k src (with_raw 0); pure true) else pure false

  unfoldable pub mtakecap : ℕ → ℕ → ℕ → Run (Caps s3k) Bool
  mtakecap pid src dest = with_monitor pid λ moncap. do
    excpt ← syscall s3k (s3k_mtakecap moncap pid src dest)
    if excpt == capty_none
        then (do c ← gets (λ s. getcap dest s.kernel); store s3k dest c; pure true)
        else pure false

  unfoldable pub msetreg : ℕ → ℕ → ℕ → Run (Caps s3k) Bool
  msetreg pid reg val =
      with_monitor pid λ moncap. do
        excpt ← syscall s3k (s3k_msetreg moncap pid reg val)
        pure (excpt == capty_none)

  -- The register's value comes back beside the result; it is `val` where no capability covers the
  -- process.
  unfoldable pub mgetreg : ℕ → ℕ → ℕ → Run (Caps s3k) (Bool × ℕ)
  mgetreg pid reg val = do
    moncap ← find_monitor s3k pid
    elim moncap [
      | pos i ↦
          gets (λ s. let (excpt, v) = s3k_mgetreg i pid reg s.kernel in (excpt == capty_none, v))
      | negsuc n ↦ pure (false, val)
    ]
