-- ===== src/Capman/Replace.antt =====
-- `capman_update_pmp`: a new PMP capability in the place of an old one.
use s3k_monitor.Prelude.{ℕ, not, if◌then◌else◌, ◌==◌, minus_one, to_u64, Run, pure, ◌>>=◌}
use s3k_monitor.S3k.{S3k}
use s3k_monitor.Capman.{Caps}
use s3k_monitor.Capman.Table.{find_free, delete, move}
use s3k_monitor.Capman.Derive.{derive_pmp}

module _ (s3k : S3k) where
  -- The status is 0, or 1 to 4 for the step that failed.
  unfoldable pub update_pmp : ℕ → ℕ → ℕ → ℕ → Run (Caps s3k) ℕ
  update_pmp idx begin end rwx = do
    free ← find_free s3k
    let tidx = to_u64 free
    if tidx == to_u64 minus_one then pure 1 else (do
      derived ← derive_pmp s3k tidx begin end rwx
      if not derived then pure 2 else (do
        deleted ← delete s3k idx
        if not deleted
            then pure 3
            else (do moved ← move s3k tidx idx; if not moved then pure 4 else pure 0)))
