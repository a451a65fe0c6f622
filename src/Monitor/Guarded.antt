-- ===== src/Monitor/Guarded.antt =====
-- The policy over the monitor's whole life, from the start of `setup` on.
use s3k_monitor.Prelude.{
  ℕ, ◌≤◌, ◌≡◌, List, length, true, false, done, subst, Returns, Returns-Ensures, Returns-mono,
  Ensures,
}
use s3k_monitor.S3k.{S3k}
use s3k_monitor.S3k.Laws.{Laws, Quiet}
use s3k_monitor.Codeauth.{Aes128}
use s3k_monitor.Monitor.{Monitor, app_pid, header_size}
use s3k_monitor.Monitor.Parse.{Process, parse_executable}
use s3k_monitor.Monitor.Setup.{setup}
use s3k_monitor.Monitor.Setup.Sections.{AllDivisible}
use s3k_monitor.Monitor.Setup.Start.{setup-IsSized}
use s3k_monitor.Monitor.Setup.Grants.{Apart, AllApart, IsGuarded, guarded-IsKept}
use s3k_monitor.Monitor.Setup.Grants.Start.{setup-Keeps}
use s3k_monitor.Monitor.Loop.Answers.{IsSized}
use s3k_monitor.Monitor.Loop.Policy.{IsKept, loop_only_permitted}
use s3k_monitor.Monitor.Lifetime.{Runs, no_run, turn}

module _ (s3k : S3k) (aes : Aes128) (P : s3k.Kernel → Type 0) where
  Runs-Keeps :
      IsKept s3k aes P
      → (s s' : Monitor s3k) → Runs s3k aes s s'
      → P s.caps.kernel
      → P s'.caps.kernel
  Runs-Keeps kept s s' no_run p = p
  Runs-Keeps kept s s' (turn s₁ s₂ fuel before ended) p =
      subst (λ o. Ensures o (λ _ t. P t.caps.kernel)) ended
        (loop_only_permitted s3k aes P kept fuel s₁ (Runs-Keeps kept s s₁ before p))

  -- With `SECURITY`, the monitor never asks the kernel for a PMP capability that allows writing and
  -- executing together. For an image of 512 bytes or more that the parser reads,
  -- authentic or not, no section of which asks for writing and executing, and with no `.heap`
  -- section of exactly one chunk, or of 2^63 or more, `setup` returns; and then and after any
  -- number of runs of `loop`, whatever messages came in, every predicate of the kernel's state
  -- still holds that holds on through all the calls that the monitor makes, where those that
  -- derive PMP capabilities count only if they do not allow writing and executing together. The
  -- app does not count as running and the arrays have the lengths that the code declares at the
  -- start, the kernel has its laws, and its permission to read and write does not let execute.
  pub setup-Guarded :
      Laws s3k
      → Quiet s3k
      → IsGuarded s3k P
      → Apart s3k.rw_perm
      → (app_bin : List ℕ) (app : Process) (s : Monitor s3k)
      → parse_executable app_pid app_bin ≡ done app
      → header_size ≤ length app_bin
      → AllDivisible app.header
      → AllApart app.header
      → IsSized s3k s
      → length s.pmpcaps ≡ 8
      → s.app_running ≡ false
      → P s.caps.kernel
      → Returns
          (setup s3k aes true app_bin s)
          (λ _ s₁. (s₂ : Monitor s3k) → Runs s3k aes s₁ s₂ → P s₂.caps.kernel)
  setup-Guarded laws quiet kept apart app_bin app s parsed long fine split h eight stopped p =
      Returns-mono (setup s3k aes true app_bin s) _ _
        (Returns-Ensures (setup s3k aes true app_bin s) _ (λ _ s₁. P s₁.caps.kernel)
          (setup-IsSized s3k laws quiet aes true app_bin app s parsed long fine h eight)
          (setup-Keeps s3k aes P kept apart app_bin app s parsed split p stopped))
        (λ _ s₁ q s₂ runs. Runs-Keeps (guarded-IsKept s3k aes P kept apart) s₁ s₂ runs q.1)
