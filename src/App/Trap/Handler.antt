-- ===== src/App/Trap/Handler.antt =====
-- The whole trap handler, on every cause.
use s3k_monitor.Prelude.{
  ℕ, ℤ, ◌+◌, ◌*◌, ◌≤◌, ◌<◌, ◌≡◌, ◌≢◌, ◌⊎◌, inl, inr, Bool, true, false, done, Returns,
}
use s3k_monitor.S3k.{S3k}
use s3k_monitor.S3k.Laws.{Laws}
use s3k_monitor.Altmem.{chunk_size}
use s3k_monitor.Altmem.Lookup.{InChunk, Outside}
use s3k_monitor.App.{Symbols, App}
use s3k_monitor.App.Trap.{request}
use s3k_monitor.App.Trap.Expansion.{grown}
use s3k_monitor.App.Trap.Returns.{IsReady, Reports, Refused, Decides, redirected}

module _ (s3k : S3k) (at : Symbols) where
  open s3k use {rw_perm}

  -- A request was made in the state `a`, and its answer decided.
  abbrev pub Asked : ℕ → ℕ → ℕ → App s3k → Bool → App s3k → Type 0
  Asked idx sig_addr rwx a b x =
      (err : ℤ) × (m : App s3k) × (request s3k at idx sig_addr rwx a ≡ done (err, m))
      × Decides s3k at err m b x

  module _ (heap n : ℕ) (used : ℕ → Bool) where
    -- Why a fetch from an address is not allowed.
    abbrev pub NotFetched : ℕ → Type 0
    NotFetched epc =
        (epc < at.start)
        ⊎ (at.stack ≤ epc)
        ⊎ Outside heap n epc
        ⊎ ((k : ℕ) × (k < n) × InChunk heap k epc × (used k ≡ false))

    -- Why a store is not allowed: at an address, or for the growth of the stack to `esp`.
    abbrev pub NotStored : ℕ → ℕ → Type 0
    NotStored eval esp =
        ((at.stack < esp) × Outside heap n eval)
        ⊎ ((esp ≤ at.stack)
            × (Outside heap n esp ⊎ ((k : ℕ) × (k < n) × InChunk heap k esp × (used k ≡ true))))

    -- What `handle` has done when it ends with the answer `b` in the state `x`.
    pub data Handled (cause epc eval esp : ℕ) (s : App s3k) (b : Bool) (x : App s3k) : Type 0 where
      fetch_refused :
          cause ≡ 1
          → NotFetched epc
          → Refused s3k at s.caps.kernel b x
          → Handled cause epc eval esp s b x
      fetch_asked :
          (k j : ℕ)
          → cause ≡ 1
          → k < n
          → InChunk heap k epc
          → used k ≡ true
          → Asked j (heap + k * chunk_size) 5 s b x
          → Handled cause epc eval esp s b x
      load : cause ≡ 5 → Refused s3k at s.caps.kernel b x → Handled cause epc eval esp s b x
      store_refused :
          cause ≡ 7
          → NotStored eval esp
          → Refused s3k at s.caps.kernel b x
          → Handled cause epc eval esp s b x
      store_asked :
          (k j : ℕ)
          → cause ≡ 7
          → at.stack < esp
          → k < n
          → InChunk heap k eval
          → Asked j 0 rw_perm s b x
          → Handled cause epc eval esp s b x
      growth_asked :
          (k j : ℕ)
          → cause ≡ 7
          → esp ≤ at.stack
          → k < n
          → InChunk heap k esp
          → used k ≡ false
          → Asked j 0 rw_perm (grown heap k s) b x
          → Handled cause epc eval esp s b x
      -- The hard reset, after which the handler goes on.
      other :
          cause ≢ 1
          → cause ≢ 5
          → cause ≢ 7
          → b ≡ true
          → IsReady s3k x
          → Reports s3k 1 (redirected s3k at at.setup_entry s.caps.kernel) x
          → Handled cause epc eval esp s b x

    Asked-IsReady :
        (idx sig_addr rwx : ℕ) (a : App s3k) (b : Bool) (x : App s3k)
        → Asked idx sig_addr rwx a b x
        → IsReady s3k x
    Asked-IsReady idx sig_addr rwx a b x (err, m, ran, inl (_, _, ready, _)) = ready
    Asked-IsReady idx sig_addr rwx a b x (err, m, ran, inr (_, q)) = q.1

    pub Handled-IsReady :
        (cause epc eval esp : ℕ) (s : App s3k) (b : Bool) (x : App s3k)
        → Handled cause epc eval esp s b x
        → IsReady s3k x
    Handled-IsReady cause epc eval esp s b x (fetch_refused _ _ q) = q.1
    Handled-IsReady cause epc eval esp s b x (fetch_asked k j _ _ _ _ q) =
        Asked-IsReady j _ 5 s b x q
    Handled-IsReady cause epc eval esp s b x (load _ q) = q.1
    Handled-IsReady cause epc eval esp s b x (store_refused _ _ q) = q.1
    Handled-IsReady cause epc eval esp s b x (store_asked k j _ _ _ _ q) =
        Asked-IsReady j 0 rw_perm s b x q
    Handled-IsReady cause epc eval esp s b x (growth_asked k j _ _ _ _ _ q) =
        Asked-IsReady j 0 rw_perm (grown heap k s) b x q
    Handled-IsReady cause epc eval esp s b x (other _ _ _ _ ready _) = ready

    -- How the handler ends when `handle` has ended in the state `x`.
    abbrev pub Ends : Bool → App s3k → App s3k → Type 0
    Ends b x s' =
        ((b ≡ true) × IsReady s3k s' × Reports s3k 0 x.caps.kernel s') ⊎ ((b ≡ false) × (s' ≡ x))
