-- ===== src/Capman/Table.antt =====
-- The cached table itself: reading it from the kernel, moving and deleting capabilities, and the
-- searches by type.
use s3k_monitor.Prelude.{
  ℕ, zero, suc, ◌+◌, Bool, true, false, ◌||◌, not, if◌then◌else◌, ◌==◌, ltb, leb, ◌&&◌, ℤ, pos,
  minus_one, Run, pure, ◌>>=◌, ◌>>◌, modify, gets,
}
use s3k_monitor.S3k.{S3k, ncap}
use s3k_monitor.Capman.{Caps, load, store, syscall}

module _ (s3k : S3k) where
  open s3k use {
    Cap, raw, with_raw, captype, monitor_free, monitor_end, excpt_none, capty_none, capty_monitor,
    getcap, movcap, delcap,
  }

  -- The loop of `capman_update` at index `i`, with `NCAP - i` rounds left.
  unfoldable pub update_loop : ℕ → ℕ → Run (Caps s3k) (Unit {0})
  update_loop zero i = pure tt
  update_loop (suc left) i = do
    c ← gets (λ s. getcap i s.kernel)
    store s3k i c
    modify (λ s. record s { ncaps = if captype c == capty_none then s.ncaps else s.ncaps + 1 })
    update_loop left (i + 1)

  unfoldable pub update : Run (Caps s3k) (Unit {0})
  update = do modify (λ s. record s { ncaps = 0 }); update_loop ncap 0

  -- `capman_init`
  unfoldable pub init : Run (Caps s3k) (Unit {0})
  init = update

  unfoldable pub get : ℕ → Run (Caps s3k) Cap
  get idx = load s3k idx

  -- What a move that the kernel made does to the table.
  unfoldable pub note_move : ℕ → ℕ → Run (Caps s3k) Bool
  note_move src dst = do
    a ← load s3k src
    store s3k dst (with_raw (raw a))
    store s3k src (with_raw 0)
    pure true

  unfoldable pub move : ℕ → ℕ → Run (Caps s3k) Bool
  move src dst = do
    a ← load s3k src
    b ← load s3k dst
    if raw a == 0 || not (raw b == 0) then pure false else (do
      r ← syscall s3k (movcap src dst)
      if r == excpt_none then note_move src dst else pure false)

  unfoldable pub delete : ℕ → Run (Caps s3k) Bool
  delete idx = do
    c ← load s3k idx
    if not (raw c == 0)
        then (do syscall s3k (delcap idx); store s3k idx (with_raw 0); pure true)
        else pure false

  -- `for (int i = NCAP - 1; i >= 0; --i) if (test) return i; return -1;`, below index `i`.
  unfoldable pub find_down : (Cap → Bool) → ℕ → Run (Caps s3k) ℤ
  find_down test zero = pure minus_one
  find_down test (suc i) = do
    c ← load s3k i
    let rest = find_down test i
    if test c then pure (pos i) else rest

  -- `for (int i = 0; i < NCAP; i++) if (test) return i; return -1;`, with `left` rounds left.
  unfoldable pub find_up : (Cap → Bool) → ℕ → ℕ → Run (Caps s3k) ℤ
  find_up test zero i = pure minus_one
  find_up test (suc left) i = do
    c ← load s3k i
    let rest = find_up test left (i + 1)
    if test c then pure (pos i) else rest

  -- `caps[i].type == S3K_CAPTY_NONE`
  abbrev pub is_none : Cap → Bool
  is_none c = captype c == capty_none

  unfoldable pub find_free : Run (Caps s3k) ℤ
  find_free = find_down is_none ncap

  -- A monitor capability for the process `pid`.
  abbrev pub monitors : ℕ → Cap → Bool
  monitors pid c =
      captype c == capty_monitor && (leb (monitor_free c) pid && ltb pid (monitor_end c))

  unfoldable pub find_monitor : ℕ → Run (Caps s3k) ℤ
  find_monitor pid = find_up (monitors pid) ncap 0
