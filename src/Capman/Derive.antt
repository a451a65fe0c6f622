-- ===== src/Capman/Derive.antt =====
-- `capman_derive_*`: deriving a capability from the one in the table that allows it.
use s3k_monitor.Prelude.{
  ℕ, ◌+◌, ◌/◌, ◌^◌, Bool, true, false, ◌||◌, not, if◌then◌else◌, ◌==◌, ltb, ℤ, minus_one, to_u64,
  Run, pure, ◌>>=◌, ◌>>◌, modify, gets, bit_and,
}
use s3k_monitor.S3k.{S3k, ncap}
use s3k_monitor.Capman.{Caps, store, syscall}
use s3k_monitor.Capman.Table.{find_down}

-- `(uint64_t)begin >> 12 & 0xFFFF`
abbrev pub page_field : ℕ → ℕ
page_field address = bit_and (address / 2 ^ 12) 0xFFFF

module _ (s3k : S3k) where
  open s3k use {
    Cap, excpt_none, getcap, drvcap, napot_begin, napot_end, napot_addr, make_pmp, make_memory,
    make_time, make_socket, memory_derive, time_derive, channel_derive, socket_derive,
  }

  unfoldable pub find_memory_derive : Cap → Run (Caps s3k) ℤ
  find_memory_derive cap = find_down s3k (λ c. memory_derive c cap) ncap

  unfoldable pub find_time_derive : Cap → Run (Caps s3k) ℤ
  find_time_derive cap = find_down s3k (λ c. time_derive c cap) ncap

  unfoldable pub find_channel_derive : Cap → Run (Caps s3k) ℤ
  find_channel_derive cap = find_down s3k (λ c. channel_derive c cap) ncap

  unfoldable pub find_socket_derive : Cap → Run (Caps s3k) ℤ
  find_socket_derive cap = find_down s3k (λ c. socket_derive c cap) ncap

  -- The two entries that a derivation changed are read again.
  unfoldable pub refresh : ℕ → ℕ → Run (Caps s3k) Bool
  refresh i idx = do
    parent ← gets (λ s. getcap i s.kernel)
    store s3k i parent
    copy ← gets (λ s. getcap idx s.kernel)
    store s3k idx copy
    modify (λ s. record s { ncaps = s.ncaps + 1 })
    pure true

  -- The end that the four functions share: the kernel's derivation from index `i`, and where it
  -- succeeds the two entries that it changed.
  unfoldable pub drvcap_from : ℕ → ℕ → Cap → Run (Caps s3k) Bool
  drvcap_from i idx child = do
    r ← syscall s3k (drvcap i idx child)
    if r == excpt_none then refresh i idx else pure false

  unfoldable pub derive_pmp : ℕ → ℕ → ℕ → ℕ → Run (Caps s3k) Bool
  derive_pmp idx begin end rwx =
      let addr = napot_addr begin end in
      let pmp = make_pmp addr rwx in
      if not (begin == napot_begin addr) || not (end == napot_end addr)
      then pure false
      else (do i ← find_memory_derive pmp; drvcap_from (to_u64 i) idx pmp)

  unfoldable pub derive_mem : ℕ → ℕ → ℕ → ℕ → Run (Caps s3k) Bool
  derive_mem idx begin end rwx =
      let mem = make_memory (page_field begin) (page_field end) (begin / 2 ^ 27) rwx in
      if ltb (page_field end) (page_field begin) || not (begin / 2 ^ 27 == end / 2 ^ 27)
      then pure false
      else (do i ← find_memory_derive mem; drvcap_from (to_u64 i) idx mem)

  unfoldable pub derive_time : ℕ → ℕ → ℕ → ℕ → Run (Caps s3k) Bool
  derive_time idx hartid begin end =
      let mem = make_time hartid begin end in
      if ltb end begin
      then pure false
      else (do i ← find_time_derive mem; drvcap_from (to_u64 i) idx mem)

  unfoldable pub derive_socket : ℕ → ℕ → ℕ → Run (Caps s3k) Bool
  derive_socket idx port tag = do
    let soc = make_socket port tag
    i ← find_channel_derive soc
    j ← if to_u64 i == to_u64 minus_one then find_socket_derive soc else pure i
    drvcap_from (to_u64 j) idx soc
