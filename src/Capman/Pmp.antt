-- ===== src/Capman/Pmp.antt =====
-- The PMP register as eight bytes, the sockets by channel, and the search for a PMP capability.
pub mod Bytes
pub mod Sizes
use s3k_monitor.Prelude.{
  ℕ, zero, suc, ◌+◌, ◌*◌, ◌/◌, ◌^◌, Bool, ◌||◌, ◌&&◌, not, if◌then◌else◌, ◌==◌, ltb, List, ℤ, u8,
  u64, Outcome, done, fault, spin, Run, pure, ◌>>=◌, length, set, bit_or, get_elem?, none, some,
}
use s3k_monitor.S3k.{S3k, ncap}
use s3k_monitor.Capman.{Caps, load}
use s3k_monitor.Capman.Table.{find_up}

-- The loop of `capman_setpmp` at byte `i`: `pmpreg |= ((uint64_t)pmp[i]) << (i * 8)`.
unfoldable pub pack_loop : ℕ → ℕ → ℕ → List ℕ → Outcome ℕ
pack_loop zero i pmpreg pmp = done pmpreg
pack_loop (suc left) i pmpreg pmp = elim (get_elem? pmp i) [
  | none ↦ fault
  | some b ↦ pack_loop left (i + 1) (bit_or pmpreg (u64 (b * 2 ^ (i * 8)))) pmp
]

-- The loop of `capman_getpmp` at byte `i`: `pmp[i] = (pmpreg >> (i * 8))`.
unfoldable pub unpack_loop : ℕ → ℕ → ℕ → List ℕ → Outcome (List ℕ)
unpack_loop zero i pmpreg pmp = done pmp
unpack_loop (suc left) i pmpreg pmp =
    let rest = unpack_loop left (i + 1) pmpreg (set pmp i (u8 (pmpreg / 2 ^ (i * 8)))) in
    if ltb i (length pmp) then rest else fault

module _ (s3k : S3k) where
  open s3k use {
    Cap, raw, captype, capty_pmp, capty_socket, pmp_addr, socket_channel, napot_begin, napot_end,
    getreg, setreg, reg_pmp,
  }

  unfoldable pub setpmp : List ℕ → Run (Caps s3k) (Unit {0})
  setpmp pmp s = elim (pack_loop 8 0 0 pmp) [
    | done pmpreg ↦ done (tt, record s { kernel = setreg reg_pmp pmpreg s.kernel })
    | fault ↦ fault
    | spin ↦ spin
  ]

  -- The array that the caller passes comes back.
  unfoldable pub getpmp : List ℕ → Run (Caps s3k) (List ℕ)
  getpmp pmp s = elim (unpack_loop 8 0 (getreg reg_pmp s.kernel) pmp) [
    | done bytes ↦ done (bytes, s)
    | fault ↦ fault
    | spin ↦ spin
  ]

  -- `soc[caps[i].socket.channel] = i`
  unfoldable pub note_socket : Cap → ℕ → List ℕ → Run (Caps s3k) (List ℕ)
  note_socket c i soc =
      if raw c == 0 || not (captype c == capty_socket)
      then pure soc
      else if ltb (socket_channel c) (length soc)
      then pure (set soc (socket_channel c) (u8 i))
      else (λ s. fault)

  unfoldable pub getsoc_loop : ℕ → ℕ → List ℕ → Run (Caps s3k) (List ℕ)
  getsoc_loop zero i soc = pure soc
  getsoc_loop (suc left) i soc = do
    c ← load s3k i
    soc' ← note_socket c i soc
    getsoc_loop left (i + 1) soc'

  unfoldable pub getsoc : List ℕ → Run (Caps s3k) (List ℕ)
  getsoc soc = getsoc_loop ncap 0 soc

  -- The entry is not passed over: `!(tbegin != begin && tend != end)`.
  abbrev pub matches_pmp : ℕ → ℕ → Cap → Bool
  matches_pmp begin end c =
      captype c == capty_pmp
      && not (not (napot_begin (pmp_addr c) == begin) && not (napot_end (pmp_addr c) == end))

  unfoldable pub find_existing_pmp : ℕ → ℕ → Run (Caps s3k) ℤ
  find_existing_pmp begin end = find_up s3k (matches_pmp begin end) ncap 0
