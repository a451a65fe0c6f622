-- ===== src/Capman/Dump.antt =====
-- The functions of common/capman.c that print the table: `capman_dump`, `capman_dump_all` and the
-- `_dump_` functions.
pub mod Listing
use s3k_monitor.Prelude.{
  ℕ, zero, suc, ◌+◌, ◌*◌, ◌%◌, ◌^◌, if◌then◌else◌, ◌==◌, List, [], ◌∷◌, bit_and, add64, Run, pure,
  ◌>>=◌, ◌>>◌, index,
}
use s3k_monitor.S3k.{S3k, ncap}
use s3k_monitor.Print.{Uart, word, codes, printf}

module _ (s3k : S3k) where
  open s3k use {
    Cap, raw, captype, capty_none, capty_time, capty_memory, capty_pmp, capty_monitor,
    capty_channel, capty_socket, time_hartid, time_begin, time_end, time_free, memory_offset,
    memory_begin, memory_end, memory_free, memory_lock, memory_rwx, pmp_addr, pmp_cfg, napot_begin,
    napot_end, monitor_begin, monitor_end, monitor_free, channel_begin, channel_end, channel_free,
    socket_channel, socket_tag,
  }

  abbrev pub dump_time : Cap → Run Uart ℕ
  dump_time c =
      printf (codes "time{hartid=0x%X,begin=0x%X,end=0x%X,free=0x%X}\n")
        (word (time_hartid c) ∷ word (time_begin c) ∷ word (time_end c) ∷ word (time_free c) ∷ [])

  -- `((uint64_t)offset << 27) + ((uint64_t)page << 12)`
  abbrev pub page_address : ℕ → ℕ → ℕ
  page_address offset page = add64 (offset * 2 ^ 27 % 2 ^ 64) (page * 2 ^ 12 % 2 ^ 64)

  abbrev pub dump_memory : Cap → Run Uart ℕ
  dump_memory c =
      let begin = page_address (memory_offset c) (memory_begin c) in
      let end = page_address (memory_offset c) (memory_end c) in
      let free = page_address (memory_offset c) (memory_free c) in
      printf (codes "memory{begin=0x%X,end=0x%X,free=0x%x,lock=0x%X,rwx=0x%X}\n")
        (word begin ∷ word end ∷ word free ∷ word (memory_lock c) ∷ word (memory_rwx c) ∷ [])

  abbrev pub dump_pmp : Cap → Run Uart ℕ
  dump_pmp c =
      let begin = napot_begin (pmp_addr c) in
      let end = napot_end (pmp_addr c) in
      let rwx = bit_and (pmp_cfg c) 7 in
      printf (codes "pmp{begin=0x%X,end=0x%X,rwx=0x%X}\n") (word begin ∷ word end ∷ word rwx ∷ [])

  abbrev pub dump_monitor : Cap → Run Uart ℕ
  dump_monitor c =
      printf (codes "monitor{begin=0x%X,end=0x%X,free=0x%X}\n")
        (word (monitor_begin c) ∷ word (monitor_end c) ∷ word (monitor_free c) ∷ [])

  abbrev pub dump_channel : Cap → Run Uart ℕ
  dump_channel c =
      printf (codes "channel{begin=0x%X,end=0x%X,free=0x%X}\n")
        (word (channel_begin c) ∷ word (channel_end c) ∷ word (channel_free c) ∷ [])

  abbrev pub dump_socket : Cap → Run Uart ℕ
  dump_socket c =
      printf (codes "socket{port=0x%X,tag=0x%X}\n")
        (word (socket_channel c) ∷ word (socket_tag c) ∷ [])

  unfoldable pub dump : Cap → Run Uart (Unit {0})
  dump c =
      let by_type =
        if captype c == capty_time
        then dump_time c
        else if captype c == capty_memory
        then dump_memory c
        else if captype c == capty_pmp
        then dump_pmp c
        else if captype c == capty_monitor
        then dump_monitor c
        else if captype c == capty_channel
        then dump_channel c
        else if captype c == capty_socket
        then dump_socket c
        else printf (codes "0x%X\n") (word (raw c) ∷ []) in
      if captype c == capty_none then pure tt else (do by_type; pure tt)

  -- The loop of `capman_dump_all` over the array `caps` at index `i`, with `left` rounds left.
  unfoldable pub dump_loop : List Cap → ℕ → ℕ → Run Uart (Unit {0})
  dump_loop caps zero i = pure tt
  dump_loop caps (suc left) i = do
    c ← index caps i
    if raw c == 0 then pure tt else (do printf (codes "0x%x: ") (word i ∷ []); dump c)
    dump_loop caps left (i + 1)

  unfoldable pub dump_all : List Cap → Run Uart (Unit {0})
  dump_all caps = dump_loop caps ncap 0
