-- ===== src/Capman/Dump/Listing.antt =====
-- What `capman_dump_all` prints of a table: a line for each entry.
use Prim.Native.String.{String}
use s3k_monitor.Prelude.{
  ℕ, suc, ◌+◌, ◌%◌, ◌^◌, ◌<◌, ◌≡◌, refl, arith, if◌then◌else◌, ◌==◌, List, [], ◌∷◌, ◌++◌, length,
  get_elem?, bit_and, some, Run, pure, ◌>>◌, Bool, true, false, sym, ap, Bool-cases, inl, inr,
}
use mathlib.Core.List.{append_assoc}
use s3k_monitor.S3k.{S3k, ncap}
use s3k_monitor.Print.{Uart, Arg, word, codes, printf}
use s3k_monitor.Print.Prints.{Prints, Prints-bind, Prints-return, pure-Prints}
use s3k_monitor.Print.Hex.{hex_text}
use s3k_monitor.Print.Rendered.{rendered, printf-Prints}
use s3k_monitor.Capman.Dump.{page_address, dump, dump_loop, dump_all}

-- A named number of a line, and the numbers between the braces, with commas between them.
abbrev pub full : ℕ → List ℕ
full x = hex_text 16 (x % 2 ^ 64)

abbrev pub low : ℕ → List ℕ
low x = hex_text 8 (x % 2 ^ 32)

abbrev pub fields : List (String × List ℕ) → List ℕ
fields [] = codes "}\n"
fields ((name, number) ∷ []) = codes name ++ (codes "=0x" ++ (number ++ codes "}\n"))
fields ((name, number) ∷ more) =
    codes name ++ (codes "=0x" ++ (number ++ (codes "," ++ fields more)))

abbrev pub line : String → List (String × List ℕ) → List ℕ
line kind numbers = codes kind ++ (codes "{" ++ fields numbers)

module _ (s3k : S3k) where
  open s3k use {
    Cap, raw, captype, capty_none, capty_time, capty_memory, capty_pmp, capty_monitor,
    capty_channel, capty_socket, time_hartid, time_begin, time_end, time_free, memory_offset,
    memory_begin, memory_end, memory_free, memory_lock, memory_rwx, pmp_addr, pmp_cfg, napot_begin,
    napot_end, monitor_begin, monitor_end, monitor_free, channel_begin, channel_end, channel_free,
    socket_channel, socket_tag,
  }

  -- The text of a capability: its kind and its members, each as its 64 bits, the free address of a
  -- memory capability as its low 32 bits.
  abbrev pub description : Cap → List ℕ
  description c =
      let address = page_address s3k (memory_offset c) in
      if captype c == capty_none
      then []
      else if captype c == capty_time
      then line "time" (
          ("hartid", full (time_hartid c))
          ∷ ("begin", full (time_begin c))
          ∷ ("end", full (time_end c))
          ∷ ("free", full (time_free c))
          ∷ [])
      else if captype c == capty_memory
      then line "memory" (
          ("begin", full (address (memory_begin c)))
          ∷ ("end", full (address (memory_end c)))
          ∷ ("free", low (address (memory_free c)))
          ∷ ("lock", full (memory_lock c))
          ∷ ("rwx", full (memory_rwx c))
          ∷ [])
      else if captype c == capty_pmp
      then line "pmp" (
          ("begin", full (napot_begin (pmp_addr c)))
          ∷ ("end", full (napot_end (pmp_addr c)))
          ∷ ("rwx", full (bit_and (pmp_cfg c) 7))
          ∷ [])
      else if captype c == capty_monitor
      then line "monitor" (
          ("begin", full (monitor_begin c))
          ∷ ("end", full (monitor_end c))
          ∷ ("free", full (monitor_free c))
          ∷ [])
      else if captype c == capty_channel
      then line "channel" (
          ("begin", full (channel_begin c))
          ∷ ("end", full (channel_end c))
          ∷ ("free", full (channel_free c))
          ∷ [])
      else if captype c == capty_socket
      then line "socket" (("port", full (socket_channel c)) ∷ ("tag", full (socket_tag c)) ∷ [])
      else codes "0x" ++ (full (raw c) ++ codes "\n")

  -- The line of an entry: its index and its text; an empty one has none.
  abbrev pub entry : ℕ → Cap → List ℕ
  entry i c = if raw c == 0 then [] else codes "0x" ++ (low i ++ (codes ": " ++ description c))

  abbrev pub listing : ℕ → List Cap → List ℕ
  listing i [] = []
  listing i (c ∷ cs) = entry i c ++ listing (i + 1) cs

  -- Code that sends a text, whatever it comes to.
  abbrev Sends : Run Uart ℕ → List ℕ → Type 0
  Sends m s = Prints (do m; pure tt) tt s

  sent :
      (fmt : List ℕ) (args : List Arg) (s : List ℕ)
      → rendered fmt args ≡ some s
      → Sends (printf fmt args) s
  sent fmt args s e =
      Prints-return (printf fmt args) (λ _. tt) (0 + length s) s (printf-Prints fmt args s e)

  or_else :
      (b : Bool) (m n : Run Uart ℕ) (s t : List ℕ)
      → Sends m s
      → Sends n t
      → Sends (if b then m else n) (if b then s else t)
  or_else true m n s t h k = h
  or_else false m n s t h k = k

  dump-Prints : (c : Cap) → Prints (dump s3k c) tt (description c)
  unfolding dump
  dump-Prints c =
      let others = or_else (captype c == capty_pmp) _ _ _ _ (sent _ _ _ refl) (
        or_else (captype c == capty_monitor) _ _ _ _ (sent _ _ _ refl) (
          or_else (captype c == capty_channel) _ _ _ _ (sent _ _ _ refl)
            (or_else (captype c == capty_socket) _ _ _ _ (sent _ _ _ refl) (sent _ _ _ refl)))) in
      elim (Bool-cases (captype c == capty_none)) [
        | inl e ↦ rw e (pure-Prints tt)
        | inr e ↦ rw e (
            or_else (captype c == capty_time) _ _ _ _ (sent _ _ _ refl)
              (or_else (captype c == capty_memory) _ _ _ _ (sent _ _ _ refl) others))
      ]

  -- The round of the loop for one entry.
  entry-Prints :
      (i : ℕ) (c : Cap)
      → Prints
          (if raw c == 0 then pure tt else (do printf (codes "0x%x: ") (word i ∷ []); dump s3k c))
          tt
          (entry i c)
  entry-Prints i c = elim (Bool-cases (raw c == 0)) [
    | inl e ↦ rw e (pure-Prints tt)
    | inr e ↦
        let index_text : List ℕ = codes "0x" ++ (low i ++ codes ": ") in
        let same : index_text ++ description c
            ≡ codes "0x" ++ (low i ++ (codes ": " ++ description c)) =
          ap (λ t. codes "0x" ++ t) (append_assoc (low i) (codes ": ") (description c)) in
        rw e (
          rw same at (
            Prints-bind (printf (codes "0x%x: ") (word i ∷ [])) (λ _. dump s3k c)
              (0 + length index_text) tt index_text (description c)
              (printf-Prints (codes "0x%x: ") (word i ∷ []) index_text refl) (dump-Prints c)))
  ]

  dump_loop-Prints :
      (caps rest : List Cap) (i : ℕ)
      → ((j : ℕ) → j < length rest → get_elem? caps (i + j) ≡ get_elem? rest j)
      → Prints (dump_loop s3k caps (length rest) i) tt (listing i rest)
  unfolding dump_loop
  dump_loop-Prints caps [] i h u = pure-Prints tt u
  dump_loop-Prints caps (c ∷ rest) i h u =
      let first : i + 0 ≡ i = omega arith in
      let found = rw first at (h 0 (omega arith)) in
      rw (found) (
        Prints-bind _ (λ _. dump_loop s3k caps (length rest) (i + 1)) tt tt (entry i c)
          (listing (i + 1) rest) (entry-Prints i c)
          (dump_loop-Prints caps rest (i + 1) (λ j q.
            let next : i + 1 + j ≡ i + suc j = omega arith in rw next (h (suc j) (omega arith))))
          u)

  -- `capman_dump_all` reads inside its table, and prints a line for each entry that is not empty,
  -- in the order of the indices: the index, then the kind of the capability and its members in base
  -- 16. The free address of a memory capability is printed as its low 32 bits only.
  pub dump_all-listing :
      (caps : List Cap) → length caps ≡ ncap → Prints (dump_all s3k caps) tt (listing 0 caps)
  unfolding dump_all
  dump_all-listing caps e =
      rw (sym e)
        (dump_loop-Prints caps caps 0 (λ j q. let here : 0 + j ≡ j = omega arith in rw here refl))
