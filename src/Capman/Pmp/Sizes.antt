-- ===== src/Capman/Pmp/Sizes.antt =====
-- `capman_getpmp` and `capman_getsoc` stay inside the arrays that they fill.
use s3k_monitor.Prelude.{
  ℕ, zero, suc, ◌+◌, ◌*◌, ◌/◌, ◌^◌, ◌≤◌, ◌<◌, ◌≡◌, ◌∙◌, inl, inr, refl, arith, true, ◌||◌, not,
  ◌==◌, ltb, List, set, length, length-set, u8, done, Bool-cases, ◌>>=◌,
}
use s3k_monitor.S3k.{S3k, ncap}
use s3k_monitor.Capman.{Caps}
use s3k_monitor.Capman.Coherent.{IsCoherent, load-eq_done}
use s3k_monitor.Capman.Pmp.{unpack_loop, getpmp, note_socket, getsoc_loop, getsoc}

unpack_loop_lem :
    (left i pmpreg : ℕ) (pmp : List ℕ)
    → i + left ≤ length pmp
    → (bytes : List ℕ) × (unpack_loop left i pmpreg pmp ≡ done bytes) × (length bytes ≡ length pmp)
unfolding unpack_loop
unpack_loop_lem zero i pmpreg pmp room = (pmp, refl, refl)
unpack_loop_lem (suc left) i pmpreg pmp room =
    let l = length-set pmp i (u8 (pmpreg / 2 ^ (i * 8))) in
    let inside : ltb i (length pmp) ≡ true = ground arith in
    let (bytes, result, size) =
      unpack_loop_lem left (i + 1) pmpreg (set pmp i (u8 (pmpreg / 2 ^ (i * 8))))
        (omega (arith, l)) in
    (bytes, rw (inside, result) refl, size ∙ l)

module _ (s3k : S3k) where
  open s3k use {Kernel, Cap, raw, captype, capty_socket, socket_channel, getcap}

  pub getpmp_lem :
      (pmp : List ℕ) (s : Caps s3k)
      → length pmp ≡ 8
      → (bytes : List ℕ) × (getpmp s3k pmp s ≡ done (bytes, s)) × (length bytes ≡ 8)
  unfolding getpmp
  getpmp_lem pmp s eight =
      let (bytes, result, size) =
        unpack_loop_lem 8 0 (s3k.getreg s3k.reg_pmp s.kernel) pmp (omega (arith, eight)) in
      (bytes, rw (getpmp, result) refl, size ∙ eight)

  -- Every channel of a socket in the table is below 8.
  abbrev pub FewChannels : Kernel → Type 0
  FewChannels k =
      (i : ℕ) → i < ncap → captype (getcap i k) ≡ capty_socket → socket_channel (getcap i k) < 8

  note_socket_lem :
      (c : Cap) (i : ℕ) (soc : List ℕ) (s : Caps s3k)
      → length soc ≡ 8
      → (captype c ≡ capty_socket → socket_channel c < 8)
      → (soc' : List ℕ) × (note_socket s3k c i soc s ≡ done (soc', s)) × (length soc' ≡ 8)
  unfolding note_socket
  note_socket_lem c i soc s eight few =
      elim (Bool-cases (raw c == 0 || not (captype c == capty_socket))) [
        | inl skipped ↦ (soc, rw skipped refl, eight)
        | inr noted ↦
            let socket : captype c ≡ capty_socket = ground arith in
            let inside : ltb (socket_channel c) (length soc) ≡ true =
              ground (arith, few socket, eight) in
            (
              set soc (socket_channel c) (u8 i),
              rw (noted, inside) refl,
              length-set soc (socket_channel c) (u8 i) ∙ eight,
            )
      ]

  getsoc_loop_lem :
      (left i : ℕ) (soc : List ℕ) (s : Caps s3k)
      → IsCoherent s3k s
      → FewChannels s.kernel
      → i + left ≤ ncap
      → length soc ≡ 8
      → (soc' : List ℕ) × (getsoc_loop s3k left i soc s ≡ done (soc', s)) × (length soc' ≡ 8)
  unfolding getsoc_loop
  getsoc_loop_lem zero i soc s whole few room eight = (soc, refl, eight)
  getsoc_loop_lem (suc left) i soc s whole few room eight =
      let c = getcap i s.kernel in
      let loaded = load-eq_done s3k i c s (whole.mirror i (omega arith)) in
      let (soc1, noted, size1) = note_socket_lem c i soc s eight (few i (omega arith)) in
      let (soc2, rest, size2) = getsoc_loop_lem left (i + 1) soc1 s whole few (omega arith) size1 in
      (soc2, rw (loaded, ◌>>=◌) (rw (noted, ◌>>=◌) rest), size2)

  pub getsoc_lem :
      (soc : List ℕ) (s : Caps s3k)
      → IsCoherent s3k s
      → FewChannels s.kernel
      → length soc ≡ 8
      → (soc' : List ℕ) × (getsoc s3k soc s ≡ done (soc', s)) × (length soc' ≡ 8)
  unfolding getsoc
  getsoc_lem soc s whole few eight = getsoc_loop_lem ncap 0 soc s whole few (omega arith) eight
