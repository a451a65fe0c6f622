-- ===== src/Capman/Pmp/Bytes.antt =====
-- `capman_setpmp` and `capman_getpmp`: the PMP register as eight bytes.
use s3k_monitor.Prelude.{
  ℕ, ◌+◌, ◌*◌, ◌/◌, ◌^◌, ◌<◌, ◌≡◌, ap, ◌∙◌, refl, arith, List, [], ◌∷◌, u8, u64, done, ◌>>◌, ◌>>=◌,
  bit_or, bit_or-shift,
}
use s3k_monitor.S3k.{S3k}
use s3k_monitor.Capman.{Caps}
use s3k_monitor.Capman.Pmp.{pack_loop, unpack_loop, setpmp, getpmp}

or_field : (k r b : ℕ) → r < 2 ^ k → b * 2 ^ k < 2 ^ 64 → bit_or r (u64 (b * 2 ^ k)) ≡ r + b * 2 ^ k
or_field k r b low high =
    let same : u64 (b * 2 ^ k) ≡ b * 2 ^ k = omega arith in
    ap (λ t. bit_or r t) same ∙ bit_or-shift k r b low

module _ (b0 b1 b2 b3 b4 b5 b6 b7 : ℕ) (fits0 : b0 < 2 ^ 8) (fits1 : b1 < 2 ^ 8)
    (fits2 : b2 < 2 ^ 8) (fits3 : b3 < 2 ^ 8) (fits4 : b4 < 2 ^ 8) (fits5 : b5 < 2 ^ 8)
    (fits6 : b6 < 2 ^ 8) (fits7 : b7 < 2 ^ 8) where
  abbrev pub bytes : List ℕ
  bytes = b0 ∷ b1 ∷ b2 ∷ b3 ∷ b4 ∷ b5 ∷ b6 ∷ b7 ∷ []

  -- The register that holds the bytes, the first one lowest.
  abbrev pub register : ℕ
  register =
      b0
      + b1 * 2 ^ 8
      + b2 * 2 ^ 16
      + b3 * 2 ^ 24
      + b4 * 2 ^ 32
      + b5 * 2 ^ 40
      + b6 * 2 ^ 48
      + b7 * 2 ^ 56

  pack_loop-bytes : pack_loop 8 0 0 bytes ≡ done register
  unfolding pack_loop
  pack_loop-bytes =
      let one : 0 + b0 * 1 ≡ b0 = omega arith in
      let t0 = or_field 0 0 b0 (omega arith) (omega arith) ∙ one in
      let t1 = or_field 8 (b0) b1 (omega arith) (omega arith) in
      let t2 = or_field 16 (b0 + b1 * 2 ^ 8) b2 (omega arith) (omega arith) in
      let t3 = or_field 24 (b0 + b1 * 2 ^ 8 + b2 * 2 ^ 16) b3 (omega arith) (omega arith) in
      let t4 =
        or_field 32 (b0 + b1 * 2 ^ 8 + b2 * 2 ^ 16 + b3 * 2 ^ 24) b4 (omega arith) (omega arith) in
      let t5 =
        or_field 40 (b0 + b1 * 2 ^ 8 + b2 * 2 ^ 16 + b3 * 2 ^ 24 + b4 * 2 ^ 32) b5 (omega arith)
          (omega arith) in
      let t6 =
        or_field 48 (b0 + b1 * 2 ^ 8 + b2 * 2 ^ 16 + b3 * 2 ^ 24 + b4 * 2 ^ 32 + b5 * 2 ^ 40) b6
          (omega arith) (omega arith) in
      let t7 =
        or_field 56
          (b0 + b1 * 2 ^ 8 + b2 * 2 ^ 16 + b3 * 2 ^ 24 + b4 * 2 ^ 32 + b5 * 2 ^ 40 + b6 * 2 ^ 48) b7
          (omega arith) (omega arith) in
      rw (t0, t1, t2, t3, t4, t5, t6, t7) refl

  unpack_loop-bytes :
      (c0 c1 c2 c3 c4 c5 c6 c7 : ℕ)
      → unpack_loop 8 0 register (c0 ∷ c1 ∷ c2 ∷ c3 ∷ c4 ∷ c5 ∷ c6 ∷ c7 ∷ []) ≡ done bytes
  unfolding unpack_loop
  unpack_loop-bytes c0 c1 c2 c3 c4 c5 c6 c7 =
      let u0 : u8 (register / 1) ≡ b0 = omega arith in
      let u1 : u8 (register / 256) ≡ b1 = omega arith in
      let u2 : u8 (register / 65536) ≡ b2 = omega arith in
      let u3 : u8 (register / 16777216) ≡ b3 = omega arith in
      let u4 : u8 (register / 4294967296) ≡ b4 = omega arith in
      let u5 : u8 (register / 1099511627776) ≡ b5 = omega arith in
      let u6 : u8 (register / 281474976710656) ≡ b6 = omega arith in
      let u7 : u8 (register / 72057594037927936) ≡ b7 = omega arith in
      rw (u0, u1, u2, u3, u4, u5, u6, u7) refl

  -- On a kernel that keeps what is written into the PMP register, any 8 bytes that `capman_setpmp`
  -- writes come back from `capman_getpmp`, whatever stood in the array that it fills; the register is
  -- all that changes, and it holds the bytes with the first one lowest.
  pub setpmp-getpmp :
      (s3k : S3k)
      → ((v : ℕ) (k : s3k.Kernel) → s3k.getreg s3k.reg_pmp (s3k.setreg s3k.reg_pmp v k) ≡ v)
      → (s : Caps s3k) (c0 c1 c2 c3 c4 c5 c6 c7 : ℕ)
      → (setpmp s3k bytes >> getpmp s3k (c0 ∷ c1 ∷ c2 ∷ c3 ∷ c4 ∷ c5 ∷ c6 ∷ c7 ∷ [])) s
        ≡ done (bytes, record s { kernel = s3k.setreg s3k.reg_pmp register s.kernel })
  unfolding setpmp getpmp
  setpmp-getpmp s3k keeps s c0 c1 c2 c3 c4 c5 c6 c7 =
      let packed = pack_loop-bytes in
      let kept = keeps register s.kernel in
      let unpacked = unpack_loop-bytes c0 c1 c2 c3 c4 c5 c6 c7 in
      let after : Caps s3k = record s { kernel = s3k.setreg s3k.reg_pmp register s.kernel } in
      let written : setpmp s3k bytes s ≡ done (tt, after) = rw (packed, setpmp) refl in
      rw (written, ◌>>◌, ◌>>=◌, setpmp) (rw (kept, getpmp) (rw (unpacked, getpmp) refl))
