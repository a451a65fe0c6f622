-- ===== src/Codeauth.antt =====
-- monitor/codeauth.c: the signature of a buffer, and the comparison of two signatures. AES-128 and
-- its CBC-MAC (monitor/aes128.c), a library that the project was given, are a parameter.
pub mod Compare
use s3k_monitor.Prelude.{ℕ, zero, suc, ◌+◌, Bool, not, List, [], ◌∷◌, ◌==◌, if◌then◌else◌, ℤ}

-- A pointer to bytes: what stands at each offset from it.
abbrev pub Bytes : Type 0
Bytes = ℕ → ℕ

-- `aes128_keyexpansion` and `aes128_cbc_mac` of inc/aes128.h, in the order of their arguments: the
-- round keys of a key; the MAC of a buffer and its length under round keys.
pub record Aes128 : Type 0 where
  pub keyexpansion : List ℕ → List ℕ
  pub cbc_mac : List ℕ → Bytes → ℤ → Bytes

abbrev pub mac_key : List ℕ
mac_key = 0x16157e2b ∷ 0xa6d2ae28 ∷ 0x8815f7ab ∷ 0x3c4fcf09 ∷ []

module _ (aes : Aes128) where
  unfoldable pub calc_sig : Bytes → ℤ → Bytes
  calc_sig buf len = aes.cbc_mac (aes.keyexpansion mac_key) buf len

-- The loop of `comp_sig` at byte `i`: it goes through all bytes, also after a difference.
unfoldable pub comp_loop : ℕ → ℕ → ℕ → Bytes → Bytes → ℕ
comp_loop zero i equal sig1 sig2 = equal
comp_loop (suc left) i equal sig1 sig2 =
    comp_loop left (i + 1) (if not (sig1 i == sig2 i) then 0 else equal) sig1 sig2

unfoldable pub comp_sig : Bytes → Bytes → ℕ
unfolding comp_loop
comp_sig sig1 sig2 = comp_loop 16 0 1 sig1 sig2
