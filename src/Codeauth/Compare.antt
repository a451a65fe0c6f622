-- ===== src/Codeauth/Compare.antt =====
-- `comp_sig` tells equal signatures from different ones.
use s3k_monitor.Prelude.{
  ℕ, zero, suc, ◌+◌, ◌≤◌, ◌<◌, ◌≡◌, ◌≢◌, ◌⊎◌, inl, inr, arith, refl, ◌==◌, Bool-cases,
}
use s3k_monitor.Codeauth.{Bytes, comp_loop, comp_sig}

-- A difference, once seen, stays.
comp_loop-zero : (left i : ℕ) (a b : Bytes) → comp_loop left i 0 a b ≡ 0
unfolding comp_loop
comp_loop-zero zero i a b = refl
comp_loop-zero (suc left) i a b = elim (Bool-cases (a i == b i)) [
  | inl e ↦ rw e (comp_loop-zero left (i + 1) a b)
  | inr e ↦ rw e (comp_loop-zero left (i + 1) a b)
]

comp_loop_lem :
    (left i : ℕ) (a b : Bytes)
    → ((comp_loop left i 1 a b ≡ 1) × ((j : ℕ) → i ≤ j → j < i + left → a j ≡ b j))
      ⊎ ((comp_loop left i 1 a b ≡ 0) × (j : ℕ) × (i ≤ j) × (j < i + left) × (a j ≢ b j))
unfolding comp_loop
comp_loop_lem zero i a b = inl (refl, λ j p q. absurd (omega arith))
comp_loop_lem (suc left) i a b = elim (Bool-cases (a i == b i)) [
  | inr e ↦ inr (rw e (comp_loop-zero left (i + 1) a b), i, omega arith, omega arith, ground arith)
  | inl e ↦ elim (comp_loop_lem left (i + 1) a b) [
    | inl (r, same) ↦ inl (rw e r, λ j p q. ground (arith, same j))
    | inr (r, j, p, q, ne) ↦ inr (rw e r, j, omega arith, omega arith, ne)
  ]
]

-- The answer is 1 where all 16 bytes are equal, and 0 where one of them differs.
pub comp_sig_lem :
    (a b : Bytes)
    → ((comp_sig a b ≡ 1) × ((j : ℕ) → j < 16 → a j ≡ b j))
      ⊎ ((comp_sig a b ≡ 0) × (j : ℕ) × (j < 16) × (a j ≢ b j))
comp_sig_lem a b = elim (comp_loop_lem 16 0 a b) [
  | inl (r, same) ↦ inl (unfold comp_sig in r, λ j p. same j (omega arith) (omega arith))
  | inr (r, j, p, q, ne) ↦ inr (unfold comp_sig in r, j, omega arith, ne)
]
