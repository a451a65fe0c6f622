-- ===== src/Prelude/Bits.antt =====
-- `|` of a number and a field that is shifted beyond it.
use Prim.Native.Nat.{
  ℕ, zero, suc, max, digits, bit_or, bit_or-bitwise, ◌+◌, ◌*◌, ◌/◌, ◌%◌, ◌^◌, ◌≤◌, ◌<◌,
}
use mathlib.Core.Path.{◌≡◌, ap}
use native.Mathlib.Nat.{pow-suc}
use native.Mathlib.Omega.{arith}

twice_field : (k b : ℕ) → b * 2 ^ suc k ≡ 2 * (b * 2 ^ k)
twice_field k b = omega (arith, ap (λ (t : ℕ). b * t) (pow-suc 2 k))

digits-field :
    (k fuel r b : ℕ) → r ≤ fuel → r < 2 ^ k → digits (λ y. y) max fuel r (b * 2 ^ k) ≡ r + b * 2 ^ k
digits-field k zero zero b p q = omega arith
digits-field k (suc n) zero b p q = omega arith
digits-field k zero (suc r) b p q = absurd (omega arith)
digits-field zero (suc n) (suc r) b p q = absurd (omega arith)
digits-field (suc k) (suc n) (suc r) b p q =
    let twice = twice_field k b in
    let half : b * 2 ^ suc k / 2 ≡ b * 2 ^ k = omega arith in
    let even : b * 2 ^ suc k % 2 ≡ 0 = omega arith in
    let power = pow-suc 2 k in
    let rest = digits-field k n (suc r / 2) b (omega arith) (omega arith) in
    rw (half, even, rest) (omega arith)

pub bit_or-shift : (k r b : ℕ) → r < 2 ^ k → bit_or r (b * 2 ^ k) ≡ r + b * 2 ^ k
bit_or-shift k r b q = simp bit_or-bitwise (digits-field k r r b (omega arith) q)
