-- ===== src/Print/Hex.antt =====
-- The hexadecimal numbers that `alt_printf` sends, and what they read as.
use s3k_monitor.Prelude.{
  ℕ, zero, suc, ◌+◌, ◌-◌, ◌*◌, ◌/◌, ◌%◌, ◌^◌, ◌<◌, ◌≡◌, ◌≢◌, ◌⊎◌, inl, inr, refl, arith, ltb, leb,
  ◌==◌, if◌then◌else◌, List, [], ◌∷◌, length, some, get_elem?, ap, ◌∙◌, sym, subst, index, pure,
  Run, ◌>>=◌, ◌>>◌, Bool-cases,
}
use native.Mathlib.Nat.{pow-suc, div-div-eq-div-mul, div-eq_of_lt}
use s3k_monitor.Print.{Uart, hex, putchar, hex_loop, print_hex}
use s3k_monitor.Print.Prints.{Prints, Prints-bind, Prints-return, pure-Prints, putchar-Prints}

-- The character of a digit, and the digit of a character.
abbrev pub digit : ℕ → ℕ
digit d = if ltb d 10 then b'0' + d else 87 + d

abbrev pub digit_value : ℕ → ℕ
digit_value c = if leb c b'9' then c - b'0' else c - 87

-- The number that a text denotes in base 16, behind a number read so far.
abbrev pub number_from : ℕ → List ℕ → ℕ
number_from acc [] = acc
number_from acc (c ∷ s) = number_from (16 * acc + digit_value c) s

-- The characters `0` to `9` and `a` to `f`.
abbrev pub IsDigit : ℕ → Type 0
IsDigit c = (d : ℕ) × (d < 16) × (c ≡ digit d)

abbrev pub AllDigits : List ℕ → Type 0
AllDigits [] = Unit
AllDigits (c ∷ s) = IsDigit c × AllDigits s

-- `s` does not begin with the digit `0`.
abbrev pub NoLeadingZero : List ℕ → Type 0
NoLeadingZero [] = Unit
NoLeadingZero (c ∷ s) = c ≢ b'0'

-- The lower `n` digits of a number, those that begin it left out where they are 0.
abbrev pub digits : ℕ → ℕ → List ℕ
digits zero x = []
digits (suc i) x =
    let rest = digits i x in
    if x / 2 ^ (4 * i) == 0 then rest else digit (x / 2 ^ (4 * i) % 16) ∷ rest

abbrev pub hex_text : ℕ → ℕ → List ℕ
hex_text n x = if x == 0 then b'0' ∷ [] else digits n x

hex-digit : (d : ℕ) → d < 16 → get_elem? hex d ≡ some (digit d)
hex-digit d h = ground arith

digit-byte : (d : ℕ) → d < 16 → digit d < 256
digit-byte d h = ground arith

pub digit_value-digit : (d : ℕ) → d < 16 → digit_value (digit d) ≡ d
digit_value-digit d h = ground arith

-- The number above a digit is the number at it, divided by 16.
div-suc : (x i : ℕ) → x / 2 ^ (4 * suc i) ≡ x / 2 ^ (4 * i) / 16
div-suc x i =
    let four : 4 * suc i ≡ suc (suc (suc (suc (4 * i)))) = omega arith in
    let power : 2 ^ (4 * suc i) ≡ 2 ^ (4 * i) * 16 =
      ap (λ (n : ℕ). 2 ^ n) four
      ∙ omega (
        arith,
        pow-suc 2 (4 * i),
        pow-suc 2 (suc (4 * i)),
        pow-suc 2 (suc (suc (4 * i))),
        pow-suc 2 (suc (suc (suc (4 * i)))),
      ) in
    rw power (sym (div-div-eq-div-mul x (2 ^ (4 * i)) 16))

-- Reading the digits of a number, behind those above them, gives the number.
number_from-digits : (n x : ℕ) → number_from (x / 2 ^ (4 * n)) (digits n x) ≡ x
number_from-digits zero x = omega arith
number_from-digits (suc i) x =
    let above = div-suc x i in
    let at = x / 2 ^ (4 * i) in
    let rest = number_from-digits i x in
    elim (Bool-cases (at == 0)) [
      | inl e ↦ let same : x / 2 ^ (4 * suc i) ≡ at = ground (arith, above, e) in rw (e, same) rest
      | inr e ↦
          let low = digit_value-digit (at % 16) (omega arith) in
          let same : 16 * (x / 2 ^ (4 * suc i)) + at % 16 ≡ at = omega (arith, above) in
          rw e
            (ap (λ v. number_from (16 * (x / 2 ^ (4 * suc i)) + v) (digits i x)) low ∙ rw same rest)
    ]

digits-AllDigits : (n x : ℕ) → AllDigits (digits n x)
digits-AllDigits zero x = tt
digits-AllDigits (suc i) x = elim (Bool-cases (x / 2 ^ (4 * i) == 0)) [
  | inl e ↦ rw e (digits-AllDigits i x)
  | inr e ↦ rw e ((x / 2 ^ (4 * i) % 16, omega arith, refl), digits-AllDigits i x)
]

-- Where the number above is 0, the first digit that is not left out is not 0.
digits-NoLeadingZero : (n x : ℕ) → x / 2 ^ (4 * n) ≡ 0 → NoLeadingZero (digits n x)
digits-NoLeadingZero zero x e = tt
digits-NoLeadingZero (suc i) x e =
    let above = div-suc x i in
    elim (Bool-cases (x / 2 ^ (4 * i) == 0)) [
      | inl z ↦ rw z (digits-NoLeadingZero i x (ground (arith, z)))
      | inr z ↦ rw z (ground (arith, above, e, z))
    ]

-- `s` is the number `x` in base 16: of its digits, without a leading 0 but for 0 itself.
pub record IsHex (x : ℕ) (s : List ℕ) : Type 0 where
  pub reads : number_from 0 s ≡ x
  pub all_digits : AllDigits s
  pub no_leading_zero : NoLeadingZero s ⊎ (s ≡ b'0' ∷ [])

pub hex_text-IsHex : (n x : ℕ) → x < 2 ^ (4 * n) → IsHex x (hex_text n x)
hex_text-IsHex n x small =
    let none_above : x / 2 ^ (4 * n) ≡ 0 = div-eq_of_lt small in
    elim (Bool-cases (x == 0)) [
      | inl e ↦
          let zero_x : x ≡ 0 = ground (arith, e) in
          rw e record {
            reads = sym zero_x;
            all_digits = ((0, omega arith, refl), tt);
            no_leading_zero = inr refl;
          }
      | inr e ↦ rw e record {
        reads = subst (λ a. number_from a (digits n x) ≡ x) none_above (number_from-digits n x);
        all_digits = digits-AllDigits n x;
        no_leading_zero = inl (digits-NoLeadingZero n x none_above);
      }
    ]

-- A digit that is not left out.
digit_run : ℕ → Run Uart ℕ
digit_run d = do c ← index hex (d % 16); putchar c; pure 1

digit_run-Prints : (d : ℕ) → Prints (digit_run d) 1 (digit (d % 16) ∷ [])
unfolding digit_run putchar
digit_run-Prints d u =
    let byte = digit-byte (d % 16) (omega arith) in
    let low : digit (d % 16) % 2 ^ 8 ≡ digit (d % 16) = omega (arith, byte) in
    rw (hex-digit (d % 16) (omega arith)) (rw low refl)

pub hex_loop-Prints : (n x : ℕ) → Prints (hex_loop n x) (length (digits n x)) (digits n x)
unfolding hex_loop digit_run
hex_loop-Prints zero x = pure-Prints 0
hex_loop-Prints (suc i) x =
    let sum : 0 + length (digits i x) ≡ length (digits i x) = omega arith in
    let one_more : 1 + length (digits i x) ≡ suc (length (digits i x)) = omega arith in
    let rest = λ (k : ℕ).
      Prints-return (hex_loop i x) (λ m. k + m) (length (digits i x)) (digits i x)
        (hex_loop-Prints i x) in
    elim (Bool-cases (x / 2 ^ (4 * i) == 0)) [
      | inl e ↦ rw e (rw sum at (rest 0))
      | inr e ↦ rw e (
          Prints-bind (digit_run (x / 2 ^ (4 * i))) (λ k. hex_loop i x >>= λ m. pure (k + m)) 1
            (suc (length (digits i x))) (digit (x / 2 ^ (4 * i) % 16) ∷ []) (digits i x)
            (digit_run-Prints (x / 2 ^ (4 * i))) (rw one_more at (rest 1)))
    ]

pub print_hex-Prints : (n x : ℕ) → Prints (print_hex n x) (length (hex_text n x)) (hex_text n x)
unfolding print_hex
print_hex-Prints n x = elim (Bool-cases (x == 0)) [
  | inl e ↦ rw e (Prints-return (putchar b'0') (λ _. 1) b'0' (b'0' ∷ []) (putchar-Prints b'0'))
  | inr e ↦ rw e (hex_loop-Prints n x)
]
