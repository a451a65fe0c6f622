-- ===== src/Format/Code.antt =====
-- Code that `app_format_sig` signed, where the app puts it for the monitor: the signature, the size
-- of the code, and the code at the offsets 0, 0x10 and 0x20.
use s3k_monitor.Prelude.{
  ℕ, zero, suc, ◌+◌, ◌/◌, ◌%◌, ◌^◌, ◌≤◌, ◌<◌, ◌≡◌, Bool, true, ◌&&◌, ◌||◌, not, List, [], ◌∷◌, ◌++◌,
  some, get_elem?, length, arith, refl, ap, sym, ◌∙◌, ◌==◌, pos, ltb, to_int, subst, add64,
}
use mathlib.Core.Path.{fun_ext}
use native.Mathlib.Nat.{pow-suc}
use s3k_monitor.S3k.{S3k}
use s3k_monitor.Codeauth.{Aes128, Bytes, mac_key, calc_sig}
use s3k_monitor.Monitor.Loop.{load_word, memory, is_signed}
use s3k_monitor.Monitor.Setup.{bytes_from}
use s3k_monitor.Monitor.Parse.Encoding.{little_endian}
use s3k_monitor.Format.{first_bytes, write_signed, format_sig}
use s3k_monitor.Format.Signed.{written, compared_at}

-- The MAC of a buffer of 16 bytes or more depends on the buffer's bytes only.
abbrev pub ReadsBuffer : Aes128 → Type 0
ReadsBuffer aes =
    (rk : List ℕ) (n : ℕ) (p q : Bytes)
    → 16 ≤ n
    → ((j : ℕ) → j < n → p j ≡ q j)
    → (j : ℕ) → j < 16
    → aes.cbc_mac rk p (pos n) j ≡ aes.cbc_mac rk q (pos n) j

-- The bytes stand in the memory from an address on.
abbrev pub Stored : Bytes → ℕ → List ℕ → Type 0
Stored p at [] = Unit
Stored p at (b ∷ bs) = (p at ≡ b) × Stored p (at + 1) bs

pub load_word-little_endian :
    (n at v : ℕ) (p : Bytes)
    → v < 256 ^ n
    → Stored p at (little_endian n v)
    → load_word n (λ j. p (at + j)) ≡ v
unfolding load_word
load_word-little_endian zero at v p small h = omega arith
load_word-little_endian (suc n) at v p small (e, h) =
    let power = pow-suc 256 n in
    let less : v / 256 < 256 ^ n = omega (arith, power) in
    let rest = load_word-little_endian n (at + 1) (v / 256) p less h in
    let first : at + 0 ≡ at = omega arith in
    let moved : load_word n (λ j. p (at + (j + 1))) ≡ load_word n (λ j. p (at + 1 + j)) =
      ap (load_word n) (fun_ext (λ j. ap p (omega arith))) in
    rw (first, moved, rest, e) (omega arith)

pub Stored-append :
    (p : Bytes) (at : ℕ) (xs ys : List ℕ)
    → Stored p at (xs ++ ys)
    → Stored p at xs × Stored p (at + length xs) ys
Stored-append p at [] ys h = (tt, subst (λ n. Stored p n ys) (omega arith) h)
Stored-append p at (x ∷ xs) ys (e, h) =
    let (a, b) = Stored-append p (at + 1) xs ys h in
    ((e, a), subst (λ n. Stored p n ys) (omega arith) b)

Stored-get_elem? :
    (p : Bytes) (at : ℕ) (bs : List ℕ) (j : ℕ)
    → Stored p at bs
    → j < length bs
    → get_elem? bs j ≡ some (p (at + j))
Stored-get_elem? p at [] j h below = absurd (omega arith)
Stored-get_elem? p at (b ∷ bs) zero (e, h) below =
    let first : at + 0 ≡ at = omega arith in rw first (ap some (sym e))
Stored-get_elem? p at (b ∷ bs) (suc j) (e, h) below =
    Stored-get_elem? p (at + 1) bs j h (omega arith) ∙ ap (λ n. some (p n)) (omega arith)

-- A pointer to the bytes stored.
pub Stored-bytes_from :
    (p : Bytes) (at : ℕ) (bs : List ℕ) (j : ℕ)
    → Stored p at bs
    → j < length bs
    → p (at + j) ≡ bytes_from bs 0 j
Stored-bytes_from p at bs j h below =
    let found = Stored-get_elem? p at bs j h below in
    let start : 0 + j ≡ j = omega arith in rw (bytes_from, start, found) refl

Stored-first_bytes :
    (p : Bytes) (at n : ℕ) (q : Bytes) (j : ℕ)
    → Stored p at (first_bytes n q)
    → j < n
    → p (at + j) ≡ q j
Stored-first_bytes p at zero q j h below = absurd (omega arith)
Stored-first_bytes p at (suc n) q zero (e, h) below =
    let first : at + 0 ≡ at = omega arith in rw first e
Stored-first_bytes p at (suc n) q (suc j) (e, h) below =
    let next : at + suc j ≡ at + 1 + j = omega arith in
    rw next (Stored-first_bytes p (at + 1) n (λ i. q (suc i)) j h (omega arith))

abbrev pub take : ℕ → List ℕ → List ℕ
take zero xs = []
take (suc n) [] = []
take (suc n) (x ∷ xs) = x ∷ take n xs

-- The signature that the tool wrote, the size, eight more bytes, and the code.
abbrev pub image_of_code : Aes128 → Bool → List ℕ → List ℕ → List ℕ
image_of_code aes broken pad code =
    take 16 (format_sig aes broken (some code)) ++ (little_endian 8 (length code) ++ (pad ++ code))

pub int_small : (n : ℕ) → n < 2 ^ 31 → to_int n ≡ pos n
int_small n small =
    let low : n % 2 ^ 32 ≡ n = omega arith in
    let plus : ltb n (2 ^ 31) ≡ true = ground arith in rw (low, plus) refl

-- The three pieces, where the monitor reads them.
Stored-pieces :
    (aes : Aes128) (broken : Bool) (pad code : List ℕ) (p : Bytes)
    → length pad ≡ 8
    → Stored p 0 (image_of_code aes broken pad code)
    → Stored p 0
        (first_bytes 16 (written broken (calc_sig aes (bytes_from code 0) (pos (length code)))))
      × Stored p 0x10 (little_endian 8 (length code))
      × Stored p 0x20 code
unfolding format_sig write_signed
Stored-pieces aes broken pad code p eight h =
    let first =
      first_bytes 16 (written broken (calc_sig aes (bytes_from code 0) (pos (length code)))) in
    let (signature, h₁) =
      Stored-append p 0 first (little_endian 8 (length code) ++ (pad ++ code)) h in
    let (size, h₂) = Stored-append p 16 (little_endian 8 (length code)) (pad ++ code) h₁ in
    let (_, here) = Stored-append p 24 pad code h₂ in
    (signature, size, subst (λ n. Stored p n code) (omega (arith, eight)) here)

module _ (s3k : S3k) (aes : Aes128) (reads : ReadsBuffer aes) where
  -- A pointer further on.
  pub memory_add :
      (k : s3k.Kernel) (address offset : ℕ)
      → memory s3k aes true k (add64 address offset)
        ≡ (λ j. memory s3k aes true k address (offset + j))
  memory_add k address offset = fun_ext (λ j. ap (λ a. s3k.load_byte a k) (omega arith))

  -- Code that the app stores with the signature that `app_format_sig` wrote for it, with its size
  -- and eight bytes more between them, passes the monitor's check, at any address; with `SIG_BROKEN`
  -- it passes only where the computed signature itself begins with the two bytes 0xFF. The code has
  -- 16 bytes or more, less than 2^31, and the MAC of a buffer depends on the buffer's bytes only.
  pub format_sig-is_signed :
      (broken : Bool) (pad code : List ℕ) (k : s3k.Kernel) (address : ℕ)
      → length pad ≡ 8
      → 16 ≤ length code
      → length code < 2 ^ 31
      → Stored (memory s3k aes true k address) 0 (image_of_code aes broken pad code)
      → let signature = calc_sig aes (bytes_from code 0) (pos (length code)) in
        is_signed s3k aes true k address
        ≡ (not broken || ((signature 0 == 0xFF) && (signature 1 == 0xFF)))
  unfolding is_signed calc_sig
  format_sig-is_signed broken pad code k address eight large small h =
      let p = memory s3k aes true k address in
      let (signature, size, here) = Stored-pieces aes broken pad code p eight h in
      let word =
        ap (load_word 8) (memory_add k address 0x10)
        ∙ load_word-little_endian 8 0x10 (length code) p (omega arith) size in
      let positive : to_int (length code) ≡ pos (length code) = int_small (length code) small in
      let code_at = memory_add k address 0x20 in
      let s = calc_sig aes (bytes_from code 0) (pos (length code)) in
      rw (is_signed, word, positive, code_at)
        (compared_at broken s p (calc_sig aes (λ j. p (0x20 + j)) (pos (length code)))
          (λ j below.
            let start : j ≡ 0 + j = omega arith in
            ap p start ∙ Stored-first_bytes p 0 16 (written broken s) j signature below)
          (λ j below.
            reads (aes.keyexpansion mac_key) (length code) (λ i. p (0x20 + i)) (bytes_from code 0)
              large (λ i inside. Stored-bytes_from p 0x20 code i here inside) j below))
