-- ===== src/Format/Signed.antt =====
-- What the tools write, as the monitor verifies it.
use s3k_monitor.Prelude.{
  ℕ, zero, suc, ◌+◌, ◌-◌, ◌≤◌, ◌<◌, ◌≡◌, ◌≢◌, inl, inr, Bool, true, false, ◌&&◌, ◌||◌, not, List,
  [], ◌∷◌, ◌++◌, some, get_elem?, length, length-append, ltb, arith, refl, ap, sym, ◌∙◌,
  if◌then◌else◌, ◌==◌, pos, done, replicate, Bool-cases,
}
use mathlib.Core.Path.{fun_ext}
use s3k_monitor.S3k.{S3k}
use s3k_monitor.Codeauth.{Aes128, Bytes, calc_sig, comp_sig}
use s3k_monitor.Codeauth.Compare.{comp_sig_lem}
use s3k_monitor.Monitor.Setup.{bytes_from, is_authentic}
use s3k_monitor.Format.{
  sections_size, first_bytes, break_signature, write_signed, read_loop, pad_loop, format,
}

pub length-first_bytes : (n : ℕ) (p : Bytes) → length (first_bytes n p) ≡ n
length-first_bytes zero p = refl
length-first_bytes (suc n) p = ap suc (length-first_bytes n (λ j. p (suc j)))

get_elem?-append : (xs ys : List ℕ) (j : ℕ) → get_elem? (xs ++ ys) (length xs + j) ≡ get_elem? ys j
get_elem?-append [] ys j = ap (get_elem? ys) (omega arith)
get_elem?-append (x ∷ xs) ys j =
    let next : length (x ∷ xs) + j ≡ suc (length xs + j) = omega arith in
    ap (get_elem? (x ∷ (xs ++ ys))) next ∙ get_elem?-append xs ys j

get_elem?-first_bytes :
    (n : ℕ) (p : Bytes) (ys : List ℕ) (j : ℕ)
    → j < n
    → get_elem? (first_bytes n p ++ ys) j ≡ some (p j)
get_elem?-first_bytes zero p ys j below = absurd (omega arith)
get_elem?-first_bytes (suc n) p ys zero below = refl
get_elem?-first_bytes (suc n) p ys (suc j) below =
    get_elem?-first_bytes n (λ i. p (suc i)) ys j (omega arith)

-- A pointer behind the first 16 bytes.
bytes_from-append :
    (p : Bytes) (ys : List ℕ) → bytes_from (first_bytes 16 p ++ ys) 16 ≡ bytes_from ys 0
bytes_from-append p ys = fun_ext (λ j.
    let l = length-first_bytes 16 p in
    let there = get_elem?-append (first_bytes 16 p) ys j in
    let offset : 16 + j ≡ length (first_bytes 16 p) + j = omega (arith, l) in
    let start : 0 + j ≡ j = omega arith in rw (offset, there, start, bytes_from) refl)

bytes_from-first_bytes :
    (p : Bytes) (ys : List ℕ) (j : ℕ) → j < 16 → bytes_from (first_bytes 16 p ++ ys) 0 j ≡ p j
bytes_from-first_bytes p ys j below =
    let start : 0 + j ≡ j = omega arith in
    let there = get_elem?-first_bytes 16 p ys j below in rw (start, there, bytes_from) refl

abbrev pub written : Bool → Bytes → Bytes
written broken signature = if broken then break_signature signature else signature

-- The comparison of what was written with the signature.
pub compared_at :
    (broken : Bool) (signature p q : Bytes)
    → ((j : ℕ) → j < 16 → p j ≡ written broken signature j)
    → ((j : ℕ) → j < 16 → q j ≡ signature j)
    → (comp_sig p q == 1) ≡ (not broken || ((signature 0 == 0xFF) && (signature 1 == 0xFF)))
unfolding break_signature
compared_at broken signature p q first second = elim (comp_sig_lem p q) [
  | inl (r, same) ↦ rw r (good broken (agrees same 0 (omega arith)) (agrees same 1 (omega arith)))
  | inr (r, j, below, ne) ↦ rw r (bad broken j (λ e. ne (first j below ∙ e ∙ sym (second j below))))
]
  where
    agrees :
        ((j : ℕ) → j < 16 → p j ≡ q j) → (j : ℕ) → j < 16 → written broken signature j ≡ signature j
    agrees same j below = sym (first j below) ∙ same j below ∙ second j below

    good :
        (b : Bool)
        → written b signature 0 ≡ signature 0
        → written b signature 1 ≡ signature 1
        → true ≡ (not b || ((signature 0 == 0xFF) && (signature 1 == 0xFF)))
    good true e0 e1 = ground (arith, e0, e1)
    good false e0 e1 = refl

    bad :
        (b : Bool) (j : ℕ)
        → written b signature j ≢ signature j
        → false ≡ (not b || ((signature 0 == 0xFF) && (signature 1 == 0xFF)))
    bad true zero ne = ground (arith, ne)
    bad true (suc zero) ne = ground (arith, ne)
    bad true (suc (suc j)) ne = absurd (ne refl)
    bad false j ne = absurd (ne refl)

module _ (s3k : S3k) (aes : Aes128) where
  pub write_signed-is_authentic :
      (broken : Bool) (app_buffer : List ℕ)
      → let signature = calc_sig aes (bytes_from app_buffer 0) (pos (length app_buffer)) in
        is_authentic s3k aes (write_signed aes broken app_buffer)
        ≡ (not broken || ((signature 0 == 0xFF) && (signature 1 == 0xFF)))
  unfolding write_signed is_authentic
  write_signed-is_authentic broken app_buffer =
      let signature = calc_sig aes (bytes_from app_buffer 0) (pos (length app_buffer)) in
      let image = first_bytes 16 (written broken signature) ++ app_buffer in
      let behind = bytes_from-append (written broken signature) app_buffer in
      let size : length image - 16 ≡ length app_buffer = omega (
        arith,
        length-append (first_bytes 16 (written broken signature)) app_buffer,
        length-first_bytes 16 (written broken signature),
      ) in
      rw (behind, size)
        (compared_at broken signature (bytes_from image 0) signature
          (bytes_from-first_bytes (written broken signature) app_buffer) (λ j below. refl))

-- What the loop has filled the header up to.
abbrev pub header_of : List ℕ → List ℕ
header_of app_buffer = app_buffer ++ replicate (sections_size - length app_buffer) 0

pad_step :
    (app_buffer : List ℕ)
    → length app_buffer < sections_size
    → header_of (app_buffer ++ (0 ∷ [])) ≡ header_of app_buffer
pad_step app_buffer room =
    let l = length-append app_buffer (0 ∷ []) in
    let left : sections_size - length app_buffer
        ≡ suc (sections_size - length (app_buffer ++ (0 ∷ []))) =
      omega (arith, l) in
    rw left (append_assoc app_buffer (0 ∷ []) _)
  where
    append_assoc : (xs ys zs : List ℕ) → (xs ++ ys) ++ zs ≡ xs ++ (ys ++ zs)
    append_assoc [] ys zs = refl
    append_assoc (x ∷ xs) ys zs = ap (λ l. x ∷ l) (append_assoc xs ys zs)

append_nil : (xs : List ℕ) → xs ++ [] ≡ xs
append_nil [] = refl
append_nil (x ∷ xs) = ap (λ l. x ∷ l) (append_nil xs)

full : (app_buffer : List ℕ) → sections_size ≤ length app_buffer → header_of app_buffer ≡ app_buffer
full app_buffer p =
    let none_left : sections_size - length app_buffer ≡ 0 = omega arith in
    rw none_left (append_nil app_buffer)

pub pad_loop_lem :
    (fuel : ℕ) (app_buffer : List ℕ)
    → sections_size ≤ length app_buffer + fuel
    → pad_loop fuel app_buffer ≡ done (header_of app_buffer)
unfolding pad_loop
pad_loop_lem zero app_buffer enough =
    let stops : ltb (length app_buffer) sections_size ≡ false = ground arith in
    rw stops (ap done (sym (full app_buffer (omega arith))))
pad_loop_lem (suc fuel) app_buffer enough =
    elim (Bool-cases (ltb (length app_buffer) sections_size)) [
      | inl more ↦
          let l = length-append app_buffer (0 ∷ []) in
          rw more (
            pad_loop_lem fuel (app_buffer ++ (0 ∷ [])) (omega (arith, l))
            ∙ ap done (pad_step app_buffer (ground arith)))
      | inr stops ↦ rw stops (ap done (sym (full app_buffer (ground arith))))
    ]

-- The image that `app_format` writes.
abbrev pub image_of : (List ℕ → ℕ) → Aes128 → Bool → List (List ℕ) → List ℕ → List ℕ
image_of strtol aes broken lines app_bin =
    write_signed aes broken (header_of (read_loop strtol lines []) ++ app_bin)

pub format_done :
    (strtol : List ℕ → ℕ) (aes : Aes128) (broken : Bool) (lines : List (List ℕ)) (app_bin : List ℕ)
    → format strtol aes broken (some lines) (some app_bin)
      ≡ done (image_of strtol aes broken lines app_bin)
unfolding format
format_done strtol aes broken lines app_bin =
    let padded = pad_loop_lem sections_size (read_loop strtol lines []) (omega arith) in
    rw (format, padded) refl
