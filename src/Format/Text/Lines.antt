-- ===== src/Format/Text/Lines.antt =====
-- Lines of numbers in base 16, as `fgets` and `strtol` read them.
use s3k_monitor.Prelude.{
  ℕ, zero, suc, ◌+◌, ◌-◌, ◌*◌, ◌^◌, ◌≤◌, ◌<◌, ◌≡◌, ◌≢◌, ◌==◌, refl, ap, ◌∙◌, sym, arith, inl, inr,
  Bool, true, false, ◌&&◌, ◌||◌, if◌then◌else◌, List, [], ◌∷◌, ◌++◌, none, some, length, map, ltb,
  Bool-cases,
}
use mathlib.Core.List.{append_assoc, append-nil}
use s3k_monitor.Print.{codes}
use s3k_monitor.Print.Hex.{
  digit, number_from, AllDigits, digits, hex_text, IsHex, hex_text-IsHex, digit_value-digit,
}
use s3k_monitor.Format.Text.{
  fgets_loop, fgets_lines, skip_spaces, hex_value, digits_from, has_prefix, magnitude, positive,
  signed, strtol, is_space,
}

-- A line with a number below 2^56, with the prefix `0x` or without.
abbrev pub line_text : Bool × ℕ → List ℕ
line_text (prefixed, x) = (if prefixed then codes "0x" else []) ++ (hex_text 14 x ++ (10 ∷ []))

abbrev pub file_text : List (Bool × ℕ) → List ℕ
file_text [] = []
file_text (l ∷ ls) = line_text l ++ file_text ls

abbrev pub AllFit : List (Bool × ℕ) → Type 0
AllFit [] = Unit
AllFit ((prefixed, x) ∷ ls) = (x < 2 ^ 56) × AllFit ls

abbrev NoBreak : List ℕ → Type 0
NoBreak [] = Unit
NoBreak (c ∷ s) = (c ≢ 10) × NoBreak s

-- A line that fits is given whole.
fgets_loop-line :
    (s rest line : List ℕ) (room : ℕ)
    → NoBreak s
    → length s < room
    → fgets_loop (s ++ (10 ∷ rest)) room line ≡ (line ++ (s ++ (10 ∷ []))) ∷ fgets_loop rest 17 []
unfolding fgets_loop
fgets_loop-line [] rest line room clear fits = refl
fgets_loop-line (c ∷ s) rest line room (other, clear) fits =
    let goes_on : (c == 10 || room == 1) ≡ false = ground (arith, other) in
    rw goes_on (
      fgets_loop-line s rest (line ++ (c ∷ [])) (room - 1) clear (omega arith)
      ∙ ap (λ l. l ∷ fgets_loop rest 17 []) (append_assoc line (c ∷ []) (s ++ (10 ∷ []))))

digits-NoBreak : (s : List ℕ) → AllDigits s → NoBreak s
digits-NoBreak [] all = tt
digits-NoBreak (c ∷ s) ((d, below, e), all) = (λ f. ground (arith, f, e), digits-NoBreak s all)

length-digits : (n x : ℕ) → length (digits n x) ≤ n
length-digits zero x = omega arith
length-digits (suc i) x = ground (arith, length-digits i x)

hex_value-digit : (d : ℕ) → d < 16 → hex_value (digit d) ≡ some d
hex_value-digit d below = ground arith

digits_from-digit :
    (acc d : ℕ) (s : List ℕ) → d < 16 → digits_from acc (digit d ∷ s) ≡ digits_from (16 * acc + d) s
unfolding digits_from
digits_from-digit acc d s below =
    ap (λ o. elim o [ none ↦ acc | some v ↦ digits_from (16 * acc + v) s ])
      (hex_value-digit d below)

-- The digits in front of the end of a line.
digits_from-number_from :
    (acc : ℕ) (s : List ℕ) → AllDigits s → digits_from acc (s ++ (10 ∷ [])) ≡ number_from acc s
digits_from-number_from acc [] all = unfold digits_from in refl
digits_from-number_from acc (c ∷ s) ((d, below, e), all) =
    ap (λ v. digits_from acc (v ∷ (s ++ (10 ∷ [])))) e
    ∙ digits_from-digit acc d (s ++ (10 ∷ [])) below
    ∙ digits_from-number_from (16 * acc + d) s all
    ∙ ap (λ v. number_from (16 * acc + v) s) (sym (digit_value-digit d below))
    ∙ ap (λ v. number_from acc (v ∷ s)) (sym e)

and_false : (b : Bool) → (b && false) ≡ false
and_false true = refl
and_false false = refl

-- Digits have no prefix, and a prefix in front of a digit is taken off.
no_prefix : (s : List ℕ) → AllDigits s → has_prefix (s ++ (10 ∷ [])) ≡ false
no_prefix [] all = refl
no_prefix (a ∷ []) all = refl
no_prefix (a ∷ b ∷ []) (first, ((d, below, e), others)) =
    let letter : (b == b'x' || b == b'X') ≡ false = ground (arith, e) in
    rw letter (and_false (a == b'0'))
no_prefix (a ∷ b ∷ c ∷ s) (first, ((d, below, e), others)) =
    let letter : (b == b'x' || b == b'X') ≡ false = ground (arith, e) in
    rw letter (and_false (a == b'0'))

magnitude-plain : (s : List ℕ) → AllDigits s → magnitude (s ++ (10 ∷ [])) ≡ number_from 0 s
unfolding magnitude
magnitude-plain s all = rw (no_prefix s all) (digits_from-number_from 0 s all)

magnitude-prefixed :
    (d : ℕ) (s : List ℕ)
    → AllDigits (digit d ∷ s)
    → d < 16
    → magnitude (codes "0x" ++ (digit d ∷ (s ++ (10 ∷ [])))) ≡ number_from 0 (digit d ∷ s)
unfolding magnitude
magnitude-prefixed d s all below =
    let found : has_prefix (codes "0x" ++ (digit d ∷ (s ++ (10 ∷ [])))) ≡ true =
      ap (λ o. elim o [ none ↦ false | some v ↦ true ]) (hex_value-digit d below) in
    rw (found) (digits_from-number_from 0 (digit d ∷ s) all)

-- A text that begins with a digit is the number behind its prefix.
strtol-digit :
    (d : ℕ) (s : List ℕ) → d < 16 → strtol (digit d ∷ s) ≡ positive (magnitude (digit d ∷ s))
unfolding strtol skip_spaces signed
strtol-digit d s below =
    let letter : is_space (digit d) ≡ false = ground arith in
    let plus : (digit d == b'+') ≡ false = ground arith in
    let minus : (digit d == b'-') ≡ false = ground arith in rw (letter) (rw (minus, plus) refl)

positive-small : (x : ℕ) → x < 2 ^ 56 → positive x ≡ x
positive-small x small = let fits : ltb x (2 ^ 63) ≡ true = ground arith in rw fits refl

strtol-hex :
    (prefixed : Bool) (x : ℕ) (s : List ℕ)
    → x < 2 ^ 56
    → IsHex x s
    → strtol ((if prefixed then codes "0x" else []) ++ (s ++ (10 ∷ []))) ≡ x
strtol-hex true x [] small h = unfold strtol skip_spaces signed magnitude digits_from in h.reads
strtol-hex false x [] small h = unfold strtol skip_spaces signed magnitude digits_from in h.reads
strtol-hex false x (c ∷ s) small h =
    let ((d, below, e), others) = h.all_digits in
    ap (λ v. strtol (v ∷ (s ++ (10 ∷ [])))) e
    ∙ strtol-digit d (s ++ (10 ∷ [])) below
    ∙ ap (λ v. positive (magnitude (v ∷ (s ++ (10 ∷ []))))) (sym e)
    ∙ ap positive (magnitude-plain (c ∷ s) h.all_digits ∙ h.reads)
    ∙ positive-small x small
strtol-hex true x (c ∷ s) small h =
    let ((d, below, e), others) = h.all_digits in
    strtol-digit 0 (b'x' ∷ (c ∷ (s ++ (10 ∷ [])))) (omega arith)
    ∙ ap positive (
        ap (λ v. magnitude (codes "0x" ++ (v ∷ (s ++ (10 ∷ []))))) e
        ∙ magnitude-prefixed d s ((d, below, refl), others) below
        ∙ ap (λ v. number_from 0 (v ∷ s)) (sym e)
        ∙ h.reads)
    ∙ positive-small x small

strtol-line_text : (l : Bool × ℕ) → l.1 < 2 ^ 56 → strtol (line_text l) ≡ l.1
strtol-line_text (prefixed, x) small =
    strtol-hex prefixed x (hex_text 14 x) small (hex_text-IsHex 14 x small)

length-hex_text : (x : ℕ) → length (hex_text 14 x) ≤ 14
length-hex_text x = elim (Bool-cases (x == 0)) [
  | inl e ↦ rw e (omega arith)
  | inr e ↦ rw e (length-digits 14 x)
]

-- A line without its end.
abbrev body : Bool × ℕ → List ℕ
body (prefixed, x) = (if prefixed then codes "0x" else []) ++ hex_text 14 x

body-fits : (l : Bool × ℕ) → l.1 < 2 ^ 56 → NoBreak (body l) × (length (body l) < 17)
body-fits (prefixed, x) small =
    let clear = digits-NoBreak (hex_text 14 x) (hex_text-IsHex 14 x small).all_digits in
    let short = length-hex_text x in go prefixed clear short
  where
    go :
        (prefixed : Bool)
        → NoBreak (hex_text 14 x)
        → length (hex_text 14 x) ≤ 14
        → NoBreak (body (prefixed, x)) × (length (body (prefixed, x)) < 17)
    go true clear short = ((omega arith, (omega arith, clear)), omega (arith, short))
    go false clear short = (clear, omega (arith, short))

regroup : (p h rest : List ℕ) → (p ++ (h ++ (10 ∷ []))) ++ rest ≡ (p ++ h) ++ (10 ∷ rest)
regroup p h rest =
    append_assoc p (h ++ (10 ∷ [])) rest
    ∙ ap (λ t. p ++ t) (append_assoc h (10 ∷ []) rest)
    ∙ sym (append_assoc p h (10 ∷ rest))

line_text-body : (l : Bool × ℕ) (rest : List ℕ) → line_text l ++ rest ≡ body l ++ (10 ∷ rest)
line_text-body (prefixed, x) rest =
    regroup (if prefixed then codes "0x" else []) (hex_text 14 x) rest

-- The file of some numbers is read line by line, and each line gives its number.
pub fgets_lines-file_text :
    (ls : List (Bool × ℕ)) → AllFit ls → map strtol (fgets_lines (file_text ls)) ≡ map (λ l. l.1) ls
unfolding fgets_lines
fgets_lines-file_text [] fit = unfold fgets_loop in refl
fgets_lines-file_text (l ∷ ls) (small, fit) =
    let (clear, short) = body-fits l small in
    ap (λ s. map strtol (fgets_loop s 17 [])) (line_text-body l (file_text ls))
    ∙ ap (map strtol) (fgets_loop-line (body l) (file_text ls) [] 17 clear short)
    ∙ ap (λ v. strtol v ∷ map strtol (fgets_loop (file_text ls) 17 []))
        (sym (line_text-body l []) ∙ append-nil (line_text l))
    ∙ ap (λ v. v ∷ map strtol (fgets_loop (file_text ls) 17 [])) (strtol-line_text l small)
    ∙ ap (λ t. l.1 ∷ t) (fgets_lines-file_text ls fit)
