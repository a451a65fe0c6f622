-- ===== src/Print/Rendered.antt =====
-- What `alt_printf` sends for a format and its arguments.
use s3k_monitor.Prelude.{
  ℕ, suc, ◌+◌, ◌%◌, ◌^◌, ◌≡◌, refl, arith, ◌==◌, if◌then◌else◌, List, [], ◌∷◌, ◌++◌, length,
  length-append, map, ap, ◌∙◌, sym, inl, inr, Option, none, some, done, fault, Run, ◌>>=◌, u8,
  Bool-cases,
}
use s3k_monitor.Print.{
  Uart, Arg, word, text, Conversion, putchar, putstr, take_word, take_text, convert, printf_loop,
  printf,
}
use s3k_monitor.Print.Prints.{
  extend, extend-nil, extend-append, Prints, Prints-return, putchar-Prints, putstr_loop-Prints,
}
use s3k_monitor.Print.Hex.{hex_text, print_hex-Prints}

-- The text of an integer argument and of a string, and the arguments left.
abbrev pub word_text : (ℕ → List ℕ) → List Arg → Option (List ℕ × List Arg)
word_text f [] = none
word_text f (text s ∷ args) = none
word_text f (word x ∷ args) = some (f x, args)

abbrev pub string_text : List Arg → Option (List ℕ × List Arg)
string_text [] = none
string_text (word x ∷ args) = none
string_text (text s ∷ args) = some (map u8 s, args)

-- The text of the conversion behind a `%`, and the arguments left. An unknown one has no text.
abbrev pub conversion : ℕ → List Arg → Option (List ℕ × List Arg)
conversion c args =
    if c == b'c'
    then word_text (λ x. u8 x ∷ []) args
    else if c == b's'
    then string_text args
    else if c == b'x'
    then word_text (λ x. hex_text 8 (x % 2 ^ 32)) args
    else if c == b'X'
    then word_text (λ x. hex_text 16 (x % 2 ^ 64)) args
    else if c == b'%'
    then some (b'%' ∷ [], args)
    else some ([], args)

abbrev pub behind : List ℕ → Option (List ℕ) → Option (List ℕ)
behind s none = none
behind s (some t) = some (s ++ t)

abbrev pub converted : Option (List ℕ × List Arg) → (List Arg → Option (List ℕ)) → Option (List ℕ)
converted none rest = none
converted (some (s, args)) rest = behind s (rest args)

-- The text of a format: its characters, the conversions replaced by their texts. There is none where
-- an argument is missing or of the other kind, or a `%` ends the format.
abbrev pub rendered : List ℕ → List Arg → Option (List ℕ)
rendered [] args = some []
rendered (c ∷ []) args = if c == b'%' then none else some (u8 c ∷ [])
rendered (c ∷ d ∷ rest) args =
    let plain = rendered (d ∷ rest) args in
    let next = λ (a : List Arg). rendered rest a in
    if c == b'%' then converted (conversion d args) next else behind (u8 c ∷ []) plain

-- Sending a conversion's text.
abbrev send_conversion : Option (List ℕ × List Arg) → Run Uart Conversion
send_conversion none u = fault
send_conversion (some (s, args)) u = done ((length s, args), extend s u)

-- Sending a text, behind `len` characters: it comes to the number of all of them.
abbrev pub send_text : ℕ → Option (List ℕ) → Run Uart ℕ
send_text len none u = fault
send_text len (some s) u = done (len + length s, extend s u)

take_word_lem :
    (print : ℕ → Run Uart ℕ) (f : ℕ → List ℕ)
    → ((x : ℕ) → Prints (print x) (length (f x)) (f x))
    → (args : List Arg) (u : Uart) → take_word print args u ≡ send_conversion (word_text f args) u
unfolding take_word
take_word_lem print f h [] u = refl
take_word_lem print f h (text s ∷ args) u = refl
take_word_lem print f h (word x ∷ args) u =
    Prints-return (print x) (λ n. (n, args)) (length (f x)) (f x) (h x) u

length-u8 : (s : List ℕ) → length (map u8 s) ≡ length s
length-u8 [] = refl
length-u8 (c ∷ s) = ap suc (length-u8 s)

take_text_lem :
    (args : List Arg) (u : Uart) → take_text args u ≡ send_conversion (string_text args) u
unfolding take_text putstr
take_text_lem [] u = refl
take_text_lem (word x ∷ args) u = refl
take_text_lem (text s ∷ args) u =
    let count : 0 + length s ≡ length (map u8 s) = omega (arith, length-u8 s) in
    Prints-return (putstr s) (λ n. (n, args)) (length (map u8 s)) (map u8 s)
      (rw count at (putstr_loop-Prints s 0)) u

convert_lem :
    (c : ℕ) (args : List Arg) (u : Uart) → convert c args u ≡ send_conversion (conversion c args) u
unfolding convert
convert_lem c args u = elim (Bool-cases (c == b'c')) [
  | inl e ↦ rw e (
      take_word_lem _ (λ x. u8 x ∷ [])
        (λ x. Prints-return (putchar x) (λ _. 1) (u8 x) (u8 x ∷ []) (putchar-Prints x)) args u)
  | inr e ↦ rw e (elim (Bool-cases (c == b's')) [
    | inl e ↦ rw e (take_text_lem args u)
    | inr e ↦ rw e (elim (Bool-cases (c == b'x')) [
      | inl e ↦ rw e (
          take_word_lem _ (λ x. hex_text 8 (x % 2 ^ 32)) (λ x. print_hex-Prints 8 (x % 2 ^ 32)) args
            u)
      | inr e ↦ rw e (elim (Bool-cases (c == b'X')) [
        | inl e ↦ rw e (
            take_word_lem _ (λ x. hex_text 16 (x % 2 ^ 64)) (λ x. print_hex-Prints 16 (x % 2 ^ 64))
              args u)
        | inr e ↦ rw e (elim (Bool-cases (c == b'%')) [
          | inl e ↦ rw e (
              Prints-return (putchar b'%') (λ _. (1, args)) b'%' (b'%' ∷ []) (putchar-Prints b'%')
                u)
          | inr e ↦ rw e (ap (λ v. done ((0, args), v)) (sym (extend-nil u)))
        ])
      ])
    ])
  ])
]

-- Sending a text behind another one.
send_text-behind :
    (len : ℕ) (s : List ℕ) (o : Option (List ℕ)) (u : Uart)
    → send_text (len + length s) o (extend s u) ≡ send_text len (behind s o) u
send_text-behind len s none u = refl
send_text-behind len s (some t) u =
    let count : len + length s + length t ≡ len + length (s ++ t) =
      omega (arith, length-append s t) in
    rw count (ap (λ v. done (len + length (s ++ t), v)) (extend-append s t u))

-- What follows a conversion.
send_next :
    (o : Option (List ℕ × List Arg)) (f : Conversion → Run Uart ℕ)
    (rest : List Arg → Option (List ℕ)) (len : ℕ) (u : Uart)
    → ((n : ℕ) (args : List Arg) (v : Uart) → f (n, args) v ≡ send_text (len + n) (rest args) v)
    → (send_conversion o >>= f) u ≡ send_text len (converted o rest) u
send_next none f rest len u h = refl
send_next (some (s, args)) f rest len u h =
    h (length s) args (extend s u) ∙ send_text-behind len s (rest args) u

printf_loop_lem :
    (fmt : List ℕ) (args : List Arg) (len : ℕ) (u : Uart)
    → printf_loop fmt args len u ≡ send_text len (rendered fmt args) u
unfolding printf_loop
printf_loop_lem [] args len u =
    let count : len ≡ len + 0 = omega arith in
    ap (λ v. done (len, v)) (sym (extend-nil u)) ∙ ap (λ n. done (n, extend [] u)) count
printf_loop_lem (c ∷ []) args len u = elim (Bool-cases (c == b'%')) [
  | inl e ↦ rw e refl
  | inr e ↦ rw e (Prints-return (putchar c) (λ _. len + 1) (u8 c) (u8 c ∷ []) (putchar-Prints c) u)
]
printf_loop_lem (c ∷ d ∷ rest) args len u = elim (Bool-cases (c == b'%')) [
  | inl e ↦ rw e (
      rw (convert_lem d args u, ◌>>=◌)
        (send_next (conversion d args) (λ r. printf_loop rest r.1 (len + r.0)) (rendered rest) len u
          (λ n a v. printf_loop_lem rest a (len + n) v)))
  | inr e ↦ rw e (
      rw (putchar-Prints c u, ◌>>=◌)
        (printf_loop_lem (d ∷ rest) args (len + 1) (extend (u8 c ∷ []) u)
          ∙ send_text-behind len (u8 c ∷ []) (rendered (d ∷ rest) args) u))
]

-- `alt_printf` sends the text of its format and arguments and returns its length; where there is
-- none it reads an argument or a character that is not there.
pub printf_lem :
    (fmt : List ℕ) (args : List Arg) (u : Uart)
    → printf fmt args u ≡ send_text 0 (rendered fmt args) u
unfolding printf
printf_lem fmt args u = printf_loop_lem fmt args 0 u

-- A format whose text is known.
pub printf-Prints :
    (fmt : List ℕ) (args : List Arg) (s : List ℕ)
    → rendered fmt args ≡ some s
    → Prints (printf fmt args) (0 + length s) s
printf-Prints fmt args s e u = rw (printf_lem fmt args u) (rw e refl)
