-- ===== src/Print.antt =====
-- common/altio.c: output to the UART, character by character. A C string is the list of its
-- characters before the NUL.
pub mod Prints
pub mod Hex
pub mod Rendered
pub mod Calls
pub mod Tests
use Prim.Native.Char.{code}
use Prim.Native.String.{String}
use s3k_monitor.Prelude.{
  ℕ, zero, suc, ◌+◌, ◌*◌, ◌/◌, ◌%◌, ◌^◌, if◌then◌else◌, ◌==◌, List, [], ◌∷◌, ◌++◌, fault, spin,
  done, Run, pure, ◌>>=◌, ◌>>◌, modify, index, u8,
}

-- The device at `UART_BASE`: what was written to its first register, what its sixth register shows
-- at the reads to come, and what its first register then holds.
pub record Uart : Type 0 where
  pub sent : List ℕ
  pub status : List ℕ
  pub received : ℕ

-- The characters of a string literal.
abbrev pub codes : String → List ℕ
codes String.[] = []
codes (String.◌∷◌ c s) = code c ∷ codes s

-- An argument in its 64-bit slot of the RISC-V calling convention, and a pointer to a string.
pub data Arg : Type 0 where
  word : ℕ → Arg
  text : List ℕ → Arg

-- The reads of the status until it says that a character is there.
unfoldable pub getchar_loop : List ℕ → Run Uart ℕ
getchar_loop [] u = spin
getchar_loop (s ∷ rest) u =
    let again = getchar_loop rest u in
    if s % 2 == 1 then done (u.received, record u { status = rest }) else again

unfoldable pub getchar : Run Uart ℕ
getchar u = getchar_loop u.status u

unfoldable pub putchar : ℕ → Run Uart ℕ
putchar c = do modify (λ u. record u { sent = u.sent ++ (u8 c ∷ []) }); pure (u8 c)

-- The loop of `alt_putstr`, where `i` characters are sent.
unfoldable pub putstr_loop : List ℕ → ℕ → Run Uart ℕ
putstr_loop [] i = pure i
putstr_loop (c ∷ str) i = do putchar c; putstr_loop str (i + 1)

unfoldable pub putstr : List ℕ → Run Uart ℕ
putstr str = putstr_loop str 0

unfoldable pub puts : List ℕ → Run Uart ℕ
puts str = do len ← putstr str; putchar 13; putchar 10; pure len

abbrev pub hex : List ℕ
hex = codes "0123456789abcdef"

-- `for (int i = 4 * (n - 1); i >= 0; i -= 4)`, with `n` digits left: it comes to the number of
-- characters that it sends.
unfoldable pub hex_loop : ℕ → ℕ → Run Uart ℕ
hex_loop zero x = pure 0
hex_loop (suc i) x = do
  sent ←
      if x / 2 ^ (4 * i) == 0
      then pure 0
      else (do c ← index hex (x / 2 ^ (4 * i) % 16); putchar c; pure 1)
  rest ← hex_loop i x
  pure (sent + rest)

-- The cases `x` and `X`, for a number of at most `n` digits.
unfoldable pub print_hex : ℕ → ℕ → Run Uart ℕ
print_hex n x = if x == 0 then (do putchar b'0'; pure 1) else hex_loop n x

-- What a conversion comes to: the number of characters that it sends, and the arguments left.
abbrev pub Conversion : Type 0
Conversion = ℕ × List Arg

-- `va_arg` of an integer, and what is then printed. A pointer in its place is left out as a fault.
unfoldable pub take_word : (ℕ → Run Uart ℕ) → List Arg → Run Uart Conversion
take_word print [] u = fault
take_word print (text s ∷ args) u = fault
take_word print (word x ∷ args) u = (do n ← print x; pure (n, args)) u

-- `va_arg` of a string. A number in its place is no pointer that can be read.
unfoldable pub take_text : List Arg → Run Uart Conversion
take_text [] u = fault
take_text (word x ∷ args) u = fault
take_text (text s ∷ args) u = (do n ← putstr s; pure (n, args)) u

-- The switch on the character behind a `%`.
unfoldable pub convert : ℕ → List Arg → Run Uart Conversion
convert c args =
    if c == b'c'
    then take_word (λ x. do putchar x; pure 1) args
    else if c == b's'
    then take_text args
    else if c == b'x'
    then take_word (λ x. print_hex 8 (x % 2 ^ 32)) args
    else if c == b'X'
    then take_word (λ x. print_hex 16 (x % 2 ^ 64)) args
    else if c == b'%'
    then (do putchar b'%'; pure (1, args))
    else pure (0, args)

-- The loop of `alt_printf`, where `len` characters are sent. Behind a `%` that ends the format the
-- loop goes on reading past the NUL.
unfoldable pub printf_loop : List ℕ → List Arg → ℕ → Run Uart ℕ
printf_loop [] args len = pure len
printf_loop (c ∷ []) args len =
    if c == b'%' then (λ u. fault) else (do putchar c; printf_loop [] args (len + 1))
printf_loop (c ∷ d ∷ rest) args len =
    let plain = λ (u : Uart). printf_loop (d ∷ rest) args (len + 1) u in
    let next = λ (r : Conversion) (u : Uart). printf_loop rest r.1 (len + r.0) u in
    if c == b'%' then convert d args >>= next else putchar c >> plain

unfoldable pub printf : List ℕ → List Arg → Run Uart ℕ
printf fmt args = printf_loop fmt args 0
