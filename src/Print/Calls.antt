-- ===== src/Print/Calls.antt =====
-- What the functions of common/altio.c do to the UART: the numbers that `alt_printf` sends, the lines
-- of `alt_puts`, and the wait of `alt_getchar`.
use s3k_monitor.Prelude.{
  ℕ, ◌+◌, ◌%◌, ◌^◌, ◌≡◌, refl, arith, List, [], ◌∷◌, ◌++◌, length, map, done, pure, ◌>>◌, u8,
}
use mathlib.Core.List.{append-nil}
use s3k_monitor.Print.{Uart, word, codes, getchar_loop, putchar, putstr, puts, printf}
use s3k_monitor.Print.Prints.{
  Prints, Prints-bind, Prints-return, putchar-Prints, putstr_loop-Prints,
}
use s3k_monitor.Print.Hex.{IsHex, hex_text, hex_text-IsHex}
use s3k_monitor.Print.Rendered.{printf-Prints}

-- The code sends some characters, comes to their number, and they are `x` in base 16.
abbrev pub PrintsHex : List ℕ → ℕ → ℕ → Type 0
PrintsHex fmt arg x =
    (s : List ℕ) × Prints (printf fmt (word arg ∷ [])) (0 + length s) s × IsHex x s

-- For every argument, `%X` sends its 64 bits and `%x` its low 32 bits as a number in base 16: digits
-- that read as the number, without a leading 0 but for 0 itself. The number of characters sent is
-- what `alt_printf` returns.
pub printf-IsHex :
    (x : ℕ) → PrintsHex (codes "%X") x (x % 2 ^ 64) × PrintsHex (codes "%x") x (x % 2 ^ 32)
printf-IsHex x = (
  (
    hex_text 16 (x % 2 ^ 64) ++ [],
    printf-Prints (codes "%X") (word x ∷ []) _ refl,
    rw (append-nil (hex_text 16 (x % 2 ^ 64))) (hex_text-IsHex 16 (x % 2 ^ 64) (omega arith)),
  ),
  (
    hex_text 8 (x % 2 ^ 32) ++ [],
    printf-Prints (codes "%x") (word x ∷ []) _ refl,
    rw (append-nil (hex_text 8 (x % 2 ^ 32))) (hex_text-IsHex 8 (x % 2 ^ 32) (omega arith)),
  ),
)

putstr-Prints : (str : List ℕ) → Prints (putstr str) (0 + length str) (map u8 str)
unfolding putstr
putstr-Prints str = putstr_loop-Prints str 0

-- `alt_puts` sends the string and ends the line, and returns the length without the line's end.
pub puts-Prints : (str : List ℕ) → Prints (puts str) (0 + length str) (map u8 str ++ (13 ∷ 10 ∷ []))
unfolding puts
puts-Prints str =
    Prints-bind (putstr str) (λ len. putchar 13 >> (putchar 10 >> pure len)) (0 + length str)
      (0 + length str) (map u8 str) (13 ∷ 10 ∷ []) (putstr-Prints str)
      (Prints-bind (putchar 13) (λ _. putchar 10 >> pure (0 + length str)) 13 (0 + length str)
        (13 ∷ []) (10 ∷ []) (putchar-Prints 13)
        (Prints-return (putchar 10) (λ _. 0 + length str) 10 (10 ∷ []) (putchar-Prints 10)))

-- A status that says that no character is there.
abbrev pub AllIdle : List ℕ → Type 0
AllIdle [] = Unit
AllIdle (s ∷ rest) = (s % 2 ≡ 0) × AllIdle rest

-- `alt_getchar` reads the status until it says that a character is there, and returns it.
pub getchar_loop_lem :
    (idle rest : List ℕ) (s : ℕ) (u : Uart)
    → AllIdle idle
    → s % 2 ≡ 1
    → getchar_loop (idle ++ (s ∷ rest)) u ≡ done (u.received, record u { status = rest })
unfolding getchar_loop
getchar_loop_lem [] rest s u h e = ground (arith, e)
getchar_loop_lem (i ∷ idle) rest s u (h, hs) e =
    ground (arith, h, getchar_loop_lem idle rest s u hs e)
