-- ===== src/Format/Text.antt =====
-- The library functions by which tools/app_format.c reads its section file: `fgets` into a buffer of
-- 18 characters, and `strtol` in base 16.
pub mod Lines
use s3k_monitor.Prelude.{
  ℕ, zero, suc, ◌+◌, ◌-◌, ◌*◌, ◌%◌, ◌^◌, Bool, true, false, ◌&&◌, ◌||◌, if◌then◌else◌, ◌==◌, leb,
  ltb, List, [], ◌∷◌, ◌++◌, Option, none, some,
}
use s3k_monitor.Monitor.Setup.{drop}

-- The calls of `fgets(line, sizeof(line), f)` until the file's end: each gives 17 characters, or
-- those up to the end of the line or of the file. `room` characters fit behind those in `line`.
unfoldable pub fgets_loop : List ℕ → ℕ → List ℕ → List (List ℕ)
fgets_loop [] room [] = []
fgets_loop [] room (c ∷ line) = (c ∷ line) ∷ []
fgets_loop (c ∷ s) room line =
    let full = fgets_loop s 17 [] in
    let more = fgets_loop s (room - 1) (line ++ (c ∷ [])) in
    if c == 10 || room == 1 then (line ++ (c ∷ [])) ∷ full else more

unfoldable pub fgets_lines : List ℕ → List (List ℕ)
fgets_lines s = fgets_loop s 17 []

abbrev pub is_space : ℕ → Bool
is_space c = c == 32 || (leb 9 c && leb c 13)

unfoldable pub skip_spaces : List ℕ → List ℕ
skip_spaces [] = []
skip_spaces (c ∷ s) = let rest = skip_spaces s in if is_space c then rest else c ∷ s

abbrev pub hex_value : ℕ → Option ℕ
hex_value c =
    if leb b'0' c && leb c b'9'
    then some (c - b'0')
    else if leb b'a' c && leb c b'f'
    then some (c - 87)
    else if leb b'A' c && leb c b'F'
    then some (c - 55)
    else none

-- The number in front of the first character that is no digit.
unfoldable pub digits_from : ℕ → List ℕ → ℕ
digits_from acc [] = acc
digits_from acc (c ∷ s) =
    let rest = λ (d : ℕ). digits_from (16 * acc + d) s in
    elim (hex_value c) [ none ↦ acc | some d ↦ rest d ]

-- A prefix `0x` counts where a digit follows it.
abbrev pub has_prefix : List ℕ → Bool
has_prefix [] = false
has_prefix (a ∷ []) = false
has_prefix (a ∷ b ∷ []) = false
has_prefix (a ∷ b ∷ c ∷ s) =
    a == b'0' && ((b == b'x' || b == b'X') && (elim (hex_value c) [ none ↦ false | some d ↦ true ]))

unfoldable pub magnitude : List ℕ → ℕ
magnitude s = digits_from 0 (if has_prefix s then drop 2 s else s)

-- The 64 bits of a `long`, held within its bounds.
abbrev pub positive : ℕ → ℕ
positive m = if ltb m (2 ^ 63) then m else 2 ^ 63 - 1

abbrev pub negative : ℕ → ℕ
negative m = if ltb m (2 ^ 63) then (2 ^ 64 - m) % 2 ^ 64 else 2 ^ 63

unfoldable pub signed : List ℕ → ℕ
signed [] = 0
signed (c ∷ s) =
    if c == b'-'
    then negative (magnitude s)
    else if c == b'+'
    then positive (magnitude s)
    else positive (magnitude (c ∷ s))

-- `strtol(line, NULL, 16)`
unfoldable pub strtol : List ℕ → ℕ
strtol line = signed (skip_spaces line)
