-- ===== src/Monitor/Parse.antt =====
-- `parse_executable`: the section table in the header of the app's image.
use s3k_monitor.Prelude.{
  ℕ, zero, suc, ◌+◌, ◌*◌, ◌/◌, Bool, true, false, List, [], ◌∷◌, Option, none, some, ◌==◌,
  if◌then◌else◌, get_elem?, length, spin, u8, Outcome, done, fault,
}
pub mod Encoding
pub mod Table
use s3k_monitor.Monitor.{signature_size}

-- `section` holds the bytes of the field that the parser writes: the name with its NUL byte, or
-- eight bytes with none. The parser leaves the bytes behind them unset.
pub record Section : Type 0 where
  pub section : List ℕ
  pub offset : ℕ
  pub size : ℕ
  pub rwx : ℕ

-- The entries of `header` that are set; `header_len` is their number.
pub record Process : Type 0 where
  pub pid : ℕ
  pub header : List Section

abbrev pub header_len : Process → ℕ
header_len p = length p.header

infixl 5 ◌>>=◌
abbrev ◌>>=◌ : {A B : Type 0} → Outcome A → (A → Outcome B) → Outcome B
done a >>= f = f a
fault >>= f = fault
spin >>= f = spin

-- One byte of the image.
unfoldable pub read_byte : List ℕ → ℕ → Outcome ℕ
read_byte image at = elim (get_elem? image at) [ none ↦ fault | some b ↦ done b ]

-- The number in `n` bytes from an offset on, the lowest byte first; a `uint64_t` at `n = 8`.
unfoldable pub read_word : ℕ → List ℕ → ℕ → Outcome ℕ
read_word zero image at = done 0
read_word (suc n) image at = do
  b ← read_byte image at
  rest ← read_word n image (at + 1)
  done (b + 256 * rest)

-- The loop over the bytes of a name, of section `i`, with `left` bytes to go.
unfoldable pub name_loop : ℕ → ℕ → List ℕ → ℕ → Outcome (List ℕ)
name_loop zero i image at = done []
name_loop (suc left) i image at =
    let rest = name_loop left i image (at + 1) in
    if i == 7 then done (0 ∷ []) else (do
      b ← read_byte image at
      if b == 0 then done (0 ∷ []) else (rest >>= λ bs. done (b ∷ bs)))

-- The loop over the sections, at section `i` and offset `at`, with `left` sections to go.
unfoldable pub parse_loop : ℕ → ℕ → List ℕ → ℕ → Outcome (List Section)
parse_loop zero i image at = done []
parse_loop (suc left) i image at =
    let others = parse_loop left (i + 1) image (at + 32) in
    do
      word ← read_word 8 image at
      if word == 0 then done [] else (do
        name ← name_loop 8 i image at
        o ← read_word 8 image (at + 8)
        n ← read_word 8 image (at + 16)
        p ← read_word 8 image (at + 24)
        rest ← others
        done (record { section = name; offset = o; size = n; rwx = u8 p } ∷ rest))

unfoldable pub parse_executable : ℕ → List ℕ → Outcome Process
parse_executable pid image = do
  sections ← parse_loop 8 0 image signature_size
  done (record { pid = pid; header = sections })
