-- ===== src/Format.antt =====
-- tools/app_format.c and tools/app_format_sig.c: the image of the app is given its section table and
-- its signature. Files are lists: of bytes, or of the lines that `fgets` gives one after the other;
-- `none` is a file that does not open.
pub mod Signed
pub mod Header
pub mod Start
pub mod Code
pub mod Granted
pub mod Text
pub mod Program
pub mod Tests
use s3k_monitor.Prelude.{
  ℕ, zero, suc, ◌+◌, Bool, true, false, List, [], ◌∷◌, ◌++◌, Option, none, some, length, ltb,
  if◌then◌else◌, pos, Outcome, done, fault, spin,
}
use s3k_monitor.Codeauth.{Aes128, Bytes, calc_sig}
use s3k_monitor.Monitor.Setup.{bytes_from}
use s3k_monitor.Monitor.Parse.Encoding.{little_endian}

abbrev pub sections_size : ℕ
sections_size = 496

abbrev pub sectioninfo_size : ℕ
sectioninfo_size = 8

-- The bytes of the array `signature`.
abbrev pub first_bytes : ℕ → Bytes → List ℕ
first_bytes zero p = []
first_bytes (suc n) p = p 0 ∷ first_bytes n (λ j. p (suc j))

-- `signature[0] = 0xFF; signature[1] = 0xFF;`
unfoldable pub break_signature : Bytes → Bytes
break_signature signature zero = 0xFF
break_signature signature (suc zero) = 0xFF
break_signature signature (suc (suc j)) = signature (suc (suc j))

-- The bytes written: the signature of the buffer, and the buffer. `broken` says whether `SIG_BROKEN`
-- of config.h is defined.
unfoldable pub write_signed : Aes128 → Bool → List ℕ → List ℕ
write_signed aes broken app_buffer =
    let signature = calc_sig aes (bytes_from app_buffer 0) (pos (length app_buffer)) in
    first_bytes 16 (if broken then break_signature signature else signature) ++ app_buffer

-- `app_format_sig`: the file that it writes for the one that it is given.
unfoldable pub format_sig : Aes128 → Bool → Option (List ℕ) → List ℕ
format_sig aes broken none = []
format_sig aes broken (some app_bin) = write_signed aes broken app_bin

-- `strtol(line, NULL, 16)` is a parameter: the 64 bits of its result.
module _ (strtol : List ℕ → ℕ) where
  -- The loop over the lines. The bytes written so far are the argument, and `buffer_index` is their
  -- number.
  unfoldable pub read_loop : List (List ℕ) → List ℕ → List ℕ
  read_loop [] app_buffer = app_buffer
  read_loop (line ∷ lines) app_buffer =
      let rest = read_loop lines (app_buffer ++ little_endian sectioninfo_size (strtol line)) in
      if ltb (length app_buffer) sections_size then rest else app_buffer

-- The loop that fills the header up.
unfoldable pub pad_loop : ℕ → List ℕ → Outcome (List ℕ)
pad_loop zero app_buffer = if ltb (length app_buffer) sections_size then spin else done app_buffer
pad_loop (suc fuel) app_buffer =
    let rest = pad_loop fuel (app_buffer ++ (0 ∷ [])) in
    if ltb (length app_buffer) sections_size then rest else done app_buffer

module _ (strtol : List ℕ → ℕ) (aes : Aes128) where
  -- `app_format`: the file that it writes for the binary and its section file. It tests whether the
  -- first one opens, and not the second one.
  unfoldable pub format : Bool → Option (List (List ℕ)) → Option (List ℕ) → Outcome (List ℕ)
  format broken sectioninfo none = done []
  format broken none (some app_bin) = fault
  format broken (some lines) (some app_bin) =
      elim (pad_loop sections_size (read_loop strtol lines [])) [
        | done header ↦ done (write_signed aes broken (header ++ app_bin))
        | fault ↦ fault
        | spin ↦ spin
      ]
