-- ===== src/Format/Program.antt =====
-- The programs of tools/app_format.c and tools/app_format_sig.c: their arguments, the names of their
-- files, and what they do to the files. A file can always be opened for writing.
pub mod Names
pub mod Runs
use s3k_monitor.Prelude.{
  ℕ, Bool, true, false, ◌&&◌, if◌then◌else◌, ◌==◌, List, [], ◌∷◌, ◌++◌, Option, none, some, length,
  ltb, Outcome, done, fault, spin,
}
use mathlib.Core.Option as Opt
use s3k_monitor.Print.{codes}
use s3k_monitor.Codeauth.{Aes128}
use s3k_monitor.Format.{format, format_sig}
use s3k_monitor.Format.Text.{fgets_lines, strtol}

infixl 5 ◌>>=◌
abbrev pub ◌>>=◌ : {A B : Type 0} → Outcome A → (A → Outcome B) → Outcome B
done a >>= f = f a
fault >>= f = fault
spin >>= f = spin

-- `strcpy` and `strcat` into a buffer of 64 characters, the NUL included.
abbrev pub buffer_size : ℕ
buffer_size = 64

unfoldable pub strcpy : List ℕ → Outcome (List ℕ)
strcpy s = if ltb (length s) buffer_size then done s else fault

unfoldable pub strcat : List ℕ → List ℕ → Outcome (List ℕ)
strcat buffer s = strcpy (buffer ++ s)

-- `strtok` with the delimiter `.`: the characters before the next one, and what stands behind it.
unfoldable pub skip_dots : List ℕ → List ℕ
skip_dots [] = []
skip_dots (c ∷ s) = let rest = skip_dots s in if c == b'.' then rest else c ∷ s

unfoldable pub token : List ℕ → List ℕ × List ℕ
token [] = ([], [])
token (c ∷ s) = let (t, rest) = token s in if c == b'.' then ([], s) else (c ∷ t, rest)

-- The result of `strtok` is copied at once; where there is no token it is a null pointer.
abbrev pub copy_token : List ℕ → Outcome (List ℕ × List ℕ)
copy_token [] = fault
copy_token (c ∷ s) = let found = token (c ∷ s) in strcpy found.0 >>= λ t. done (t, found.1)

unfoldable pub strtok : List ℕ → Outcome (List ℕ × List ℕ)
strtok s = copy_token (skip_dots s)

-- The names that both programs make of their argument: that of the input, what stands before its
-- first dot, and that of the output, which has the mark of the program in it.
unfoldable pub tool_names : List ℕ → List ℕ → Outcome (List ℕ × List ℕ × List ℕ)
tool_names mark argument = strcpy argument >>= λ input. strtok argument >>= λ first.
    strtok first.1 >>= λ second. strcat first.0 mark >>= λ start.
    strcat start second.0 >>= λ output. done (input, first.0, output)

pub record FileNames : Type 0 where
  pub input_file : List ℕ
  pub output_file : List ℕ
  pub info_file : List ℕ

-- The names of `app_format`.
unfoldable pub format_names : List ℕ → Outcome FileNames
format_names argument = tool_names (codes ".fmt.") argument >>= λ names.
    strcat names.1 (codes ".txt") >>= λ info.
    done (record { input_file = names.0; output_file = names.2; info_file = info })

-- The contents of the files by name; `none` is a file that is not there.
abbrev pub Files : Type 0
Files = List ℕ → Option (List ℕ)

abbrev pub same_name : List ℕ → List ℕ → Bool
same_name [] [] = true
same_name [] (d ∷ t) = false
same_name (c ∷ s) [] = false
same_name (c ∷ s) (d ∷ t) = (c == d) && same_name s t

abbrev pub write : List ℕ → List ℕ → Files → Files
write name bytes files n = if same_name n name then some bytes else files n

-- What is read of a file that was opened before the output file: where that one is the same file it
-- has become empty.
abbrev pub read_opened : List ℕ → Files → Files → Option (List ℕ)
read_opened name before after = elim (before name) [ none ↦ none | some _ ↦ after name ]

module _ (aes : Aes128) (broken : Bool) where
  -- `app_format` with its names: the three files are opened, and the output is written.
  unfoldable pub format_files : FileNames → Files → Outcome Files
  format_files names files =
      let opened = write names.output_file [] files in
      let info = Opt.map fgets_lines (read_opened names.info_file files opened) in
      format strtol aes broken info (read_opened names.input_file files opened) >>= λ image.
      done (write names.output_file image opened)

  -- `main` of `app_format`, with `argv` as a list.
  unfoldable pub format_main : List (List ℕ) → Files → Outcome Files
  format_main [] files = done files
  format_main (program ∷ []) files = done files
  format_main (program ∷ argument ∷ more) files =
      format_names argument >>= λ names. format_files names files

  -- `main` of `app_format_sig`.
  unfoldable pub sig_files : List ℕ → List ℕ → Files → Files
  sig_files input output files =
      let opened = write output [] files in
      write output (format_sig aes broken (read_opened input files opened)) opened

  unfoldable pub sig_main : List (List ℕ) → Files → Outcome Files
  sig_main [] files = done files
  sig_main (program ∷ []) files = done files
  sig_main (program ∷ argument ∷ more) files =
      tool_names (codes ".sig.") argument >>= λ names. done (sig_files names.0 names.2 files)
