-- ===== src/Format/Program/Runs.antt =====
-- A run of `app_format` on its files, and the monitor that starts the image it writes.
use s3k_monitor.Prelude.{
  ℕ, suc, ◌+◌, ◌≤◌, ◌<◌, ◌≡◌, ◌≢◌, ◌==◌, ◌&&◌, refl, ap, ◌∙◌, arith, Bool, true, false, List, [],
  ◌∷◌, ◌++◌, map, length, length-append, ltb, none, some, done, ◌>>◌,
}
use s3k_monitor.Print.{codes}
use s3k_monitor.S3k.{S3k}
use s3k_monitor.Codeauth.{Aes128}
use s3k_monitor.Monitor.{Monitor, app_pid}
use s3k_monitor.Monitor.Parse.{Process}
use s3k_monitor.Monitor.Parse.Encoding.{Entry, AllEntries, as_parsed, padded, value}
use s3k_monitor.Monitor.Setup.{setup, prepare, start_app}
use s3k_monitor.Format.Header.{Named, words, all_words}
use s3k_monitor.Format.Start.{setup-format}
use s3k_monitor.Format.Text.{fgets_lines, strtol}
use s3k_monitor.Format.{format}
use s3k_monitor.Format.Text.Lines.{file_text, AllFit, fgets_lines-file_text}
use s3k_monitor.Format.Program.{
  Files, same_name, FileNames, read_opened, write, buffer_size, format_main, format_files,
}
use s3k_monitor.Format.Program.Names.{NoDot, input, output, names_lem}

-- The lines of the section file: the name as a number without a prefix, and the three fields with
-- the prefix `0x`.
abbrev pub numbered : List Entry → List (Bool × ℕ)
numbered [] = []
numbered (e ∷ es) =
    (false, value (padded 8 e.name))
    ∷ (true, e.offset)
    ∷ (true, e.size)
    ∷ (true, e.rwx)
    ∷ numbered es

numbered_words : (es : List Entry) → map (λ l. l.1) (numbered es) ≡ all_words es
numbered_words [] = refl
numbered_words (e ∷ es) = ap (λ ws. words e ++ ws) (numbered_words es)

same_name_refl : (s : List ℕ) → same_name s s ≡ true
same_name_refl [] = refl
same_name_refl (c ∷ s) = let e : (c == c) ≡ true = ground arith in rw e (same_name_refl s)

and_false : (b : Bool) → (b && false) ≡ false
and_false true = refl
and_false false = refl

same_name-length : (s t : List ℕ) → length s ≢ length t → same_name s t ≡ false
same_name-length [] [] ne = absurd (ne refl)
same_name-length [] (d ∷ t) ne = refl
same_name-length (c ∷ s) [] ne = refl
same_name-length (c ∷ s) (d ∷ t) ne =
    rw (same_name-length s t (λ e. ne (ap suc e))) (and_false (c == d))

-- A file that is not the output is read as it was.
read_opened_lem :
    (name out t : List ℕ) (files : Files)
    → same_name name out ≡ false
    → files name ≡ some t
    → read_opened name files (write out [] files) ≡ some t
read_opened_lem name out t files other there =
    ap (λ o. elim o [ none ↦ none | some _ ↦ write out [] files name ]) there ∙ rw other there

format_files_lem :
    (aes : Aes128) (broken : Bool) (names : FileNames) (files : Files) (app_bin text image : List ℕ)
    → same_name names.input_file names.output_file ≡ false
    → same_name names.info_file names.output_file ≡ false
    → files names.input_file ≡ some app_bin
    → files names.info_file ≡ some text
    → format strtol aes broken (some (fgets_lines text)) (some app_bin) ≡ done image
    → format_files aes broken names files
      ≡ done (write names.output_file image (write names.output_file [] files))
unfolding format_files
format_files_lem aes broken names files app_bin text image not_in not_info binary info written =
    rw (read_opened_lem names.info_file names.output_file text files not_info info) (
      rw (read_opened_lem names.input_file names.output_file app_bin files not_in binary)
        (rw written refl))

-- From the files to the start of the app, with `SECURITY`. The program is given the name of a binary
-- of two parts, each of one character or more and without a dot, with fewer than 59 characters
-- together. Its section file has the lines of up to 8 entries, with names of 1 to 7 bytes other than
-- 0 and fields below 2^56. Then `app_format` without `SIG_BROKEN` ends, changes no file but the
-- output, and writes there an image that is authentic for the monitor and that its parser reads back
-- as these entries, in order and no more: `setup` prepares the monitor and starts the app with
-- them. The name of an eighth entry comes out empty.
pub format_main-starts :
    (s3k : S3k) (aes : Aes128) (program stem ext app_bin : List ℕ) (es : List Entry) (files : Files)
    (s : Monitor s3k)
    → NoDot stem × NoDot ext
    → (0 < length stem) × (0 < length ext)
    → length stem + 5 + length ext < buffer_size
    → AllEntries es
    → Named es
    → length es ≤ 8
    → AllFit (numbered es)
    → files (input stem ext) ≡ some app_bin
    → files (stem ++ codes ".txt") ≡ some (file_text (numbered es))
    → let app : Process = record { pid = app_pid; header = as_parsed 0 es } in
      (image : List ℕ) × (files' : Files) × (format_main aes false
          (program ∷ input stem ext ∷ [])
          files
        ≡ done files')
      × (files' (output stem ext (codes ".fmt.")) ≡ some image)
      × ((name : List ℕ)
          → same_name name (output stem ext (codes ".fmt.")) ≡ false
          → files' name ≡ files name)
      × (setup s3k aes true image s ≡ (prepare s3k >> start_app s3k true image app) s)
unfolding format_main
format_main-starts s3k aes program stem ext app_bin es files s (clear, clear') (some_stem, some_ext)
      fits entries named room small binary info =
    let out = output stem ext (codes ".fmt.") in
    let lines = fgets_lines (file_text (numbered es)) in
    let (image, written, started) =
      setup-format s3k aes strtol false lines app_bin es s entries named room
        (fgets_lines-file_text (numbered es) small ∙ numbered_words es) in
    let within : ltb (length stem + 5 + length ext) buffer_size ≡ true = ground (arith, fits) in
    let names = (names_lem stem ext clear clear' some_stem some_ext).0 in
    let in_length = length-append stem (b'.' ∷ ext) in
    let info_length = length-append stem (codes ".txt") in
    let out_length = length-append stem (codes ".fmt." ++ ext) in
    let not_in =
      same_name-length (input stem ext) out (λ e. omega (arith, e, in_length, out_length)) in
    let not_info =
      same_name-length (stem ++ codes ".txt") out
        (λ e. omega (arith, e, info_length, out_length, some_ext)) in
    let opened = write out [] files in
    (
      image,
      write out image opened,
      rw (names) (
          rw (within) (
            format_files_lem aes false _ files app_bin _ image not_in not_info binary info
              written)),
      rw (same_name_refl out) refl,
      λ name other. rw other refl,
      started,
    )
