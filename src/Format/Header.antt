-- ===== src/Format/Header.antt =====
-- The section table that `app_format` writes, as the monitor reads it.
use s3k_monitor.Prelude.{
  ℕ, zero, suc, ◌+◌, ◌-◌, ◌*◌, ◌/◌, ◌%◌, ◌≤◌, ◌<◌, ◌≡◌, Bool, true, List, [], ◌∷◌, ◌++◌, length,
  length-append, map, ltb, arith, refl, ap, sym, ◌∙◌, pos, done, replicate, subst,
}
use mathlib.Core.List.{append_assoc, append-nil}
use s3k_monitor.Codeauth.{Aes128, calc_sig}
use s3k_monitor.Monitor.Setup.{bytes_from}
use s3k_monitor.Monitor.{signature_size}
use s3k_monitor.Monitor.Parse.{parse_executable}
use s3k_monitor.Monitor.Parse.Encoding.{
  Holds, little_endian, padded, encode, encode_all, value, Holds-append, Holds-concat, Entry,
  AllEntries, as_parsed,
}
use s3k_monitor.Monitor.Parse.Table.{length-padded, parse_executable-encode_all}
use s3k_monitor.Format.{sections_size, sectioninfo_size, first_bytes, write_signed, read_loop}
use s3k_monitor.Format.Signed.{written, length-first_bytes, header_of, image_of}

-- The numbers that the lines of an entry give.
abbrev pub words : Entry → List ℕ
words e = value (padded 8 e.name) ∷ e.offset ∷ e.size ∷ e.rwx ∷ []

abbrev pub all_words : List Entry → List ℕ
all_words [] = []
all_words (e ∷ es) = words e ++ all_words es

abbrev pub AllBytes : List ℕ → Type 0
AllBytes [] = Unit
AllBytes (b ∷ bs) = (b < 256) × AllBytes bs

-- The names are of bytes.
abbrev pub Named : List Entry → Type 0
Named [] = Unit
Named (e ∷ es) = AllBytes e.name × Named es

little_endian-value : (bs : List ℕ) → AllBytes bs → little_endian (length bs) (value bs) ≡ bs
little_endian-value [] ok = refl
little_endian-value (b ∷ bs) (small, ok) =
    let first : (b + 256 * value bs) % 256 ≡ b = omega arith in
    let rest : (b + 256 * value bs) / 256 ≡ value bs = omega arith in
    rw (first, rest) (ap (λ l. b ∷ l) (little_endian-value bs ok))

padded-AllBytes : (n : ℕ) (name : List ℕ) → AllBytes name → AllBytes (padded n name)
padded-AllBytes zero name ok = tt
padded-AllBytes (suc n) [] ok = (omega arith, padded-AllBytes n [] ok)
padded-AllBytes (suc n) (b ∷ bs) (small, ok) = (small, padded-AllBytes n bs ok)

-- The bytes of some words.
abbrev bytes_of : List ℕ → List ℕ
bytes_of [] = []
bytes_of (w ∷ ws) = little_endian 8 w ++ bytes_of ws

bytes_of-words :
    (e : Entry) (ws : List ℕ) → AllBytes e.name → bytes_of (words e ++ ws) ≡ encode e ++ bytes_of ws
bytes_of-words e ws ok =
    let same = little_endian-value (padded 8 e.name) (padded-AllBytes 8 e.name ok) in
    let name : little_endian 8 (value (padded 8 e.name)) ≡ padded 8 e.name =
      subst (λ n. little_endian n (value (padded 8 e.name)) ≡ padded 8 e.name)
        (length-padded 8 e.name) same in
    ap
      (λ bs.
        bs
        ++ (little_endian 8 e.offset
            ++ (little_endian 8 e.size ++ (little_endian 8 e.rwx ++ bytes_of ws))))
      name
    ∙ sym (append_assoc (padded 8 e.name) _ (bytes_of ws))

length-bytes_of : (ws : List ℕ) → length (bytes_of ws) ≡ 8 * length ws
length-bytes_of [] = refl
length-bytes_of (w ∷ ws) = omega (arith, length-bytes_of ws)

length-all_words : (es : List Entry) → length (all_words es) ≡ 4 * length es
length-all_words [] = refl
length-all_words (e ∷ es) = omega (arith, length-all_words es)

-- Lines that fit into the header are all read.
read_loop_lem :
    (strtol : List ℕ → ℕ) (lines : List (List ℕ)) (app_buffer : List ℕ)
    → length app_buffer + 8 * length lines ≤ sections_size
    → read_loop strtol lines app_buffer ≡ app_buffer ++ bytes_of (map strtol lines)
unfolding read_loop
read_loop_lem strtol [] app_buffer room = sym (append-nil app_buffer)
read_loop_lem strtol (line ∷ lines) app_buffer room =
    let goes_on : ltb (length app_buffer) sections_size ≡ true = ground arith in
    let l = length-append app_buffer (little_endian sectioninfo_size (strtol line)) in
    let rest =
      read_loop_lem strtol lines (app_buffer ++ little_endian sectioninfo_size (strtol line))
        (omega (arith, l)) in
    rw goes_on (rest ∙ append_assoc app_buffer _ _)

zeros : (m n : ℕ) → replicate {A = ℕ} (m + n) 0 ≡ replicate m 0 ++ replicate n 0
zeros zero n = ap (λ k. replicate {A = ℕ} k 0) (omega arith)
zeros (suc m) n =
    let next : suc m + n ≡ suc (m + n) = omega arith in rw next (ap (λ l. 0 ∷ l) (zeros m n))

-- Entries with zeros behind them are a table.
bytes_of-encode_all :
    (n : ℕ) (es : List Entry) (left : ℕ)
    → Named es
    → length es ≤ n
    → 8 ≤ left
    → (more : List ℕ) × (bytes_of (all_words es) ++ replicate left 0 ≡ encode_all n es ++ more)
bytes_of-encode_all zero [] left ok room enough = (replicate left 0, refl)
bytes_of-encode_all (suc n) [] left ok room enough =
    let split : left ≡ 8 + (left - 8) = omega arith in
    (replicate (left - 8) 0, ap (λ k. replicate {A = ℕ} k 0) split ∙ zeros 8 (left - 8))
bytes_of-encode_all zero (e ∷ es) left ok room enough = absurd (omega arith)
bytes_of-encode_all (suc n) (e ∷ es) left (ok, oks) room enough =
    let (more, same) = bytes_of-encode_all n es left oks (omega arith) enough in
    (
      more,
      ap (λ bs. bs ++ replicate left 0) (bytes_of-words e (all_words es) ok)
          ∙ append_assoc (encode e) _ _
          ∙ ap (λ bs. encode e ++ bs) same
          ∙ sym (append_assoc (encode e) _ _),
    )

length-map : {A : Type 0} → (f : A → ℕ) (xs : List A) → length (map f xs) ≡ length xs
length-map f [] = refl
length-map f (x ∷ xs) = ap suc (length-map f xs)

-- Entries that fit into the table fill less than the header.
header_of-encode_all :
    (strtol : List ℕ → ℕ) (lines : List (List ℕ)) (app_bin : List ℕ) (es : List Entry)
    → Named es
    → length es ≤ 8
    → map strtol lines ≡ all_words es
    → (more : List ℕ) × (header_of (read_loop strtol lines []) ++ app_bin ≡ encode_all 8 es ++ more)
header_of-encode_all strtol lines app_bin es ok room same =
    let count = sym (length-map strtol lines) ∙ ap length same ∙ length-all_words es in
    let read = read_loop_lem strtol lines [] (omega (arith, count)) ∙ ap bytes_of same in
    let size = length-bytes_of (all_words es) in
    let words = length-all_words es in
    let (more, table) =
      bytes_of-encode_all 8 es (sections_size - length (bytes_of (all_words es))) ok room
        (omega (arith, size, words)) in
    (
      more ++ app_bin,
      ap (λ bs. header_of bs ++ app_bin) read
          ∙ ap (λ bs. bs ++ app_bin) table
          ∙ append_assoc (encode_all 8 es) more app_bin,
    )

-- The bytes behind the signature start with the table.
write_signed-Holds :
    (aes : Aes128) (broken : Bool) (app_buffer table more : List ℕ)
    → app_buffer ≡ table ++ more
    → Holds (write_signed aes broken app_buffer) signature_size table
unfolding write_signed
write_signed-Holds aes broken app_buffer table more same =
    let signature = calc_sig aes (bytes_from app_buffer 0) (pos (length app_buffer)) in
    let first = first_bytes 16 (written broken signature) in
    let all = Holds-concat first app_buffer in
    let starts = subst (λ bs. Holds (first ++ app_buffer) (length first) bs) same all in
    let (here, _) = Holds-append (first ++ app_buffer) (length first) table more starts in
    subst (λ n. Holds (first ++ app_buffer) n table)
      (length-first_bytes 16 (written broken signature)) here

pub image_of-parse_executable :
    (strtol : List ℕ → ℕ) (aes : Aes128) (broken : Bool) (pid : ℕ) (lines : List (List ℕ))
    (app_bin : List ℕ) (es : List Entry)
    → AllEntries es
    → Named es
    → length es ≤ 8
    → map strtol lines ≡ all_words es
    → parse_executable pid (image_of strtol aes broken lines app_bin)
      ≡ done (record { pid = pid; header = as_parsed 0 es })
image_of-parse_executable strtol aes broken pid lines app_bin es entries named room same =
    let (more, table) = header_of-encode_all strtol lines app_bin es named room same in
    let image = image_of strtol aes broken lines app_bin in
    parse_executable-encode_all pid image es entries room
      (write_signed-Holds aes broken _ (encode_all 8 es) more table)
