-- ===== src/Format/Program/Names.antt =====
-- The names of the files, for an argument with one dot.
use s3k_monitor.Prelude.{
  ℕ, ◌+◌, ◌≤◌, ◌<◌, ◌≡◌, ◌≢◌, ◌==◌, refl, ap, arith, inl, inr, true, false, if◌then◌else◌, List, [],
  ◌∷◌, ◌++◌, length, length-append, ltb, done, fault, Bool-cases,
}
use mathlib.Core.List.{append_assoc}
use s3k_monitor.Print.{codes}
use s3k_monitor.Format.Program.{
  buffer_size, strcpy, strcat, skip_dots, token, strtok, tool_names, format_names,
}

-- A text of one character or more, none of them a dot.
abbrev pub NoDot : List ℕ → Type 0
NoDot [] = Unit
NoDot (c ∷ s) = (c ≢ b'.') × NoDot s

pub strcpy-fits : (s : List ℕ) → length s < buffer_size → strcpy s ≡ done s
unfolding strcpy
strcpy-fits s h = let fits : ltb (length s) buffer_size ≡ true = ground arith in rw fits refl

strcpy-long : (s : List ℕ) → buffer_size ≤ length s → strcpy s ≡ fault
unfolding strcpy
strcpy-long s h = let long : ltb (length s) buffer_size ≡ false = ground arith in rw long refl

token-dot : (s t : List ℕ) → NoDot s → token (s ++ (b'.' ∷ t)) ≡ (s, t)
unfolding token
token-dot [] t clear = refl
token-dot (c ∷ s) t (other, clear) =
    let letter : (c == b'.') ≡ false = ground (arith, other) in
    rw (letter) (ap (λ p. (c ∷ p.0, p.1)) (token-dot s t clear))

token-end : (s : List ℕ) → NoDot s → token s ≡ (s, [])
unfolding token
token-end [] clear = refl
token-end (c ∷ s) (other, clear) =
    let letter : (c == b'.') ≡ false = ground (arith, other) in
    rw (letter) (ap (λ p. (c ∷ p.0, p.1)) (token-end s clear))

-- A token that fits into its buffer.
strtok-token :
    (c : ℕ) (s t rest : List ℕ)
    → c ≢ b'.'
    → token (c ∷ s) ≡ (t, rest)
    → length t < buffer_size
    → strtok (c ∷ s) ≡ done (t, rest)
unfolding strtok skip_dots
strtok-token c s t rest other found fits =
    let letter : (c == b'.') ≡ false = ground (arith, other) in
    rw letter (rw found (rw (strcpy-fits t fits) refl))

strtok-dot :
    (s t : List ℕ)
    → NoDot s
    → 0 < length s
    → length s < buffer_size
    → strtok (s ++ (b'.' ∷ t)) ≡ done (s, t)
strtok-dot [] t clear some fits = absurd (omega arith)
strtok-dot (c ∷ s) t (other, clear) some fits =
    strtok-token c (s ++ (b'.' ∷ t)) (c ∷ s) t other (token-dot (c ∷ s) t (other, clear)) fits

strtok-end :
    (s : List ℕ) → NoDot s → 0 < length s → length s < buffer_size → strtok s ≡ done (s, [])
strtok-end [] clear some fits = absurd (omega arith)
strtok-end (c ∷ s) (other, clear) some fits =
    strtok-token c s (c ∷ s) [] other (token-end (c ∷ s) (other, clear)) fits

module _ (stem ext : List ℕ) where
  abbrev pub input : List ℕ
  input = stem ++ (b'.' ∷ ext)

  -- The name of the output: the mark between the two parts.
  abbrev pub output : List ℕ → List ℕ
  output mark = stem ++ (mark ++ ext)

  module _ (clear : NoDot stem) (clear' : NoDot ext) (some : 0 < length stem)
      (some' : 0 < length ext) where
    tool_names-fits :
        (mark : List ℕ)
        → length mark ≡ 5
        → length stem + 5 + length ext < buffer_size
        → tool_names mark input ≡ done (input, stem, output mark)
    unfolding tool_names strcat
    tool_names-fits mark five fits =
        let whole = length-append stem (b'.' ∷ ext) in
        let start = length-append stem mark in
        let all = length-append (stem ++ mark) ext in
        rw (strcpy-fits input (omega (arith, whole))) (
          rw (strtok-dot stem ext clear some (omega arith)) (
            rw (strtok-end ext clear' some' (omega arith)) (
              rw (strcpy-fits (stem ++ mark) (omega (arith, start, five))) (
                rw (strcpy-fits ((stem ++ mark) ++ ext) (omega (arith, start, all, five)))
                  (ap (λ o. done (input, stem, o)) (append_assoc stem mark ext))))))

    tool_names-long :
        (mark : List ℕ)
        → length mark ≡ 5
        → buffer_size ≤ length stem + 5 + length ext
        → tool_names mark input ≡ fault
    unfolding tool_names strcat
    tool_names-long mark five long =
        let whole = length-append stem (b'.' ∷ ext) in
        let start = length-append stem mark in
        let all = length-append (stem ++ mark) ext in
        elim (Bool-cases (ltb (length input) buffer_size)) [
          | inr e ↦ rw (strcpy-long input (ground (arith, e))) refl
          | inl e ↦
              let short : length stem + 1 + length ext < buffer_size = ground (arith, e, whole) in
              rw (strcpy-fits input (omega (arith, short, whole))) (
                rw (strtok-dot stem ext clear some (omega (arith, short))) (
                  rw (strtok-end ext clear' some' (omega (arith, short)))
                    (elim (Bool-cases (ltb (length (stem ++ mark)) buffer_size)) [
                      | inr f ↦ rw (strcpy-long (stem ++ mark) (ground (arith, f))) refl
                      | inl f ↦ rw (strcpy-fits (stem ++ mark) (ground (arith, f))) (
                          rw (strcpy-long ((stem ++ mark) ++ ext) (omega (arith, start, all, five)))
                            refl)
                    ])))
        ]

    -- For an argument of two parts with a dot between them, each of one character or more and
    -- without a dot, both programs keep the first part and the extension and put their mark
    -- between them: `name.ext` becomes `name.fmt.ext` and `name.sig.ext`, and the section file is
    -- `name.txt`. So it is exactly where the name of the output has fewer than 64 characters;
    -- otherwise they write behind the end of a buffer.
    pub names_lem :
        (format_names input ≡ (
          if ltb (length stem + 5 + length ext) buffer_size
          then done (record {
            input_file = input;
            output_file = output (codes ".fmt.");
            info_file = stem ++ codes ".txt";
          })
          else fault))
        × (tool_names (codes ".sig.") input ≡ (
            if ltb (length stem + 5 + length ext) buffer_size
            then done (input, stem, output (codes ".sig."))
            else fault))
    unfolding format_names strcat
    names_lem = elim (Bool-cases (ltb (length stem + 5 + length ext) buffer_size)) [
      | inl e ↦
          let fits : length stem + 5 + length ext < buffer_size = ground (arith, e) in
          let info = length-append stem (codes ".txt") in
          rw e (
            rw (tool_names-fits (codes ".fmt.") refl fits)
                (rw (strcpy-fits (stem ++ codes ".txt") (omega (arith, info))) refl),
            tool_names-fits (codes ".sig.") refl fits,
          )
      | inr e ↦
          let long : buffer_size ≤ length stem + 5 + length ext = ground (arith, e) in
          rw e (
            rw (tool_names-long (codes ".fmt.") refl long) refl,
            tool_names-long (codes ".sig.") refl long,
          )
    ]
