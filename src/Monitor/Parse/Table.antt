-- ===== src/Monitor/Parse/Table.antt =====
-- The parser on such a table.
use s3k_monitor.Prelude.{
  ℕ, zero, suc, ◌+◌, ◌/◌, ◌≤◌, ◌<◌, ◌≡◌, ◌≢◌, inl, inr, refl, ap, ◌∙◌, subst, arith, true, false,
  List, [], ◌∷◌, ◌++◌, ◌==◌, if◌then◌else◌, length, length-append, replicate, u8, done, Bool-cases,
}
use s3k_monitor.Monitor.{signature_size}
use s3k_monitor.Monitor.Parse.{◌>>=◌, read_word, name_loop, parse_loop, parse_executable}
use s3k_monitor.Monitor.Parse.Encoding.{
  Holds, little_endian, Entry, NonZero, IsEntry, padded, encode, encode_all, AllEntries, as_parsed,
  Holds-append, read_byte_done, read_word-little_endian, value, read_word-value,
}

-- A name is read up to its end.
name_loop_read :
    (name : List ℕ) (left i : ℕ) (image : List ℕ) (at : ℕ)
    → NonZero name
    → length name < left
    → i ≢ 7
    → Holds image at (padded left name)
    → name_loop left i image at ≡ done (name ++ (0 ∷ []))
unfolding name_loop
name_loop_read name zero i image at letters short early h = absurd (omega arith)
name_loop_read [] (suc left) i image at letters short early (e, h) =
    let first = read_byte_done image at 0 e in
    let other : (i == 7) ≡ false = ground arith in rw (other, first) refl
name_loop_read (b ∷ bs) (suc left) i image at (letter, letters) short early (e, h) =
    let first = read_byte_done image at b e in
    let rest = name_loop_read bs left i image (at + 1) letters (omega arith) early h in
    let other : (i == 7) ≡ false = ground arith in
    let more : (b == 0) ≡ false = ground arith in rw (other, first, more, rest) refl

pub length-padded : (n : ℕ) (name : List ℕ) → length (padded n name) ≡ n
length-padded zero name = refl
length-padded (suc n) [] = ap suc (length-padded n [])
length-padded (suc n) (b ∷ bs) = ap suc (length-padded n bs)

length-little_endian : (n v : ℕ) → length (little_endian n v) ≡ n
length-little_endian zero v = refl
length-little_endian (suc n) v = ap suc (length-little_endian n (v / 256))

pub length-encode : (e : Entry) → length (encode e) ≡ 32
length-encode e = length-append (padded 8 e.name) _ ∙ ap (λ n. n + 24) (length-padded 8 e.name)

-- The first word of an entry is not the word that ends a table.
first_word :
    (e : Entry) (image : List ℕ) (at : ℕ)
    → IsEntry e
    → Holds image at (padded 8 e.name)
    → (w : ℕ) × (read_word 8 image at ≡ done w) × ((w == 0) ≡ false)
first_word e image at ok h = go e.name ok.named ok.letters h
  where
    go :
        (name : List ℕ)
        → 1 ≤ length name
        → NonZero name
        → Holds image at (padded 8 name)
        → (w : ℕ) × (read_word 8 image at ≡ done w) × ((w == 0) ≡ false)
    go [] named letters h = absurd (omega arith)
    go (b ∷ bs) named (letter, _) h =
        let read = read_word-value image at (padded 8 (b ∷ bs)) h in
        (
          value (padded 8 (b ∷ bs)),
          subst (λ n. read_word n image at ≡ done (value (padded 8 (b ∷ bs))))
              (length-padded 8 (b ∷ bs)) read,
          ground (arith, letter),
        )

-- The fields of an entry, where they stand.
pub record Stands (e : Entry) (image : List ℕ) (at : ℕ) : Type 0 where
  pub names : Holds image at (padded 8 e.name)
  pub offsets : read_word 8 image (at + 8) ≡ done e.offset
  pub sizes : read_word 8 image (at + 16) ≡ done e.size
  pub rwxs : read_word 8 image (at + 24) ≡ done e.rwx

encode-Stands :
    (e : Entry) (image : List ℕ) (at : ℕ)
    → IsEntry e
    → Holds image at (encode e)
    → Stands e image at
encode-Stands e image at ok h =
    let (names, h₁) = Holds-append image at (padded 8 e.name) _ h in
    let (offsets, h₂) =
      Holds-append image _ (little_endian 8 e.offset)
        (little_endian 8 e.size ++ little_endian 8 e.rwx) h₁ in
    let (sizes, rwxs) = Holds-append image _ (little_endian 8 e.size) (little_endian 8 e.rwx) h₂ in
    let start = length-padded 8 e.name in
    record {
      names = names;
      offsets =
          ap (λ n. read_word 8 image n) (omega arith)
          ∙ read_word-little_endian 8 image (at + length (padded 8 e.name)) e.offset ok.offset_fits
              offsets;
      sizes =
          ap (λ n. read_word 8 image n) (omega arith)
          ∙ read_word-little_endian 8 image (at + length (padded 8 e.name) + 8) e.size ok.size_fits
              sizes;
      rwxs =
          ap (λ n. read_word 8 image n) (omega arith)
          ∙ read_word-little_endian 8 image (at + length (padded 8 e.name) + 8 + 8) e.rwx
              (omega (arith, ok.rwx_fits)) rwxs;
    }

name_loop_last :
    (left i : ℕ) (image : List ℕ) (at : ℕ)
    → (i == 7) ≡ true
    → name_loop (suc left) i image at ≡ done (0 ∷ [])
unfolding name_loop
name_loop_last left i image at last = rw last refl

name_loop_done :
    (e : Entry) (i : ℕ) (image : List ℕ) (at : ℕ)
    → IsEntry e
    → Holds image at (padded 8 e.name)
    → name_loop 8 i image at ≡ done (if i == 7 then 0 ∷ [] else (e.name ++ (0 ∷ [])))
name_loop_done e i image at ok h = elim (Bool-cases (i == 7)) [
  | inl last ↦ rw last (name_loop_last 7 i image at last)
  | inr other ↦
      let read =
        name_loop_read e.name 8 i image at ok.letters (omega (arith, ok.short)) (ground arith) h in
      rw other read
]

end_of_table :
    (left i : ℕ) (image : List ℕ) (at : ℕ)
    → Holds image at (replicate 8 0)
    → parse_loop (suc left) i image at ≡ done []
unfolding parse_loop
end_of_table left i image at h =
    let word = read_word-value image at (replicate 8 0) h in rw word refl

parse_loop_read :
    (es : List Entry) (left i : ℕ) (image : List ℕ) (at : ℕ)
    → AllEntries es
    → length es ≤ left
    → Holds image at (encode_all left es)
    → parse_loop left i image at ≡ done (as_parsed i es)
unfolding parse_loop
parse_loop_read [] zero i image at ok room h = refl
parse_loop_read [] (suc left) i image at ok room h = end_of_table left i image at h
parse_loop_read (e ∷ es) zero i image at ok room h = absurd (omega arith)
parse_loop_read (e ∷ es) (suc left) i image at (ok, oks) room h =
    let (here, there) = Holds-append image at (encode e) (encode_all left es) h in
    let stands = encode-Stands e image at ok here in
    let next = subst (λ n. Holds image (at + n) (encode_all left es)) (length-encode e) there in
    let rest = parse_loop_read es left (i + 1) image (at + 32) oks (omega arith) next in
    let (w, read, more) = first_word e image at ok stands.names in
    let name = name_loop_done e i image at ok stands.names in
    let small : u8 e.rwx ≡ e.rwx = omega (arith, ok.rwx_fits) in
    rw (read, ◌>>=◌)
      (rw (more, name, ◌>>=◌)
        (rw (stands.offsets, ◌>>=◌)
          (rw (stands.sizes, ◌>>=◌) (rw (stands.rwxs, ◌>>=◌) (rw (rest, small, ◌>>=◌) refl)))))

-- The parser reads the section table that an image holds behind the signature: every one of up to 8
-- entries, with names of 1 to 7 bytes other than 0, comes out with its offset, its size and its
-- permissions, in order and no more, and with its name and the NUL byte behind it; only the name of
-- an eighth entry comes out empty.
pub parse_executable-encode_all :
    (pid : ℕ) (image : List ℕ) (es : List Entry)
    → AllEntries es
    → length es ≤ 8
    → Holds image signature_size (encode_all 8 es)
    → parse_executable pid image ≡ done (record { pid = pid; header = as_parsed 0 es })
unfolding parse_executable
parse_executable-encode_all pid image es ok room h =
    let read = parse_loop_read es 8 0 image signature_size ok room h in rw (read, ◌>>=◌) refl
