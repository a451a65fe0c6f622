-- ===== src/Monitor/Parse/Encoding.antt =====
-- The section table as bytes, and reading bytes and numbers of it.
use s3k_monitor.Prelude.{
  ℕ, zero, suc, ◌+◌, ◌*◌, ◌/◌, ◌%◌, ◌^◌, ◌≤◌, ◌<◌, ◌≡◌, ◌≢◌, refl, ap, subst, arith, List, [], ◌∷◌,
  ◌++◌, some, ◌==◌, if◌then◌else◌, get_elem?, length, replicate, done,
}
use native.Mathlib.Nat.{pow-suc}
use s3k_monitor.Monitor.Parse.{Section, read_byte, read_word}

-- The bytes stand in the image from an offset on.
abbrev pub Holds : List ℕ → ℕ → List ℕ → Type 0
Holds image at [] = Unit
Holds image at (b ∷ bs) = (get_elem? image at ≡ some b) × Holds image (at + 1) bs

-- The lowest `n` bytes of a number, the lowest first.
abbrev pub little_endian : ℕ → ℕ → List ℕ
little_endian zero v = []
little_endian (suc n) v = v % 256 ∷ little_endian n (v / 256)

-- A name of up to 7 bytes, none of them 0, with zeros behind it up to 8 bytes.
pub record Entry : Type 0 where
  pub name : List ℕ
  pub offset : ℕ
  pub size : ℕ
  pub rwx : ℕ

abbrev pub NonZero : List ℕ → Type 0
NonZero [] = Unit
NonZero (b ∷ bs) = (b ≢ 0) × NonZero bs

pub record IsEntry (e : Entry) : Type 0 where
  pub named : 1 ≤ length e.name
  pub short : length e.name ≤ 7
  pub letters : NonZero e.name
  pub offset_fits : e.offset < 2 ^ 64
  pub size_fits : e.size < 2 ^ 64
  pub rwx_fits : e.rwx < 2 ^ 8

abbrev pub padded : ℕ → List ℕ → List ℕ
padded zero name = []
padded (suc n) [] = 0 ∷ padded n []
padded (suc n) (b ∷ bs) = b ∷ padded n bs

abbrev pub encode : Entry → List ℕ
encode e =
    padded 8 e.name
    ++ (little_endian 8 e.offset ++ (little_endian 8 e.size ++ little_endian 8 e.rwx))

-- A table with room for `n` entries: where there are fewer, a word 0 ends it.
abbrev pub encode_all : ℕ → List Entry → List ℕ
encode_all zero es = []
encode_all (suc n) [] = replicate 8 0
encode_all (suc n) (e ∷ es) = encode e ++ encode_all n es

abbrev pub AllEntries : List Entry → Type 0
AllEntries [] = Unit
AllEntries (e ∷ es) = IsEntry e × AllEntries es

-- What the parser makes of the entries from section `i` on: each as it was written, but of the
-- eighth one no letter of the name.
abbrev pub as_parsed : ℕ → List Entry → List Section
as_parsed i [] = []
as_parsed i (e ∷ es) =
    record {
      section = if i == 7 then 0 ∷ [] else (e.name ++ (0 ∷ []));
      offset = e.offset;
      size = e.size;
      rwx = e.rwx;
    }
    ∷ as_parsed (i + 1) es

pub Holds-append :
    (image : List ℕ) (at : ℕ) (xs ys : List ℕ)
    → Holds image at (xs ++ ys)
    → Holds image at xs × Holds image (at + length xs) ys
Holds-append image at [] ys h = (tt, subst (λ n. Holds image n ys) (omega arith) h)
Holds-append image at (x ∷ xs) ys (e, h) =
    let (a, b) = Holds-append image (at + 1) xs ys h in
    ((e, a), subst (λ n. Holds image n ys) (omega arith) b)

pub read_byte_done :
    (image : List ℕ) (at b : ℕ) → get_elem? image at ≡ some b → read_byte image at ≡ done b
unfolding read_byte
read_byte_done image at b e = rw (e, read_byte) refl

-- A number that was written is read again.
pub read_word-little_endian :
    (n : ℕ) (image : List ℕ) (at v : ℕ)
    → v < 256 ^ n
    → Holds image at (little_endian n v)
    → read_word n image at ≡ done v
unfolding read_word
read_word-little_endian zero image at v small h = ap done (ground arith)
read_word-little_endian (suc n) image at v small (e, h) =
    let first = read_byte_done image at (v % 256) e in
    let power = pow-suc 256 n in
    let less : v / 256 < 256 ^ n = omega arith in
    let rest = read_word-little_endian n image (at + 1) (v / 256) less h in
    rw (first, rest) (ap done (omega arith))

-- The number that some bytes make.
abbrev pub value : List ℕ → ℕ
value [] = 0
value (b ∷ bs) = b + 256 * value bs

pub read_word-value :
    (image : List ℕ) (at : ℕ) (bs : List ℕ)
    → Holds image at bs
    → read_word (length bs) image at ≡ done (value bs)
unfolding read_word
read_word-value image at [] h = refl
read_word-value image at (b ∷ bs) (e, h) =
    let first = read_byte_done image at b e in
    let rest = read_word-value image (at + 1) bs h in rw (first, rest) refl

Holds-shift :
    (x : ℕ) (image : List ℕ) (at : ℕ) (bs : List ℕ)
    → Holds image at bs
    → Holds (x ∷ image) (at + 1) bs
Holds-shift x image at [] h = tt
Holds-shift x image at (b ∷ bs) (e, h) =
    let next : suc at ≡ at + 1 = omega arith in
    (subst (λ n. get_elem? (x ∷ image) n ≡ some b) next e, Holds-shift x image (at + 1) bs h)

Holds-all : (bs : List ℕ) → Holds bs 0 bs
Holds-all [] = tt
Holds-all (b ∷ bs) = (refl, Holds-shift b bs 0 bs (Holds-all bs))

-- Bytes put behind others stand there.
pub Holds-concat : (pre bs : List ℕ) → Holds (pre ++ bs) (length pre) bs
Holds-concat [] bs = Holds-all bs
Holds-concat (x ∷ pre) bs =
    let next : length pre + 1 ≡ suc (length pre) = omega arith in
    subst (λ n. Holds (x ∷ (pre ++ bs)) n bs) next
      (Holds-shift x (pre ++ bs) (length pre) bs (Holds-concat pre bs))
