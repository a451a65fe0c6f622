-- ===== src/Format/Tests.antt =====
-- The theorems of the formatting tools at a section file of one entry.
use s3k_monitor.Prelude.{
  Returns, Bool-cases, inl, inr, ℕ, ◌+◌, ◌≡◌, Bool, true, false, ◌&&◌, ◌==◌, List, [], ◌∷◌, none,
  some, if◌then◌else◌, done, ◌>>◌, arith, refl, replicate,
}
use s3k_monitor.S3k.Example.{Machine, example, example_laws, put}
use s3k_monitor.Codeauth.{Aes128, Bytes, calc_sig}
use s3k_monitor.Capman.Tests.{machine, start}
use s3k_monitor.Monitor.{Monitor, app_pid}
use s3k_monitor.Monitor.Parse.{Process}
use s3k_monitor.Monitor.Parse.Encoding.{as_parsed, value}
use s3k_monitor.Monitor.Setup.{setup, prepare, start_app, bytes_from}
use s3k_monitor.Monitor.Loop.{loop, memory, is_signed}
use s3k_monitor.Monitor.Tests.{text, text-IsEntry, running}
use s3k_monitor.Format.{format, format_sig, write_signed}
use s3k_monitor.Print.{codes}
use s3k_monitor.Format.Program.{Files, same_name, format_names, tool_names, format_main}
use s3k_monitor.Format.Program.Names.{NoDot, names_lem}
use s3k_monitor.Format.Program.Runs.{numbered, format_main-starts}
use s3k_monitor.Format.Text.Lines.{file_text}
use s3k_monitor.Format.Start.{setup-format}
use s3k_monitor.Format.Granted.{Verified, loop-Verified}
use s3k_monitor.Monitor.Loop.Turns.{received}
use s3k_monitor.Format.Code.{Stored, ReadsBuffer, image_of_code, format_sig-is_signed}

-- A line is taken for the bytes of its number.
abbrev lines : List (List ℕ)
lines = (46 ∷ 116 ∷ 101 ∷ 120 ∷ 116 ∷ 0 ∷ 0 ∷ 0 ∷ []) ∷ (0 ∷ []) ∷ (0 ∷ 16 ∷ []) ∷ (5 ∷ []) ∷ []

-- A cipher whose MAC is the first 16 bytes of the buffer, each one more than there.
abbrev small_aes : Aes128
small_aes = record { keyexpansion = λ key. key; cbc_mac = λ rk buf n j. buf j + 1 }

small_aes-ReadsBuffer : ReadsBuffer small_aes
small_aes-ReadsBuffer rk n p q large same j below = let e = same j (omega arith) in rw e refl

setup-format_example :
    let app : Process = record { pid = app_pid; header = as_parsed 0 (text ∷ []) } in
    (image : List ℕ) × (format value small_aes false (some lines) (some (1 ∷ 2 ∷ [])) ≡ done image)
    × (setup example small_aes true image running
        ≡ (prepare example >> start_app example true image app) running)
setup-format_example =
    setup-format example small_aes value false lines (1 ∷ 2 ∷ []) (text ∷ []) running
      (text-IsEntry, tt)
      (((omega arith, (omega arith, (omega arith, (omega arith, (omega arith, tt))))), tt))
      (omega arith) refl

abbrev code : List ℕ
code = replicate 16 7

-- The memory with signed code at the address 0.
abbrev stored : Machine
stored = record machine {
  memory = bytes_from (image_of_code small_aes false (replicate 8 0) code) 0;
}

-- Whether the bytes stand in the memory.
abbrev pub is_stored : Bytes → ℕ → List ℕ → Bool
is_stored p at [] = true
is_stored p at (b ∷ bs) = (p at == b) && is_stored p (at + 1) bs

pub is_stored-Stored :
    (p : Bytes) (at : ℕ) (bs : List ℕ) → is_stored p at bs ≡ true → Stored p at bs
is_stored-Stored p at [] e = tt
is_stored-Stored p at (b ∷ bs) e = elim (Bool-cases (p at == b)) [
  | inl same ↦
      let rest : is_stored p (at + 1) bs ≡ true = ground (arith, e, same) in
      (ground (arith, same), is_stored-Stored p (at + 1) bs rest)
  | inr other ↦ absurd (ground (arith, e, other))
]

format_sig-is_signed_example : is_signed example small_aes true stored 0 ≡ true
unfolding format_sig write_signed calc_sig
format_sig-is_signed_example =
    format_sig-is_signed example small_aes small_aes-ReadsBuffer false (replicate 8 0) code stored 0
      refl (omega arith) (omega arith)
      (is_stored-Stored (memory example small_aes true stored 0) 0
        (image_of_code small_aes false (replicate 8 0) code) refl)

-- The request to execute that code waits.
abbrev asking : Monitor example
asking = record running {
  caps = record start { kernel = record stored { inbox = 2 ∷ 0 ∷ 0 ∷ 5 ∷ [] } };
}

loop-Verified_example :
    Returns
      (loop example small_aes true 1 asking)
      (λ _ s'. Verified example example_laws small_aes true (received example 10 asking) s')
unfolding format_sig write_signed calc_sig put
loop-Verified_example =
    loop-Verified example example_laws small_aes small_aes-ReadsBuffer false (replicate 8 0) code 0
      10 0 asking refl (omega arith) (omega arith)
      (is_stored-Stored (memory example small_aes true (received example 10 asking).caps.kernel 0) 0
        (image_of_code small_aes false (replicate 8 0) code) refl)
      refl refl (record { table = refl; sockets = refl; words = refl }) refl refl

-- `app.bin` and `app.txt`.
abbrev built : Files
built n =
    if same_name n (codes "app.bin")
    then some (1 ∷ 2 ∷ [])
    else if same_name n (codes "app.txt")
    then some (file_text (numbered (text ∷ [])))
    else none

no_dots : NoDot (codes "app") × NoDot (codes "bin")
no_dots = (
  (λ e. omega (arith, e), (λ e. omega (arith, e), (λ e. omega (arith, e), tt))),
  (λ e. omega (arith, e), (λ e. omega (arith, e), (λ e. omega (arith, e), tt))),
)

names_lem_example :
    (format_names (codes "app.bin")
      ≡ done (record {
        input_file = codes "app.bin";
        output_file = codes "app.fmt.bin";
        info_file = codes "app.txt";
      }))
    × (tool_names (codes ".sig.") (codes "app.bin")
        ≡ done (codes "app.bin", codes "app", codes "app.sig.bin"))
names_lem_example =
    names_lem (codes "app") (codes "bin") no_dots.0 no_dots.1 (omega arith) (omega arith)

format_main-starts_example :
    let app : Process = record { pid = app_pid; header = as_parsed 0 (text ∷ []) } in
    (image : List ℕ) × (files : Files) × (format_main small_aes false
        (codes "app_format" ∷ codes "app.bin" ∷ [])
        built
      ≡ done files)
    × (files (codes "app.fmt.bin") ≡ some image)
    × ((name : List ℕ) → same_name name (codes "app.fmt.bin") ≡ false → files name ≡ built name)
    × (setup example small_aes true image running
        ≡ (prepare example >> start_app example true image app) running)
format_main-starts_example =
    format_main-starts example small_aes (codes "app_format") (codes "app") (codes "bin")
      (1 ∷ 2 ∷ []) (text ∷ []) built running no_dots (omega arith, omega arith) (omega arith)
      (text-IsEntry, tt)
      (((omega arith, (omega arith, (omega arith, (omega arith, (omega arith, tt))))), tt))
      (omega arith) (omega arith, (omega arith, (omega arith, (omega arith, tt)))) refl refl
