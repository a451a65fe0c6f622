-- ===== src/Capman/Tests.antt =====
-- The theorems of capman at a table with one capability of each sort, over the example kernel.
use s3k_monitor.Prelude.{
  replicate, ◌>>◌, ℕ, zero, suc, ◌+◌, ◌*◌, ◌<◌, ◌≡◌, ◌≢◌, ◌⊎◌, true, false, if◌then◌else◌, ◌==◌,
  List, [], ◌∷◌, some, get_elem?, ap, ◌∙◌, refl, arith, done, pos, minus_one, Returns,
}
use s3k_monitor.S3k.{ncap}
use s3k_monitor.S3k.Laws.{SameTable}
use s3k_monitor.S3k.Example.{Machine, example, example_laws, example_quiet, put_same}
use s3k_monitor.Capman.{Caps}
use s3k_monitor.Capman.Table.{update, move}
use s3k_monitor.Capman.Derive.{derive_pmp}
use s3k_monitor.Capman.Process.{mgivecap}
use s3k_monitor.Capman.Pmp.{find_existing_pmp, setpmp, getpmp}
use s3k_monitor.Capman.Pmp.Bytes.{setpmp-getpmp}
use s3k_monitor.Capman.Coherent.{IsCoherent}
use s3k_monitor.Capman.Coherent.Moves.{move-IsCoherent}
use s3k_monitor.Capman.Coherent.Update.{count_used, update-IsCoherent}
use s3k_monitor.Capman.Coherent.Calls.{DerivedFrom, derive_pmp-IsCoherent}
use s3k_monitor.Capman.Coherent.Gifts.{Changes, mgivecap-IsCoherent}
use s3k_monitor.Capman.Coherent.Sequences.{
  gives, derives_pmp, moves, resumes, suspends, sets_pmp, updates, execute_all,
  execute_all-IsCoherent,
}
use s3k_monitor.Capman.Coherent.Replacement.{Replacement}
use s3k_monitor.Print.Prints.{Prints}
use s3k_monitor.Capman.Dump.{dump_all}
use s3k_monitor.Capman.Dump.Listing.{listing, dump_all-listing}
use s3k_monitor.Capman.Search.{SharesEnd, find_existing_pmp-SharesEnd}

abbrev pub example_pmp : ℕ
example_pmp = example.make_pmp (example.napot_addr 0x1000 0x2000) 3

-- Index 0 holds time, 1 memory, 0x30 a PMP range, 3 the monitor capability of processes 1 to 3, and
-- 4 a channel.
abbrev pub first_table : ℕ → ℕ
first_table i =
    if i == 0
    then 1
    else (if i == 1
        then 2
        else (if i == 0x30
            then example_pmp
            else (if i == 3 then suc (8 * (1 + 256 * 4) + 3) else (if i == 4 then 5 else 0))))

abbrev pub machine : Machine
machine = record {
  table = first_table;
  app_table = λ i. if i == 5 then 2 else 0;
  derived = [];
  resumed = [];
  inbox = 2 ∷ 0 ∷ 0 ∷ 3 ∷ [];
  gift = example_pmp;
  sent = [];
  memory = λ a. 0;
  registers = λ r. 0;
}

-- `n` values of a table from an index on.
abbrev pub row : ℕ → ℕ → (ℕ → ℕ) → List ℕ
row zero i f = []
row (suc n) i f = f i ∷ row n (i + 1) f

get_elem?-row : (n i j : ℕ) (f : ℕ → ℕ) → j < n → get_elem? (row n i f) j ≡ some (f (i + j))
get_elem?-row zero i j f p = absurd (omega arith)
get_elem?-row (suc n) i zero f p = ap (λ k. some (f k)) (omega arith)
get_elem?-row (suc n) i (suc j) f p =
    get_elem?-row n (i + 1) j f (omega arith) ∙ ap (λ k. some (f k)) (omega arith)

abbrev pub start : Caps example
start = record { kernel = machine; caps = row 64 0 first_table; ncaps = 5 }

pub start-IsCoherent : IsCoherent example start
start-IsCoherent = record {
  size = refl;
  mirror = λ j p.
      let same : 0 + j ≡ j = omega arith in
      get_elem?-row 64 0 j first_table p ∙ ap (λ k. some (first_table k)) same;
}

update-IsCoherent_example : Returns (update example start) (λ _ s'.
    IsCoherent example s' × (s'.kernel ≡ machine) × (s'.ncaps ≡ count_used example ncap machine))
update-IsCoherent_example = update-IsCoherent example start refl

move-IsCoherent_example : Returns (move example 4 9 start) (λ r s'.
    IsCoherent example s'
    × (((r ≡ false) × SameTable example machine s'.kernel)
        ⊎ ((r ≡ true)
            × ◌≢◌ {A = ℕ} 4 9
            × (s'.kernel.table 9 ≡ first_table 4)
            × (s'.kernel.table 4 ≡ 0)
            × ((j : ℕ) → j ≢ 4 → j ≢ 9 → s'.kernel.table j ≡ first_table j))))
move-IsCoherent_example =
    move-IsCoherent example example_laws start-IsCoherent 4 9 (omega arith) (omega arith)

derive_pmp-IsCoherent_example : Returns (derive_pmp example 0x20 0x3000 0x4000 3 start) (λ r s'.
    IsCoherent example s'
    × DerivedFrom example example_laws 0x20
        (example.make_pmp (example.napot_addr 0x3000 0x4000) 3)
        start
        r
        s'
    × ((r ≡ false)
        ⊎ ((0x3000 ≡ example.napot_begin (example.napot_addr 0x3000 0x4000))
            × (0x4000 ≡ example.napot_end (example.napot_addr 0x3000 0x4000)))))
derive_pmp-IsCoherent_example =
    derive_pmp-IsCoherent example example_laws start-IsCoherent 0x20 0x3000 0x4000 3

execute_all-IsCoherent_example :
    Returns
      (execute_all example
        (gives 1 4 9
          ∷ derives_pmp 0x20 0x3000 0x4000 3
          ∷ moves 0x20 0x21
          ∷ resumes 1
          ∷ suspends 1
          ∷ sets_pmp (replicate 8 0)
          ∷ updates
          ∷ [])
        start)
      (λ _ s'. IsCoherent example s')
execute_all-IsCoherent_example =
    execute_all-IsCoherent example example_laws example_quiet
      (gives 1 4 9
        ∷ derives_pmp 0x20 0x3000 0x4000 3
        ∷ moves 0x20 0x21
        ∷ resumes 1
        ∷ suspends 1
        ∷ sets_pmp (replicate 8 0)
        ∷ updates
        ∷ [])
      start (omega arith, (tt, ((omega arith, omega arith), (tt, (tt, (refl, (tt, tt)))))))
      start-IsCoherent

mgivecap-IsCoherent_example : Returns (mgivecap example 1 0x30 0 start) (λ r s'.
    Changes example example_laws 0x30 start r s' × ((r ≡ false) ⊎ (s'.kernel.table 0x30 ≡ 0)))
mgivecap-IsCoherent_example =
    mgivecap-IsCoherent example example_laws start-IsCoherent 1 0x30 0 (omega arith)

find_existing_pmp-SharesEnd_example :
    ((i : ℕ) × (i < ncap)
      × SharesEnd example 0x1000 0x8000 (first_table i)
      × ((j : ℕ) → j < i → ¬ (SharesEnd example 0x1000 0x8000 (first_table j)))
      × (find_existing_pmp example 0x1000 0x8000 start ≡ done (pos i, start)))
    ⊎ (((j : ℕ) → j < ncap → ¬ (SharesEnd example 0x1000 0x8000 (first_table j)))
        × (find_existing_pmp example 0x1000 0x8000 start ≡ done (minus_one, start)))
find_existing_pmp-SharesEnd_example =
    find_existing_pmp-SharesEnd example 0x1000 0x8000 start-IsCoherent

setpmp-getpmp_example :
    (setpmp example (9 ∷ 12 ∷ 0 ∷ 0 ∷ 0 ∷ 0 ∷ 0 ∷ 255 ∷ [])
        >> getpmp example (1 ∷ 2 ∷ 3 ∷ 4 ∷ 5 ∷ 6 ∷ 7 ∷ 8 ∷ []))
      start
    ≡ done (
      9 ∷ 12 ∷ 0 ∷ 0 ∷ 0 ∷ 0 ∷ 0 ∷ 255 ∷ [],
      record start { kernel = example.setreg 1 0xFF00000000000C09 machine },
    )
setpmp-getpmp_example =
    setpmp-getpmp 9 12 0 0 0 0 0 255 (omega arith) (omega arith) (omega arith) (omega arith)
      (omega arith) (omega arith) (omega arith) (omega arith) example
      (λ v k. put_same 1 v k.registers) start 1 2 3 4 5 6 7 8

dump_all-listing_example : Prints (dump_all example start.caps) tt (listing example 0 start.caps)
dump_all-listing_example = dump_all-listing example start.caps refl
