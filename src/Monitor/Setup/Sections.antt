-- ===== src/Monitor/Setup/Sections.antt =====
-- `setup_app`: the capabilities that the app gets for its sections, one after the other.
use s3k_monitor.Prelude.{
  ℕ, ◌/◌, ◌^◌, ◌≡◌, ◌≢◌, ◌<◌, inl, inr, Bool, true, false, if◌then◌else◌, arith, List, [], ◌∷◌, ltb,
  add64, Bool-cases,
}
use s3k_monitor.S3k.{S3k}
use s3k_monitor.S3k.Laws.{Laws, Quiet}
use s3k_monitor.Monitor.{app_base, chunk_size, uart_base, app_size, app_pid}
use s3k_monitor.Monitor.Parse.{Section, Process}
use s3k_monitor.Monitor.Setup.{
  strcmp, heap_name, mask_loop, give_pmp, heap_loop, give_section, give_sections, setup_app,
}
use s3k_monitor.Monitor.Setup.Heap.{heap_loop_lem}
use s3k_monitor.Monitor.Setup.Steady.{
  Steady, Steady-bind, derive_pmp-Steady, mgivecap-Steady, msetreg-Steady,
}

-- A section of the name `.heap` is not of one chunk, and has fewer than 2^63.
abbrev pub Divisible : Section → Type 0
Divisible section =
    strcmp section.section heap_name ≡ true
    → (section.size / chunk_size ≢ 1) × (section.size / chunk_size < 2 ^ 63)

abbrev pub AllDivisible : List Section → Type 0
AllDivisible [] = Unit
AllDivisible (section ∷ rest) = Divisible section × AllDivisible rest

module _ (s3k : S3k) (laws : Laws s3k) (quiet : Quiet s3k) where
  open s3k use {rw_perm}

  give_pmp-Steady : (begin end rwx npmp : ℕ) → Steady s3k (give_pmp s3k begin end rwx npmp)
  unfolding give_pmp
  give_pmp-Steady begin end rwx npmp =
      Steady-bind s3k _ _ (derive_pmp-Steady s3k laws quiet 0x20 begin end rwx) λ _.
        Steady-bind s3k _ _ (mgivecap-Steady s3k laws quiet app_pid 0x20 npmp (omega arith))
          λ _ s p. p

  heap_loop-Steady :
      (section : Section) (npmp : ℕ)
      → (section.size / chunk_size ≢ 1) × (section.size / chunk_size < 2 ^ 63)
      → Steady s3k (heap_loop s3k 3 section (section.size / chunk_size) 0 npmp)
  unfolding heap_loop
  heap_loop-Steady section npmp (not_one, small) s p =
      elim (Bool-cases (ltb (section.size / chunk_size) 2)) [
        | inl few ↦ let none : ltb 0 (section.size / chunk_size) ≡ false = ground arith in rw none p
        | inr many ↦
            rw (heap_loop_lem s3k section 0 (section.size / chunk_size) npmp s (ground arith) small)
              (Steady-bind s3k _ _ (give_pmp-Steady _ _ section.rwx npmp)
                (λ n. give_pmp-Steady _ _ section.rwx n) s p)
      ]

  give_section-Steady :
      (section : Section) (npmp : ℕ)
      → Divisible section
      → Steady s3k (give_section s3k section npmp)
  unfolding give_section
  give_section-Steady section npmp fine s p = elim (Bool-cases (strcmp section.section heap_name)) [
    | inl heap ↦ rw heap (heap_loop-Steady section npmp (fine heap) s p)
    | inr other ↦ rw other (give_pmp-Steady _ _ section.rwx npmp s p)
  ]

  give_sections-Steady :
      (sections : List Section) (npmp : ℕ)
      → AllDivisible sections
      → Steady s3k (give_sections s3k sections npmp)
  unfolding give_sections
  give_sections-Steady [] npmp fine s p = p
  give_sections-Steady (section ∷ rest) npmp (fine, others) s p =
      Steady-bind s3k _ _ (give_section-Steady section npmp fine)
        (λ n. give_sections-Steady rest n others) s p

  pub setup_app-Steady :
      (secure : Bool) (app : Process)
      → AllDivisible app.header
      → Steady s3k (setup_app s3k secure app)
  unfolding setup_app
  setup_app-Steady secure app fine = Steady-bind s3k _ _ (memory secure) λ n.
      Steady-bind s3k _ _ (give_pmp-Steady uart_base (add64 uart_base 0x100) rw_perm n) λ npmp.
        Steady-bind s3k _ _ (mgivecap-Steady s3k laws quiet app_pid 0x18 0xf (omega arith)) λ _.
          Steady-bind s3k _ _ (msetreg-Steady s3k laws quiet app_pid s3k.reg_pc app_base) λ _.
            Steady-bind s3k _ _
              (msetreg-Steady s3k laws quiet app_pid s3k.reg_pmp (mask_loop npmp 0)) λ _ s p. p
    where
      memory :
          (secure : Bool)
          → Steady s3k (
              if secure
              then give_sections s3k app.header 0
              else give_pmp s3k app_base (add64 app_base app_size) s3k.rwx_perm 0)
      memory true = give_sections-Steady app.header 0 fine
      memory false = give_pmp-Steady app_base (add64 app_base app_size) s3k.rwx_perm 0
