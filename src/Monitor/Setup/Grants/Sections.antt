-- ===== src/Monitor/Setup/Grants/Sections.antt =====
-- The capabilities, the registers and the sockets that the app is given.
use s3k_monitor.Prelude.{
  ℕ, zero, suc, ◌/◌, ◌*◌, true, List, [], ◌∷◌, ltb, add64, u64, Run, pure, ◌>>=◌, Keeps, Keeps-bind,
  Keeps-if, sub64,
}
use s3k_monitor.S3k.{S3k}
use s3k_monitor.Capman.{Caps}
use s3k_monitor.Capman.Derive.{derive_pmp, derive_socket}
use s3k_monitor.Capman.Process.{mgivecap, msetreg}
use s3k_monitor.Capman.Frame.{On, derive_pmp-Hoare}
use s3k_monitor.Capman.Frame.Calls.{mgivecap-Keeps, msetreg-Keeps, derive_socket-Keeps}
use s3k_monitor.Codeauth.{Aes128}
use s3k_monitor.Monitor.{
  Monitor, lift, app_base, uart_base, app_pid, chunk_size, socket_port1, socket_port2,
}
use s3k_monitor.Monitor.Parse.{Section, Process}
use s3k_monitor.Monitor.Setup.{
  setup_app, setup_ipc, give_pmp, heap_loop, give_section, give_sections, strcmp, heap_name,
  mask_loop,
}
use s3k_monitor.Monitor.Loop.Policy.{lift-Keeps}
use s3k_monitor.Monitor.Setup.Grants.{Apart, AllApart, IsGuarded, guarded-IsKept}

module _ (s3k : S3k) (aes : Aes128) (P : s3k.Kernel → Type 0) where
  module _ (kept : IsGuarded s3k P) (apart : Apart s3k.rw_perm) where
    open s3k use {reg_pc, reg_pmp, rw_perm}

    abbrev pub Holds : Monitor s3k → Type 0
    Holds s = P s.caps.kernel

    -- A call of capman that is followed by another one.
    pub after :
        {A B : Type 0} (m : Run (Caps s3k) A) (f : A → Run (Monitor s3k) B)
        → Keeps (On s3k P) m
        → ((a : A) → Keeps Holds (f a))
        → Keeps Holds (lift m >>= f)
    after m f h k =
        Keeps-bind Holds (lift m) f (lift-Keeps s3k aes P (guarded-IsKept s3k aes P kept apart) m h)
          k

    give-Keeps : (src dst : ℕ) → Keeps (On s3k P) (mgivecap s3k app_pid src dst)
    give-Keeps src dst = mgivecap-Keeps s3k P kept.gives app_pid src dst

    set-Keeps : (reg v : ℕ) → Keeps (On s3k P) (msetreg s3k app_pid reg v)
    set-Keeps reg v = msetreg-Keeps s3k P kept.sets app_pid reg v

    connect-Keeps : (idx port tag : ℕ) → Keeps (On s3k P) (derive_socket s3k idx port tag)
    connect-Keeps idx port tag = derive_socket-Keeps s3k P kept.connects idx port tag

    give_pmp-Keeps :
        (begin end rwx npmp : ℕ) → Apart rwx → Keeps Holds (give_pmp s3k begin end rwx npmp)
    unfolding give_pmp
    give_pmp-Keeps begin end rwx npmp fine =
        after (derive_pmp s3k 0x20 begin end rwx) _
          (derive_pmp-Hoare s3k P 0x20 begin end rwx P (λ k p. p)
            (λ i addr k p. kept.derives i 0x20 addr rwx k p fine))
          λ _. after (mgivecap s3k app_pid 0x20 npmp) _ (give-Keeps 0x20 npmp) λ _ s p. p

    heap_loop-Keeps :
        (fuel : ℕ) (section : Section) (nchunks k npmp : ℕ)
        → Apart section.rwx
        → Keeps Holds (heap_loop s3k fuel section nchunks k npmp)
    unfolding heap_loop
    heap_loop-Keeps zero section nchunks k npmp fine = λ s p. tt
    heap_loop-Keeps (suc fuel) section nchunks k npmp fine =
        let begin = add64 (add64 app_base section.offset) (u64 (k * chunk_size)) in
        Keeps-if Holds (ltb k nchunks) _ (pure npmp)
          (Keeps-bind Holds (give_pmp s3k begin (add64 begin chunk_size) section.rwx npmp) _
            (give_pmp-Keeps begin (add64 begin chunk_size) section.rwx npmp fine)
            (λ n. heap_loop-Keeps fuel section nchunks (add64 k (sub64 nchunks 1)) n fine))
          (λ s p. p)

    give_section-Keeps :
        (section : Section) (npmp : ℕ)
        → Apart section.rwx
        → Keeps Holds (give_section s3k section npmp)
    unfolding give_section
    give_section-Keeps section npmp fine =
        Keeps-if Holds (strcmp section.section heap_name) _ _
          (heap_loop-Keeps 3 section (section.size / chunk_size) 0 npmp fine)
          (give_pmp-Keeps _ _ section.rwx npmp fine)

    give_sections-Keeps :
        (sections : List Section) (npmp : ℕ)
        → AllApart sections
        → Keeps Holds (give_sections s3k sections npmp)
    unfolding give_sections
    give_sections-Keeps [] npmp fine = λ s p. p
    give_sections-Keeps (section ∷ rest) npmp (fine, others) =
        Keeps-bind Holds (give_section s3k section npmp) _ (give_section-Keeps section npmp fine)
          (λ n. give_sections-Keeps rest n others)

    pub setup_app-Keeps :
        (app : Process) → AllApart app.header → Keeps Holds (setup_app s3k true app)
    unfolding setup_app
    setup_app-Keeps app fine =
        Keeps-bind Holds (give_sections s3k app.header 0) _ (give_sections-Keeps app.header 0 fine)
          λ n.
            Keeps-bind Holds _ _ (give_pmp-Keeps uart_base (add64 uart_base 0x100) rw_perm n apart)
              λ npmp. after (mgivecap s3k app_pid 0x18 0xf) _ (give-Keeps 0x18 0xf) λ _.
                after (msetreg s3k app_pid reg_pc app_base) _ (set-Keeps reg_pc app_base) λ _.
                  after (msetreg s3k app_pid reg_pmp (mask_loop npmp 0)) _
                    (set-Keeps reg_pmp (mask_loop npmp 0)) λ _ s p. p

    pub setup_ipc-Keeps : Keeps Holds (setup_ipc s3k)
    unfolding setup_ipc
    setup_ipc-Keeps =
        after (derive_socket s3k socket_port1 0 0) _ (connect-Keeps socket_port1 0 0) λ _.
          after (derive_socket s3k 0x20 0 1) _ (connect-Keeps 0x20 0 1) λ _.
            after (mgivecap s3k app_pid 0x20 socket_port2) _ (give-Keeps 0x20 socket_port2) λ _.
              after (derive_socket s3k 0x20 1 0) _ (connect-Keeps 0x20 1 0) λ _.
                after (derive_socket s3k socket_port2 1 1) _ (connect-Keeps socket_port2 1 1) λ _.
                  after (mgivecap s3k app_pid 0x20 socket_port1) _ (give-Keeps 0x20 socket_port1)
                    λ _ s p. p
