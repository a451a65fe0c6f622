-- ===== src/Monitor/Setup/Grants.antt =====
-- What the start of an app asks the kernel for: the capabilities that the app is given.
pub mod Sections
pub mod Start
use s3k_monitor.Prelude.{
  ℕ, zero, suc, ◌+◌, ◌/◌, ◌*◌, ◌^◌, ◌-◌, ◌≡◌, true, false, ◌&&◌, not, if◌then◌else◌, ◌==◌, List, [],
  ◌∷◌, length, ltb, add64, u64, Outcome, done, fault, spin, Run, pure, ◌>>=◌, Keeps, Keeps-bind,
  Keeps-if, Ensures, Ensures-bind, Bool, Bool-cases, inl, inr, modify, sub64,
}
use s3k_monitor.S3k.{S3k}
use s3k_monitor.Capman.{Caps}
use s3k_monitor.Capman.Derive.{derive_pmp, derive_socket}
use s3k_monitor.Capman.Process.{mresume, mgivecap, msetreg}
use s3k_monitor.Capman.Pmp.{getsoc}
use s3k_monitor.Capman.Frame.{On, derive_pmp-Hoare}
use s3k_monitor.Capman.Frame.Calls.{
  mresume-Keeps, mgivecap-Keeps, msetreg-Keeps, derive_socket-Keeps, getsoc-Keeps,
}
use s3k_monitor.Codeauth.{Aes128}
use s3k_monitor.Monitor.{
  Monitor, lift, call, element, app_base, app_size, uart_base, app_pid, header_size, chunk_size,
  socket_port1, socket_port2,
}
use s3k_monitor.Monitor.Parse.{Section, Process, parse_executable}
use s3k_monitor.Monitor.Setup.{
  setup, prepare, is_authentic, start_app, load_app, setup_app, setup_ipc, get_socs, await_app,
  give_pmp, heap_loop, give_section, give_sections, strcmp, heap_name, mask_loop, drop,
}
use s3k_monitor.Monitor.Setup.Refusal.{IsPrepared, prepare-Keeps}
use s3k_monitor.Monitor.Loop.{writable, executable}
use s3k_monitor.Monitor.Loop.Policy.{IsKept, In, lift-Keeps, element-Keeps}

-- Permissions that do not allow writing and executing together.
abbrev pub Apart : ℕ → Type 0
Apart rwx = (writable rwx && executable rwx) ≡ false

-- No section asks for both.
abbrev pub AllApart : List Section → Type 0
AllApart [] = Unit
AllApart (section ∷ rest) = Apart section.rwx × AllApart rest

module _ (s3k : S3k) where
  open s3k use {
    Kernel, movcap, delcap, drvcap, make_pmp, make_time, make_socket, setreg, reg_pmp, reg_pc,
    yield_time, mresume as s3k_mresume, mgivecap as s3k_mgivecap, msetreg as s3k_msetreg, send,
    recv, memcpy, rw_perm,
  }

  -- A predicate of the kernel's state that holds on through every call that the monitor makes, the
  -- derivations of PMP capabilities only where they do not allow writing and executing together.
  pub record IsGuarded (P : Kernel → Type 0) : Type 0 where
    pub derives :
        (i idx addr rwx : ℕ) (k : Kernel)
        → P k
        → Apart rwx
        → P (drvcap i idx (make_pmp addr rwx) k).1
    pub slices :
        (i idx hart begin end : ℕ) (k : Kernel)
        → P k
        → P (drvcap i idx (make_time hart begin end) k).1
    pub connects :
        (i idx port tag : ℕ) (k : Kernel) → P k → P (drvcap i idx (make_socket port tag) k).1
    pub moves : (src dst : ℕ) (k : Kernel) → P k → P (movcap src dst k).1
    pub deletes : (i : ℕ) (k : Kernel) → P k → P (delcap i k).1
    pub maps : (v : ℕ) (k : Kernel) → P k → P (setreg reg_pmp v k)
    pub yields : (k : Kernel) → P k → P (yield_time k)
    pub resumes : (mon pid : ℕ) (k : Kernel) → P k → P (s3k_mresume mon pid k)
    pub gives : (mon pid src dst : ℕ) (k : Kernel) → P k → P (s3k_mgivecap mon pid src dst k).1
    pub sets : (mon pid reg v : ℕ) (k : Kernel) → P k → P (s3k_msetreg mon pid reg v k).1
    pub sends :
        (socket : ℕ) (words : List ℕ) (at : ℕ) (b : Bool) (k : Kernel)
        → P k
        → P (send socket words at b k)
    pub receives :
        (socket : ℕ) (words : List ℕ) (at tag : ℕ) (k : Kernel)
        → P k
        → P ((recv socket words at tag k).kernel)
    pub copies : (at : ℕ) (bytes : List ℕ) (k : Kernel) → P k → P (memcpy at bytes k)

  module _ (aes : Aes128) (P : Kernel → Type 0) (kept : IsGuarded P) (apart : Apart rw_perm) where
    -- `loop` makes no other call, and `prepare` none either.
    pub guarded-IsKept : IsKept s3k aes P
    guarded-IsKept = record {
      moves = kept.moves;
      deletes = kept.deletes;
      yields = kept.yields;
      sends = kept.sends;
      receives = kept.receives;
      derives = λ i idx addr rwx k p (fine, _). kept.derives i idx addr rwx k p fine;
    }

    pub guarded-IsPrepared : IsPrepared s3k P
    guarded-IsPrepared = record {
      deletes = kept.deletes;
      derives = λ i idx addr k p. kept.derives i idx addr rw_perm k p apart;
      slices = kept.slices;
      maps = kept.maps;
    }
