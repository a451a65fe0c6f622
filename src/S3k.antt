-- ===== src/S3k.antt =====
-- The interface of the s3k kernel (its header s3k.h), which the monitor and the app link against and
-- which is not part of the repository. The code is modelled over any such kernel: `S3k` names what
-- the code calls, and `S3k.Laws` what it relies on.
pub mod Laws
pub mod Example
use s3k_monitor.Prelude.{ℕ, Bool, List}

-- What `s3k_recv` leaves behind.
pub record Message (Kernel : Type 0) : Type 0 where
  pub words : List ℕ
  pub tag : ℕ
  pub kernel : Kernel

-- `Kernel` is the state of the kernel together with the memory and the other processes. A call takes
-- its arguments in the order of the C function, then that state; one with a status returns it first.
pub record S3k : Type 1 where
  pub Kernel : Type 0
  -- `union s3k_cap`: its word, the union with a given word, and the members that the code reads.
  pub Cap : Type 0
  pub raw : Cap → ℕ
  pub with_raw : ℕ → Cap
  pub captype : Cap → ℕ
  pub pmp_addr : Cap → ℕ
  pub pmp_cfg : Cap → ℕ
  pub monitor_begin : Cap → ℕ
  pub monitor_free : Cap → ℕ
  pub monitor_end : Cap → ℕ
  pub socket_channel : Cap → ℕ
  pub socket_tag : Cap → ℕ
  pub time_hartid : Cap → ℕ
  pub time_begin : Cap → ℕ
  pub time_end : Cap → ℕ
  pub time_free : Cap → ℕ
  pub memory_offset : Cap → ℕ
  pub memory_begin : Cap → ℕ
  pub memory_end : Cap → ℕ
  pub memory_free : Cap → ℕ
  pub memory_lock : Cap → ℕ
  pub memory_rwx : Cap → ℕ
  pub channel_begin : Cap → ℕ
  pub channel_end : Cap → ℕ
  pub channel_free : Cap → ℕ
  -- The constants: `S3K_EXCPT_NONE`, `S3K_CAPTY_*`, `S3K_REG_*`, and the permissions.
  pub excpt_none : ℕ
  pub capty_none : ℕ
  pub capty_time : ℕ
  pub capty_memory : ℕ
  pub capty_pmp : ℕ
  pub capty_monitor : ℕ
  pub capty_channel : ℕ
  pub capty_socket : ℕ
  pub reg_pc : ℕ
  pub reg_pmp : ℕ
  pub reg_epc : ℕ
  pub reg_esp : ℕ
  pub reg_ecause : ℕ
  pub reg_eval : ℕ
  pub reg_tpc : ℕ
  pub reg_tsp : ℕ
  pub rw_perm : ℕ
  pub rwx_perm : ℕ
  -- The functions on capabilities and NAPOT ranges.
  pub napot_begin : ℕ → ℕ
  pub napot_end : ℕ → ℕ
  pub napot_addr : ℕ → ℕ → ℕ
  pub make_pmp : ℕ → ℕ → Cap
  pub make_memory : ℕ → ℕ → ℕ → ℕ → Cap
  pub make_time : ℕ → ℕ → ℕ → Cap
  pub make_socket : ℕ → ℕ → Cap
  pub memory_derive : Cap → Cap → Bool
  pub time_derive : Cap → Cap → Bool
  pub channel_derive : Cap → Cap → Bool
  pub socket_derive : Cap → Cap → Bool
  -- The system calls on the caller's own capabilities and registers.
  pub getcap : ℕ → Kernel → Cap
  pub movcap : ℕ → ℕ → Kernel → ℕ × Kernel
  pub delcap : ℕ → Kernel → ℕ × Kernel
  pub drvcap : ℕ → ℕ → Cap → Kernel → ℕ × Kernel
  pub getreg : ℕ → Kernel → ℕ
  pub setreg : ℕ → ℕ → Kernel → Kernel
  pub yield_time : Kernel → Kernel
  -- The system calls on a monitored process: capability index, process, and the arguments.
  pub mresume : ℕ → ℕ → Kernel → Kernel
  pub msuspend : ℕ → ℕ → Kernel → Kernel
  pub mgivecap : ℕ → ℕ → ℕ → ℕ → Kernel → ℕ × Kernel
  pub mtakecap : ℕ → ℕ → ℕ → ℕ → Kernel → ℕ × Kernel
  pub msetreg : ℕ → ℕ → ℕ → ℕ → Kernel → ℕ × Kernel
  -- The status and the register's value.
  pub mgetreg : ℕ → ℕ → ℕ → Kernel → ℕ × ℕ
  -- Messages: the socket, the words, the index of the capability sent or received.
  pub send : ℕ → List ℕ → ℕ → Bool → Kernel → Kernel
  pub recv : ℕ → List ℕ → ℕ → ℕ → Kernel → Message Kernel
  -- Memory as the code's pointers see it: one byte, and `memcpy` of some bytes to an address.
  pub load_byte : ℕ → Kernel → ℕ
  pub memcpy : ℕ → List ℕ → Kernel → Kernel

-- `NCAP` of misc/config.h.
abbrev pub ncap : ℕ
ncap = 64
