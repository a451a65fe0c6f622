-- ===== src/S3k/Example.antt =====
-- A small kernel that has the laws: the monitor's table of capabilities, a log of the derivations
-- asked for and of the processes resumed, one message that waits, and memory.
use s3k_monitor.Prelude.{
  ℕ, zero, suc, ◌+◌, ◌-◌, ◌*◌, ◌/◌, ◌%◌, ◌^◌, ◌<◌, ◌≡◌, ◌≢◌, refl, ap, ◌∙◌, arith, Bool, true,
  false, ◌&&◌, if◌then◌else◌, ◌==◌, ltb, leb, List, [], ◌∷◌, none, some, get_elem?, length,
}
use s3k_monitor.S3k.{S3k, ncap}
use s3k_monitor.S3k.Laws.{Laws, Quiet}

pub record Machine : Type 0 where
  pub table : ℕ → ℕ
  pub app_table : ℕ → ℕ
  pub derived : List ℕ
  pub resumed : List ℕ
  pub inbox : List ℕ
  pub gift : ℕ
  pub sent : List (List ℕ)
  pub memory : ℕ → ℕ
  pub registers : ℕ → ℕ

-- A function with one value changed.
unfoldable pub put : ℕ → ℕ → (ℕ → ℕ) → ℕ → ℕ
put i v f j = if j == i then v else f j

pub put_same : (i v : ℕ) (f : ℕ → ℕ) → put i v f i ≡ v
unfolding put
put_same i v f = ground arith

put_other : (i v j : ℕ) (f : ℕ → ℕ) → j ≢ i → put i v f j ≡ f j
unfolding put
put_other i v j f ne = ground arith

-- A capability is a number: 0, or one more than eight times its content and a kind below 8.
abbrev kind : ℕ → ℕ
kind zero = 0
kind (suc n) = suc (n % 8)

abbrev content : ℕ → ℕ
content c = (c - 1) / 8

abbrev make : ℕ → ℕ → ℕ
make k c = suc (8 * c + k)

-- The message over a buffer: as many words as the buffer has.
abbrev fill : List ℕ → List ℕ → List ℕ
fill [] ms = []
fill (w ∷ ws) [] = w ∷ fill ws []
fill (w ∷ ws) (m ∷ ms) = m ∷ fill ws ms

length-fill : (ws ms : List ℕ) → length (fill ws ms) ≡ length ws
length-fill [] ms = refl
length-fill (w ∷ ws) [] = ap suc (length-fill ws [])
length-fill (w ∷ ws) (m ∷ ms) = ap suc (length-fill ws ms)

abbrev pub with_table : (ℕ → ℕ) → Machine → Machine
with_table t k = record k { table = t }

abbrev pub move_cap : ℕ → ℕ → Machine → ℕ × Machine
move_cap src dst k = (0, with_table (put dst (k.table src) (put src 0 k.table)) k)

-- A derivation needs both indices in the table, and a free target.
abbrev derive_if : Bool → ℕ → ℕ → Machine → ℕ × Machine
derive_if true idx c k = (0, record k { table = put idx c k.table; derived = c ∷ k.derived })
derive_if false idx c k = (1, record k { derived = c ∷ k.derived })

abbrev can_derive : ℕ → ℕ → Machine → Bool
can_derive i idx k = ltb i ncap && (ltb idx ncap && k.table idx == 0)

unfoldable pub derive_cap : ℕ → ℕ → ℕ → Machine → ℕ × Machine
derive_cap i idx c k = derive_if (can_derive i idx k) idx c k

-- Kinds: 0 time, 1 memory, 2 PMP, 3 monitor, 4 channel, 5 socket.
abbrev pub example : S3k
example = record {
  Kernel = Machine;
  Cap = ℕ;
  raw = λ c. c;
  with_raw = λ c. c;
  captype = kind;
  pmp_addr = λ c. content c % 2 ^ 64;
  pmp_cfg = λ c. content c / 2 ^ 64;
  monitor_begin = λ c. content c % 256;
  monitor_free = λ c. content c % 256;
  monitor_end = λ c. content c / 256;
  socket_channel = λ c. content c % 8;
  socket_tag = λ c. content c / 8;
  time_hartid = λ c. 0;
  time_begin = λ c. content c;
  time_end = λ c. content c;
  time_free = λ c. content c;
  memory_offset = λ c. 16;
  memory_begin = λ c. content c;
  memory_end = λ c. content c;
  memory_free = λ c. content c;
  memory_lock = λ c. 0;
  memory_rwx = λ c. 7;
  channel_begin = λ c. content c;
  channel_end = λ c. content c;
  channel_free = λ c. content c;
  excpt_none = 0;
  capty_none = 0;
  capty_time = 1;
  capty_memory = 2;
  capty_pmp = 3;
  capty_monitor = 4;
  capty_channel = 5;
  capty_socket = 6;
  reg_pc = 0;
  reg_pmp = 1;
  reg_epc = 2;
  reg_esp = 3;
  reg_ecause = 4;
  reg_eval = 5;
  reg_tpc = 6;
  reg_tsp = 7;
  rw_perm = 3;
  rwx_perm = 7;
  napot_begin = λ a. a / 2 ^ 32;
  napot_end = λ a. a % 2 ^ 32;
  napot_addr = λ b e. b * 2 ^ 32 + e;
  make_pmp = λ addr rwx. make 2 (rwx * 2 ^ 64 + addr % 2 ^ 64);
  make_memory = λ b e o rwx. make 1 b;
  make_time = λ hart b e. make 0 b;
  make_socket = λ port tag. make 5 port;
  memory_derive = λ p c. kind p == 2;
  time_derive = λ p c. kind p == 1;
  channel_derive = λ p c. kind p == 5;
  socket_derive = λ p c. kind p == 6;
  getcap = λ i k. k.table i;
  movcap = move_cap;
  delcap = λ i k. (0, with_table (put i 0 k.table) k);
  drvcap = derive_cap;
  getreg = λ r k. k.registers r;
  setreg = λ r v k. record k { registers = put r v k.registers };
  yield_time = λ k. k;
  mresume = λ m p k. record k { resumed = p ∷ k.resumed };
  msuspend = λ m p k. k;
  mgivecap = λ m p src dst k.
      (0, record k { table = put src 0 k.table; app_table = put dst (k.table src) k.app_table });
  mtakecap = λ m p src dst k. (
    0,
    record k { table = put dst (k.app_table src) k.table; app_table = put src 0 k.app_table },
  );
  msetreg = λ m p r v k. (0, k);
  mgetreg = λ m p r k. (0, k.registers r);
  send = λ socket words at b k. record k { sent = words ∷ k.sent };
  recv = λ socket words at tag k. record {
    words = fill words k.inbox;
    tag = tag;
    kernel = with_table (put at k.gift k.table) k;
  };
  load_byte = λ a k. k.memory a;
  memcpy = λ at bs k. record k {
    memory = λ a.
        if leb at a
        then (elim (get_elem? bs (a - at)) [ none ↦ k.memory a | some b ↦ b ])
        else k.memory a;
  };
}

derive_if_others :
    (b : Bool) (idx j c : ℕ) (k : Machine) → j ≢ idx → (derive_if b idx c k).1.table j ≡ k.table j
derive_if_others true idx j c k ne = put_other idx c j k.table ne
derive_if_others false idx j c k ne = refl

derive_if_derived :
    (b : Bool) (idx c : ℕ) (k : Machine)
    → (derive_if b idx c k).0 ≡ 0
    → (b ≡ true) × ((derive_if b idx c k).1.table idx ≡ c)
derive_if_derived true idx c k e = (refl, put_same idx c k.table)
derive_if_derived false idx c k e = absurd (omega arith)

derive_if_failed :
    (b : Bool) (idx j c : ℕ) (k : Machine)
    → (derive_if b idx c k).0 ≢ 0
    → (derive_if b idx c k).1.table j ≡ k.table j
derive_if_failed true idx j c k ne = absurd (ne refl)
derive_if_failed false idx j c k ne = refl

in_table : (a b : ℕ) (c : Bool) → (ltb a ncap && (ltb b ncap && c)) ≡ true → (a < ncap) × (b < ncap)
in_table a b c e = ground arith

empty_of_kind : (c : ℕ) → kind c ≡ 0 → c ≡ 0
empty_of_kind zero e = refl
empty_of_kind (suc n) e = absurd (omega arith)

kind_of_empty : (c : ℕ) → c ≡ 0 → kind c ≡ 0
kind_of_empty zero e = refl
kind_of_empty (suc n) e = absurd (omega arith)

-- A derivation leaves its entry in the log, and resumes nothing.
pub derive_cap-log :
    (i idx c : ℕ) (k : Machine)
    → ((derive_cap i idx c k).1.derived ≡ c ∷ k.derived)
      × ((derive_cap i idx c k).1.resumed ≡ k.resumed)
unfolding derive_cap
derive_cap-log i idx c k = go (can_derive i idx k)
  where
    go :
        (b : Bool)
        → ((derive_if b idx c k).1.derived ≡ c ∷ k.derived)
          × ((derive_if b idx c k).1.resumed ≡ k.resumed)
    go true = (refl, refl)
    go false = (refl, refl)

pub example_laws : Laws example
unfolding derive_cap
example_laws = record {
  raw-with_raw = refl;
  with_raw-raw = λ c. refl;
  captype-empty = kind_of_empty;
  empty_of_none = empty_of_kind;
  none_is_none = refl;
  movcap_moved = λ src dst k e. (
    put_same dst (k.table src) (put src 0 k.table),
    λ ne. put_other dst (k.table src) src (put src 0 k.table) ne ∙ put_same src 0 k.table,
  );
  movcap_others = λ src dst j k ne ne'.
      put_other dst (k.table src) j (put src 0 k.table) ne' ∙ put_other src 0 j k.table ne;
  movcap_failed = λ src dst k ne. absurd (ne refl);
  delcap_deleted = λ i k ne. put_same i 0 k.table;
  delcap_others = λ i j k ne. put_other i 0 j k.table ne;
  drvcap_in_table = λ i idx c k e.
      in_table i idx (k.table idx == 0) (derive_if_derived (can_derive i idx k) idx c k e).0;
  drvcap_derived = λ i idx c k e. (derive_if_derived (can_derive i idx k) idx c k e).1;
  drvcap_others = λ i idx j c k ne ne'. derive_if_others (can_derive i idx k) idx j c k ne';
  drvcap_failed = λ i idx c k ne j. derive_if_failed (can_derive i idx k) idx j c k ne;
  mgivecap_given = λ m p src dst k e. put_same src 0 k.table;
  mgivecap_others = λ m p src dst j k ne. put_other src 0 j k.table ne;
  mgivecap_failed = λ m p src dst k ne. absurd (ne refl);
  mtakecap_others = λ m p src dst j k ne. put_other dst (k.app_table src) j k.table ne;
  mtakecap_failed = λ m p src dst k ne. absurd (ne refl);
  length-recv = λ socket words at tag k. length-fill words k.inbox;
}

pub example_quiet : Quiet example
example_quiet = record {
  setreg_same = λ reg v k j. refl;
  yield_same = λ k j. refl;
  memcpy_same = λ at bytes k j. refl;
  mresume_same = λ mon pid k j. refl;
  msuspend_same = λ mon pid k j. refl;
  msetreg_same = λ mon pid reg v k j. refl;
  few_channels = λ c e. omega arith;
}
