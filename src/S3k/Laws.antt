-- ===== src/S3k/Laws.antt =====
-- What the code relies on in the kernel: how each call changes the caller's capability table.
use s3k_monitor.Prelude.{ℕ, ◌<◌, ◌≡◌, ◌≢◌, List, length}
use s3k_monitor.S3k.{S3k, ncap}

module _ (s3k : S3k) where
  open s3k use {
    Kernel, Cap, raw, with_raw, captype, excpt_none, capty_none, getcap, movcap, delcap, drvcap,
    mgivecap, mtakecap, recv, capty_socket, socket_channel, setreg, yield_time, memcpy, mresume,
    msuspend, msetreg,
  }

  -- The tables agree at every index but those that are named.
  abbrev pub SameTable : Kernel → Kernel → Type 0
  SameTable k k' = (j : ℕ) → getcap j k' ≡ getcap j k

  pub record Laws : Type 0 where
    -- The empty capability is the one whose word is 0, and it has the type NONE, which is 0 as
    -- `S3K_EXCPT_NONE` is.
    pub raw-with_raw : raw (with_raw 0) ≡ 0
    pub with_raw-raw : (c : Cap) → with_raw (raw c) ≡ c
    pub captype-empty : (c : Cap) → raw c ≡ 0 → captype c ≡ capty_none
    pub empty_of_none : (c : Cap) → captype c ≡ capty_none → raw c ≡ 0
    pub none_is_none : capty_none ≡ excpt_none
    -- A move carries the capability over and empties its old place.
    pub movcap_moved :
        (src dst : ℕ) (k : Kernel)
        → (movcap src dst k).0 ≡ excpt_none
        → (getcap dst (movcap src dst k).1 ≡ getcap src k)
          × (src ≢ dst → getcap src (movcap src dst k).1 ≡ with_raw 0)
    pub movcap_others :
        (src dst j : ℕ) (k : Kernel)
        → j ≢ src
        → j ≢ dst
        → getcap j (movcap src dst k).1 ≡ getcap j k
    pub movcap_failed :
        (src dst : ℕ) (k : Kernel)
        → (movcap src dst k).0 ≢ excpt_none
        → SameTable k (movcap src dst k).1
    -- A capability that is there can be deleted.
    pub delcap_deleted :
        (i : ℕ) (k : Kernel) → raw (getcap i k) ≢ 0 → getcap i (delcap i k).1 ≡ with_raw 0
    pub delcap_others : (i j : ℕ) (k : Kernel) → j ≢ i → getcap j (delcap i k).1 ≡ getcap j k
    -- A derivation reads and changes its source, and writes its target; it fails outside the table.
    pub drvcap_in_table :
        (i idx : ℕ) (c : Cap) (k : Kernel)
        → (drvcap i idx c k).0 ≡ excpt_none
        → (i < ncap) × (idx < ncap)
    pub drvcap_derived :
        (i idx : ℕ) (c : Cap) (k : Kernel)
        → (drvcap i idx c k).0 ≡ excpt_none
        → getcap idx (drvcap i idx c k).1 ≡ c
    pub drvcap_others :
        (i idx j : ℕ) (c : Cap) (k : Kernel)
        → j ≢ i
        → j ≢ idx
        → getcap j (drvcap i idx c k).1 ≡ getcap j k
    pub drvcap_failed :
        (i idx : ℕ) (c : Cap) (k : Kernel)
        → (drvcap i idx c k).0 ≢ excpt_none
        → SameTable k (drvcap i idx c k).1
    -- A capability given away leaves its place empty; one taken fills the place named.
    pub mgivecap_given :
        (mon pid src dst : ℕ) (k : Kernel)
        → (mgivecap mon pid src dst k).0 ≡ excpt_none
        → getcap src (mgivecap mon pid src dst k).1 ≡ with_raw 0
    pub mgivecap_others :
        (mon pid src dst j : ℕ) (k : Kernel)
        → j ≢ src
        → getcap j (mgivecap mon pid src dst k).1 ≡ getcap j k
    pub mgivecap_failed :
        (mon pid src dst : ℕ) (k : Kernel)
        → (mgivecap mon pid src dst k).0 ≢ excpt_none
        → SameTable k (mgivecap mon pid src dst k).1
    pub mtakecap_others :
        (mon pid src dst j : ℕ) (k : Kernel)
        → j ≢ dst
        → getcap j (mtakecap mon pid src dst k).1 ≡ getcap j k
    pub mtakecap_failed :
        (mon pid src dst : ℕ) (k : Kernel)
        → (mtakecap mon pid src dst k).0 ≢ excpt_none
        → SameTable k (mtakecap mon pid src dst k).1
    -- A message has as many words as the buffer that it is received in.
    pub length-recv :
        (socket : ℕ) (words : List ℕ) (at tag : ℕ) (k : Kernel)
        → length (recv socket words at tag k).words ≡ length words

  -- The calls that leave the caller's table as it is, and the channels of the sockets, which are
  -- numbered below `NCHANNEL` of misc/config.h.
  pub record Quiet : Type 0 where
    pub setreg_same : (reg v : ℕ) (k : Kernel) → SameTable k (setreg reg v k)
    pub yield_same : (k : Kernel) → SameTable k (yield_time k)
    pub memcpy_same : (at : ℕ) (bytes : List ℕ) (k : Kernel) → SameTable k (memcpy at bytes k)
    pub mresume_same : (mon pid : ℕ) (k : Kernel) → SameTable k (mresume mon pid k)
    pub msuspend_same : (mon pid : ℕ) (k : Kernel) → SameTable k (msuspend mon pid k)
    pub msetreg_same : (mon pid reg v : ℕ) (k : Kernel) → SameTable k (msetreg mon pid reg v k).1
    pub few_channels : (c : Cap) → captype c ≡ capty_socket → socket_channel c < 8
