-- ===== src/Capman/Frame/Calls.antt =====
-- The same for the calls on a monitored process, for sockets, and for the search of the sockets.
use s3k_monitor.Prelude.{
  ℕ, zero, suc, ◌+◌, Bool, true, false, not, ◌||◌, ◌==◌, ltb, pure, Run, Keeps, Keeps-bind,
  Keeps-if, List, length, set, u8, to_u64, minus_one, pos, negsuc, ℤ, fault,
}
use s3k_monitor.S3k.{S3k, ncap}
use s3k_monitor.Capman.{Caps, load, store, syscall}
use s3k_monitor.Capman.Table.{find_up, find_monitor, monitors, find_down}
use s3k_monitor.Capman.Derive.{derive_socket, find_channel_derive, find_socket_derive}
use s3k_monitor.Capman.Process.{with_monitor, mresume, mgivecap, msetreg}
use s3k_monitor.Capman.Pmp.{getsoc, getsoc_loop, note_socket}
use s3k_monitor.Capman.Frame.{
  On, load-Keeps, store-Keeps, syscall-Keeps, find_down-Keeps, drvcap_from-Hoare,
}

module _ (s3k : S3k) (P : s3k.Kernel → Type 0) where
  open s3k use {
    Kernel, Cap, raw, with_raw, captype, capty_none, capty_socket, socket_channel, drvcap,
    make_socket, channel_derive, socket_derive, mresume as s3k_mresume, mgivecap as s3k_mgivecap,
    msetreg as s3k_msetreg,
  }

  abbrev K : Caps s3k → Type 0
  K = On s3k P

  find_up-Keeps : (test : Cap → Bool) (left i : ℕ) → Keeps K (find_up s3k test left i)
  unfolding find_up
  find_up-Keeps test zero i = λ s p. p
  find_up-Keeps test (suc left) i =
      Keeps-bind K (load s3k i) _ (load-Keeps s3k P i)
        λ c. Keeps-if K (test c) _ _ (λ s p. p) (find_up-Keeps test left (i + 1))

  with_monitor-Keeps :
      (pid : ℕ) (rest : ℕ → Run (Caps s3k) Bool)
      → ((i : ℕ) → Keeps K (rest i))
      → Keeps K (with_monitor s3k pid rest)
  unfolding with_monitor find_monitor
  with_monitor-Keeps pid rest h =
      Keeps-bind K (find_up s3k (monitors s3k pid) ncap 0) _
        (find_up-Keeps (monitors s3k pid) ncap 0) go
    where
      go : (i : ℤ) → Keeps K (elim i [ pos i ↦ rest i | negsuc n ↦ pure false ])
      go (pos i) = h i
      go (negsuc n) = λ s p. p

  pub mresume-Keeps :
      ((mon pid : ℕ) (k : Kernel) → P k → P (s3k_mresume mon pid k))
      → (pid : ℕ) → Keeps K (mresume s3k pid)
  unfolding mresume
  mresume-Keeps resumes pid = with_monitor-Keeps pid _ λ i s p. resumes i pid s.kernel p

  pub mgivecap-Keeps :
      ((mon pid src dst : ℕ) (k : Kernel) → P k → P (s3k_mgivecap mon pid src dst k).1)
      → (pid src dst : ℕ) → Keeps K (mgivecap s3k pid src dst)
  unfolding mgivecap
  mgivecap-Keeps gives pid src dst = with_monitor-Keeps pid _ λ i.
      Keeps-bind K (syscall s3k (s3k_mgivecap i pid src dst)) _
        (syscall-Keeps s3k P (s3k_mgivecap i pid src dst) (gives i pid src dst))
        λ excpt.
          Keeps-if K (excpt == capty_none) _ (pure false)
            (Keeps-bind K (store s3k src (with_raw 0)) (λ _. pure true) (store-Keeps s3k P src _)
              λ _ s p. p)
            (λ s p. p)

  pub msetreg-Keeps :
      ((mon pid reg v : ℕ) (k : Kernel) → P k → P (s3k_msetreg mon pid reg v k).1)
      → (pid reg v : ℕ) → Keeps K (msetreg s3k pid reg v)
  unfolding msetreg
  msetreg-Keeps sets pid reg v = with_monitor-Keeps pid _ λ i s p. sets i pid reg v s.kernel p

  pub derive_socket-Keeps :
      ((i idx port tag : ℕ) (k : Kernel) → P k → P (drvcap i idx (make_socket port tag) k).1)
      → (idx port tag : ℕ) → Keeps K (derive_socket s3k idx port tag)
  unfolding derive_socket find_channel_derive find_socket_derive
  derive_socket-Keeps derives idx port tag =
      let soc = make_socket port tag in
      Keeps-bind K (find_down s3k (λ c. channel_derive c soc) ncap) _
        (find_down-Keeps s3k P (λ c. channel_derive c soc) ncap)
        λ i.
          Keeps-bind K _ _
            (Keeps-if K (to_u64 i == to_u64 minus_one)
              (find_down s3k (λ c. socket_derive c soc) ncap) (pure i)
              (find_down-Keeps s3k P (λ c. socket_derive c soc) ncap) (λ s p. p))
            λ j.
              drvcap_from-Hoare s3k P (to_u64 j) idx soc P
                (λ k p. derives (to_u64 j) idx port tag k p)

  note_socket-Keeps : (c : Cap) (i : ℕ) (soc : List ℕ) → Keeps K (note_socket s3k c i soc)
  unfolding note_socket
  note_socket-Keeps c i soc =
      Keeps-if K (raw c == 0 || not (captype c == capty_socket)) (pure soc) _ (λ s p. p)
        (Keeps-if K (ltb (socket_channel c) (length soc)) (pure (set soc (socket_channel c) (u8 i)))
          (λ s. fault) (λ s p. p) (λ s p. tt))

  getsoc_loop-Keeps : (left i : ℕ) (soc : List ℕ) → Keeps K (getsoc_loop s3k left i soc)
  unfolding getsoc_loop
  getsoc_loop-Keeps zero i soc = λ s p. p
  getsoc_loop-Keeps (suc left) i soc = Keeps-bind K (load s3k i) _ (load-Keeps s3k P i) λ c.
      Keeps-bind K (note_socket s3k c i soc) _ (note_socket-Keeps c i soc)
        λ soc'. getsoc_loop-Keeps left (i + 1) soc'

  pub getsoc-Keeps : (soc : List ℕ) → Keeps K (getsoc s3k soc)
  unfolding getsoc
  getsoc-Keeps soc = getsoc_loop-Keeps ncap 0 soc
