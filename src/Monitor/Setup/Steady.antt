-- ===== src/Monitor/Setup/Steady.antt =====
-- The calls of `setup` that neither fault nor hang, and leave a state in which the others do not.
use s3k_monitor.Prelude.{
  ℕ, ◌≡◌, ◌<◌, true, refl, arith, List, length, length-set, ltb, Run, done, Returns, Returns-bind,
  Returns-mono, zoom-Returns, ◌>>=◌, get_elem?-some, bit_or, u64, zero, suc, ◌+◌, ◌*◌, ◌^◌, ◌≤◌,
  ◌∙◌,
}
use s3k_monitor.S3k.{S3k, ncap}
use s3k_monitor.S3k.Laws.{Laws, Quiet, SameTable}
use s3k_monitor.Capman.{Caps}
use s3k_monitor.Capman.Derive.{derive_pmp, derive_time, derive_socket}
use s3k_monitor.Capman.Process.{mgivecap, msetreg, mresume}
use s3k_monitor.Capman.Pmp.{pack_loop, setpmp}
use s3k_monitor.Capman.Pmp.Sizes.{getsoc_lem}
use s3k_monitor.Capman.Coherent.{IsCoherent, IsCoherent-same}
use s3k_monitor.Capman.Coherent.Calls.{
  derive_pmp-IsCoherent, derive_time-IsCoherent, derive_socket-IsCoherent,
}
use s3k_monitor.Capman.Coherent.Gifts.{mgivecap-IsCoherent}
use s3k_monitor.Capman.Coherent.Sequences.{msetreg-Returns, mresume-Returns}
use s3k_monitor.Monitor.{Monitor, lift, call}
use s3k_monitor.Monitor.Setup.{set_pmpcap, set_pmps, get_socs}

pack_loop_lem :
    (left i pmpreg : ℕ) (pmp : List ℕ)
    → i + left ≤ length pmp
    → (v : ℕ) × (pack_loop left i pmpreg pmp ≡ done v)
unfolding pack_loop
pack_loop_lem zero i pmpreg pmp room = (pmpreg, refl)
pack_loop_lem (suc left) i pmpreg pmp room =
    let (b, found) = get_elem?-some pmp i (omega arith) in
    let (v, rest) =
      pack_loop_lem left (i + 1) (bit_or pmpreg (u64 (b * 2 ^ (i * 8)))) pmp (omega arith) in
    (v, rw (found, pack_loop) rest)

module _ (s3k : S3k) where
  -- The table mirrors the kernel's, and the arrays have the lengths that the code declares.
  pub record IsSteady (s : Monitor s3k) : Type 0 where
    pub whole : IsCoherent s3k s.caps
    pub pmps : length s.pmpcaps ≡ 8
    pub sockets : length s.soccaps ≡ 8
    pub words : length s.recv_buf ≡ 4

  abbrev pub Steady : {A : Type 0} → Run (Monitor s3k) A → Type 0
  Steady m = (s : Monitor s3k) → IsSteady s → Returns (m s) (λ _ s'. IsSteady s')

  -- From such a state the run ends in one with `Q`.
  abbrev pub Leads : {A : Type 0} → Run (Monitor s3k) A → (Monitor s3k → Type 0) → Type 0
  Leads m Q = (s : Monitor s3k) → IsSteady s → Returns (m s) (λ _ s'. Q s')

  pub Leads-bind :
      {A B : Type 0} (m : Run (Monitor s3k) A) (f : A → Run (Monitor s3k) B)
      (Q : Monitor s3k → Type 0)
      → Steady m
      → ((a : A) → Leads (f a) Q)
      → Leads (m >>= f) Q
  Leads-bind m f Q h k s p =
      Returns-bind m f s (λ _ s'. IsSteady s') (λ _ s'. Q s') (h s p) (λ a s' q. k a s' q)

  pub Steady-bind :
      {A B : Type 0} (m : Run (Monitor s3k) A) (f : A → Run (Monitor s3k) B)
      → Steady m
      → ((a : A) → Steady (f a))
      → Steady (m >>= f)
  Steady-bind m f h k = Leads-bind m f IsSteady h k

  -- Calls of capman.
  abbrev Whole : {A : Type 0} → Run (Caps s3k) A → Type 0
  Whole m = (c : Caps s3k) → IsCoherent s3k c → Returns (m c) (λ _ c'. IsCoherent s3k c')

  lift-Steady : {A : Type 0} (m : Run (Caps s3k) A) → Whole m → Steady (lift m)
  lift-Steady m h s p =
      zoom-Returns (m s.caps) (λ c. record s { caps = c }) _ _ (h s.caps p.whole)
        (λ _ c q. record { whole = q; pmps = p.pmps; sockets = p.sockets; words = p.words })

  pub call-Steady :
      (f : s3k.Kernel → s3k.Kernel) → ((k : s3k.Kernel) → SameTable s3k k (f k)) → Steady (call f)
  call-Steady f same s p = record {
    whole = IsCoherent-same s3k (f s.caps.kernel) p.whole (same s.caps.kernel);
    pmps = p.pmps;
    sockets = p.sockets;
    words = p.words;
  }

  module _ (laws : Laws s3k) (quiet : Quiet s3k) where
    pub derive_pmp-Steady :
        (idx begin end rwx : ℕ) → Steady (lift (derive_pmp s3k idx begin end rwx))
    derive_pmp-Steady idx begin end rwx = lift-Steady _ (λ c h.
        Returns-mono (derive_pmp s3k idx begin end rwx c) _ _
          (derive_pmp-IsCoherent s3k laws h idx begin end rwx) (λ _ _ q. q.0))

    pub derive_time-Steady :
        (idx hart begin end : ℕ) → Steady (lift (derive_time s3k idx hart begin end))
    derive_time-Steady idx hart begin end = lift-Steady _ (λ c h.
        Returns-mono (derive_time s3k idx hart begin end c) _ _
          (derive_time-IsCoherent s3k laws h idx hart begin end) (λ _ _ q. q.0))

    pub derive_socket-Steady : (idx port tag : ℕ) → Steady (lift (derive_socket s3k idx port tag))
    derive_socket-Steady idx port tag = lift-Steady _ (λ c h.
        Returns-mono (derive_socket s3k idx port tag c) _ _
          (derive_socket-IsCoherent s3k laws h idx port tag) (λ _ _ q. q.0))

    pub mgivecap-Steady :
        (pid src dest : ℕ) → src < ncap → Steady (lift (mgivecap s3k pid src dest))
    mgivecap-Steady pid src dest below = lift-Steady _ (λ c h.
        Returns-mono (mgivecap s3k pid src dest c) _ _
          (mgivecap-IsCoherent s3k laws h pid src dest below) (λ _ _ q. q.0.0))

    pub msetreg-Steady : (pid reg v : ℕ) → Steady (lift (msetreg s3k pid reg v))
    msetreg-Steady pid reg v = lift-Steady _ (msetreg-Returns s3k laws quiet pid reg v)

    pub mresume-Steady : (pid : ℕ) → Steady (lift (mresume s3k pid))
    mresume-Steady pid = lift-Steady _ (mresume-Returns s3k laws quiet pid)

    pub set_pmpcap-Steady : (i v : ℕ) → i < 8 → Steady (set_pmpcap s3k i v)
    unfolding set_pmpcap
    set_pmpcap-Steady i v below s p =
        let inside : ltb i (length s.pmpcaps) ≡ true = ground (arith, p.pmps) in
        rw inside (record {
          whole = p.whole;
          pmps = length-set s.pmpcaps i v ∙ p.pmps;
          sockets = p.sockets;
          words = p.words;
        })

    pub set_pmps-Steady : Steady (set_pmps s3k)
    unfolding set_pmps setpmp
    set_pmps-Steady s p =
        let (v, packed) = pack_loop_lem 8 0 0 s.pmpcaps (omega (arith, p.pmps)) in
        rw (packed, setpmp)
          (record {
            whole = IsCoherent-same s3k _ p.whole (quiet.setreg_same s3k.reg_pmp v s.caps.kernel);
            pmps = p.pmps;
            sockets = p.sockets;
            words = p.words;
          })

    pub get_socs-Steady : Steady (get_socs s3k)
    unfolding get_socs
    get_socs-Steady s p =
        let (socs, found, eight) =
          getsoc_lem s3k s.soccaps s.caps p.whole
            (λ i _ socket. quiet.few_channels (s3k.getcap i s.caps.kernel) socket) p.sockets in
        rw (found, ◌>>=◌)
          (record { whole = p.whole; pmps = p.pmps; sockets = eight; words = p.words })
