-- ===== src/Capman/Coherent/Sequences.antt =====
-- The cached table over any sequence of operations.
use s3k_monitor.Prelude.{
  ℕ, zero, suc, ◌+◌, ◌*◌, ◌^◌, ◌≤◌, ◌≡◌, refl, arith, length, get_elem?-some, bit_or, u64, done,
  ◌<◌, List, [], ◌∷◌, Run, pure, Returns, Returns-bind, Returns-mono, ◌>>=◌, ◌>>◌,
}
use s3k_monitor.S3k.{S3k, ncap}
use s3k_monitor.S3k.Laws.{Laws, Quiet}
use s3k_monitor.Capman.{Caps}
use s3k_monitor.Capman.Table.{update, move, delete}
use s3k_monitor.Capman.Derive.{derive_pmp, derive_mem, derive_time, derive_socket}
use s3k_monitor.Capman.Process.{mgivecap, mtakecap, msetreg, mresume, msuspend}
use s3k_monitor.Capman.Pmp.{setpmp, pack_loop}
use s3k_monitor.Capman.Replace.{update_pmp}
use s3k_monitor.Capman.Coherent.{IsCoherent, IsCoherent-same}
use s3k_monitor.Capman.Coherent.Update.{update-IsCoherent}
use s3k_monitor.Capman.Coherent.Moves.{move-IsCoherent, delete-IsCoherent}
use s3k_monitor.Capman.Coherent.Calls.{
  derive_pmp-IsCoherent, derive_mem-IsCoherent, derive_time-IsCoherent, derive_socket-IsCoherent,
}
use s3k_monitor.Capman.Coherent.Gifts.{
  mgivecap-IsCoherent, mtakecap-IsCoherent, with_monitor-Returns,
}
use s3k_monitor.Capman.Coherent.Replacement.{update_pmp-Replacement}

-- The operations of capman that change the table or the kernel, with their arguments;
-- `capman_init` is `capman_update`.
pub data Operation : Type 0 where
  updates : Operation
  deletes : ℕ → Operation
  moves : ℕ → ℕ → Operation
  derives_pmp derives_mem derives_time : ℕ → ℕ → ℕ → ℕ → Operation
  derives_socket : ℕ → ℕ → ℕ → Operation
  replaces_pmp : ℕ → ℕ → ℕ → ℕ → Operation
  gives takes sets_register : ℕ → ℕ → ℕ → Operation
  resumes suspends : ℕ → Operation
  sets_pmp : List ℕ → Operation

-- The indices of the caller's table that the code uses unchecked lie in the table, and the array of
-- the PMP indices has the length that the code declares.
abbrev pub InTable : Operation → Type 0
InTable updates = Unit
InTable (deletes idx) = idx < ncap
InTable (moves src dst) = (src < ncap) × (dst < ncap)
InTable (derives_pmp idx begin end rwx) = Unit
InTable (derives_mem idx begin end rwx) = Unit
InTable (derives_time idx hartid begin end) = Unit
InTable (derives_socket idx port tag) = Unit
InTable (replaces_pmp idx begin end rwx) = idx < ncap
InTable (gives pid src dest) = src < ncap
InTable (takes pid src dest) = dest < ncap
InTable (sets_register pid reg v) = Unit
InTable (resumes pid) = Unit
InTable (suspends pid) = Unit
InTable (sets_pmp pmp) = length pmp ≡ 8

abbrev pub AllInTable : List Operation → Type 0
AllInTable [] = Unit
AllInTable (o ∷ os) = InTable o × AllInTable os

-- The loop of `capman_setpmp` stays in an array that is long enough.
pack_loop-done :
    (left i register : ℕ) (pmp : List ℕ)
    → i + left ≤ length pmp
    → (r : ℕ) × (pack_loop left i register pmp ≡ done r)
unfolding pack_loop
pack_loop-done zero i register pmp p = (register, refl)
pack_loop-done (suc left) i register pmp p =
    let (b, found) = get_elem?-some pmp i (omega (arith, p)) in
    let (r, rest) =
      pack_loop-done left (i + 1) (bit_or register (u64 (b * 2 ^ (i * 8)))) pmp
        (omega (arith, p)) in
    (r, rw (found, pack_loop) rest)

module _ (s3k : S3k) where
  abbrev pub execute : Operation → Run (Caps s3k) (Unit {0})
  execute updates = update s3k
  execute (deletes idx) = delete s3k idx >>= λ _. pure tt
  execute (moves src dst) = move s3k src dst >>= λ _. pure tt
  execute (derives_pmp idx begin end rwx) = derive_pmp s3k idx begin end rwx >>= λ _. pure tt
  execute (derives_mem idx begin end rwx) = derive_mem s3k idx begin end rwx >>= λ _. pure tt
  execute (derives_time idx hartid begin end) =
      derive_time s3k idx hartid begin end >>= λ _. pure tt
  execute (derives_socket idx port tag) = derive_socket s3k idx port tag >>= λ _. pure tt
  execute (replaces_pmp idx begin end rwx) = update_pmp s3k idx begin end rwx >>= λ _. pure tt
  execute (gives pid src dest) = mgivecap s3k pid src dest >>= λ _. pure tt
  execute (takes pid src dest) = mtakecap s3k pid src dest >>= λ _. pure tt
  execute (sets_register pid reg v) = msetreg s3k pid reg v >>= λ _. pure tt
  execute (resumes pid) = mresume s3k pid >>= λ _. pure tt
  execute (suspends pid) = msuspend s3k pid >>= λ _. pure tt
  execute (sets_pmp pmp) = setpmp s3k pmp

  abbrev pub execute_all : List Operation → Run (Caps s3k) (Unit {0})
  execute_all [] = pure tt
  execute_all (o ∷ os) = execute o >> execute_all os

  forget :
      {A : Type 0} (m : Run (Caps s3k) A) (Q : A → Caps s3k → Type 0) (s : Caps s3k)
      → Returns (m s) Q
      → ((a : A) (s' : Caps s3k) → Q a s' → IsCoherent s3k s')
      → Returns ((m >>= λ _. pure tt) s) (λ _ s'. IsCoherent s3k s')
  forget m Q s h k = Returns-bind m (λ _. pure tt) s Q (λ _ s'. IsCoherent s3k s') h k

  module _ (laws : Laws s3k) (quiet : Quiet s3k) where
    pub msetreg-Returns :
        (pid reg v : ℕ) (s : Caps s3k)
        → IsCoherent s3k s
        → Returns (msetreg s3k pid reg v s) (λ _ s'. IsCoherent s3k s')
    unfolding msetreg
    msetreg-Returns pid reg v s h =
        with_monitor-Returns s3k laws h pid _ (λ _ s'. IsCoherent s3k s') h
          (λ mon _. IsCoherent-same s3k _ h (quiet.msetreg_same mon pid reg v s.kernel))

    pub mresume-Returns :
        (pid : ℕ) (s : Caps s3k)
        → IsCoherent s3k s
        → Returns (mresume s3k pid s) (λ _ s'. IsCoherent s3k s')
    unfolding mresume
    mresume-Returns pid s h =
        with_monitor-Returns s3k laws h pid _ (λ _ s'. IsCoherent s3k s') h
          (λ mon _. IsCoherent-same s3k _ h (quiet.mresume_same mon pid s.kernel))

    pub msuspend-Returns :
        (pid : ℕ) (s : Caps s3k)
        → IsCoherent s3k s
        → Returns (msuspend s3k pid s) (λ _ s'. IsCoherent s3k s')
    unfolding msuspend
    msuspend-Returns pid s h =
        with_monitor-Returns s3k laws h pid _ (λ _ s'. IsCoherent s3k s') h
          (λ mon _. IsCoherent-same s3k _ h (quiet.msuspend_same mon pid s.kernel))

    pub setpmp-Returns :
        (pmp : List ℕ) (s : Caps s3k)
        → length pmp ≡ 8
        → IsCoherent s3k s
        → Returns (setpmp s3k pmp s) (λ _ s'. IsCoherent s3k s')
    unfolding setpmp
    setpmp-Returns pmp s eight h =
        let (register, packed) = pack_loop-done 8 0 0 pmp (omega (arith, eight)) in
        rw (packed, setpmp)
          (IsCoherent-same s3k _ h (quiet.setreg_same s3k.reg_pmp register s.kernel))

    execute-Returns :
        (o : Operation) (s : Caps s3k)
        → InTable o
        → IsCoherent s3k s
        → Returns (execute o s) (λ _ s'. IsCoherent s3k s')
    execute-Returns updates s ok h =
        Returns-mono (update s3k s) _ _ (update-IsCoherent s3k s h.size) (λ _ _ q. q.0)
    execute-Returns (deletes idx) s ok h =
        forget (delete s3k idx) _ s (delete-IsCoherent s3k laws h idx ok) (λ _ _ q. q.0)
    execute-Returns (moves src dst) s (p, q) h =
        forget (move s3k src dst) _ s (move-IsCoherent s3k laws h src dst p q) (λ _ _ q. q.0)
    execute-Returns (derives_pmp idx begin end rwx) s ok h =
        forget (derive_pmp s3k idx begin end rwx) _ s
          (derive_pmp-IsCoherent s3k laws h idx begin end rwx) (λ _ _ q. q.0)
    execute-Returns (derives_mem idx begin end rwx) s ok h =
        forget (derive_mem s3k idx begin end rwx) _ s
          (derive_mem-IsCoherent s3k laws h idx begin end rwx) (λ _ _ q. q.0)
    execute-Returns (derives_time idx hartid begin end) s ok h =
        forget (derive_time s3k idx hartid begin end) _ s
          (derive_time-IsCoherent s3k laws h idx hartid begin end) (λ _ _ q. q.0)
    execute-Returns (derives_socket idx port tag) s ok h =
        forget (derive_socket s3k idx port tag) _ s
          (derive_socket-IsCoherent s3k laws h idx port tag) (λ _ _ q. q.0)
    execute-Returns (replaces_pmp idx begin end rwx) s ok h =
        forget (update_pmp s3k idx begin end rwx) _ s
          (update_pmp-Replacement s3k laws h idx ok begin end rwx) (λ _ _ q. q.0)
    execute-Returns (gives pid src dest) s ok h =
        forget (mgivecap s3k pid src dest) _ s (mgivecap-IsCoherent s3k laws h pid src dest ok)
          (λ _ _ q. q.0.0)
    execute-Returns (takes pid src dest) s ok h =
        forget (mtakecap s3k pid src dest) _ s (mtakecap-IsCoherent s3k laws h pid src dest ok)
          (λ _ _ q. q.0)
    execute-Returns (sets_register pid reg v) s ok h =
        forget (msetreg s3k pid reg v) _ s (msetreg-Returns pid reg v s h) (λ _ _ q. q)
    execute-Returns (resumes pid) s ok h =
        forget (mresume s3k pid) _ s (mresume-Returns pid s h) (λ _ _ q. q)
    execute-Returns (suspends pid) s ok h =
        forget (msuspend s3k pid) _ s (msuspend-Returns pid s h) (λ _ _ q. q)
    execute-Returns (sets_pmp pmp) s ok h = setpmp-Returns pmp s ok h

    -- Any sequence of the operations that change the table or the kernel, from a table that mirrors
    -- the kernel's: every one of them ends without an access outside the array, and the table mirrors
    -- the kernel's at the end. The indices that the code uses unchecked are below 64, and an array of PMP
    -- indices has 8 elements.
    pub execute_all-IsCoherent :
        (os : List Operation) (s : Caps s3k)
        → AllInTable os
        → IsCoherent s3k s
        → Returns (execute_all os s) (λ _ s'. IsCoherent s3k s')
    execute_all-IsCoherent [] s ok h = h
    execute_all-IsCoherent (o ∷ os) s (ok, oks) h =
        Returns-bind (execute o) (λ _. execute_all os) s (λ _ s'. IsCoherent s3k s') _
          (execute-Returns o s ok h) (λ _ s' h'. execute_all-IsCoherent os s' oks h')
