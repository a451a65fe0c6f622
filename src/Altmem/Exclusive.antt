-- ===== src/Altmem/Exclusive.antt =====
-- A chunk that was handed out is not handed out again before it is given back.
use s3k_monitor.Prelude.{
  ℕ, suc, ◌<◌, ◌≡◌, ◌≢◌, Bool, true, List, [], ◌∷◌, ap, sym, ◌∙◌, subst, arith, done, Returns,
}
use s3k_monitor.Altmem.{Mem, null, alloc}
use s3k_monitor.Altmem.Valid.{IsHeap, update, mark, mark-IsHeap}
use s3k_monitor.Altmem.Alloc.{address, alloc-some}
use s3k_monitor.Altmem.Traces.{
  Call, give_back, Answer, pointer, nothing, grown, execute_all, Step, takes, too_large, none_free,
  frees, unknown, grows, blocked, outside, Trace, ends, goes_on, execute_all-Trace,
}

-- No call gives the pointer back.
abbrev pub NotGivenBack : ℕ → List Call → Type 0
NotGivenBack p [] = Unit
NotGivenBack p (c ∷ cs) = (c ≢ give_back p) × NotGivenBack p cs

-- No answer is the pointer.
abbrev pub Avoids : ℕ → List Answer → Type 0
Avoids p [] = Unit
Avoids p (a ∷ answers) = (a ≢ pointer p) × Avoids p answers

-- 0 for an answer without a pointer.
abbrev pointed : Answer → ℕ
pointed (pointer p) = suc p
pointed nothing = 0
pointed (grown b) = 0

differs : (a : Answer) (p : ℕ) → pointed a ≢ suc p → a ≢ pointer p
differs a p ne e = ne (ap pointed e)

module _ (heap n k : ℕ) (above_null : 0 < heap) where
  stays : (used : ℕ → Bool) (i : ℕ) → used k ≡ true → update used i true k ≡ true
  stays used i e = ground (arith, e)

  Step-keeps :
      {used used' : ℕ → Bool} {c : Call} {a : Answer}
      → Step heap n used c a used'
      → used k ≡ true
      → c ≢ give_back (address heap k)
      → (a ≢ pointer (address heap k)) × (used' k ≡ true)
  Step-keeps {used} (takes size i small below is_free before) e kept =
      let other : i ≢ k = ground (arith, e, is_free) in
      (differs _ _ (λ same. other (omega (arith, same))), stays used i e)
  Step-keeps (too_large size large) e kept = (differs _ _ (λ same. absurd (omega (arith, same))), e)
  Step-keeps (none_free size full) e kept = (differs _ _ (λ same. absurd (omega (arith, same))), e)
  Step-keeps {used} (frees ptr i below at) e kept =
      let other : k ≢ i = λ same. kept (ap give_back (at ∙ ap (address heap) (sym same))) in
      (differs _ _ (λ same. absurd (omega (arith, same))), ground (arith, e, other))
  Step-keeps (unknown ptr missed) e kept = (differs _ _ (λ same. absurd (omega (arith, same))), e)
  Step-keeps {used} (grows ptr i below inside is_free) e kept =
      (differs _ _ (λ same. absurd (omega (arith, same))), stays used i e)
  Step-keeps (blocked ptr i below inside taken) e kept =
      (differs _ _ (λ same. absurd (omega (arith, same))), e)
  Step-keeps (outside ptr out) e kept = (differs _ _ (λ same. absurd (omega (arith, same))), e)

  Trace-Avoids :
      {used used' : ℕ → Bool} {cs : List Call} {answers : List Answer}
      → Trace heap n used cs answers used'
      → used k ≡ true
      → NotGivenBack (address heap k) cs
      → Avoids (address heap k) answers
  Trace-Avoids (ends used) e kept = tt
  Trace-Avoids (goes_on used used₁ used₂ c a cs answers step trace) e (here, later) =
      let (avoided, e₁) = Step-keeps step e here in (avoided, Trace-Avoids trace e₁ later)

-- On a heap that is laid out, after a request that got a pointer, any sequence of requests, pointers
-- given back and growths of the stack that does not give this pointer back ends, and none of its
-- requests gets the pointer again.
pub alloc-Avoids :
    {heap n : ℕ} {used : ℕ → Bool} {m m' : Mem}
    → IsHeap heap n used m
    → (size ptr : ℕ) (calls : List Call) → alloc size m ≡ done (ptr, m')
    → ptr ≢ null
    → NotGivenBack ptr calls
    → Returns (execute_all calls m') (λ answers _. Avoids ptr answers)
alloc-Avoids {heap} {n} {used} {m} {m'} h size ptr calls e ne kept =
    let (f, at, next) = alloc-some h size ptr e ne in
    let (i, _, below, _, _) = f in
    let h' = mark-IsHeap i true h below in
    let (answers, used', m'', result, trace, _) =
      execute_all-Trace heap n calls (update used i true) (mark heap i true m) h' in
    let marked : update used i true i ≡ true = ground arith in
    rw (next, result, at)
      (Trace-Avoids heap n i h.above_null trace marked (subst (λ p. NotGivenBack p calls) at kept))
