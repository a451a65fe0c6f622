-- ===== src/Prelude/Outcomes.antt =====
-- What a run of C code comes to. `fault` is an access outside an array, which C leaves undefined;
-- `spin` says that the rounds allowed to a loop were used up.
use Prim.Native.Nat.{ℕ}
use mathlib.Core.Path.{◌≡◌, ap, fun_ext}
use mathlib.Core.Option.{Option, none, some}
use mathlib.Core.List.{List}
use s3k_monitor.Prelude.Arrays.{get_elem?}

pub data Outcome (A : Type 0) : Type 0 where
  done : A → Outcome A
  fault spin : Outcome A

-- Code over a state `S`.
abbrev pub Run : Type 0 → Type 0 → Type 0
Run S A = S → Outcome (A × S)

abbrev pub pure : {S A : Type 0} → A → Run S A
pure a s = done (a, s)

infixl 5 ◌>>=◌ ◌>>◌
abbrev pub ◌>>=◌ : {S A B : Type 0} → Run S A → (A → Run S B) → Run S B
◌>>=◌ m f s = elim (m s) [ done (a, s') ↦ f a s' | fault ↦ fault | spin ↦ spin ]

abbrev pub ◌>>◌ : {S A B : Type 0} → Run S A → Run S B → Run S B
m >> k = m >>= λ _. k

abbrev pub gets : {S A : Type 0} → (S → A) → Run S A
gets f s = done (f s, s)

abbrev pub modify : {S : Type 0} → (S → S) → Run S (Unit {0})
modify f s = done (tt, f s)

-- A value that an array access found, or the fault.
abbrev pub or_fault : {S A : Type 0} → Option A → Run S A
or_fault none s = fault
or_fault (some a) s = done (a, s)

-- `xs[i]`
abbrev pub index : {S A : Type 0} → List A → ℕ → Run S A
index xs i = or_fault (get_elem? xs i)

-- The run ends normally, and its result and final state are so.
abbrev pub Returns : {S A : Type 0} → Outcome (A × S) → (A → S → Type 0) → Type 0
Returns (done r) Q = Q r.0 r.1
Returns fault Q = ⊥
Returns spin Q = ⊥

pub Returns-bind :
    {S A B : Type 0} (m : Run S A) (f : A → Run S B) (s : S) (P : A → S → Type 0)
    (Q : B → S → Type 0)
    → Returns (m s) P
    → ((a : A) (s' : S) → P a s' → Returns (f a s') Q)
    → Returns ((m >>= f) s) Q
Returns-bind {S} {A} {B} m f s P Q h k = go (m s) h
  where
    go :
        (o : Outcome (A × S))
        → Returns o P
        → Returns (elim o [ done (a, s') ↦ f a s' | fault ↦ fault | spin ↦ spin ]) Q
    go (done r) h = k r.0 r.1 h
    go fault h = absurd h
    go spin h = absurd h

pub Returns-mono :
    {S A : Type 0} (o : Outcome (A × S)) (P Q : A → S → Type 0)
    → Returns o P
    → ((a : A) (s : S) → P a s → Q a s)
    → Returns o Q
Returns-mono (done r) P Q h k = k r.0 r.1 h
Returns-mono fault P Q h k = absurd h
Returns-mono spin P Q h k = absurd h

-- A run that returns, with the equation of the run.
pub Returns-run :
    {S A : Type 0} (o : Outcome (A × S)) (Q : A → S → Type 0)
    → Returns o Q
    → Returns o (λ a s. Q a s × (o ≡ done (a, s)))
Returns-run (done r) Q h = (h, λ i. done r)
Returns-run fault Q h = absurd h
Returns-run spin Q h = absurd h

-- Code that goes on alike.
pub bind_alike :
    {S A B : Type 0} (m : Run S A) (f g : A → Run S B) (s : S)
    → ((a : A) (s' : S) → f a s' ≡ g a s')
    → (m >>= f) s ≡ (m >>= g) s
bind_alike m f g s same = ap (λ h. (m >>= h) s) (fun_ext (λ a. fun_ext (λ s'. same a s')))
