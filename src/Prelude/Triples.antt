-- ===== src/Prelude/Triples.antt =====
-- What a run does to a predicate of its state where it ends normally: `Hoare P m Q` from a state in
-- `P`, and `Keeps P m` where the predicate stays. Both say nothing of a fault.
use mathlib.Core.Bool.{Bool, true, false}
use s3k_monitor.Prelude.Tests.{if◌then◌else◌}
use s3k_monitor.Prelude.Outcomes.{Outcome, done, fault, spin, Run, ◌>>=◌, Returns}

abbrev pub Ensures : {S A : Type 0} → Outcome (A × S) → (A → S → Type 0) → Type 0
Ensures (done r) Q = Q r.0 r.1
Ensures fault Q = Unit
Ensures spin Q = Unit

abbrev pub Hoare : {S A : Type 0} → (S → Type 0) → Run S A → (A → S → Type 0) → Type 0
Hoare {S} P m Q = (s : S) → P s → Ensures (m s) Q

abbrev pub Keeps : {S A : Type 0} → (S → Type 0) → Run S A → Type 0
Keeps P m = Hoare P m (λ _ s. P s)

module _ {S : Type 0} where
  pub Ensures-bind :
      {A B : Type 0} (m : Run S A) (f : A → Run S B) (s : S) (P : A → S → Type 0)
      (Q : B → S → Type 0)
      → Ensures (m s) P
      → ((a : A) (s' : S) → P a s' → Ensures (f a s') Q)
      → Ensures ((m >>= f) s) Q
  Ensures-bind {A} {B} m f s P Q h k = go (m s) h
    where
      go :
          (o : Outcome (A × S))
          → Ensures o P
          → Ensures (elim o [ done (a, s') ↦ f a s' | fault ↦ fault | spin ↦ spin ]) Q
      go (done r) h = k r.0 r.1 h
      go fault h = tt
      go spin h = tt

  pub Keeps-bind :
      {A B : Type 0} (P : S → Type 0) (m : Run S A) (f : A → Run S B)
      → Keeps P m
      → ((a : A) → Keeps P (f a))
      → Keeps P (m >>= f)
  Keeps-bind P m f h k s p =
      Ensures-bind m f s (λ _ s'. P s') (λ _ s'. P s') (h s p) (λ a s' p'. k a s' p')

  pub Keeps-if :
      {A : Type 0} (P : S → Type 0) (b : Bool) (m n : Run S A)
      → Keeps P m
      → Keeps P n
      → Keeps P (if b then m else n)
  Keeps-if P true m n h k = h
  Keeps-if P false m n h k = k

  -- A run that returns, and what holds where it does.
  pub Returns-Ensures :
      {A : Type 0} (o : Outcome (A × S)) (P Q : A → S → Type 0)
      → Returns o P
      → Ensures o Q
      → Returns o (λ a s. P a s × Q a s)
  Returns-Ensures (done r) P Q h k = (h, k)
  Returns-Ensures fault P Q h k = absurd h
  Returns-Ensures spin P Q h k = absurd h

-- A run on a part of the state.
pub zoom-Returns :
    {S T A : Type 0} (o : Outcome (A × S)) (put : S → T) (P : A → S → Type 0) (Q : A → T → Type 0)
    → Returns o P
    → ((a : A) (s : S) → P a s → Q a (put s))
    → Returns {S = T} {A = A}
        (elim o [ done (a, s) ↦ done (a, put s) | fault ↦ fault | spin ↦ spin ])
        Q
zoom-Returns (done r) put P Q h k = k r.0 r.1 h
zoom-Returns fault put P Q h k = absurd h
zoom-Returns spin put P Q h k = absurd h
