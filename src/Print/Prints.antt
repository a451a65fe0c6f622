-- ===== src/Print/Prints.antt =====
-- Code that sends a text and does nothing else to the UART.
use s3k_monitor.Prelude.{
  ◌≡◌, refl, ap, ◌∙◌, List, [], ◌∷◌, ◌++◌, done, Run, pure, ◌>>=◌, ℕ, ◌+◌, suc, length, map, u8,
  sym, arith,
}
use mathlib.Core.List.{append_assoc, append-nil}
use s3k_monitor.Print.{Uart, putchar, putstr_loop}

abbrev pub extend : List ℕ → Uart → Uart
extend s u = record u { sent = u.sent ++ s }

abbrev pub Prints : {A : Type 0} → Run Uart A → A → List ℕ → Type 0
Prints m a s = (u : Uart) → m u ≡ done (a, extend s u)

pub extend-nil : (u : Uart) → extend [] u ≡ u
extend-nil u = ap (λ l. record u { sent = l }) (append-nil u.sent)

pub extend-append : (s t : List ℕ) (u : Uart) → extend t (extend s u) ≡ extend (s ++ t) u
extend-append s t u = ap (λ l. record u { sent = l }) (append_assoc u.sent s t)

pub pure-Prints : {A : Type 0} (a : A) → Prints (pure a) a []
pure-Prints a u = ap (λ v. done (a, v)) (sym (extend-nil u))

pub Prints-bind :
    {A B : Type 0} (m : Run Uart A) (f : A → Run Uart B) (a : A) (b : B) (s t : List ℕ)
    → Prints m a s
    → Prints (f a) b t
    → Prints (m >>= f) b (s ++ t)
Prints-bind m f a b s t h k u =
    rw (h u, ◌>>=◌) (k (extend s u) ∙ ap (λ v. done (b, v)) (extend-append s t u))

-- The same, where nothing is sent behind it.
pub Prints-return :
    {A B : Type 0} (m : Run Uart A) (f : A → B) (a : A) (s : List ℕ)
    → Prints m a s
    → Prints (m >>= λ x. pure (f x)) (f a) s
Prints-return m f a s h u = rw (h u, ◌>>=◌) refl

pub putchar-Prints : (c : ℕ) → Prints (putchar c) (u8 c) (u8 c ∷ [])
unfolding putchar
putchar-Prints c u = refl

pub putstr_loop-Prints :
    (str : List ℕ) (i : ℕ) → Prints (putstr_loop str i) (i + length str) (map u8 str)
unfolding putstr_loop
putstr_loop-Prints [] i = let count : i + 0 ≡ i = omega arith in rw count (pure-Prints i)
putstr_loop-Prints (c ∷ str) i =
    let count : i + 1 + length str ≡ i + suc (length str) = omega arith in
    rw count at (
      Prints-bind (putchar c) (λ _. putstr_loop str (i + 1)) (u8 c) (i + 1 + length str) (u8 c ∷ [])
        (map u8 str) (putchar-Prints c) (putstr_loop-Prints str (i + 1)))
