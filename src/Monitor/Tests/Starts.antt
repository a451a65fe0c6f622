-- ===== src/Monitor/Tests/Starts.antt =====
-- The theorems of `setup` at concrete images.
use s3k_monitor.Prelude.{
  ℕ, suc, ◌≡◌, ◌⊎◌, true, false, List, [], ◌∷◌, ◌++◌, ◌∙◌, refl, arith, done, spin, Returns,
  Ensures, replicate, subst, sym,
}
use s3k_monitor.S3k.Example.{Machine, example, example_laws, example_quiet, derive_cap-log}
use s3k_monitor.Codeauth.{comp_sig, calc_sig}
use s3k_monitor.Monitor.{Monitor}
use s3k_monitor.Monitor.Parse.{
  Process, parse_executable, parse_loop, name_loop, read_word, read_byte,
}
use s3k_monitor.Monitor.Parse.Encoding.{as_parsed}
use s3k_monitor.Monitor.Setup.{setup, is_authentic, strcmp}
use s3k_monitor.Monitor.Setup.Sections.{AllDivisible}
use s3k_monitor.Monitor.Setup.Refusal.{IsPrepared, setup_refuses}
use s3k_monitor.Monitor.Setup.Grants.{IsGuarded}
use s3k_monitor.Monitor.Guarded.{setup-Guarded}
use s3k_monitor.Monitor.Loop.{loop}
use s3k_monitor.Monitor.Loop.Answers.{IsSized}
use s3k_monitor.Monitor.Lifetime.{Runs, setup-Runs}
use s3k_monitor.Monitor.Tests.{
  toy_aes, stopped, table_image, text, AllApart, Clean, forbids, allows, others,
}

-- An image of a signature of zeros and 496 bytes: too short to carry its own MAC.
abbrev image : List ℕ
image = replicate 512 0

abbrev Untouched : Machine → Type 0
Untouched k = k.resumed ≡ []

Untouched-IsPrepared : IsPrepared example Untouched
Untouched-IsPrepared = record {
  deletes = λ i k p. p;
  derives = λ i idx addr k p. (derive_cap-log i idx (example.make_pmp addr 3) k).1 ∙ p;
  slices =
      λ i idx hart begin end k p. (derive_cap-log i idx (example.make_time hart begin end) k).1 ∙ p;
  maps = λ v k p. p;
}

image_forged : is_authentic example toy_aes image ≡ false
unfolding is_authentic calc_sig comp_sig
image_forged = refl

setup_refuses_example :
    Ensures
      (setup example toy_aes true image stopped)
      (λ _ s'. Untouched s'.caps.kernel × (s'.app_running ≡ false))
setup_refuses_example =
    setup_refuses example Untouched Untouched-IsPrepared toy_aes image stopped image_forged refl
      refl

-- An image with that table and its rest of zeros.
abbrev text_image : List ℕ
text_image = table_image ++ replicate 456 0

abbrev text_app : Process
text_app = record { pid = 1; header = as_parsed 0 (text ∷ []) }

text_image-parsed : parse_executable 1 text_image ≡ done text_app
unfolding parse_executable parse_loop name_loop read_word read_byte
text_image-parsed = refl

text_app-AllDivisible : AllDivisible text_app.header
unfolding strcmp
text_app-AllDivisible = (λ e. absurd (ground (arith, e)), tt)

setup-Runs_example : Returns (setup example toy_aes true text_image stopped) (λ _ s₁.
    (s₂ : Monitor example)
    → Runs example toy_aes s₁ s₂
    → IsSized example s₂
      × (((s₂.app_running ≡ true)
            × ((fuel : ℕ) → Returns (loop example toy_aes true (suc fuel) s₂) (λ _ _. Unit {0})))
          ⊎ ((s₂.app_running ≡ false) × ((fuel : ℕ) → loop example toy_aes true fuel s₂ ≡ spin))))
setup-Runs_example =
    setup-Runs example toy_aes example_laws example_quiet text_image text_app stopped
      text_image-parsed (omega arith) text_app-AllDivisible
      (record { table = refl; sockets = refl; words = refl }) refl

-- The derivations are logged; the other calls leave the log as it is.
Clean-derived :
    (i idx c : ℕ) (k : Machine) → Clean k → forbids c ≡ false → Clean ((example.drvcap i idx c k).1)
Clean-derived i idx c k p fine = subst AllApart (sym (derive_cap-log i idx c k).0) (fine, p)

Clean-IsGuarded : IsGuarded example Clean
Clean-IsGuarded = record {
  derives = λ i idx addr rwx k p apart.
      Clean-derived i idx (example.make_pmp addr rwx) k p (allows addr rwx apart);
  slices = λ i idx hart begin end k p.
      let c = example.make_time hart begin end in
      Clean-derived i idx c k p (others _ c (λ e. omega (arith, e)));
  connects = λ i idx port tag k p.
      let c = example.make_socket port tag in
      Clean-derived i idx c k p (others _ c (λ e. omega (arith, e)));
  moves = λ src dst k p. p;
  deletes = λ i k p. p;
  maps = λ v k p. p;
  yields = λ k p. p;
  resumes = λ mon pid k p. p;
  gives = λ mon pid src dst k p. p;
  sets = λ mon pid reg v k p. p;
  sends = λ socket words at b k p. p;
  receives = λ socket words at tag k p. p;
  copies = λ at bytes k p. p;
}

setup-Guarded_example :
    Returns
      (setup example toy_aes true text_image stopped)
      (λ _ s₁. (s₂ : Monitor example) → Runs example toy_aes s₁ s₂ → Clean s₂.caps.kernel)
setup-Guarded_example =
    setup-Guarded example toy_aes Clean example_laws example_quiet Clean-IsGuarded refl text_image
      text_app stopped text_image-parsed (omega arith) text_app-AllDivisible (refl, tt)
      (record { table = refl; sockets = refl; words = refl }) refl refl tt
