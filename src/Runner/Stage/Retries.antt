-- ===== src/Runner/Stage/Retries.antt =====
-- The loop over sleeping tests ends (src/etst/runner.py: `stage_testing`).
use embedded_test_runner.Base.{
  ℕ, suc, ◌+◌, ◌-◌, ◌≡◌, refl, true, false, Option, some, List, [], ◌∷◌, Text, arith, leb,
}
use mathlib.Core.Option
use embedded_test_runner.Base.Dict.{Dict, insert}
use embedded_test_runner.Runner.Stage.{
  Ended, returned, Session, count_of, sleeps, resume_round, give_up, sleep_loop, go_on,
}

-- how often the tests can still be resumed
budget : Dict ℕ → List Text → ℕ
budget counts [] = 0
budget counts (n ∷ names) = (3 - count_of n counts) + budget counts names

module _ {S : Type 0} (d : Session S) where
  Ends : Option (Ended S) → Type 0
  Ends o = (e : Ended S) × (o ≡ some e)

  pub sleep_loop-awake :
      (fuel : ℕ) (filters : Text) (counts : Dict ℕ) (s : S)
      → sleeps d s ≡ false
      → sleep_loop d (suc fuel) filters counts s ≡ some (returned s)
  unfolding sleep_loop
  sleep_loop-awake fuel filters counts s h = ground (arith, h)

  pub sleep_loop-tired :
      (fuel : ℕ) (filters : Text) (counts : Dict ℕ) (s : S)
      → sleeps d s ≡ true
      → leb 3 (count_of (d.protocol s).sleeping_test_name counts) ≡ true
      → sleep_loop d (suc fuel) filters counts s
        ≡ some (returned (give_up d (count_of (d.protocol s).sleeping_test_name counts) s))
  unfolding sleep_loop
  sleep_loop-tired fuel filters counts s h k = ground (arith, h, k)

  unfoldable pub resumed : Dict ℕ → S → Dict ℕ
  resumed counts s =
      let test = (d.protocol s).sleeping_test_name in insert test (count_of test counts + 1) counts

  pub sleep_loop-round :
      (fuel : ℕ) (filters : Text) (counts : Dict ℕ) (s : S)
      → sleeps d s ≡ true
      → leb 3 (count_of (d.protocol s).sleeping_test_name counts) ≡ false
      → sleep_loop d (suc fuel) filters counts s
        ≡ go_on d (λ s1. sleep_loop d fuel filters (resumed counts s) s1) (resume_round d filters s)
  unfolding sleep_loop resumed
  sleep_loop-round fuel filters counts s h k = rw (h, sleep_loop) (rw k refl)
