-- ===== src/Runner/Stage/Outcome.antt =====
-- How the loop over sleeping tests ends (src/etst/runner.py: `stage_testing`).
use embedded_test_runner.Base.{ℕ, ◌≤◌, ◌≡◌, ◌⊎◌, true, false, Option, none, some}
use embedded_test_runner.Base.Dict.{Dict}
use embedded_test_runner.Runner.Stage.{
  Ended, returned, serial_error, other_error, Session, sleeps, give_up,
}

module _ {S : Type 0} (d : Session S) where
  -- the loop gave up on a test that slept in the state `x`, after `n` rounds for it
  pub record GaveUp (s : S) : Type 0 where
    pub x : S
    pub n : ℕ
    pub asleep : sleeps d x ≡ true
    pub enough : 3 ≤ n
    pub reported : s ≡ give_up d n x

  -- a loop that returned has no test asleep, or has given up on one
  unfoldable pub Explained : Option (Ended S) → Type 0
  Explained none = Unit
  Explained (some (returned s)) = (sleeps d s ≡ false) ⊎ GaveUp s
  Explained (some (serial_error message s)) = Unit
  Explained (some (other_error message s)) = Unit
