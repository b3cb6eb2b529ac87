-- ===== src/Runner/Stage.antt =====
-- A whole session (src/etst/runner.py: `stage_testing` and `_handle_sleep_resume`): the first cycle,
-- the loop over the cycles in which a test sleeps, the error cases, and the `finally`.
--
-- The serial port, the clock, PlatformIO's suite and the read loop of a cycle are arguments, the
-- operations of a `Session`. Whether the orchestrated mode is on and whether tests are to run at
-- all is taken as given; the echoes are left out.
pub mod Retries
pub mod Outcome
use embedded_test_runner.Base.{
  ℕ, zero, suc, ◌+◌, Bool, true, false, Option, none, some, List, [], ◌∷◌, ◌++◌, Text, codes, leb,
  is_empty, ◌||◌,
}
use mathlib.Core.Option
use embedded_test_runner.Base.Dict.{Dict, lookup, insert}
use embedded_test_runner.Base.Int.{pos}
use embedded_test_runner.Base.Decimal.{str_int}
use embedded_test_runner.ReadyRun.{
  ReadyRun, ProtocolState, sleeping, running, reset_for_wake, reset_all,
}
use embedded_test_runner.Runner.Args.{Environ, build_args_and_run, extract_filters}

-- how a call ends: it returns, or raises a SerialException or another exception with its text
pub data Ended (S : Type 0) : Type 0 where
  returned : S → Ended S
  serial_error : Text → S → Ended S
  other_error : Text → S → Ended S

-- What the session is made of. `run_test_cycle` takes the command, `reset` and `skip_post_test`;
-- `wait_for_wake` closes the port, waits until it has gone and come back, or until time is up.
pub record Session (S : Type 0) : Type 0 where
  pub protocol : S → ReadyRun
  pub with_protocol : ReadyRun → S → S
  pub with_args_lines : List Text → S → S
  pub run_test_cycle : Text → Bool → Bool → S → Ended S
  pub wait_for_wake : S → S
  pub add_error_case : Text → Text → S → S
  pub close_serial : S → S
  pub settle_suite : S → S

-- MAX_SLEEP_RETRIES
abbrev pub max_sleep_retries : ℕ
max_sleep_retries = 3

-- `sleep_retry_counts.get(sleep_test, 0)`
unfoldable pub count_of : Text → Dict ℕ → ℕ
count_of name counts = elim (lookup name counts) [ none ↦ 0 | some n ↦ n ]

-- state == SLEEPING
abbrev pub is_sleeping : ProtocolState → Bool
is_sleeping sleeping = true
is_sleeping _ = false

abbrev pub is_running : ProtocolState → Bool
is_running running = true
is_running _ = false

-- 'RUN: --wake --tc "…"'
abbrev pub wake_command : Text → Text
wake_command name = codes "RUN: --wake --tc \"" ++ name ++ codes "\""

abbrev pub resume_command : Text → Text → Text
resume_command [] test = codes "RESUME_AFTER: " ++ test
resume_command (c ∷ filters) test = codes "RESUME_AFTER: " ++ test ++ b' ' ∷ c ∷ filters

unfoldable pub loop_message : ℕ → Text
loop_message retries =
    codes "Infinite sleep loop detected after "
    ++ str_int (pos retries)
    ++ codes " retries — test always enters Phase 1 on resume"

module _ {S : Type 0} (d : Session S) where
  abbrev pub sleeps : S → Bool
  sleeps s = is_sleeping (d.protocol s).state

  -- a second try if the port is not ready
  again : Text → Ended S → Ended S
  again command (returned s) = returned s
  again command (serial_error message s) = d.run_test_cycle command false false s
  again command (other_error message s) = other_error message s

  -- `_handle_sleep_resume`
  unfoldable pub handle_sleep_resume : S → Ended S
  unfolding again
  handle_sleep_resume s =
      let woken = d.wait_for_wake s in
      let command = wake_command (d.protocol woken).sleeping_test_name in
      again command (
        d.run_test_cycle command false true
          (d.with_protocol (reset_for_wake (d.protocol woken)) woken))

  -- behind the resumed test: the tests after it, unless it sleeps again or has no name
  unfoldable pub run_remaining : Text → Text → S → Ended S
  run_remaining filters test s = elim (sleeps s) [
    | true ↦ returned s
    | false ↦ elim (is_empty test) [
      | true ↦ returned s
      | false ↦ d.run_test_cycle (resume_command filters test) false false s
    ]
  ]

  unfoldable pub and_then : Ended S → (S → Ended S) → Ended S
  and_then (returned s) f = f s
  and_then (serial_error message s) f = serial_error message s
  and_then (other_error message s) f = other_error message s

  -- the body of the loop below its guard
  unfoldable pub resume_round : Text → S → Ended S
  resume_round filters s =
      and_then (handle_sleep_resume s) (run_remaining filters (d.protocol s).sleeping_test_name)

  -- the guard's `break`
  unfoldable pub give_up : ℕ → S → S
  give_up retries s =
      d.close_serial (d.add_error_case (d.protocol s).sleeping_test_name (loop_message retries) s)

  -- the loop goes on unless an exception leaves it
  unfoldable pub go_on : (S → Option (Ended S)) → Ended S → Option (Ended S)
  go_on loop (returned s) = loop s
  go_on loop (serial_error message s) = some (serial_error message s)
  go_on loop (other_error message s) = some (other_error message s)

  -- the `while` loop, on the rounds that are left; `none` is out of fuel
  unfoldable pub sleep_loop : ℕ → Text → Dict ℕ → S → Option (Ended S)
  sleep_loop zero filters counts s = none
  sleep_loop (suc fuel) filters counts s = elim (sleeps s) [
    | false ↦ some (returned s)
    | true ↦
        let test = (d.protocol s).sleeping_test_name in
        let retries = count_of test counts in
        elim (leb max_sleep_retries retries) [
          | true ↦ some (returned (give_up retries s))
          | false ↦
              go_on (λ s1. sleep_loop fuel filters (insert test (retries + 1) counts) s1)
                (resume_round filters s)
        ]
  ]

  -- the `finally`, also when the `except` raises
  unfoldable pub finally : Ended S → Ended S
  finally (returned s) = returned (d.settle_suite (d.close_serial s))
  finally (serial_error message s) = serial_error message (d.settle_suite (d.close_serial s))
  finally (other_error message s) = other_error message (d.settle_suite (d.close_serial s))

  -- the `except`: a port that goes away while a test runs or sleeps is expected
  unfoldable pub except_error : Ended S → Ended S
  except_error (returned s) = returned s
  except_error (serial_error message s) = elim (sleeps s || is_running (d.protocol s).state) [
    | true ↦ handle_sleep_resume s
    | false ↦ returned (d.add_error_case (codes "serial_error") message s)
  ]
  except_error (other_error message s) =
      returned (d.add_error_case (codes "runner_error") message s)

  unfoldable pub stage_testing : ℕ → Environ → List Text → S → Option (Ended S)
  stage_testing fuel env program_args s =
      let built = build_args_and_run env program_args in
      let ready_to_run = d.with_args_lines built.0 (d.with_protocol (reset_all (d.protocol s)) s) in
      Option.map (λ e. finally (except_error e))
        (go_on (sleep_loop fuel (extract_filters built.1) [])
          (d.run_test_cycle built.1 true false ready_to_run))
