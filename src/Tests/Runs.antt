-- ===== src/Tests/Runs.antt =====
-- The runner's commands and results on concrete inputs.
use embedded_test_runner.Base.{
  ◌≡◌, ◌≢◌, ◌↔◌, refl, Bool, true, false, Option, none, [], ◌∷◌, ◌++◌, codes, ℕ, Text, arith, List,
  All, Every, any_of, length, map,
}
use embedded_test_runner.Base.Int.{pos, ◌≤ℤ◌}
use embedded_test_runner.Base.Dict.{lookup, keys}
use embedded_test_runner.Runner.Args.{
  Environ, extract_filters, build_args_and_run, collect_env_vars,
}
use embedded_test_runner.Runner.Args.Commands.{extract_filters-build_args_and_run}
use embedded_test_runner.Runner.Args.Warned.{
  Variable, nothing_warned, env_values, plain_value, times, env_values_warned,
}
use embedded_test_runner.Base.{if◌then◌else◌}
use embedded_test_runner.Base.Dict.{contains}
use embedded_test_runner.Runner.Args.{build_initial_command}
use embedded_test_runner.Runner.Args.Commands.{NotEnv, spelled, build_initial_command-spelled}
use embedded_test_runner.Runner.Results.{
  Platform, IsPlatform, Failures, is_bad, is_named, is_failed, report_test_failures, settle,
}
use embedded_test_runner.Runner.Results.Verdict.{IsSolid, settle_passed, settle_complete}

abbrev environ : Environ
environ = (codes "ETST_CASE", codes "ping all") ∷ (codes "ETST_ENV_HOST", codes "lab") ∷ []

extract_filters-build_args_and_run_example :
    extract_filters (build_args_and_run environ (codes "--ts" ∷ codes "Net" ∷ [])).1 ≡ []
extract_filters-build_args_and_run_example =
    extract_filters-build_args_and_run environ (codes "--ts" ∷ codes "Net" ∷ [])

abbrev case_variable : Variable
case_variable = record {
  new_name = codes "ETST_CASE";
  old_name = codes "PTR_TEST_CASE";
  default = [];
}

-- a name that is read twice is warned about once
abbrev old_environ : Environ
old_environ = (codes "PTR_TEST_CASE", codes " ping ") ∷ []

env_values_warned_example :
    ((env_values old_environ (case_variable ∷ case_variable ∷ []) nothing_warned).0
      ≡ map (plain_value old_environ) (case_variable ∷ case_variable ∷ []))
    × (times
          (codes "PTR_TEST_CASE")
          (env_values old_environ (case_variable ∷ case_variable ∷ []) nothing_warned).1.logged
        ≡ 1)
unfolding embedded_test_runner.Base.text_eq any_of embedded_test_runner.Base.strip lookup
    embedded_test_runner.Base.is_space contains times
env_values_warned_example =
    env_values_warned old_environ (case_variable ∷ case_variable ∷ []) nothing_warned
      (codes "PTR_TEST_CASE")

abbrev pairs : List (Text × Text)
pairs =
    (codes "HOST", codes "desk") ∷ (codes "PORT", codes "1=2") ∷ (codes "HOST", codes "home") ∷ []

-- a platform whose cases hold what they are built of
data Status : Type 0 where
  passed failed errored : Status

abbrev Case : Type 0
Case = Text × Status

abbrev same_status : Status → Status → Bool
same_status passed passed = true
same_status failed failed = true
same_status errored errored = true
same_status _ _ = false

abbrev platform : Platform Case Status
platform = record {
  passed = passed;
  failed = failed;
  errored = errored;
  same_status = same_status;
  test_case = λ name status message stdout. (name, status);
  name_of = λ c. c.0;
  status_of = λ c. c.1;
  add_case = λ c cases. cases ++ c ∷ [];
}

same_status_iff : (a b : Status) → (same_status a b ≡ true) ↔ (a ≡ b)
same_status_iff passed passed = ground arith
same_status_iff passed failed = ((λ e. cc), λ e. cc)
same_status_iff passed errored = ((λ e. cc), λ e. cc)
same_status_iff failed passed = ((λ e. cc), λ e. cc)
same_status_iff failed failed = ground arith
same_status_iff failed errored = ((λ e. cc), λ e. cc)
same_status_iff errored passed = ((λ e. cc), λ e. cc)
same_status_iff errored failed = ((λ e. cc), λ e. cc)
same_status_iff errored errored = ground arith

platform-IsPlatform : IsPlatform platform
platform-IsPlatform = record {
  name_of-test_case = λ name status message stdout. refl;
  status_of-test_case = λ name status message stdout. refl;
  same_status_iff = same_status_iff;
  failed≢passed = λ e. cc;
  errored≢passed = λ e. cc;
  add_case-append = λ c cases. refl;
}

abbrev completed : List Text
completed = codes "Net/ping" ∷ codes "Net/pong" ∷ []

abbrev failures : Failures
failures = (codes "Net/pong", codes "CHECK( 1 == 2 )" ∷ []) ∷ []

pong-IsSolid : IsSolid (codes "Net/pong")
unfolding embedded_test_runner.Runner.Results.is_blank embedded_test_runner.Base.strip
    embedded_test_runner.Base.is_space
pong-IsSolid = refl

abbrev no_failures : Failures
no_failures = []

abbrev settled : List Case
settled =
    settle platform completed no_failures (pos 2)
      (report_test_failures platform no_failures ((codes "Net/ping", passed) ∷ []))

no_bad : any_of (is_bad platform) settled ≡ false
unfolding any_of is_bad settle report_test_failures keys
    embedded_test_runner.Runner.Results.check_for_under_run
    embedded_test_runner.Runner.Results.ensure_test_results
    embedded_test_runner.Runner.Results.add_passed embedded_test_runner.Runner.Results.names_of
    embedded_test_runner.Runner.Results.keep embedded_test_runner.Runner.Results.is_blank
    embedded_test_runner.Base.Dict.contains embedded_test_runner.Base.filter
    embedded_test_runner.Base.strip embedded_test_runner.Base.is_space
    embedded_test_runner.Base.text_eq
no_bad = refl

settle_passed_example :
    (no_failures ≡ [])
    × (pos 2 ≤ℤ pos (length completed))
    × Every (λ (t : Text). any_of (is_named platform t) settled) completed
unfolding keys
settle_passed_example =
    settle_passed platform platform-IsPlatform completed no_failures (pos 2)
      ((codes "Net/ping", passed) ∷ []) tt no_bad

settle_complete_example :
    Every
      (λ (t : Text).
        any_of
          (is_named platform t)
          (settle platform completed failures (pos 3) (report_test_failures platform failures [])))
      completed
    × Every
        (λ (t : Text).
          any_of (is_failed platform t) (
            settle platform completed failures (pos 3) (report_test_failures platform failures [])))
        (codes "Net/pong" ∷ [])
unfolding keys
settle_complete_example =
    settle_complete platform platform-IsPlatform completed failures (pos 3) [] (pong-IsSolid, tt)

not_env : All NotEnv (codes "--ts" ∷ codes "Net" ∷ [])
unfolding embedded_test_runner.Base.text_eq
not_env = (refl, (refl, tt))

none_set : collect_env_vars [] (codes "--ts" ∷ codes "Net" ∷ []) ≡ []
unfolding collect_env_vars embedded_test_runner.Base.text_eq
none_set = refl

build_initial_command-spelled_example :
    build_initial_command [] (codes "--ts" ∷ codes "Net" ∷ [])
    ≡ spelled (build_args_and_run [] (codes "--ts" ∷ codes "Net" ∷ []))
build_initial_command-spelled_example =
    build_initial_command-spelled [] (codes "--ts" ∷ codes "Net" ∷ []) not_env none_set
