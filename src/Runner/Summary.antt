-- ===== src/Runner/Summary.antt =====
-- The summary at the end of a session, and the teardown of a partition (src/etst/runner.py:
-- `_print_summary`, `teardown`).
--
-- What is printed is the list of the echoed lines; the report of the memory tracker, the crash
-- detector and PlatformIO's suite are parameters, and so is how Python prints seconds.
pub mod Counts
use embedded_test_runner.Base.{
  ℕ, ◌-◌, Bool, true, false, not, ◌&&◌, Option, none, some, List, [], ◌∷◌, ◌++◌, Text, codes,
  length, filter, is_empty, ltb, if◌then◌else◌,
}
use embedded_test_runner.Base.Int.{ℤ, pos, ltb_ℤ, ◌-ℤ◌}
use embedded_test_runner.Base.Dict.{contains, keys}
use embedded_test_runner.Base.Decimal.{str_int}
use embedded_test_runner.Timing
use embedded_test_runner.Timing.{Tracker}
use embedded_test_runner.Runner.Results.{Failures}
use embedded_test_runner.Runner.Serial.{Crash}

unfoldable pub passed_tests : List Text → Failures → List Text
passed_tests completed failures = filter (λ t. not (contains t (keys failures))) completed

-- expected > 0 and len(completed) < expected
unfoldable pub falls_short : ℤ → ℤ → Bool
falls_short expected ran = ltb_ℤ (pos 0) expected && ltb_ℤ ran expected

ran_part : ℤ → ℤ → Text
ran_part expected ran =
    str_int ran
    ++ codes " ran"
    ++ (if falls_short expected ran
        then codes " of " ++ str_int expected ++ codes " expected"
        else [])

-- a part with a count, unless the count is 0
count_part : List Text → Text → List Text
count_part [] word = []
count_part (t ∷ ts) word = (str_int (pos (length (t ∷ ts))) ++ word) ∷ []

unfoldable pub summary_parts : List Text → Failures → ℤ → List Text
unfolding ran_part count_part
summary_parts completed failures expected =
    let ran = pos (length completed) in
    ran_part expected ran ∷ count_part (passed_tests completed failures) (codes " passed")
    ++ count_part (keys failures) (codes " failed")
    ++ (if falls_short expected ran
        then (str_int (expected -ℤ ran) ++ codes " NEVER RAN") ∷ []
        else [])

-- " | ".join(parts)
unfoldable pub join_bars : List Text → Text
join_bars [] = []
join_bars (p ∷ []) = p
join_bars (p ∷ q ∷ ps) = p ++ codes " | " ++ join_bars (q ∷ ps)

unfoldable pub summary_lines : List Text → Failures → ℤ → List Text
summary_lines [] failures expected = []
summary_lines (t ∷ ts) failures expected =
    [] ∷ (codes "[runner] " ++ join_bars (summary_parts (t ∷ ts) failures expected)) ∷ []

-- a report behind an empty line, unless it is empty
unfoldable pub report_lines : Text → List Text
report_lines [] = []
report_lines (c ∷ report) = [] ∷ (c ∷ report) ∷ []

-- `_print_summary`; `now` is the timing tracker's clock
unfoldable pub print_summary :
    (ℤ → Text) → (ℤ → Text) → Text → ℤ → Tracker → List Text → Failures → ℤ → Tracker × List Text
print_summary whole tenths mem_report now tracker completed failures expected =
    let finalized = Timing.finalize now tracker in
    (
      finalized,
      report_lines mem_report
          ++ report_lines (Timing.report whole tenths finalized)
          ++ summary_lines completed failures expected,
    )

-- What `teardown` uses: the plugins' `on_partition_complete`, whose exceptions are logged, the
-- detector's `check_timeout`, and the suite.
pub record Partition (S : Type 0) : Type 0 where
  pub env_name : Text
  pub on_partition_complete : S → S
  pub finished_by_runner : S → Bool
  pub check_timeout : S → S
  pub crash : S → Option Crash
  pub add_errored : Text → Text → S → S

module _ {S : Type 0} (d : Partition S) where
  report_hang : Option Crash → S → S
  report_hang none s = s
  report_hang (some c) s = d.add_errored (d.env_name ++ codes ":hang") c.reason s

  unfoldable pub teardown : S → S
  unfolding report_hang
  teardown s =
      let completed = d.on_partition_complete s in
      let checked = d.check_timeout completed in
      if d.finished_by_runner completed then completed else report_hang (d.crash checked) checked
