-- ===== src/Tests/Trackers.antt =====
-- The disconnect handler, the timing tracker and the result receiver on concrete inputs.
use embedded_test_runner.Base.{
  ◌≡◌, ◌≢◌, refl, true, false, some, none, [], ◌∷◌, ◌++◌, codes, ℕ, Text, arith, List, All, ◌+◌,
}
use embedded_test_runner.Base.Int.{ℤ, pos}
use embedded_test_runner.Protocol.Messages.{msg_disconnect, msg_reconnect, msg_case_start}
use embedded_test_runner.Disconnect.{Handler, Call}
use embedded_test_runner.Disconnect
use embedded_test_runner.Disconnect.Windows
use embedded_test_runner.Disconnect.Windows.{
  Windows, HasCallbacks, all_calls, closings, play-Windows, play-IsTimed,
}
use embedded_test_runner.Timing.{Tracker, finalize}
use embedded_test_runner.Timing
use embedded_test_runner.Timing.Durations
use embedded_test_runner.Timing.Durations.{lookup-slow_tests, finalize-play-IsTimed}
use embedded_test_runner.Receiver
use embedded_test_runner.Receiver.{Receiver, doctest, unity, chomp, feed}
use embedded_test_runner.Receiver.Patterns.{doctest_testcase}
use embedded_test_runner.Receiver.Doctest.{failures, is_summary}
use embedded_test_runner.Receiver.Results
use embedded_test_runner.Receiver.Results.{play-failures}
use embedded_test_runner.Receiver.Unity
use embedded_test_runner.Receiver.Unity.{
  Event, line, drain, all_results, unity_results, play-unity_results,
}
use embedded_test_runner.Receiver.Failed.{FailuresAdded, IsInside, failed_case}

abbrev handler : Handler
handler = Disconnect.new true true

abbrev cycle : List (ℤ × Text)
cycle = (pos 0, msg_disconnect (pos 500)) ∷ (pos 700, msg_reconnect) ∷ (pos 800, msg_reconnect) ∷ []

play-Windows_example :
    Windows false (all_calls handler cycle) (Disconnect.Windows.play handler cycle).active
    × ((Disconnect.Windows.play handler cycle).disconnect_count
        ≡ 0 + closings (all_calls handler cycle))
play-Windows_example = play-Windows handler cycle (refl, refl)

abbrev tracker : Tracker
tracker = record {
  slow_threshold = pos 1000;
  current_test = [];
  test_start_time = none;
  durations = (codes "a/b", pos 1500) ∷ (codes "a/c", pos 900) ∷ (codes "a/d", pos 2500) ∷ [];
}

finalize-play-IsTimed_example : Timing.Durations.IsTimed (pos 90) (
    finalize (pos 90) (
      Timing.Durations.play
        (Timing.new (pos 1000))
        ((pos 10, pos 20, msg_case_start (codes "Net") (codes "ping") none) ∷ [])))
finalize-play-IsTimed_example =
    finalize-play-IsTimed (pos 0) (pos 90) (Timing.new (pos 1000))
      ((pos 10, pos 20, msg_case_start (codes "Net") (codes "ping") none) ∷ []) (omega arith)
      (record { durations = tt; begun = λ s e. ground (arith, e) })

abbrev receiver : Receiver
receiver = Receiver.new (some doctest)

abbrev output : List Text
output =
    codes "TEST CASE:  adds"
    ∷ codes "a.cpp:12: FAILED: CHECK( 1 == 2 )"
    ∷ codes "  values: CHECK( 1 == 2 )"
    ∷ codes "TEST CASE:  subtracts"
    ∷ codes "a.cpp:20: PASSED:"
    ∷ []

abbrev summary : Text
summary = codes "[doctest] test cases: 2 | 1 passed | 1 failed | 0 skipped"

output-IsDetail : All Receiver.Results.IsDetail output
unfolding embedded_test_runner.Receiver.chomp
    embedded_test_runner.Receiver.Patterns.doctest_testcase
    embedded_test_runner.Receiver.Patterns.doctest_fail
    embedded_test_runner.Receiver.Patterns.doctest_summary embedded_test_runner.Base.is_space
    embedded_test_runner.Base.is_digit embedded_test_runner.Base.Regex.many_from
    embedded_test_runner.Base.Regex.literal embedded_test_runner.Base.strip_prefix
    embedded_test_runner.Base.Regex.few_from embedded_test_runner.Base.Regex.search_for
output-IsDetail = (refl, (refl, (refl, (refl, (refl, tt)))))

summary-is_summary : is_summary (chomp summary) ≡ true
unfolding embedded_test_runner.Receiver.chomp
    embedded_test_runner.Receiver.Patterns.doctest_testcase
    embedded_test_runner.Receiver.Patterns.doctest_fail
    embedded_test_runner.Receiver.Patterns.doctest_summary embedded_test_runner.Base.is_space
    embedded_test_runner.Base.is_digit embedded_test_runner.Base.Regex.many_from
    embedded_test_runner.Base.Regex.literal embedded_test_runner.Base.strip_prefix
    embedded_test_runner.Base.Regex.few_from embedded_test_runner.Base.Regex.search_for
summary-is_summary = refl

play-failures_example :
    ((feed (Receiver.Results.play receiver output) summary).is_complete ≡ true)
    × (failures (feed (Receiver.Results.play receiver output) summary).results ≡ 1)
unfolding embedded_test_runner.Receiver.chomp
    embedded_test_runner.Receiver.Patterns.doctest_testcase
    embedded_test_runner.Receiver.Patterns.doctest_fail
    embedded_test_runner.Receiver.Patterns.doctest_summary embedded_test_runner.Base.is_space
    embedded_test_runner.Base.is_digit embedded_test_runner.Base.Regex.many_from
    embedded_test_runner.Base.Regex.literal embedded_test_runner.Base.strip_prefix
    embedded_test_runner.Base.Regex.few_from embedded_test_runner.Base.Regex.search_for
play-failures_example =
    play-failures receiver output summary (refl, refl) output-IsDetail summary-is_summary

-- a receiver that reads a failure of "adds"
abbrev pending : Receiver
pending = record receiver {
  current_test_name = some (codes "adds");
  doctest_fail_source = some (codes "a.cpp:12");
  doctest_fail_lines = codes "CHECK( 1 == 2 )" ∷ [];
  in_doctest_failure = true;
}

abbrev inside : List Text
inside = codes "a.cpp:14: SUCCESS: CHECK( 2 == 2 )" ∷ codes "a.cpp:15: FAILED: CHECK( 3 == 2 )" ∷ []

inside-IsInside : All IsInside inside
unfolding embedded_test_runner.Receiver.chomp
    embedded_test_runner.Receiver.Patterns.doctest_testcase
    embedded_test_runner.Receiver.Patterns.doctest_fail
    embedded_test_runner.Receiver.Patterns.doctest_summary embedded_test_runner.Base.is_space
    embedded_test_runner.Base.is_digit embedded_test_runner.Base.Regex.many_from
    embedded_test_runner.Base.Regex.literal embedded_test_runner.Base.strip_prefix
    embedded_test_runner.Base.Regex.few_from embedded_test_runner.Base.Regex.search_for
inside-IsInside = ((refl, refl), ((refl, refl), tt))

header-testcase : doctest_testcase (chomp (codes "TEST CASE:  subtracts")) ≢ none
unfolding embedded_test_runner.Receiver.chomp
    embedded_test_runner.Receiver.Patterns.doctest_testcase
    embedded_test_runner.Receiver.Patterns.doctest_fail
    embedded_test_runner.Receiver.Patterns.doctest_summary embedded_test_runner.Base.is_space
    embedded_test_runner.Base.is_digit embedded_test_runner.Base.Regex.many_from
    embedded_test_runner.Base.Regex.literal embedded_test_runner.Base.strip_prefix
    embedded_test_runner.Base.Regex.few_from embedded_test_runner.Base.Regex.search_for
header-testcase = λ e. cc

failed_case_example :
    FailuresAdded []
      (feed (Receiver.Results.play pending inside) (codes "TEST CASE:  subtracts")).results
failed_case_example =
    failed_case pending inside (codes "TEST CASE:  subtracts") (refl, refl) refl inside-IsInside
      header-testcase

-- two results, taken after the first
abbrev unity_events : List Event
unity_events =
    line (codes "t.c:7:adds:PASS")
    ∷ drain
    ∷ line (codes "t.c:9:halves:FAIL: Expected 2 Was 3")
    ∷ line (codes "2 Tests 1 Failures 0 Ignored")
    ∷ []

abbrev unity_receiver : Receiver
unity_receiver = Receiver.new (some unity)

play-unity_results_example :
    all_results (Receiver.Unity.play unity_receiver unity_events) ≡ unity_results unity_events
play-unity_results_example = play-unity_results unity_receiver unity_events (refl, refl)
