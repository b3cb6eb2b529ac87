-- ===== src/Timing.antt =====
-- Per-test durations (src/etst/timing_tracker.py). Times and durations are in milliseconds; the
-- readings of the clock are arguments, in the order in which the code takes them. How `report`
-- prints a duration in seconds is a parameter, since the program leaves the rounding to Python's
-- floating-point format.
pub mod Durations
use embedded_test_runner.Base.{
  Bool, true, false, not, ◌&&◌, Option, none, some, List, [], ◌∷◌, ◌++◌, Text, codes, text_eq,
  is_empty, if◌then◌else◌,
}
use embedded_test_runner.Base.Int.{ℤ, ◌-ℤ◌, ltb_ℤ}
use embedded_test_runner.Base.Dict.{Dict, lookup, insert}
use embedded_test_runner.Protocol.Line.{ParsedTag, parse_line}
use embedded_test_runner.Protocol.Payload.{Value, parse_payload}
use embedded_test_runner.ReadyRun.Feed.{crc_failed, text_of}

pub record Tracker : Type 0 where
  pub slow_threshold : ℤ
  pub current_test : Text
  pub test_start_time : Option ℤ
  pub durations : Dict ℤ

abbrev pub new : ℤ → Tracker
new threshold = record {
  slow_threshold = threshold;
  current_test = [];
  test_start_time = none;
  durations = [];
}

recorded : ℤ → Dict ℤ → Text → Option ℤ → Dict ℤ
recorded now durations [] start = durations
recorded now durations (c ∷ test) none = durations
recorded now durations (c ∷ test) (some start) = insert (c ∷ test) (now -ℤ start) durations

-- `_finalize_current`, and `finalize`
unfoldable pub finalize : ℤ → Tracker → Tracker
unfolding recorded
finalize now t = record t {
  durations = recorded now t.durations t.current_test t.test_start_time;
  current_test = [];
  test_start_time = none;
}

-- a CASE:START with a suite and a name; the clock is read for the old test and for the new one
begin : ℤ → ℤ → Tracker → Option Text → Option Text → Tracker
begin stop start t (some suite) (some name) = record (finalize stop t) {
  current_test = suite ++ b'/' ∷ name;
  test_start_time = some start;
}
begin stop start t _ _ = t

unfoldable pub feed_parsed : ℤ → ℤ → Tracker → Option ParsedTag → Tracker
unfolding begin
feed_parsed stop start t none = t
feed_parsed stop start t (some p) =
    if text_eq p.tag (codes "CASE:START") && not (crc_failed p)
    then (let payload = parse_payload p.payload_str in
        begin stop start t (text_of (lookup (codes "suite") payload))
          (text_of (lookup (codes "name") payload)))
    else t

unfoldable pub feed : ℤ → ℤ → Tracker → Text → Tracker
feed stop start t message = feed_parsed stop start t (parse_line message)

slow_in : ℤ → Dict ℤ → Dict ℤ
slow_in threshold [] = []
slow_in threshold ((name, duration) ∷ d) =
    let rest = slow_in threshold d in
    if ltb_ℤ threshold duration then (name, duration) ∷ rest else rest

unfoldable pub slow_tests : Tracker → Dict ℤ
unfolding slow_in
slow_tests t = slow_in t.slow_threshold t.durations

-- sorted(…, key=duration, reverse=True): stable, longest first
sort_into : Text × ℤ → Dict ℤ → Dict ℤ
sort_into x [] = x ∷ []
sort_into x (y ∷ d) = let rest = sort_into x d in if ltb_ℤ x.1 y.1 then y ∷ rest else x ∷ y ∷ d

unfoldable pub longest_first : Dict ℤ → Dict ℤ
unfolding sort_into
longest_first [] = []
longest_first (x ∷ d) = sort_into x (longest_first d)

module _ (whole tenths : ℤ → Text) where
  report_lines : Dict ℤ → Text
  report_lines [] = []
  report_lines ((name, duration) ∷ d) =
      codes "\n  " ++ (name ++ (codes ": " ++ (tenths duration ++ (codes "s" ++ report_lines d))))

  report_of : ℤ → Dict ℤ → Text
  unfolding report_lines
  report_of threshold [] = []
  report_of threshold (x ∷ d) =
      codes "Slow Tests (>" ++ (whole threshold ++ (codes "s):" ++ report_lines (x ∷ d)))

  unfoldable pub report : Tracker → Text
  unfolding report_of
  report t = report_of t.slow_threshold (longest_first (slow_tests t))

unfoldable pub reset : Tracker → Tracker
reset t = record t { current_test = []; test_start_time = none; durations = [] }
