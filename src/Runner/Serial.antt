-- ===== src/Runner/Serial.antt =====
-- Serial data as lines (src/etst/runner.py: `_on_serial_data`, `_sync_test_name`, `_check_crash`).
--
-- Data is taken as decoded text. The router with what it feeds, the crash detector, the memory
-- tracker and PlatformIO's base runner, whose exceptions are ignored, are the operations of a
-- `Host`; so are the fields that the steps below read and set. The echo of the counts is left out.
pub mod Chunks
pub mod Heard
pub mod Whole
use embedded_test_runner.Base.{
  ℕ, Bool, true, false, not, ◌&&◌, ◌||◌, Option, none, some, List, [], ◌∷◌, ◌++◌, Text, codes,
  is_empty, reverse, drop_while, ◌==◌, if◌then◌else◌,
}
use embedded_test_runner.ReadyRun.{ReadyRun, ProtocolState, waiting_for_ready, current_test_full}
use embedded_test_runner.Disconnect.{Handler}
use embedded_test_runner.Runner.Results.{Failures, check_assertion_failure, join_lines}

-- a crash: its reason and its lines
pub record Crash : Type 0 where
  pub reason : Text
  pub lines : List Text

-- `feed` is the router's, `base_line` the base runner's `on_testing_line_output`; `add_errored`
-- adds an ERRORED case with a name, a message and an output, the empty one where there is none
pub record Host (S : Type 0) : Type 0 where
  pub verbose : Bool
  pub env_name : Text
  pub feed : Text → S → S
  pub protocol : S → ReadyRun
  pub handler : S → Handler
  pub crash : S → Option Crash
  pub set_current_test : Text → S → S
  pub failures : S → Failures
  pub with_failures : Failures → S → S
  pub finished_by_runner : S → Bool
  pub finish : S → S
  pub add_errored : Text → Text → Text → S → S
  pub base_line : Text → S → S

-- the complete lines, and the trailing piece
abbrev pub cons_line : Bool → ℕ → List Text × Text → List Text × Text
cons_line true c (ls, rest) = ([] ∷ ls, rest)
cons_line false c ([], rest) = ([], c ∷ rest)
cons_line false c (l ∷ ls, rest) = ((c ∷ l) ∷ ls, rest)

-- text.split("\n"), with the last part apart
unfoldable pub split_lines : Text → List Text × Text
split_lines [] = ([], [])
split_lines (c ∷ s) = cons_line (c == b'\n') c (split_lines s)

abbrev is_return : ℕ → Bool
is_return c = c == b'\r'

-- line.rstrip("\r")
unfoldable pub strip_return : Text → Text
strip_return s = reverse (drop_while is_return (reverse s))

abbrev pub crash_name : Text → Text → Text
crash_name [] env_name = env_name ++ codes ":crash"
crash_name (c ∷ test) env_name = c ∷ test

abbrev pub is_waiting : ProtocolState → Bool
is_waiting waiting_for_ready = true
is_waiting _ = false

module _ {S : Type 0} (d : Host S) where
  abbrev pub current : S → Text
  current s = current_test_full (d.protocol s)

  -- `_sync_test_name`
  unfoldable pub sync_test_name : S → S
  sync_test_name s = if is_empty (current s) then s else d.set_current_test (current s) s

  unfoldable pub report_crash : Option Crash → S → S
  report_crash none s = s
  report_crash (some c) s =
      if d.finished_by_runner s
      then s
      else d.finish
          (d.add_errored (crash_name (current s) d.env_name) c.reason (join_lines c.lines) s)

  -- `_check_crash`; `finish` sets `_finished_by_runner` and finishes the suite
  unfoldable pub check_crash : S → S
  unfolding report_crash
  check_crash s = report_crash (d.crash s) s

  unfoldable pub check_failure : Text → S → S
  check_failure line s = d.with_failures (check_assertion_failure (current s) line (d.failures s)) s

  -- a line that is not empty
  unfoldable pub feed_line : Text → S → S
  feed_line line s = check_failure line (check_crash (sync_test_name (d.feed line s)))

  -- what PlatformIO sees: nothing in a disconnect window, nor before READY
  unfoldable pub forward : Text → S → S
  forward line s =
      if (d.handler s).active || (is_waiting (d.protocol s).state && not d.verbose)
      then s
      else d.base_line (line ++ codes "\n") s

  -- One round of the loop over the lines, and whether it returns: it does once the runner has
  -- finished, on a line that is not empty.
  unfoldable pub one_line : Text → S → Bool × S
  one_line line s = elim (is_empty line) [
    | true ↦ (false, forward line s)
    | false ↦
        let fed = feed_line line s in
        if d.finished_by_runner fed then (true, fed) else (false, forward line fed)
  ]

  -- the loop; a line that returns leaves the others out
  unfoldable pub all_lines : List Text → S → Bool × S
  all_lines [] s = (false, s)
  all_lines (l ∷ ls) s =
      let done = one_line (strip_return l) s in
      elim done.0 [ true ↦ (true, done.1) | false ↦ all_lines ls done.1 ]

  -- `_line_buf` and the rest of the state
  unfoldable pub on_serial_data : Text → Text × S → Text × S
  on_serial_data data' (line_buf, s) =
      let parts = split_lines (line_buf ++ data') in (parts.1, (all_lines parts.0 s).1)
