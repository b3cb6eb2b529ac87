-- ===== src/Runner/LineMode.antt =====
-- The line mode, in which PlatformIO owns the serial port (src/etst/runner.py:
-- `on_testing_line_output`, `configure_hang_timeout`).
--
-- The port's operations are those of Runner/Cycle. Each line comes with the readings of the two
-- clocks, in milliseconds. The echoes are left out.
pub mod Trace
use embedded_test_runner.Base.{
  ℕ, Bool, true, false, not, ◌&&◌, List, [], ◌∷◌, ◌++◌, Text, codes, if◌then◌else◌,
}
use embedded_test_runner.Base.Int.{ℤ, pos, ltb_ℤ, ◌-ℤ◌}
use embedded_test_runner.ReadyRun.{ReadyRun, ProtocolState, finished, is_busy, current_test_full}
use embedded_test_runner.Runner.Args.{Environ, read_env}
use embedded_test_runner.Runner.Results.{or_unknown}
use embedded_test_runner.Runner.Serial.{feed_line}
use embedded_test_runner.Runner.Cycle.{
  Port, protocol, is_state_running, effective_hang_timeout, hang_message,
}

-- `_last_line_time`, `_line_mode_test_started`, and all else
pub record LineState (S : Type 0) : Type 0 where
  pub last_line_time : ℤ
  pub test_started : Bool
  pub session : S

-- a line of output with the readings of `time.time()` and of the protocol's clock
pub record TimedLine : Type 0 where
  pub now : ℤ
  pub monotonic : ℤ
  pub text : Text

abbrev pub is_state_finished : ProtocolState → Bool
is_state_finished finished = true
is_state_finished _ = false

abbrev pub milliseconds_or : (Text → ℤ) → Text → ℤ → ℤ
milliseconds_or seconds [] default = default
milliseconds_or seconds (c ∷ s) default = seconds (c ∷ s)

-- `configure_hang_timeout`; `float`, and what it raises, is a parameter that gives milliseconds
unfoldable pub configure_hang_timeout : (Text → ℤ) → Environ → ℤ
configure_hang_timeout float env =
    milliseconds_or float (read_env env (codes "ETST_HANG_TIMEOUT") (codes "PTR_HANG_TIMEOUT") [])
      (pos 30000)

module _ {S : Type 0} (d : Port S) where
  -- a test has started and the gap since the last line exceeds the timeout, while not busy
  unfoldable pub is_silent_hang : TimedLine → LineState S → Bool
  is_silent_hang line st =
      st.test_started
      && ltb_ℤ (pos 0) st.last_line_time
      && not (is_busy line.monotonic (protocol d st.session))
      && ltb_ℤ (effective_hang_timeout (protocol d st.session).current_test_timeout d.hang_timeout)
          (line.now -ℤ st.last_line_time)

  -- the hang is reported, and the suite and the runner are finished
  unfoldable pub abort_hang : TimedLine → LineState S → LineState S
  abort_hang line st = record st {
    session = d.host.finish (
        d.host.add_errored (or_unknown (current_test_full (protocol d st.session)))
          (hang_message (line.now -ℤ st.last_line_time)) [] st.session);
  }

  -- the failures are reported when the line brings DONE
  unfoldable pub report_once_done : ProtocolState → S → S
  report_once_done prev_state s =
      if is_state_finished (protocol d s).state && not (is_state_finished prev_state)
      then d.report_failures s
      else s

  unfoldable pub process_line : TimedLine → LineState S → LineState S
  process_line line st =
      let fed = feed_line d.host line.text st.session in
      record {
        last_line_time = line.now;
        test_started = if is_state_running (protocol d fed).state then true else st.test_started;
        session = report_once_done (protocol d st.session).state fed;
      }

  -- `on_testing_line_output`
  unfoldable pub on_testing_line_output : TimedLine → LineState S → LineState S
  on_testing_line_output line st = elim (d.host.finished_by_runner st.session) [
    | true ↦ st
    | false ↦ elim (is_silent_hang line st) [
      | true ↦ abort_hang line st
      | false ↦ process_line line st
    ]
  ]
