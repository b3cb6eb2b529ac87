-- ===== src/Tests/LineModes.antt =====
-- The line mode on concrete inputs.
use embedded_test_runner.Base.{
  ◌≡◌, refl, Bool, true, false, Option, some, none, List, [], ◌∷◌, ◌++◌, codes, Text,
}
use embedded_test_runner.Base.Int.{ℤ, pos}
use embedded_test_runner.Disconnect
use embedded_test_runner.ReadyRun.{ReadyRun, init, running}
use embedded_test_runner.ReadyRun.Feed.{after, feed}
use embedded_test_runner.Protocol.Messages.{msg_case_start}
use embedded_test_runner.Runner.Cycle.{Port}
use embedded_test_runner.Runner.LineMode.{LineState, TimedLine}
use embedded_test_runner.Runner.LineMode.Trace.{play_lines}

-- the protocol, whether the runner has finished, and the names of the errors
pub record Watched : Type 0 where
  protocol : ReadyRun
  over : Bool
  errors : List Text

abbrev watching : Port Watched
watching = record {
  host = record {
    verbose = false;
    env_name = codes "board";
    feed = λ line s. record s { protocol = after (feed (pos 0) s.protocol line) };
    protocol = λ s. s.protocol;
    handler = λ s. Disconnect.new true true;
    crash = λ s. none;
    set_current_test = λ name s. s;
    failures = λ s. [];
    with_failures = λ fs s. s;
    finished_by_runner = λ s. s.over;
    finish = λ s. record s { over = true };
    add_errored = λ name message stdout s. record s { errors = s.errors ++ message ∷ [] };
    base_line = λ line s. s;
  };
  is_open = λ s. true;
  write = λ text s. s;
  with_protocol = λ p s. record s { protocol = p };
  report_failures = λ s. s;
  hang_timeout = pos 30000;
}

abbrev at_start : LineState Watched
at_start = record {
  last_line_time = pos 0;
  test_started = false;
  session = record { protocol = record init { state = running }; over = false; errors = [] };
}

abbrev timed : ℤ → Text → TimedLine
timed now text = record { now = now; monotonic = now; text = text }

-- the gap before the third line is too long, and the fourth is ignored
abbrev output : List TimedLine
output =
    timed (pos 1000) (msg_case_start (codes "Net") (codes "ping") none)
    ∷ timed (pos 20000) (codes "pinging")
    ∷ timed (pos 60000) (codes "pong")
    ∷ timed (pos 100000) (codes "done")
    ∷ []

hangs_once :
    (play_lines watching output at_start).session.errors ≡ codes "Test hang: no output for 40s" ∷ []
unfolding embedded_test_runner.Base.Decimal.dec embedded_test_runner.Base.Decimal.parse_int
    embedded_test_runner.Base.Decimal.str_int embedded_test_runner.Base.Dict.contains
    embedded_test_runner.Base.Dict.insert embedded_test_runner.Base.Dict.lookup
    embedded_test_runner.Base.Int.◌+ℤ◌ embedded_test_runner.Base.Int.◌-ℤ◌
    embedded_test_runner.Base.find embedded_test_runner.Base.is_digit
    embedded_test_runner.Base.is_space embedded_test_runner.Base.is_word
    embedded_test_runner.Base.lstrip embedded_test_runner.Base.rfind
    embedded_test_runner.Base.rstrip embedded_test_runner.Base.strip
    embedded_test_runner.Base.strip_prefix embedded_test_runner.Base.text_eq
    embedded_test_runner.Protocol.Crc.compute_crc8 embedded_test_runner.Protocol.Line.crc_suffix
    embedded_test_runner.Protocol.Line.format_crc embedded_test_runner.Protocol.Line.has_newline
    embedded_test_runner.Protocol.Line.hex_value embedded_test_runner.Protocol.Line.line_no_crc_re
    embedded_test_runner.Protocol.Line.line_re embedded_test_runner.Protocol.Line.parse_line
    embedded_test_runner.Protocol.Line.parse_stripped
    embedded_test_runner.Protocol.Line.payload_before embedded_test_runner.Protocol.Line.with_crc
    embedded_test_runner.Protocol.Line.without_crc embedded_test_runner.Protocol.Payload.parse_from
    embedded_test_runner.Protocol.Payload.parse_payload
    embedded_test_runner.Protocol.Payload.token_loop embedded_test_runner.Protocol.Payload.value_of
    embedded_test_runner.Protocol.Utf8.encode embedded_test_runner.Protocol.Utf8.encode_char
    embedded_test_runner.ReadyRun.Feed.add_once embedded_test_runner.ReadyRun.Feed.behind_first_word
    embedded_test_runner.ReadyRun.Feed.busy embedded_test_runner.ReadyRun.Feed.case_start
    embedded_test_runner.ReadyRun.Feed.counts embedded_test_runner.ReadyRun.Feed.feed_in
    embedded_test_runner.ReadyRun.Feed.feed_running embedded_test_runner.ReadyRun.Feed.first_word
    embedded_test_runner.ReadyRun.Feed.full_name embedded_test_runner.ReadyRun.Feed.handle
    embedded_test_runner.ReadyRun.Feed.int_of embedded_test_runner.ReadyRun.Feed.int_of_str
    embedded_test_runner.ReadyRun.Feed.set_error embedded_test_runner.ReadyRun.Feed.sleep
    embedded_test_runner.ReadyRun.Feed.strip_quotes embedded_test_runner.ReadyRun.Feed.tag_of
    embedded_test_runner.ReadyRun.Feed.timeout_of embedded_test_runner.ReadyRun.current_test_full
    embedded_test_runner.ReadyRun.is_busy embedded_test_runner.Runner.Cycle.effective_hang_timeout
    embedded_test_runner.Runner.LineMode.abort_hang
    embedded_test_runner.Runner.LineMode.is_silent_hang
    embedded_test_runner.Runner.LineMode.on_testing_line_output
    embedded_test_runner.Runner.LineMode.process_line
    embedded_test_runner.Runner.LineMode.report_once_done
    embedded_test_runner.Runner.Results.check_assertion_failure
    embedded_test_runner.Runner.Results.failure_in embedded_test_runner.Runner.Results.join_lines
    embedded_test_runner.Runner.Results.messages_of embedded_test_runner.Runner.Serial.check_crash
    embedded_test_runner.Runner.Serial.check_failure embedded_test_runner.Runner.Serial.feed_line
    embedded_test_runner.Runner.Serial.report_crash
    embedded_test_runner.Runner.Serial.sync_test_name feed msg_case_start play_lines
hangs_once = refl
