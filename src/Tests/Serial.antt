-- ===== src/Tests/Serial.antt =====
-- Serial data on concrete inputs, down to the protocol.
use embedded_test_runner.Base.{
  ◌≡◌, refl, Bool, true, false, Option, some, none, List, [], ◌∷◌, ◌++◌, codes, Text, All,
}
use embedded_test_runner.Base.Int.{ℤ, pos}
use embedded_test_runner.ReadyRun.{ReadyRun, init, running}
use embedded_test_runner.ReadyRun.Run.{IsDone}
use embedded_test_runner.Protocol.Messages.{msg_counts, msg_case_start, msg_done}
use embedded_test_runner.Runner.Serial.{Host, split_lines}
use embedded_test_runner.Runner.Serial.Heard.{Hears, heard_lines}
use embedded_test_runner.Runner.Serial.Whole.{
  joined, on_reads, Unbroken, on_reads-Hears, run_lines, on_reads-IsDone,
}
use embedded_test_runner.Runner.Receivers.{
  Runner, Receiver, Instruments, State, new_runner, runner_host,
}
use embedded_test_runner.Runner.Receivers.Routed.{feed_each, IsRouter, runner_host-IsRouted}
use embedded_test_runner.Tests.Sessions.{ping, net-IsQuotable, ping-IsQuotable}

abbrev each :
    List (Receiver (Runner (Unit {0}) (Unit {0}) (List Text)))
    → Receiver (Runner (Unit {0}) (Unit {0}) (List Text))
each [] line r = r
each (receiver ∷ rs) line r = each rs line (receiver line r)

-- a runner without plugins on which nothing crashes; its suite is the lines that PlatformIO gets
abbrev instruments : Instruments (Unit {0}) (Unit {0}) (List Text)
instruments = record {
  verbose = false;
  env_name = codes "board";
  router = each;
  plugins = [];
  feed_crash = λ now line c. c;
  crash = λ c. none;
  feed_memory = λ line m. m;
  set_current_test = λ name m. m;
  add_errored = λ name message stdout suite. suite;
  on_finish = λ suite. suite;
  base_line = λ line suite. suite ++ line ∷ [];
}

instruments-IsRouter : IsRouter instruments
instruments-IsRouter = record { router-each = each_same; plugins-LeavesProtocol = tt }
  where
    each_same :
        (rs : List (Receiver (State instruments))) (line : Text) (r : State instruments)
        → each rs line r ≡ feed_each instruments rs line r
    each_same [] line r = refl
    each_same (receiver ∷ rs) line r = each_same rs line (receiver line r)

-- lines cut in the middle, a blank one, and one that ends in "\r\n"
abbrev chunks : List Text
chunks =
    (msg_counts (pos 1) (pos 0) none ++ codes "\r")
    ∷ (codes "\n\nETST:CA")
    ∷ (codes "SE:START suite=\"Net\" name=\"ping all\" timeout=30 *77\n" ++ msg_done)
    ∷ codes "\n"
    ∷ []

abbrev run_state : State instruments
run_state = record (new_runner tt tt [] (pos 5000) (pos 0)) {
  protocol = record init { state = running };
}

chunks-Unbroken : Unbroken (runner_host instruments) chunks ([], run_state)
unfolding embedded_test_runner.Base.Decimal.dec embedded_test_runner.Base.Decimal.parse_int
    embedded_test_runner.Base.Decimal.str_int embedded_test_runner.Base.Dict.contains
    embedded_test_runner.Base.Dict.insert embedded_test_runner.Base.Dict.lookup
    embedded_test_runner.Base.Int.◌+ℤ◌ embedded_test_runner.Base.Int.◌-ℤ◌
    embedded_test_runner.Base.find embedded_test_runner.Base.is_digit
    embedded_test_runner.Base.is_space embedded_test_runner.Base.is_word
    embedded_test_runner.Base.lstrip embedded_test_runner.Base.rfind
    embedded_test_runner.Base.rstrip embedded_test_runner.Base.strip
    embedded_test_runner.Base.strip_prefix embedded_test_runner.Base.text_eq
    embedded_test_runner.Disconnect.disconnect embedded_test_runner.Disconnect.feed
    embedded_test_runner.Disconnect.feed_parsed embedded_test_runner.Disconnect.reconnect
    embedded_test_runner.Protocol.Crc.compute_crc8 embedded_test_runner.Protocol.Line.crc_suffix
    embedded_test_runner.Protocol.Line.format_crc embedded_test_runner.Protocol.Line.has_newline
    embedded_test_runner.Protocol.Line.hex_value embedded_test_runner.Protocol.Line.line_no_crc_re
    embedded_test_runner.Protocol.Line.line_re embedded_test_runner.Protocol.Line.parse_line
    embedded_test_runner.Protocol.Line.parse_stripped
    embedded_test_runner.Protocol.Line.payload_before embedded_test_runner.Protocol.Line.with_crc
    embedded_test_runner.Protocol.Line.without_crc
    embedded_test_runner.Protocol.Messages.msg_case_start
    embedded_test_runner.Protocol.Messages.msg_counts
    embedded_test_runner.Protocol.Messages.msg_done embedded_test_runner.Protocol.Payload.parse_from
    embedded_test_runner.Protocol.Payload.parse_payload
    embedded_test_runner.Protocol.Payload.token_loop embedded_test_runner.Protocol.Payload.value_of
    embedded_test_runner.Protocol.Utf8.encode embedded_test_runner.Protocol.Utf8.encode_char
    embedded_test_runner.ReadyRun.Feed.add_once embedded_test_runner.ReadyRun.Feed.behind_first_word
    embedded_test_runner.ReadyRun.Feed.busy embedded_test_runner.ReadyRun.Feed.case_start
    embedded_test_runner.ReadyRun.Feed.counts embedded_test_runner.ReadyRun.Feed.feed
    embedded_test_runner.ReadyRun.Feed.feed_in embedded_test_runner.ReadyRun.Feed.feed_running
    embedded_test_runner.ReadyRun.Feed.first_word embedded_test_runner.ReadyRun.Feed.full_name
    embedded_test_runner.ReadyRun.Feed.handle embedded_test_runner.ReadyRun.Feed.int_of
    embedded_test_runner.ReadyRun.Feed.int_of_str embedded_test_runner.ReadyRun.Feed.set_error
    embedded_test_runner.ReadyRun.Feed.sleep embedded_test_runner.ReadyRun.Feed.strip_quotes
    embedded_test_runner.ReadyRun.Feed.tag_of embedded_test_runner.ReadyRun.Feed.timeout_of
    embedded_test_runner.ReadyRun.current_test_full embedded_test_runner.ReadyRun.is_busy
    embedded_test_runner.Runner.Receivers.receivers
    embedded_test_runner.Runner.Receivers.runner_host
    embedded_test_runner.Runner.Results.check_assertion_failure
    embedded_test_runner.Runner.Results.failure_in embedded_test_runner.Runner.Results.join_lines
    embedded_test_runner.Runner.Results.messages_of
    embedded_test_runner.Runner.Serial.Whole.Unbroken embedded_test_runner.Runner.Serial.all_lines
    embedded_test_runner.Runner.Serial.check_crash embedded_test_runner.Runner.Serial.check_failure
    embedded_test_runner.Runner.Serial.feed_line embedded_test_runner.Runner.Serial.forward
    embedded_test_runner.Runner.Serial.on_serial_data embedded_test_runner.Runner.Serial.one_line
    embedded_test_runner.Runner.Serial.report_crash embedded_test_runner.Runner.Serial.split_lines
    embedded_test_runner.Runner.Serial.strip_return
    embedded_test_runner.Runner.Serial.sync_test_name new_runner
chunks-Unbroken = (refl, (refl, (refl, (refl, tt))))

chunks_lines :
    heard_lines (split_lines (joined chunks)).0 ≡ run_lines (pos 1) (pos 0) none (ping ∷ [])
unfolding embedded_test_runner.Base.Decimal.str_int embedded_test_runner.Base.Int.◌-ℤ◌
    embedded_test_runner.Protocol.Crc.compute_crc8 embedded_test_runner.Protocol.Line.format_crc
    embedded_test_runner.Runner.Serial.strip_return heard_lines joined msg_case_start msg_counts
    msg_done split_lines
chunks_lines = refl

on_reads-Hears_example :
    Hears
      (heard_lines (split_lines (joined chunks)).0)
      ((runner_host instruments).protocol run_state)
      ((runner_host instruments).protocol
        (on_reads (runner_host instruments) chunks ([], run_state)).1)
on_reads-Hears_example =
    on_reads-Hears (runner_host instruments) (runner_host-IsRouted instruments instruments-IsRouter)
      chunks run_state chunks-Unbroken

on_reads-IsDone_example :
    IsDone
      ((runner_host instruments).protocol
        (on_reads (runner_host instruments) chunks ([], run_state)).1)
      (codes "Net/ping all" ∷ [])
      (pos 1)
      true
unfolding embedded_test_runner.Base.Dict.contains embedded_test_runner.Base.Int.◌-ℤ◌
    embedded_test_runner.ReadyRun.Feed.add_once embedded_test_runner.ReadyRun.Feed.full_name
    runner_host
on_reads-IsDone_example =
    on_reads-IsDone (runner_host instruments)
      (runner_host-IsRouted instruments instruments-IsRouter) chunks run_state (pos 1) (pos 0) none
      (ping ∷ []) chunks-Unbroken chunks_lines refl
      (record { suite = net-IsQuotable; name = ping-IsQuotable }, tt)
