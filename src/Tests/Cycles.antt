-- ===== src/Tests/Cycles.antt =====
-- The runner's session, serial data and read loop on concrete inputs.
use embedded_test_runner.Base.{
  ◌≢◌, ◌↔◌, Bool, true, false, Option, none, [], ◌∷◌, ◌++◌, codes, ℕ, Text, List, All, Every,
  any_of, length,
}
use embedded_test_runner.Base.Int.{pos}
use embedded_test_runner.Base.{if◌then◌else◌}
use embedded_test_runner.ReadyRun.{init, sleeping}
use embedded_test_runner.Runner.Stage.{returned, Session}
use embedded_test_runner.Disconnect
use embedded_test_runner.Runner.Serial.{Host}
use embedded_test_runner.ReadyRun.{ReadyRun}
use embedded_test_runner.ReadyRun.Feed.{after, feed}
use embedded_test_runner.Protocol.Messages.{msg_ready}
use embedded_test_runner.Runner.Cycle.{Port, Round, Read, received, silent}
use embedded_test_runner.Runner.Cycle.Answered.{Answered}

-- a device that goes back to sleep whenever it is resumed
abbrev device : Session Bool
device = record {
  protocol = λ asleep.
      if asleep then record init { state = sleeping; sleeping_test_name = codes "nap" } else init;
  with_protocol = λ p s. s;
  with_args_lines = λ lines s. s;
  run_test_cycle = λ command reset skip s. returned true;
  wait_for_wake = λ s. s;
  add_error_case = λ name message s. s;
  close_serial = λ s. s;
  settle_suite = λ s. s;
}

-- a host that keeps the lines that it was fed
abbrev host : Host (List Text)
host = record {
  verbose = true;
  env_name = codes "board";
  feed = λ line seen. seen ++ line ∷ [];
  protocol = λ seen. init;
  handler = λ seen. Disconnect.new true true;
  crash = λ seen. none;
  set_current_test = λ name seen. seen;
  failures = λ seen. [];
  with_failures = λ fs seen. seen;
  finished_by_runner = λ seen. false;
  finish = λ seen. seen;
  add_errored = λ name message stdout seen. seen;
  base_line = λ line seen. seen;
}

-- a port that keeps what is written, beside the protocol
abbrev pub port : Port (ReadyRun × List Text)
port = record {
  host = record {
    verbose = false;
    env_name = codes "board";
    feed = λ line s. (after (feed (pos 0) s.0 line), s.1);
    protocol = λ s. s.0;
    handler = λ s. Disconnect.new true true;
    crash = λ s. none;
    set_current_test = λ name s. s;
    failures = λ s. [];
    with_failures = λ fs s. s;
    finished_by_runner = λ s. false;
    finish = λ s. s;
    add_errored = λ name message stdout s. s;
    base_line = λ line s. s;
  };
  is_open = λ s. true;
  write = λ text s. (s.0, s.1 ++ text ∷ []);
  with_protocol = λ p s. (p, s.1);
  report_failures = λ s. s;
  hang_timeout = pos 60000;
}

abbrev start : Round (ReadyRun × List Text)
start = record {
  line_buf = [];
  session = (init, []);
  last_activity = pos 0;
  first_assertion_seen = false;
}

abbrev reads : List Read
reads =
    silent (pos 100) (pos 100)
    ∷ received (pos 200) (msg_ready ++ codes "\n")
    ∷ silent (pos 300) (pos 300)
    ∷ []
