-- ===== src/Tests/Sessions.antt =====
-- Sessions of the protocol (src/etst/ready_run_protocol.py) on concrete inputs.
use embedded_test_runner.Base.{
  ◌≡◌, ◌≢◌, refl, true, false, some, none, [], ◌∷◌, codes, ℕ, Text, arith, List, All,
}
use embedded_test_runner.Base.Int.{ℤ, pos, ◌+ℤ◌}
use embedded_test_runner.Protocol.Messages.{msg_counts, msg_case_start, msg_sleep, msg_ready}
use embedded_test_runner.Protocol.Messages.Parsed.{IsQuotable}
use embedded_test_runner.Base.{inr}
use embedded_test_runner.Protocol.Line.{has_newline}
use embedded_test_runner.Protocol.Messages.{msg_error}
use embedded_test_runner.Protocol.Messages.Checked.{check_tag, check_tag_sound}
use embedded_test_runner.ReadyRun.{ready, error}
use embedded_test_runner.ReadyRun.Configured.{feed-msg_error}
use embedded_test_runner.ReadyRun.{ReadyRun, init, waiting_for_ready, running}
use embedded_test_runner.ReadyRun.Feed.{feed, after, returned, latch, fall_asleep}
use embedded_test_runner.ReadyRun.Transitions.{Allowed, feed-Allowed}
use embedded_test_runner.ReadyRun.Session.{
  Event, line, command, wake, new_cycle, play, IsConsistent, IsConsistent-init, Extends,
  play-IsConsistent, play-Extends,
}
use embedded_test_runner.ReadyRun.Run.{TestCase, IsTestCase, run_events, IsDone, play-run_events}

pub net-IsQuotable : IsQuotable (codes "Net")
unfolding embedded_test_runner.Protocol.Line.has_newline
net-IsQuotable = record {
  some_character = λ e. cc;
  no_quote = ground arith;
  one_line = refl;
  is_text = omega arith;
}

pub ping-IsQuotable : IsQuotable (codes "ping all")
unfolding embedded_test_runner.Protocol.Line.has_newline
ping-IsQuotable = record {
  some_character = λ e. cc;
  no_quote = ground arith;
  one_line = refl;
  is_text = omega arith;
}

abbrev pub ping : TestCase
ping = record { suite = codes "Net"; name = codes "ping all"; timeout = some (pos 30) }

abbrev pub ping_again : TestCase
ping_again = record { suite = codes "Net"; name = codes "Net"; timeout = none }

abbrev tests : List TestCase
tests = ping ∷ ping_again ∷ ping ∷ []

tests-IsTestCase : All IsTestCase tests
tests-IsTestCase = (
  record { suite = net-IsQuotable; name = ping-IsQuotable },
  (
    record { suite = net-IsQuotable; name = net-IsQuotable },
    (record { suite = net-IsQuotable; name = ping-IsQuotable }, tt),
  ),
)

play-run_events_example :
    IsDone
      (play init (run_events (pos 0) (pos 3) (pos 1) none tests))
      (codes "Net/ping all" ∷ codes "Net/Net" ∷ [])
      (pos 2)
      true
unfolding embedded_test_runner.ReadyRun.Feed.add_once embedded_test_runner.ReadyRun.Feed.full_name
    embedded_test_runner.Base.Dict.contains embedded_test_runner.Base.text_eq
    embedded_test_runner.Base.Int.◌-ℤ◌
play-run_events_example =
    play-run_events (pos 0) init (pos 3) (pos 1) none tests refl tests-IsTestCase

feed-Allowed_example : Allowed waiting_for_ready (after (feed (pos 0) init msg_ready)).state
feed-Allowed_example = feed-Allowed (pos 0) init msg_ready

-- two cycles, with a sleep between them
abbrev events : List Event
events =
    line (pos 0) msg_ready
    ∷ command
    ∷ line (pos 1) (msg_counts (pos 2) (pos 0) none)
    ∷ line (pos 2) (msg_case_start (codes "Net") (codes "ping all") none)
    ∷ line (pos 3) (msg_sleep (pos 500))
    ∷ wake
    ∷ new_cycle
    ∷ line (pos 4) msg_ready
    ∷ command
    ∷ line (pos 5) (msg_counts (pos 1) (pos 0) none)
    ∷ []

play-IsConsistent_example : IsConsistent (play init events)
play-IsConsistent_example = play-IsConsistent init events IsConsistent-init

play-Extends_example : Extends [] (play init events).completed_tests
play-Extends_example =
    play-Extends init events (tt, (tt, (tt, (tt, (tt, (tt, (tt, (tt, (tt, (tt, tt))))))))))

abbrev latched : ReadyRun
latched = record init { expected_run = pos 7; expected_run_latched = true }

abbrev run : ReadyRun
run = record init {
  state = running;
  current_test_suite = codes "Net";
  current_test_name = codes "ping all";
}

one_line : has_newline (codes "out of memory") ≡ false
unfolding has_newline
one_line = refl

feed-msg_error_example :
    feed (pos 0) run (msg_error (codes "E42") (codes "out of memory"))
    ≡ returned (record run {
      error_code = codes "E42";
      error_message = codes "out of memory";
      state = error;
    })
unfolding check_tag
feed-msg_error_example =
    feed-msg_error (pos 0) run (codes "E42") (codes "out of memory") (inr refl)
      (check_tag_sound (codes "E42") refl).0 (ground arith) one_line (omega arith) (omega arith)
