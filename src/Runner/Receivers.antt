-- ===== src/Runner/Receivers.antt =====
-- The runner's receivers and its router (src/etst/runner.py: `__init__`): the state machine, the
-- disconnect handler and the timing tracker of the other modules, side by side.
--
-- embedded_bridge's router, crash detector and memory tracker, PlatformIO's suite and its base
-- runner, and the plugins are parameters. `clock` stands for the reading of the clock while a line is
-- handled. A receiver that raises keeps what it had set.
pub mod Routed
use embedded_test_runner.Base.{ℕ, Bool, true, false, Option, none, some, List, [], ◌∷◌, ◌++◌, Text}
use embedded_test_runner.Base.Int.{ℤ, pos}
use embedded_test_runner.Disconnect
use embedded_test_runner.Disconnect.{Handler}
use embedded_test_runner.ReadyRun
use embedded_test_runner.ReadyRun.{ReadyRun}
use embedded_test_runner.ReadyRun.Feed
use embedded_test_runner.ReadyRun.Feed.{after}
use embedded_test_runner.Timing
use embedded_test_runner.Timing.{Tracker}
use embedded_test_runner.Runner.Results.{Failures}
use embedded_test_runner.Runner.Serial.{Host, Crash}

-- the fields of the runner; C and M are the crash detector and the memory tracker
pub record Runner (C M Suite : Type 0) : Type 0 where
  pub crash_detector : C
  pub disconnect_handler : Handler
  pub protocol : ReadyRun
  pub memory_tracker : M
  pub timing_tracker : Tracker
  pub test_failures : Failures
  pub finished_by_runner : Bool
  pub test_suite : Suite
  pub clock : ℤ

-- a receiver's `feed`
abbrev pub Receiver : Type 0 → Type 0
Receiver S = Text → S → S

pub record Instruments (C M Suite : Type 0) : Type 0 where
  pub verbose : Bool
  pub env_name : Text
  pub router : List (Receiver (Runner C M Suite)) → Text → Runner C M Suite → Runner C M Suite
  pub plugins : List (Receiver (Runner C M Suite))
  pub feed_crash : ℤ → Text → C → C
  pub crash : C → Option Crash
  pub feed_memory : Text → M → M
  pub set_current_test : Text → M → M
  pub add_errored : Text → Text → Text → Suite → Suite
  pub on_finish : Suite → Suite
  pub base_line : Text → Suite → Suite

-- `slow_threshold` is the default of the timing tracker
unfoldable pub new_runner : {C M Suite : Type 0} → C → M → Suite → ℤ → ℤ → Runner C M Suite
new_runner crash_detector memory_tracker test_suite slow_threshold clock = record {
  crash_detector = crash_detector;
  disconnect_handler = Disconnect.new false false;
  protocol = ReadyRun.init;
  memory_tracker = memory_tracker;
  timing_tracker = Timing.new slow_threshold;
  test_failures = [];
  finished_by_runner = false;
  test_suite = test_suite;
  clock = clock;
}

abbrev handler_after : Disconnect.Fed → Handler
handler_after (Disconnect.returned h calls) = h
handler_after (Disconnect.raised h) = h

module _ {C M Suite : Type 0} (d : Instruments C M Suite) where
  abbrev pub State : Type 0
  State = Runner C M Suite

  abbrev crash_receiver : Receiver State
  crash_receiver line r = record r { crash_detector = d.feed_crash r.clock line r.crash_detector }

  abbrev disconnect_receiver : Receiver State
  disconnect_receiver line r = record r {
    disconnect_handler = handler_after (Disconnect.feed r.clock r.disconnect_handler line);
  }

  abbrev protocol_receiver : Receiver State
  protocol_receiver line r = record r {
    protocol = after (ReadyRun.Feed.feed r.clock r.protocol line);
  }

  abbrev memory_receiver : Receiver State
  memory_receiver line r = record r { memory_tracker = d.feed_memory line r.memory_tracker }

  abbrev timing_receiver : Receiver State
  timing_receiver line r = record r {
    timing_tracker = Timing.feed r.clock r.clock r.timing_tracker line;
  }

  -- those of the router, in its order
  unfoldable pub receivers : List (Receiver State)
  receivers =
      crash_receiver ∷ disconnect_receiver ∷ protocol_receiver ∷ memory_receiver ∷ timing_receiver
      ∷ []

  -- what the handling of the serial data uses
  unfoldable pub runner_host : Host State
  runner_host = record {
    verbose = d.verbose;
    env_name = d.env_name;
    feed = d.router (receivers ++ d.plugins);
    protocol = λ r. r.protocol;
    handler = λ r. r.disconnect_handler;
    crash = λ r. d.crash r.crash_detector;
    set_current_test =
        λ name r. record r { memory_tracker = d.set_current_test name r.memory_tracker };
    failures = λ r. r.test_failures;
    with_failures = λ failures r. record r { test_failures = failures };
    finished_by_runner = λ r. r.finished_by_runner;
    finish = λ r. record r { finished_by_runner = true; test_suite = d.on_finish r.test_suite };
    add_errored = λ name message stdout r. record r {
      test_suite = d.add_errored name message stdout r.test_suite;
    };
    base_line = λ line r. record r { test_suite = d.base_line line r.test_suite };
  }
