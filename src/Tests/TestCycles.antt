-- ===== src/Tests/TestCycles.antt =====
-- Whole test cycles on concrete inputs.
use embedded_test_runner.Base.{
  refl, Bool, true, false, Option, none, List, [], ◌∷◌, ◌++◌, codes, Text, arith,
}
use embedded_test_runner.Base.Int.{ℤ, pos}
use embedded_test_runner.Base.Action.{done}
use embedded_test_runner.ReadyRun.{ReadyRun, init, command_sent}
use embedded_test_runner.Protocol.Messages.{msg_ready, msg_done}
use embedded_test_runner.ReadyRun.Feed.{after, feed}
use embedded_test_runner.Protocol.Line.{format_crc}
use embedded_test_runner.Runner.Cycle.{Read, received, silent, Round}
use embedded_test_runner.Runner.TestCycle.{Bench, Timeline, run_test_cycle}
use embedded_test_runner.Runner.TestCycle.Heeded.{IsBench}
use embedded_test_runner.Runner.TestCycle.Reported.{CycleReports, run_test_cycle-CycleReports}
use embedded_test_runner.Tests.Cycles.{port}

-- the protocol, and what was written and reported
abbrev bench : Bench (ReadyRun × List Text)
bench = record {
  port = record port { report_failures = λ s. (s.0, s.1 ++ codes "report" ∷ []) };
  accept_results = λ s. s;
  open_serial = λ b s. done tt s;
  write_command = λ text s. done tt (s.0, s.1 ++ text ∷ []);
  sleep = λ ms s. s;
  close_serial = λ s. s;
}

bench-IsBench : IsBench bench
bench-IsBench = record {
  protocol-with_protocol = λ p s. refl;
  protocol-accept_results = λ s. refl;
  protocol-report_failures = λ s. refl;
  protocol-add_errored = λ name message output s. refl;
  protocol-open_serial = λ b s. refl;
  protocol-write_command = λ text s. refl;
  protocol-sleep = λ ms s. refl;
  protocol-close_serial = λ s. refl;
}

-- the device is ready, then silent for longer than a test may be, then done
abbrev late : Timeline
late = record {
  started = pos 0;
  opened = pos 1000;
  draining = pos 90000;
  reads = received (pos 2000) (msg_ready ++ codes "\n") ∷ silent (pos 89000) (pos 89000) ∷ [];
  last_reads = (pos 91000, received (pos 91000) (msg_done ++ codes "\n")) ∷ [];
}

abbrev left : Round (ReadyRun × List Text)
left = record {
  line_buf = [];
  session = (
    command_sent (after (feed (pos 0) init msg_ready)),
    (format_crc (codes "RUN") ++ codes "\n") ∷ [],
  );
  last_activity = pos 2000;
  first_assertion_seen = true;
}

run_test_cycle-CycleReports_example :
    CycleReports bench bench-IsBench [] false
      (run_test_cycle bench [] [] (codes "RUN") true false late (init, []))
run_test_cycle-CycleReports_example =
    run_test_cycle-CycleReports bench bench-IsBench [] [] (codes "RUN") true false late (init, [])
