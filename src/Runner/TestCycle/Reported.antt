-- ===== src/Runner/TestCycle/Reported.antt =====
-- A cycle that has come to DONE has reported the failures of its tests (src/etst/runner.py:
-- `_run_test_cycle`).
use embedded_test_runner.Base.{
  ◌≡◌, refl, sym, ap, ◌∙◌, subst, Bool, true, false, not, ◌&&◌, List, [], ◌∷◌, Text, codes, Option,
  none, some, arith, Bool-cases, inl, inr, ◌++◌,
}
use mathlib.Core.Bool.{true≢false}
use mathlib.Core.Option
use embedded_test_runner.Base.Int.{ℤ, ltb_ℤ, pos, ◌+ℤ◌}
use embedded_test_runner.Base.Action.{Outcome, done, threw, world}
use embedded_test_runner.ReadyRun.{ReadyRun, reset}
use embedded_test_runner.Runner.Args.{Environ}
use embedded_test_runner.Runner.Cycle.{
  Read, received, silent, failed, Round, Next, goes_on, leaves, raises, protocol,
}
use embedded_test_runner.Runner.TestCycle.{
  Bench, Timeline, is_finished, is_done, heard, check_done, drain_round, drain, after_loop, sent,
  command_at_end, send_at_end, finish_cycle, begin_cycle, first_round, conclude, read_loop,
  once_open, run_test_cycle,
}
use embedded_test_runner.Runner.TestCycle.Heeded.{
  IsBench, Reports, ReportsOnceDone, Heeded, rounds-Heeded,
}
use embedded_test_runner.Runner.TestCycle.Drained.{
  drain-late, drain-last, drain-more, after_loop-there, after_loop-drain,
}

module _ {S : Type 0} (d : Bench S) (laws : IsBench d) where
  check_done-ReportsOnceDone : (st : Text × S) → ReportsOnceDone d laws (check_done d st).1.1
  unfolding check_done ReportsOnceDone Reports
  check_done-ReportsOnceDone (buf, s) = elim (Bool-cases (is_done d s)) [
    | inl over ↦ λ e. (s, rw over refl)
    | inr more ↦ λ e. absurd (true≢false (sym e ∙ rw (more, more) refl))
  ]

  drain_round-ReportsOnceDone :
      (read : Read) (st : Text × S)
      → ReportsOnceDone d laws st.1
      → ReportsOnceDone d laws (drain_round d read st).1.1
  unfolding drain_round
  drain_round-ReportsOnceDone (failed message) st h = h
  drain_round-ReportsOnceDone (received now data') st h =
      check_done-ReportsOnceDone (heard d (received now data') st)
  drain_round-ReportsOnceDone (silent now monotonic) st h =
      check_done-ReportsOnceDone (heard d (silent now monotonic) st)

  -- the end of draining, if there is one
  DrainReports : Option (Text × S) → Type 0
  DrainReports none = Unit
  DrainReports (some end) = ReportsOnceDone d laws end.1

  drain-DrainReports :
      (deadline : ℤ) (reads : List (ℤ × Read)) (st : Text × S)
      → ReportsOnceDone d laws st.1
      → DrainReports (drain d deadline reads st)
  unfolding drain DrainReports
  drain-DrainReports deadline [] st h = tt
  drain-DrainReports deadline ((now, read) ∷ reads) st h = elim (Bool-cases (ltb_ℤ now deadline)) [
    | inr late ↦ subst DrainReports (sym (drain-late d deadline now read reads st late)) h
    | inl early ↦ elim (Bool-cases (drain_round d read st).0) [
      | inl last ↦
          subst DrainReports (sym (drain-last d deadline now read reads st early last))
            (drain_round-ReportsOnceDone read st h)
      | inr more ↦ subst DrainReports (sym (drain-more d deadline now read reads st early more)) (
          drain-DrainReports deadline reads (drain_round d read st).1
            (drain_round-ReportsOnceDone read st h))
    ]
  ]

  after_loop-DrainReports :
      (t : Timeline) (r : Round S)
      → ReportsOnceDone d laws r.session
      → DrainReports (after_loop d t r)
  unfolding DrainReports
  after_loop-DrainReports t r h =
      elim (Bool-cases (not (is_done d r.session) && d.port.is_open r.session)) [
        | inr there ↦ subst DrainReports (sym (after_loop-there d t r there)) h
        | inl wanted ↦
            subst DrainReports (sym (after_loop-drain d t r wanted))
              (drain-DrainReports (t.draining +ℤ pos 10000) t.last_reads (r.line_buf, r.session) h)
      ]

  protocol-sent :
      (s : S) (r : Outcome Text S (Unit {0}))
      → protocol d.port (world r) ≡ protocol d.port s
      → protocol d.port (sent d r) ≡ protocol d.port s
  unfolding sent
  protocol-sent s (done a v) h = laws.protocol-sleep 1000 v ∙ h
  protocol-sent s (threw message v) h = h

  protocol-send_at_end :
      (on_done : Text) (s : S) → protocol d.port (send_at_end d on_done s) ≡ protocol d.port s
  unfolding send_at_end
  protocol-send_at_end on_done s = ground (
    arith,
    protocol-sent s (d.write_command (command_at_end on_done ++ codes "\n") s)
        (laws.protocol-write_command (command_at_end on_done ++ codes "\n") s),
  )

  pub protocol-finish_cycle :
      (env : Environ) (skip : Bool) (s : S)
      → protocol d.port (finish_cycle d env skip s) ≡ protocol d.port s
  unfolding finish_cycle
  protocol-finish_cycle env true s = laws.protocol-close_serial s
  protocol-finish_cycle env false s = laws.protocol-close_serial _ ∙ protocol-send_at_end _ s

  -- a cycle that returns with DONE has only the command at the end and the closing behind the report
  unfoldable pub CycleReports : Environ → Bool → Option (Outcome Text S (Unit {0})) → Type 0
  CycleReports env skip none = Unit
  CycleReports env skip (some (threw message s)) = Unit
  CycleReports env skip (some (done a s)) =
      is_done d s ≡ true
      → (before : S) × (s ≡ finish_cycle d env skip (d.port.report_failures before))

  drained-CycleReports :
      (env : Environ) (skip : Bool) (o : Option (Text × S))
      → DrainReports o
      → CycleReports env skip
          (Option.map (λ (st : Text × S). done tt (finish_cycle d env skip st.1)) o)
  unfolding CycleReports DrainReports ReportsOnceDone Reports
  drained-CycleReports env skip none h = tt
  drained-CycleReports env skip (some st) h = λ e.
      let same = ap (λ (p : ReadyRun). is_finished p.state) (protocol-finish_cycle env skip st.1) in
      let (before, reported) = h (sym same ∙ e) in (before, ap (finish_cycle d env skip) reported)

  conclude-CycleReports :
      (env : Environ) (skip : Bool) (t : Timeline) (next : Next S)
      → Heeded d laws next
      → CycleReports env skip (conclude d env skip t next)
  unfolding conclude CycleReports Heeded
  conclude-CycleReports env skip t (goes_on r) h = tt
  conclude-CycleReports env skip t (raises message s) h = tt
  conclude-CycleReports env skip t (leaves r) h =
      drained-CycleReports env skip (after_loop d t r) (after_loop-DrainReports t r h)

  once_open-CycleReports :
      (env : Environ) (args_lines : List Text) (command : Text) (skip : Bool) (t : Timeline)
      (r : Outcome Text S (Unit {0}))
      → is_done d (world r) ≡ false
      → CycleReports env skip (once_open d env args_lines command skip t r)
  unfolding once_open CycleReports read_loop first_round
  once_open-CycleReports env args_lines command skip t (threw message s) h = tt
  once_open-CycleReports env args_lines command skip t (done a s) h =
      conclude-CycleReports env skip t (read_loop d args_lines command t s) (
        rounds-Heeded d laws args_lines command (t.opened +ℤ pos 30000) (first_round d t s) t.reads
          h)

  begin_cycle-waiting : (s : S) → protocol d.port (begin_cycle d s) ≡ reset (protocol d.port s)
  unfolding begin_cycle
  begin_cycle-waiting s =
      laws.protocol-accept_results _ ∙ laws.protocol-with_protocol (reset (protocol d.port s)) s

  -- Where only feeding a line and setting the protocol change it: a cycle that returns with the
  -- protocol finished has reported the failures of its tests, whether DONE came while the loop ran or
  -- while draining. Nothing but the command at the end and closing the port comes after the report.
  pub run_test_cycle-CycleReports :
      (env : Environ) (args_lines : List Text) (command : Text) (reset_device skip : Bool)
      (t : Timeline) (s : S)
      → CycleReports env skip (run_test_cycle d env args_lines command reset_device skip t s)
  unfolding run_test_cycle reset
  run_test_cycle-CycleReports env args_lines command reset_device skip t s =
      once_open-CycleReports env args_lines command skip t _ (
        ap (λ (p : ReadyRun). is_finished p.state)
          (laws.protocol-open_serial reset_device (begin_cycle d s) ∙ begin_cycle-waiting s))
