-- ===== src/Runner/TestCycle.antt =====
-- A whole test cycle (src/etst/runner.py: `_run_test_cycle`): the resets, opening the port, the loop
-- of Runner/Cycle, the draining of what is left to read, and the command at the end.
--
-- What the clocks and the reads give comes as a `Timeline`; times are in milliseconds. The echoes
-- are left out.
pub mod Heeded
pub mod Reported
pub mod Awaited
pub mod Drained
use embedded_test_runner.Base.{
  ℕ, Bool, true, false, not, ◌&&◌, List, [], ◌∷◌, ◌++◌, Text, codes, Option, none, some, text_eq,
  lower, if◌then◌else◌,
}
use mathlib.Core.Option
use embedded_test_runner.Base.Int.{ℤ, pos, ltb_ℤ, ◌+ℤ◌}
use embedded_test_runner.Base.Dict.{Dict, lookup}
use embedded_test_runner.Base.Action.{Outcome, done, threw, world}
use embedded_test_runner.ReadyRun.{ProtocolState, finished, reset}
use embedded_test_runner.Runner.Args.{Environ, read_env}
use embedded_test_runner.Runner.Serial.{on_serial_data}
use embedded_test_runner.Runner.Cycle.{
  Port, protocol, Read, received, silent, failed, Round, Next, goes_on, leaves, raises, rounds,
}

-- What a cycle uses besides the loop's port. `open_serial` is `_open_serial`; `accept_results`
-- takes back that the runner and PlatformIO's suite have finished; `write_command` writes and
-- flushes; what raises gives the text of its exception.
pub record Bench (S : Type 0) : Type 0 where
  pub port : Port S
  pub accept_results : S → S
  pub open_serial : Bool → S → Outcome Text S (Unit {0})
  pub write_command : Text → S → Outcome Text S (Unit {0})
  pub sleep : ℕ → S → S
  pub close_serial : S → S

-- the clock at the start, when the port is open, and when draining begins; the reads of the loop, and
-- those while draining, each with the clock before it
pub record Timeline : Type 0 where
  pub started : ℤ
  pub opened : ℤ
  pub draining : ℤ
  pub reads : List Read
  pub last_reads : List (ℤ × Read)

abbrev pub is_finished : ProtocolState → Bool
is_finished finished = true
is_finished _ = false

-- cmd_map
abbrev cmd_map : Dict Text
cmd_map =
    (codes "sleep", codes "SLEEP")
    ∷ (codes "lightsleep", codes "LIGHTSLEEP")
    ∷ (codes "restart", codes "RESTART")
    ∷ (codes "wait", codes "WAIT")
    ∷ []

unfoldable pub command_at_end : Text → Text
command_at_end on_done = elim (lookup on_done cmd_map) [
  | none ↦ codes "WAIT"
  | some command ↦ command
]

module _ {S : Type 0} (d : Bench S) where
  abbrev pub is_done : S → Bool
  is_done s = is_finished (protocol d.port s).state

  -- what a read while draining adds to the buffer and the state
  unfoldable pub heard : Read → Text × S → Text × S
  heard (received now data') st = on_serial_data d.port.host data' st
  heard (silent now monotonic) st = st
  heard (failed message) st = st

  unfoldable pub check_done : Text × S → Bool × (Text × S)
  check_done (buf, s) =
      if is_done s then (true, (buf, d.port.report_failures s)) else (false, (buf, s))

  -- one round of draining, and whether it is the last; a read that raises is
  unfoldable pub drain_round : Read → Text × S → Bool × (Text × S)
  unfolding check_done
  drain_round (failed message) st = (true, st)
  drain_round (received now data') st = check_done (heard (received now data') st)
  drain_round (silent now monotonic) st = check_done (heard (silent now monotonic) st)

  -- the loop that waits for DONE up to its deadline; `none` is out of reads
  unfoldable pub drain : ℤ → List (ℤ × Read) → Text × S → Option (Text × S)
  drain deadline [] st = none
  drain deadline ((now, read) ∷ reads) st = elim (ltb_ℤ now deadline) [
    | false ↦ some st
    | true ↦
        let next = drain_round read st in
        elim next.0 [ true ↦ some next.1 | false ↦ drain deadline reads next.1 ]
  ]

  -- behind the loop: what is left to read, unless DONE was there or the port is closed
  unfoldable pub after_loop : Timeline → Round S → Option (Text × S)
  after_loop t r = elim (not (is_done r.session) && d.port.is_open r.session) [
    | true ↦ drain (t.draining +ℤ pos 10000) t.last_reads (r.line_buf, r.session)
    | false ↦ some (r.line_buf, r.session)
  ]

  unfoldable pub sent : Outcome Text S (Unit {0}) → S
  sent (done a s) = d.sleep 1000 s
  sent (threw message s) = s

  unfoldable pub send_at_end : Text → S → S
  send_at_end on_done s =
      if text_eq on_done (codes "none")
      then s
      else if d.port.is_open s
      then sent (d.write_command (command_at_end on_done ++ codes "\n") s)
      else s

  -- the command for the device, unless the cycle is one in between
  unfoldable pub finish_cycle : Environ → Bool → S → S
  unfolding sent send_at_end
  finish_cycle env true s = d.close_serial s
  finish_cycle env false s = d.close_serial (
      send_at_end
        (lower (read_env env (codes "ETST_ON_DONE") (codes "PTR_POST_TEST") (codes "wait"))) s)

  -- what a cycle sets at its start
  unfoldable pub begin_cycle : S → S
  begin_cycle s = d.accept_results (d.port.with_protocol (reset (protocol d.port s)) s)

  unfoldable pub first_round : Timeline → S → Round S
  first_round t s = record {
    line_buf = [];
    session = s;
    last_activity = t.started;
    first_assertion_seen = false;
  }

  -- how the loop ended; `none` is out of reads
  unfoldable pub conclude : Environ → Bool → Timeline → Next S → Option (Outcome Text S (Unit {0}))
  conclude env skip_post_test t (goes_on r) = none
  conclude env skip_post_test t (raises message s) = some (threw message s)
  conclude env skip_post_test t (leaves r) =
      Option.map (λ (st : Text × S). done tt (finish_cycle env skip_post_test st.1))
        (after_loop t r)

  unfoldable pub read_loop : List Text → Text → Timeline → S → Next S
  read_loop args_lines command t s =
      rounds d.port args_lines command (t.opened +ℤ pos 30000) (first_round t s) t.reads

  unfoldable pub once_open :
      Environ
      → List Text
      → Text
      → Bool
      → Timeline
      → Outcome Text S (Unit {0})
      → Option (Outcome Text S (Unit {0}))
  once_open env args_lines command skip_post_test t (threw message s) = some (threw message s)
  once_open env args_lines command skip_post_test t (done a s) =
      conclude env skip_post_test t (read_loop args_lines command t s)

  -- `_run_test_cycle`
  unfoldable pub run_test_cycle :
      Environ → List Text → Text → Bool → Bool → Timeline → S → Option (Outcome Text S (Unit {0}))
  unfolding once_open
  run_test_cycle env args_lines command reset_device skip_post_test t s =
      once_open env args_lines command skip_post_test t (d.open_serial reset_device (begin_cycle s))
