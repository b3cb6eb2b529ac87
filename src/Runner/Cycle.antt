-- ===== src/Runner/Cycle.antt =====
-- The read loop of a test cycle (src/etst/runner.py: the `while` loop of `_run_test_cycle`,
-- `_send_command`, `_effective_hang_timeout`).
--
-- Times are in milliseconds. A read returns data, nothing, or raises; it comes with the readings of
-- the clocks that the code takes after it. The echoes are left out. What stands around the loop is in Runner/Ending.
pub mod Answered
use embedded_test_runner.Base.{
  ℕ, suc, ◌*◌, ◌/◌, Bool, true, false, not, ◌&&◌, List, [], ◌∷◌, ◌++◌, Text, codes, Option, none,
  some, if◌then◌else◌,
}
use embedded_test_runner.Base.Int.{ℤ, pos, ltb_ℤ, ◌-ℤ◌, pos_part}
use embedded_test_runner.Base.Decimal.{dec}
use embedded_test_runner.Protocol.Line.{format_crc}
use embedded_test_runner.ReadyRun.{
  ReadyRun, ProtocolState, waiting_for_ready, ready, running, sleeping, finished, error,
  command_sent, is_busy, current_test_full,
}
use embedded_test_runner.Runner.Results.{or_unknown}
use embedded_test_runner.Runner.Serial.{Host, Crash, on_serial_data, is_waiting}

-- The port, the clock's settings and what a cycle sets besides what `_on_serial_data` does.
pub record Port (S : Type 0) : Type 0 where
  pub host : Host S
  pub is_open : S → Bool
  pub write : Text → S → S
  pub with_protocol : ReadyRun → S → S
  pub report_failures : S → S
  pub hang_timeout : ℤ

pub data Read : Type 0 where
  received : ℤ → Text → Read
  silent : ℤ → ℤ → Read
  failed : Text → Read

-- the variables of the loop
pub record Round (S : Type 0) : Type 0 where
  pub line_buf : Text
  pub session : S
  pub last_activity : ℤ
  pub first_assertion_seen : Bool

-- how a round ends: the loop goes on, it ends, or an exception leaves it
pub data Next (S : Type 0) : Type 0 where
  goes_on : Round S → Next S
  leaves : Round S → Next S
  raises : Text → S → Next S

abbrev pub is_state_running : ProtocolState → Bool
is_state_running running = true
is_state_running _ = false

-- `_effective_hang_timeout`: the test's own in seconds, if it has one
unfoldable pub effective_hang_timeout : ℤ → ℤ → ℤ
effective_hang_timeout (pos (suc n)) default = pos (suc n * 1000)
effective_hang_timeout _ default = default

abbrev pub hang_message : ℤ → Text
hang_message elapsed =
    codes "Test hang: no output for " ++ dec (pos_part elapsed / 1000) ++ codes "s"

module _ {S : Type 0} (d : Port S) where
  abbrev pub protocol : S → ReadyRun
  protocol s = d.host.protocol s

  -- `_send_command`
  unfoldable pub send_command : Text → S → S
  send_command command s = if d.is_open s then d.write (format_crc command ++ codes "\n") s else s

  unfoldable pub send_args : List Text → S → S
  send_args [] s = s
  send_args (l ∷ ls) s = send_args ls (send_command (codes "ETST:ARGS " ++ l) s)

  unfoldable pub answer_in : ProtocolState → List Text → Text → S → S
  answer_in ready args_lines command s =
      let sent = send_command command (send_args args_lines s) in
      d.with_protocol (command_sent (protocol sent)) sent
  answer_in _ args_lines command s = s

  -- READY: the ARGS lines and the command are sent
  unfoldable pub answer : List Text → Text → S → S
  unfolding answer_in
  answer args_lines command s = answer_in (protocol s).state args_lines command s

  unfoldable pub seen : Round S → Round S
  seen r = record r {
    first_assertion_seen =
        if is_state_running (protocol r.session).state then true else r.first_assertion_seen;
  }

  unfoldable pub on_crash : Option Crash → Round S → Next S
  on_crash none r = goes_on r
  on_crash (some c) r = leaves r

  unfoldable pub device_error : ReadyRun → S → S
  device_error p s = d.host.add_errored (codes "device_error_" ++ p.error_code) p.error_message [] s

  unfoldable pub finish_in : ProtocolState → Round S → Next S
  finish_in finished r = leaves (record r { session = d.report_failures r.session })
  finish_in error r = leaves (record r { session = device_error (protocol r.session) r.session })
  finish_in _ r = on_crash (d.host.crash r.session) r

  -- the checks at the end of a round
  unfoldable pub finish_round : Round S → Next S
  unfolding finish_in on_crash seen device_error
  finish_round r = finish_in (protocol r.session).state (seen r)

  unfoldable pub is_hanging : ℤ → ℤ → Round S → Bool
  is_hanging now monotonic r =
      r.first_assertion_seen
      && ltb_ℤ (effective_hang_timeout (protocol r.session).current_test_timeout d.hang_timeout)
          (now -ℤ r.last_activity)
      && not (is_busy monotonic (protocol r.session))

  unfoldable pub hung : ℤ → Round S → S
  hung now r =
      d.host.add_errored (or_unknown (current_test_full (protocol r.session)))
        (hang_message (now -ℤ r.last_activity)) [] r.session

  unfoldable pub not_ready : Round S → S
  not_ready r =
      d.host.add_errored (codes "ready_timeout") (codes "Device did not send ETST:READY within 30s")
        [] r.session

  -- nothing was read
  unfoldable pub silent_round : ℤ → ℤ → ℤ → Round S → Next S
  unfolding is_hanging hung not_ready
  silent_round ready_deadline now monotonic r =
      if is_waiting (protocol r.session).state && ltb_ℤ ready_deadline now
      then leaves (record r { session = not_ready r })
      else if is_hanging now monotonic r
      then leaves (record r { session = hung now r })
      else finish_round r

  unfoldable pub received_round : List Text → Text → ℤ → Text → Round S → Next S
  received_round args_lines command now data' r =
      let read = on_serial_data d.host data' (r.line_buf, r.session) in
      finish_round (record r {
        line_buf = read.0;
        session = answer args_lines command read.1;
        last_activity = now;
      })

  unfoldable pub failed_round : Text → Round S → Next S
  failed_round message r =
      if is_state_running (protocol r.session).state then leaves r else raises message r.session

  -- one round, on what the read gave
  unfoldable pub one_round : List Text → Text → ℤ → Round S → Read → Next S
  unfolding failed_round
  one_round args_lines command ready_deadline r (received now data') =
      received_round args_lines command now data' r
  one_round args_lines command ready_deadline r (silent now monotonic) =
      silent_round ready_deadline now monotonic r
  one_round args_lines command ready_deadline r (failed message) = failed_round message r

  -- the guard of the loop
  abbrev pub is_live : ProtocolState → Bool
  is_live waiting_for_ready = true
  is_live ready = true
  is_live running = true
  is_live _ = false

  abbrev pub go_on : (Round S → Next S) → Next S → Next S
  go_on loop (goes_on r) = loop r
  go_on loop (leaves r) = leaves r
  go_on loop (raises message s) = raises message s

  -- the loop, as far as the reads go
  unfoldable pub rounds : List Text → Text → ℤ → Round S → List Read → Next S
  rounds args_lines command ready_deadline r [] = goes_on r
  rounds args_lines command ready_deadline r (read ∷ reads) =
      if not (is_live (protocol r.session).state)
      then leaves r
      else go_on (λ next. rounds args_lines command ready_deadline next reads)
          (one_round args_lines command ready_deadline r read)
