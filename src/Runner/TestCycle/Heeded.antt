-- ===== src/Runner/TestCycle/Heeded.antt =====
-- The read loop is left with a report where it has come to DONE (src/etst/runner.py:
-- `_run_test_cycle`).
use embedded_test_runner.Base.{
  ◌≡◌, refl, sym, ap, ◌∙◌, Bool, true, false, not, ◌&&◌, List, [], ◌∷◌, Text, Option, none, some,
  if◌then◌else◌, ℕ,
}
use mathlib.Core.Bool.{true≢false}
use embedded_test_runner.Base.Int.{ℤ, ltb_ℤ}
use embedded_test_runner.Base.Action.{world}
use embedded_test_runner.ReadyRun.{
  ReadyRun, ProtocolState, waiting_for_ready, ready, running, sleeping, finished, error,
}
use embedded_test_runner.Runner.Serial.{Crash, is_waiting}
use embedded_test_runner.Runner.Cycle.{
  Read, received, silent, failed, Round, Next, goes_on, leaves, raises, protocol, is_state_running,
  is_hanging, hung, not_ready, on_crash, device_error, finish_in, seen, failed_round, finish_round,
  silent_round, received_round, one_round, is_live, go_on, rounds,
}
use embedded_test_runner.Runner.TestCycle.{Bench, is_finished, is_done}

-- Only feeding a line and setting the protocol change the protocol.
pub record IsBench {S : Type 0} (d : Bench S) : Type 0 where
  pub protocol-with_protocol :
      (p : ReadyRun) (s : S) → protocol d.port (d.port.with_protocol p s) ≡ p
  pub protocol-accept_results : (s : S) → protocol d.port (d.accept_results s) ≡ protocol d.port s
  pub protocol-report_failures :
      (s : S) → protocol d.port (d.port.report_failures s) ≡ protocol d.port s
  pub protocol-add_errored :
      (name message output : Text) (s : S)
      → protocol d.port (d.port.host.add_errored name message output s) ≡ protocol d.port s
  pub protocol-open_serial :
      (b : Bool) (s : S) → protocol d.port (world (d.open_serial b s)) ≡ protocol d.port s
  pub protocol-write_command :
      (text : Text) (s : S) → protocol d.port (world (d.write_command text s)) ≡ protocol d.port s
  pub protocol-sleep : (ms : ℕ) (s : S) → protocol d.port (d.sleep ms s) ≡ protocol d.port s
  pub protocol-close_serial : (s : S) → protocol d.port (d.close_serial s) ≡ protocol d.port s

module _ {S : Type 0} (d : Bench S) (laws : IsBench d) where
  -- a state that comes of reporting the failures
  unfoldable pub Reports : S → Type 0
  Reports s = (before : S) × (s ≡ d.port.report_failures before)

  unfoldable pub ReportsOnceDone : S → Type 0
  ReportsOnceDone s = is_done d s ≡ true → Reports s

  -- a loop that goes on has not come to DONE, and one that has is left with a report
  unfoldable pub Heeded : Next S → Type 0
  unfolding ReportsOnceDone
  Heeded (goes_on r) = is_done d r.session ≡ false
  Heeded (leaves r) = ReportsOnceDone r.session
  Heeded (raises message s) = Unit

  pub not_yet : (s : S) → is_done d s ≡ false → ReportsOnceDone s
  unfolding ReportsOnceDone
  not_yet s h e = absurd (true≢false (sym e ∙ h))

  add_errored-ReportsOnceDone :
      (name message : Text) (s : S)
      → is_done d s ≡ false
      → ReportsOnceDone (d.port.host.add_errored name message [] s)
  add_errored-ReportsOnceDone name message s h =
      not_yet _ (
        ap (λ (p : ReadyRun). is_finished p.state) (laws.protocol-add_errored name message [] s)
        ∙ h)

  on_crash-Heeded :
      (c : Option Crash) (r : Round S) → is_done d r.session ≡ false → Heeded (on_crash d.port c r)
  unfolding on_crash Heeded
  on_crash-Heeded none r h = h
  on_crash-Heeded (some c) r h = not_yet r.session h

  finish_in-Heeded :
      (st : ProtocolState) (r : Round S)
      → (protocol d.port r.session).state ≡ st
      → Heeded (finish_in d.port st r)
  unfolding finish_in Heeded ReportsOnceDone Reports device_error
  finish_in-Heeded finished r h = λ e. (r.session, refl)
  finish_in-Heeded error r h = add_errored-ReportsOnceDone _ _ r.session (ap is_finished h)
  finish_in-Heeded waiting_for_ready r h =
      on_crash-Heeded (d.port.host.crash r.session) r (rw h refl)
  finish_in-Heeded ready r h = on_crash-Heeded (d.port.host.crash r.session) r (rw h refl)
  finish_in-Heeded running r h = on_crash-Heeded (d.port.host.crash r.session) r (rw h refl)
  finish_in-Heeded sleeping r h = on_crash-Heeded (d.port.host.crash r.session) r (rw h refl)

  finish_round-Heeded : (r : Round S) → Heeded (finish_round d.port r)
  unfolding finish_round seen
  finish_round-Heeded r = finish_in-Heeded _ (seen d.port r) refl

  leaves_or-Heeded :
      (b : Bool) (r : Round S) (next : Next S)
      → (b ≡ true → ReportsOnceDone r.session)
      → Heeded next
      → Heeded (if b then leaves r else next)
  unfolding Heeded
  leaves_or-Heeded true r next h k = h refl
  leaves_or-Heeded false r next h k = k

  not_ready-ReportsOnceDone :
      (r : Round S) → is_done d r.session ≡ false → ReportsOnceDone (not_ready d.port r)
  unfolding not_ready
  not_ready-ReportsOnceDone r h = add_errored-ReportsOnceDone _ _ r.session h

  hung-ReportsOnceDone :
      (now : ℤ) (r : Round S) → is_done d r.session ≡ false → ReportsOnceDone (hung d.port now r)
  unfolding hung
  hung-ReportsOnceDone now r h = add_errored-ReportsOnceDone _ _ r.session h

  silent_round-Heeded :
      (deadline now monotonic : ℤ) (r : Round S)
      → is_done d r.session ≡ false
      → Heeded (silent_round d.port deadline now monotonic r)
  unfolding silent_round
  silent_round-Heeded deadline now monotonic r h =
      leaves_or-Heeded (is_waiting (protocol d.port r.session).state && ltb_ℤ deadline now)
        (record r { session = not_ready d.port r }) _ (λ e. not_ready-ReportsOnceDone r h)
        (leaves_or-Heeded (is_hanging d.port now monotonic r)
          (record r { session = hung d.port now r }) _ (λ e. hung-ReportsOnceDone now r h)
          (finish_round-Heeded r))

  one_round-Heeded :
      (args_lines : List Text) (command : Text) (deadline : ℤ) (r : Round S) (read : Read)
      → is_done d r.session ≡ false
      → Heeded (one_round d.port args_lines command deadline r read)
  unfolding one_round received_round failed_round Heeded
  one_round-Heeded args_lines command deadline r (received now data') h = finish_round-Heeded _
  one_round-Heeded args_lines command deadline r (silent now monotonic) h =
      silent_round-Heeded deadline now monotonic r h
  one_round-Heeded args_lines command deadline r (failed message) h =
      leaves_or-Heeded (is_state_running (protocol d.port r.session).state) r _
        (λ e. not_yet r.session h) tt

  go_on-Heeded :
      (loop : Round S → Next S)
      → ((r : Round S) → is_done d r.session ≡ false → Heeded (loop r))
      → (next : Next S) → Heeded next
      → Heeded (go_on d.port loop next)
  unfolding Heeded
  go_on-Heeded loop h (goes_on r) k = h r k
  go_on-Heeded loop h (leaves r) k = k
  go_on-Heeded loop h (raises message s) k = tt

  pub rounds-Heeded :
      (args_lines : List Text) (command : Text) (deadline : ℤ) (r : Round S) (reads : List Read)
      → is_done d r.session ≡ false
      → Heeded (rounds d.port args_lines command deadline r reads)
  unfolding rounds Heeded
  rounds-Heeded args_lines command deadline r [] h = h
  rounds-Heeded args_lines command deadline r (read ∷ reads) h =
      leaves_or-Heeded (not (is_live d.port (protocol d.port r.session).state)) r _
        (λ e. not_yet r.session h)
        (go_on-Heeded (λ next. rounds d.port args_lines command deadline next reads)
          (λ next k. rounds-Heeded args_lines command deadline next reads k) _
          (one_round-Heeded args_lines command deadline r read h))
