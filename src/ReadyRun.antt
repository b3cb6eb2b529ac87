-- ===== src/ReadyRun.antt =====
-- The READY/RUN/DONE protocol on the host's side (src/etst/ready_run_protocol.py).
--
-- `feed` takes the decoded line, and the time that `time.monotonic` returns if it is read, in
-- milliseconds. A `ValueError` of `int` leaves `feed` with the fields that were set before it:
-- `raised` holds that state.
pub mod Feed
pub mod Transitions
pub mod Frame
pub mod Session
pub mod Received
pub mod Run
pub mod Configured
use embedded_test_runner.Base.{
  ℕ, Bool, true, false, Option, none, some, List, [], Text, codes, is_empty, ◌++◌, ◌∷◌, ◌&&◌, not,
}
use embedded_test_runner.Base.Int.{ℤ, pos, ltb_ℤ}

pub data ProtocolState : Type 0 where
  waiting_for_ready ready running sleeping finished error : ProtocolState

pub record ReadyRun : Type 0 where
  pub state : ProtocolState
  pub sleep_duration_ms : ℤ
  pub current_test_suite : Text
  pub current_test_name : Text
  pub current_test_timeout : ℤ
  pub sleeping_test_name : Text
  pub completed_tests : List Text
  pub test_total : ℤ
  pub test_skip : ℤ
  pub test_run : ℤ
  pub expected_run : ℤ
  pub expected_run_latched : Bool
  pub busy_until : ℤ
  pub accumulated_args : List Text
  pub error_code : Text
  pub error_message : Text

-- __init__
abbrev pub init : ReadyRun
init = record {
  state = waiting_for_ready;
  sleep_duration_ms = pos 0;
  current_test_suite = [];
  current_test_name = [];
  current_test_timeout = pos 0;
  sleeping_test_name = [];
  completed_tests = [];
  test_total = pos 0;
  test_skip = pos 0;
  test_run = pos 0;
  expected_run = pos 0;
  expected_run_latched = false;
  busy_until = pos 0;
  accumulated_args = [];
  error_code = [];
  error_message = [];
}

command_sent_in : ProtocolState → ReadyRun → ReadyRun
command_sent_in ready p = record p { state = running }
command_sent_in _ p = p

unfoldable pub command_sent : ReadyRun → ReadyRun
unfolding command_sent_in
command_sent p = command_sent_in p.state p

reset_for_wake_in : ProtocolState → ReadyRun → ReadyRun
reset_for_wake_in sleeping p = record p { state = waiting_for_ready }
reset_for_wake_in _ p = p

unfoldable pub reset_for_wake : ReadyRun → ReadyRun
unfolding reset_for_wake_in
reset_for_wake p = reset_for_wake_in p.state p

-- keeps the tests seen, the expected count and the busy time
unfoldable pub reset : ReadyRun → ReadyRun
reset p = record p {
  state = waiting_for_ready;
  sleep_duration_ms = pos 0;
  current_test_suite = [];
  current_test_name = [];
  current_test_timeout = pos 0;
  sleeping_test_name = [];
  test_total = pos 0;
  test_skip = pos 0;
  test_run = pos 0;
  accumulated_args = [];
  error_code = [];
  error_message = [];
}

unfoldable pub reset_all : ReadyRun → ReadyRun
unfolding reset
reset_all p = record (reset p) {
  completed_tests = [];
  expected_run = pos 0;
  expected_run_latched = false;
}

full_of : Text → Text → Text
full_of [] name = []
full_of suite [] = []
full_of suite name = suite ++ b'/' ∷ name

-- `current_test_full`
unfoldable pub current_test_full : ReadyRun → Text
unfolding full_of
current_test_full p = full_of p.current_test_suite p.current_test_name

-- `is_busy`, at the time `now`
unfoldable pub is_busy : ℤ → ReadyRun → Bool
is_busy now p = ltb_ℤ now p.busy_until
