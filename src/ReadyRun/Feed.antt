-- ===== src/ReadyRun/Feed.antt =====
-- `ReadyRunProtocol.feed` (src/etst/ready_run_protocol.py).
mod Fields
unfoldable pub use Fields.*
use embedded_test_runner.Base.{
  ℕ, Bool, true, false, not, Option, none, some, List, [], ◌∷◌, ◌++◌, Text, codes, text_eq, lstrip,
  strip, take_while, drop_while, ◌==◌, if◌then◌else◌, reverse,
}
use embedded_test_runner.Base.Int.{ℤ, pos, ◌+ℤ◌}
use embedded_test_runner.Base.Decimal.{parse_int}
use embedded_test_runner.Base.Dict.{Dict, lookup, contains}
use embedded_test_runner.Protocol.Line.{ParsedTag, parse_line, non_space}
use embedded_test_runner.Protocol.Payload.{Value, str, flag, parse_payload}
use embedded_test_runner.ReadyRun.{
  ProtocolState, waiting_for_ready, ready, running, sleeping, finished, error, ReadyRun,
}

unfoldable pub set_error : ReadyRun → Text → ReadyRun
set_error p payload = record p {
  error_code = first_word payload;
  error_message = strip_quotes (behind_first_word payload);
  state = error;
}

abbrev pub crc_failed : ParsedTag → Bool
crc_failed t = elim t.crc_valid [ some valid ↦ not valid | none ↦ false ]

-- WAITING_FOR_READY
feed_waiting : ReadyRun → ParsedTag → ReadyRun
feed_waiting p t = elim (tag_of t.tag) [
  | ready_tag ↦ if crc_failed t then p else record p { state = ready; accumulated_args = [] }
  | _ ↦ p
]

-- READY
feed_ready : ReadyRun → ParsedTag → ReadyRun
feed_ready p t = if crc_failed t then p else elim (tag_of t.tag) [
  | args_tag ↦ record p { accumulated_args = p.accumulated_args ++ t.payload_str ∷ [] }
  | arg_tag ↦ record p { accumulated_args = p.accumulated_args ++ t.payload_str ∷ [] }
  | error_tag ↦ set_error p t.payload_str
  | _ ↦ p
]

-- CASE:START
set_suite : ReadyRun → Option Text → ReadyRun
set_suite p none = p
set_suite p (some suite) = record p { current_test_suite = suite }

-- f"{suite}/{name}" if there is a suite
unfoldable pub full_name : Text → Text → Text
full_name [] name = name
full_name (c ∷ suite) name = (c ∷ suite) ++ b'/' ∷ name

-- appended unless it is in the list
unfoldable pub add_once : Text → List Text → List Text
add_once x xs = if contains x xs then xs else xs ++ x ∷ []

set_name : ReadyRun → Option Text → ReadyRun
set_name p none = p
set_name p (some name) = record p {
  current_test_name = name;
  completed_tests = add_once (full_name p.current_test_suite name) p.completed_tests;
}

unfoldable pub case_start : ReadyRun → Dict Value → Fed
unfolding set_suite set_name timeout_of
case_start p payload =
    let p1 = set_suite p (text_of (lookup (codes "suite") payload)) in
    let p2 = set_name p1 (text_of (lookup (codes "name") payload)) in
    set_or_raise p2 (timeout_of (lookup (codes "timeout") payload))
      (λ n. record p2 { current_test_timeout = n })

-- COUNTS
abbrev pub latch : ReadyRun → ReadyRun
latch p =
    if p.expected_run_latched
    then p
    else record p { expected_run = p.test_run; expected_run_latched = true }

unfoldable pub counts : ReadyRun → Dict Value → Fed
unfolding int_of
counts p payload =
    set_or_raise p (int_of (lookup (codes "total") payload)) (λ n. record p { test_total = n })
    >>= (λ p1.
        set_or_raise p1 (int_of (lookup (codes "skip") payload)) (λ n. record p1 { test_skip = n }))
    >>= (λ p2.
        set_or_raise p2 (int_of (lookup (codes "run") payload)) (λ n. record p2 { test_run = n }))
    >>= (λ p3. returned (latch p3))

-- SLEEP, RESTART
abbrev pub fall_asleep : ReadyRun → ℤ → ReadyRun
fall_asleep p ms = record p {
  sleep_duration_ms = ms;
  sleeping_test_name = p.current_test_name;
  state = sleeping;
}

unfoldable pub sleep : ReadyRun → Dict Value → Fed
unfolding int_of_str
sleep p payload = set_or_raise p (int_of_str (lookup (codes "ms") payload)) (fall_asleep p)

-- BUSY: `int(ms_str)` takes a bare flag too
unfoldable pub busy : ℤ → ReadyRun → Dict Value → Fed
unfolding int_of
busy now p payload =
    set_or_raise p (int_of (lookup (codes "ms") payload))
      (λ ms. record p { busy_until = now +ℤ ms })

-- a READY while no test has started: the command was lost
resend : ReadyRun → Text → ReadyRun
resend p [] = record p { state = ready }
resend p (c ∷ name) = p

-- the branches for RUNNING, on a line whose checksum is not wrong
unfoldable pub handle : Tag → ℤ → ReadyRun → Text → Fed
unfolding resend set_error
handle ready_tag now p payload = returned (resend p p.current_test_name)
handle case_start_tag now p payload = case_start p (parse_payload payload)
handle counts_tag now p payload = counts p (parse_payload payload)
handle sleep_tag now p payload = sleep p (parse_payload payload)
handle busy_tag now p payload = busy now p (parse_payload payload)
handle restart_tag now p payload = returned (fall_asleep p (pos 0))
handle done_tag now p payload = returned (record p { state = finished })
handle error_tag now p payload = returned (set_error p payload)
handle _ now p payload = returned p

unfoldable pub feed_running : ℤ → ReadyRun → ParsedTag → Fed
feed_running now p t =
    if crc_failed t then returned p else handle (tag_of t.tag) now p t.payload_str

-- a parsed line, in each state
unfoldable pub feed_in : ProtocolState → ℤ → ReadyRun → ParsedTag → Fed
unfolding feed_waiting feed_ready feed_running
feed_in waiting_for_ready now p t = returned (feed_waiting p t)
feed_in ready now p t = returned (feed_ready p t)
feed_in running now p t = feed_running now p t
feed_in _ now p t = returned p

abbrev pub feed_parsed : ℤ → ReadyRun → Option ParsedTag → Fed
feed_parsed now p none = returned p
feed_parsed now p (some t) = feed_in p.state now p t

unfoldable pub feed : ℤ → ReadyRun → Text → Fed
feed now p message = feed_parsed now p (parse_line (strip message))
