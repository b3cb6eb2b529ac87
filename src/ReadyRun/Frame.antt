-- ===== src/ReadyRun/Frame.antt =====
-- What one line can do to the fields that last over the cycles of a session.
use embedded_test_runner.Base.{
  ◌≡◌, refl, false, true, Option, none, some, Text, arith, inl, inr, ◌⊎◌, Bool-cases, Option-cases,
  codes, strip,
}
use embedded_test_runner.Base.Int.{ℤ}
use embedded_test_runner.Base.Dict.{Dict, lookup}
use embedded_test_runner.Protocol.Line.{ParsedTag, parse_line}
use embedded_test_runner.Protocol.Payload.{Value, parse_payload}
use embedded_test_runner.ReadyRun.{ProtocolState, waiting_for_ready, ready, running, ReadyRun}
use embedded_test_runner.ReadyRun.Feed.{
  Tag, ready_tag, case_start_tag, counts_tag, sleep_tag, busy_tag, restart_tag, done_tag, error_tag,
  after, case_start, counts, sleep, busy, handle, feed_in, feed_running, feed_parsed, feed,
  set_error, tag_of, add_once, full_name, text_of, crc_failed,
}

-- what one line does to the list of tests seen, and to the expected count
pub record SessionStep (p q : ReadyRun) : Type 0 where
  pub tests :
      ((q.completed_tests ≡ p.completed_tests) × (q.current_test_name ≡ p.current_test_name))
      ⊎ ((x : Text) × (q.completed_tests ≡ add_once x p.completed_tests))
  pub expected :
      ((q.expected_run_latched ≡ p.expected_run_latched) × (q.expected_run ≡ p.expected_run))
      ⊎ ((p.expected_run_latched ≡ false) × (q.expected_run_latched ≡ true))

SessionStep-refl : (p : ReadyRun) → SessionStep p p
SessionStep-refl p = record { tests = inl (refl, refl); expected = inl (refl, refl) }

counts-SessionStep : (p : ReadyRun) (d : Dict Value) → SessionStep p (after (counts p d))
unfolding counts
counts-SessionStep p d = record {
  tests = inl (ground arith, ground arith);
  expected = ground arith;
}

case_start-tests :
    (p : ReadyRun) (d : Dict Value) (name : Option Text)
    → text_of (lookup (codes "name") d) ≡ name
    → let q = after (case_start p d) in
      ((q.completed_tests ≡ p.completed_tests) × (q.current_test_name ≡ p.current_test_name))
      ⊎ ((x : Text) × (q.completed_tests ≡ add_once x p.completed_tests))
unfolding case_start
case_start-tests p d none e = inl (ground arith, ground arith)
case_start-tests p d (some name) e = elim (Option-cases (text_of (lookup (codes "suite") d))) [
  | inl s ↦ inr (full_name p.current_test_suite name, ground arith)
  | inr (suite, s) ↦ inr (full_name suite name, ground arith)
]

case_start-SessionStep : (p : ReadyRun) (d : Dict Value) → SessionStep p (after (case_start p d))
case_start-SessionStep p d = record {
  tests = case_start-tests p d _ refl;
  expected = inl (unfold case_start in (ground arith, ground arith));
}

sleep-SessionStep : (p : ReadyRun) (d : Dict Value) → SessionStep p (after (sleep p d))
unfolding sleep
sleep-SessionStep p d = record {
  tests = inl (ground arith, ground arith);
  expected = inl (ground arith, ground arith);
}

busy-SessionStep : (now : ℤ) (p : ReadyRun) (d : Dict Value) → SessionStep p (after (busy now p d))
unfolding busy
busy-SessionStep now p d = record {
  tests = inl (ground arith, ground arith);
  expected = inl (ground arith, ground arith);
}

handle-SessionStep :
    (g : Tag) (now : ℤ) (p : ReadyRun) (payload : Text)
    → SessionStep p (after (handle g now p payload))
unfolding handle
handle-SessionStep ready_tag now p payload = record {
  tests = inl (ground arith, ground arith);
  expected = inl (ground arith, ground arith);
}
handle-SessionStep case_start_tag now p payload = case_start-SessionStep p (parse_payload payload)
handle-SessionStep counts_tag now p payload = counts-SessionStep p (parse_payload payload)
handle-SessionStep sleep_tag now p payload = sleep-SessionStep p (parse_payload payload)
handle-SessionStep busy_tag now p payload = busy-SessionStep now p (parse_payload payload)
handle-SessionStep restart_tag now p payload = record {
  tests = inl (refl, refl);
  expected = inl (refl, refl);
}
handle-SessionStep done_tag now p payload = record {
  tests = inl (refl, refl);
  expected = inl (refl, refl);
}
handle-SessionStep error_tag now p payload = record {
  tests = inl (refl, refl);
  expected = inl (refl, refl);
}
handle-SessionStep _ now p payload = SessionStep-refl p

feed_in-SessionStep :
    (s : ProtocolState) (now : ℤ) (p : ReadyRun) (t : ParsedTag)
    → SessionStep p (after (feed_in s now p t))
unfolding feed_in set_error
feed_in-SessionStep running now p t = elim (Bool-cases (crc_failed t)) [
  | inl bad ↦ rw (bad, feed_running) (SessionStep-refl p)
  | inr good ↦ rw (good, feed_running) (handle-SessionStep (tag_of t.tag) now p t.payload_str)
]
feed_in-SessionStep waiting_for_ready now p t = record {
  tests = inl (ground arith, ground arith);
  expected = inl (ground arith, ground arith);
}
feed_in-SessionStep ready now p t = record {
  tests = inl (ground arith, ground arith);
  expected = inl (ground arith, ground arith);
}
feed_in-SessionStep _ now p t = SessionStep-refl p

feed_parsed-SessionStep :
    (now : ℤ) (p : ReadyRun) (t : Option ParsedTag) → SessionStep p (after (feed_parsed now p t))
feed_parsed-SessionStep now p none = SessionStep-refl p
feed_parsed-SessionStep now p (some t) = feed_in-SessionStep p.state now p t

pub feed-SessionStep :
    (now : ℤ) (p : ReadyRun) (line : Text) → SessionStep p (after (feed now p line))
unfolding feed
feed-SessionStep now p line = feed_parsed-SessionStep now p (parse_line (strip line))
