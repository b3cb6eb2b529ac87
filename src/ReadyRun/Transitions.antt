-- ===== src/ReadyRun/Transitions.antt =====
-- The state machine that `feed`, `command_sent` and the resets implement, as a relation.
use embedded_test_runner.Base.{◌≡◌, ◌≢◌, refl, Option, none, some, Text, arith, ◌⊎◌, inl, strip}
use embedded_test_runner.Base.Int.{ℤ}
use embedded_test_runner.Base.Dict.{Dict}
use embedded_test_runner.Protocol.Line.{ParsedTag, parse_line}
use embedded_test_runner.Protocol.Payload.{Value, parse_payload}
use embedded_test_runner.ReadyRun.{
  ProtocolState, waiting_for_ready, ready, running, sleeping, finished, error, ReadyRun,
}
use embedded_test_runner.ReadyRun.Feed.{
  Tag, ready_tag, case_start_tag, counts_tag, sleep_tag, busy_tag, restart_tag, done_tag, error_tag,
  after, case_start, counts, sleep, busy, handle, feed_in, feed_parsed, feed, set_error, tag_of,
}

-- The states that one line can lead to.
abbrev pub Allowed : ProtocolState → ProtocolState → Type 0
Allowed waiting_for_ready u = (u ≡ waiting_for_ready) ⊎ (u ≡ ready)
Allowed ready u = (u ≡ ready) ⊎ (u ≡ error)
Allowed running u = u ≢ waiting_for_ready
Allowed s u = u ≡ s

counts-state : (p : ReadyRun) (d : Dict Value) → (after (counts p d)).state ≡ p.state
unfolding counts
counts-state p d = ground arith

case_start-state : (p : ReadyRun) (d : Dict Value) → (after (case_start p d)).state ≡ p.state
unfolding case_start
case_start-state p d = ground arith

sleep-state :
    (p : ReadyRun) (d : Dict Value)
    → (after (sleep p d)).state ≢ waiting_for_ready ⊎ ((after (sleep p d)).state ≡ p.state)
unfolding sleep
sleep-state p d = ground arith

busy-state : (now : ℤ) (p : ReadyRun) (d : Dict Value) → (after (busy now p d)).state ≡ p.state
unfolding busy
busy-state now p d = ground arith

handle-state :
    (g : Tag) (now : ℤ) (p : ReadyRun) (payload : Text)
    → p.state ≡ running
    → (after (handle g now p payload)).state ≢ waiting_for_ready
unfolding handle
handle-state ready_tag now p payload r = ground arith
handle-state case_start_tag now p payload r =
    ground (arith, case_start-state p (parse_payload payload))
handle-state counts_tag now p payload r = ground (arith, counts-state p (parse_payload payload))
handle-state sleep_tag now p payload r = ground (arith, sleep-state p (parse_payload payload))
handle-state busy_tag now p payload r = ground (arith, busy-state now p (parse_payload payload))
handle-state restart_tag now p payload r = λ e. cc
handle-state done_tag now p payload r = λ e. cc
handle-state error_tag now p payload r = λ e. cc
handle-state _ now p payload r = ground arith

feed_in-Allowed :
    (s : ProtocolState) (now : ℤ) (p : ReadyRun) (t : ParsedTag)
    → p.state ≡ s
    → Allowed s (after (feed_in s now p t)).state
unfolding feed_in set_error
feed_in-Allowed waiting_for_ready now p t h = ground arith
feed_in-Allowed ready now p t h = ground arith
feed_in-Allowed running now p t h =
    ground (arith, handle-state (tag_of t.tag) now p t.payload_str h)
feed_in-Allowed sleeping now p t h = h
feed_in-Allowed finished now p t h = h
feed_in-Allowed error now p t h = h

Allowed-refl : (s : ProtocolState) → Allowed s s
Allowed-refl waiting_for_ready = inl refl
Allowed-refl ready = inl refl
Allowed-refl running = λ e. cc
Allowed-refl sleeping = refl
Allowed-refl finished = refl
Allowed-refl error = refl

feed_parsed-Allowed :
    (now : ℤ) (p : ReadyRun) (t : Option ParsedTag)
    → Allowed p.state (after (feed_parsed now p t)).state
feed_parsed-Allowed now p none = Allowed-refl p.state
feed_parsed-Allowed now p (some t) = feed_in-Allowed p.state now p t refl

-- Whatever the line, also one at which `feed` raises: a protocol that waits for READY stays or
-- becomes ready; a ready one stays or fails; a running one goes anywhere but to waiting; and one
-- that sleeps, has finished or has failed stays as it is.
pub feed-Allowed :
    (now : ℤ) (p : ReadyRun) (line : Text) → Allowed p.state (after (feed now p line)).state
unfolding feed
feed-Allowed now p line = feed_parsed-Allowed now p (parse_line (strip line))
