-- ===== src/ReadyRun/Received.antt =====
-- The effect of each message of the device, as the builders of etst/protocol.py write it, on a
-- protocol that runs.
use mathlib.Core.List.{foldl}
use embedded_test_runner.Base.{
  ◌≡◌, ◌≢◌, refl, ap, ◌∙◌, Option, none, some, List, [], ◌∷◌, Text, codes, text_eq,
}
use embedded_test_runner.Base.Int.{ℤ, pos, ◌+ℤ◌}
use embedded_test_runner.Base.Decimal.{str_int, parse_int, parse_int-str_int}
use embedded_test_runner.Base.Dict.{lookup, insert}
use embedded_test_runner.Protocol.Payload.{str}
use embedded_test_runner.Protocol.Payload.RoundTrip.{
  Item, render, put_item, parse_payload-render, IsPlain,
}
use embedded_test_runner.Protocol.Messages.{
  msg_done, msg_counts, run_count, msg_case_start, msg_sleep, msg_busy, msg_restart,
}
use embedded_test_runner.Protocol.Messages.Parsed.{
  received, message, IsSendable, parse_line-message, counts_items, msg_counts-message,
  strip-message, counts_items-IsSendable, ms_items, ms_items-IsSendable, msg_sleep-message,
  msg_busy-message, IsQuotable, case_items, case_items-IsSendable, msg_case_start-message,
}
use embedded_test_runner.Protocol.Messages.Checked.{
  IsAsciiTag, check_tag, check_tag_sound, str_int-IsPlain,
}
use embedded_test_runner.ReadyRun.{ReadyRun, running, finished}
use embedded_test_runner.ReadyRun.Feed.{
  Tag, returned, counts, counts_tag, case_start, handle, feed_in, feed_running, feed, tag_of, latch,
  add_once, full_name, text_of, timeout_of, case_start_tag, sleep_tag, busy_tag, restart_tag,
  done_tag, sleep, busy, fall_asleep,
}

pub feed-message :
    (now : ℤ) (p : ReadyRun) (tag : Text) (is : List Item)
    → IsAsciiTag tag
    → IsSendable is
    → feed now p (message tag is)
      ≡ feed_in p.state now p (received (message tag is) tag (render is))
unfolding feed
feed-message now p tag is ht h = rw (strip-message tag is ht h, parse_line-message tag is ht h)

-- in a protocol that runs, a message gets to the branch of its tag
pub feed-message-running :
    (now : ℤ) (p : ReadyRun) (tag : Text) (is : List Item)
    → p.state ≡ running
    → IsAsciiTag tag
    → IsSendable is
    → feed now p (message tag is) ≡ handle (tag_of tag) now p (render is)
unfolding feed_in feed_running
feed-message-running now p tag is r ht h = feed-message now p tag is ht h ∙ rw r

counts-items :
    (p : ReadyRun) (total skip run : ℤ)
    → counts p (foldl put_item [] (counts_items total skip run))
      ≡ returned (latch (record p { test_total = total; test_skip = skip; test_run = run }))
unfolding counts insert lookup text_eq
counts-items p total skip run =
    rw (parse_int-str_int total, parse_int-str_int skip, parse_int-str_int run)

-- what CASE:START does to a protocol
abbrev pub started : ReadyRun → Text → Text → ℤ → ReadyRun
started p suite name timeout = record p {
  current_test_suite = suite;
  current_test_name = name;
  current_test_timeout = timeout;
  completed_tests = add_once (full_name suite name) p.completed_tests;
}

abbrev pub seconds_or_zero : Option ℤ → ℤ
seconds_or_zero none = pos 0
seconds_or_zero (some n) = n

text_of-quotable : (s : Text) → s ≢ [] → text_of (some (str s)) ≡ some s
text_of-quotable [] h = absurd (h refl)
text_of-quotable (c ∷ s) h = refl

timeout_of-str_int : (n : ℤ) → timeout_of (some (str (str_int n))) ≡ some n
unfolding timeout_of
timeout_of-str_int n = timeout_of-plain (str_int n) (str_int-IsPlain n) ∙ parse_int-str_int n
  where
    timeout_of-plain : (s : Text) → IsPlain s → timeout_of (some (str s)) ≡ parse_int s
    timeout_of-plain [] h = absurd h
    timeout_of-plain (c ∷ s) h = refl

case_start-items :
    (p : ReadyRun) (suite name : Text) (timeout : Option ℤ)
    → suite ≢ []
    → name ≢ []
    → case_start p (foldl put_item [] (case_items suite name timeout))
      ≡ returned (started p suite name (seconds_or_zero timeout))
unfolding case_start insert lookup text_eq
case_start-items p suite name none hs hn = rw (text_of-quotable suite hs, text_of-quotable name hn)
case_start-items p suite name (some n) hs hn =
    rw (text_of-quotable suite hs, text_of-quotable name hn, timeout_of-str_int n)

sleep-items :
    (p : ReadyRun) (ms : ℤ)
    → sleep p (foldl put_item [] (ms_items ms)) ≡ returned (fall_asleep p ms)
unfolding sleep insert lookup text_eq
sleep-items p ms = rw (parse_int-str_int ms)

busy-items :
    (now : ℤ) (p : ReadyRun) (ms : ℤ)
    → busy now p (foldl put_item [] (ms_items ms)) ≡ returned (record p { busy_until = now +ℤ ms })
unfolding busy insert lookup text_eq
busy-items now p ms = rw (parse_int-str_int ms)

-- the branch that a literal tag leads to
handle-tag :
    (t : Text) (g : Tag) (now : ℤ) (p : ReadyRun) (is : List Item)
    → tag_of t ≡ g
    → handle (tag_of t) now p (render is) ≡ handle g now p (render is)
handle-tag t g now p is e = ap (λ h. handle h now p (render is)) e

module _ (now : ℤ) (p : ReadyRun) (r : p.state ≡ running) where
  -- COUNTS, while the protocol runs: the three numbers are stored as they were sent, and the first run count of the session
  -- becomes its expected count.
  pub feed-msg_counts :
      (total skip : ℤ) (run : Option ℤ)
      → feed now p (msg_counts total skip run)
        ≡ returned (
            latch (record p {
              test_total = total;
              test_skip = skip;
              test_run = run_count total skip run;
            }))
  unfolding handle tag_of text_eq check_tag
  feed-msg_counts total skip run =
      let n = run_count total skip run in
      let items = counts_items total skip n in
      let sendable = counts_items-IsSendable total skip n in
      ap (feed now p) (msg_counts-message total skip run)
      ∙ feed-message-running now p (codes "COUNTS") items r (check_tag_sound _ refl) sendable
      ∙ handle-tag (codes "COUNTS") counts_tag now p items refl
      ∙ ap (counts p) (parse_payload-render items sendable.0)
      ∙ counts-items p total skip n

  -- CASE:START, while the protocol runs, with a suite and a name that are not empty, of one line and
  -- without quotes: the test becomes the current one, with its timeout if it has one, and is listed
  -- under its full name unless it is listed already.
  pub feed-msg_case_start :
      (suite name : Text) (timeout : Option ℤ)
      → IsQuotable suite
      → IsQuotable name
      → feed now p (msg_case_start suite name timeout)
        ≡ returned (started p suite name (seconds_or_zero timeout))
  unfolding handle tag_of text_eq check_tag
  feed-msg_case_start suite name timeout hs hn =
      let items = case_items suite name timeout in
      let sendable = case_items-IsSendable suite name timeout hs hn in
      ap (feed now p) (msg_case_start-message suite name timeout)
      ∙ feed-message-running now p (codes "CASE:START") items r (check_tag_sound _ refl) sendable
      ∙ handle-tag (codes "CASE:START") case_start_tag now p items refl
      ∙ ap (case_start p) (parse_payload-render items sendable.0)
      ∙ case_start-items p suite name timeout hs.some_character hn.some_character

  -- SLEEP, while the protocol runs: it sleeps, with the duration that was sent, for the current test.
  pub feed-msg_sleep : (ms : ℤ) → feed now p (msg_sleep ms) ≡ returned (fall_asleep p ms)
  unfolding handle tag_of text_eq check_tag
  feed-msg_sleep ms =
      let sendable = ms_items-IsSendable ms in
      ap (feed now p) (msg_sleep-message ms)
      ∙ feed-message-running now p (codes "SLEEP") (ms_items ms) r (check_tag_sound _ refl) sendable
      ∙ handle-tag (codes "SLEEP") sleep_tag now p (ms_items ms) refl
      ∙ ap (sleep p) (parse_payload-render (ms_items ms) sendable.0)
      ∙ sleep-items p ms

  -- BUSY, while the protocol runs: it is busy until the time sent has passed.
  pub feed-msg_busy :
      (ms : ℤ) → feed now p (msg_busy ms) ≡ returned (record p { busy_until = now +ℤ ms })
  unfolding handle tag_of text_eq check_tag
  feed-msg_busy ms =
      let sendable = ms_items-IsSendable ms in
      ap (feed now p) (msg_busy-message ms)
      ∙ feed-message-running now p (codes "BUSY") (ms_items ms) r (check_tag_sound _ refl) sendable
      ∙ handle-tag (codes "BUSY") busy_tag now p (ms_items ms) refl
      ∙ ap (busy now p) (parse_payload-render (ms_items ms) sendable.0)
      ∙ busy-items now p ms

  -- RESTART is a sleep of no length.
  pub feed-msg_restart : feed now p msg_restart ≡ returned (fall_asleep p (pos 0))
  unfolding handle tag_of text_eq check_tag msg_restart
  feed-msg_restart =
      feed-message-running now p (codes "RESTART") [] r (check_tag_sound _ refl) (tt, tt, tt)
      ∙ handle-tag (codes "RESTART") restart_tag now p [] refl

  -- DONE finishes.
  pub feed-msg_done : feed now p msg_done ≡ returned (record p { state = finished })
  unfolding handle tag_of text_eq check_tag msg_done
  feed-msg_done =
      feed-message-running now p (codes "DONE") [] r (check_tag_sound _ refl) (tt, tt, tt)
      ∙ handle-tag (codes "DONE") done_tag now p [] refl
