-- ===== src/Receiver/Results.antt =====
-- Whole outputs of doctest, up to the summary line.
use embedded_test_runner.Base.{ℕ, ◌+◌, ◌≡◌, ap, true, false, some, List, [], ◌∷◌, Text, arith, All}
use embedded_test_runner.Receiver.{Receiver, doctest, chomp, feed_doctest, feed}
use embedded_test_runner.Receiver.Doctest.{
  failures, failures_seen, one_if, is_failure, is_summary, feed_doctest-seen, feed_doctest-done,
}
use embedded_test_runner.Receiver.Frame.{feed_doctest-Ends}

-- a receiver of doctest output that has not seen the summary
abbrev pub IsReading : Receiver → Type 0
IsReading r = (r.detected_framework ≡ some doctest) × (r.is_complete ≡ false)

abbrev pub play : Receiver → List Text → Receiver
play r [] = r
play r (l ∷ ls) = play (feed r l) ls

-- how many lines open a failure
abbrev pub failure_lines : List Text → ℕ
failure_lines [] = 0
failure_lines (l ∷ ls) = one_if (is_failure (chomp l)) + failure_lines ls

abbrev pub IsDetail : Text → Type 0
IsDetail l = is_summary (chomp l) ≡ false

pub feed-reading : (r : Receiver) (l : Text) → IsReading r → feed r l ≡ feed_doctest r (chomp l)
unfolding feed
feed-reading r l h = rw (h.1, h.0)

pub feed-IsReading : (r : Receiver) (l : Text) → IsReading r → IsDetail l → IsReading (feed r l)
feed-IsReading r l h d = rw (feed-reading r l h) (ground (arith, feed_doctest-Ends r (chomp l)))

play-seen :
    (r : Receiver) (ls : List Text)
    → IsReading r
    → All IsDetail ls
    → IsReading (play r ls) × (failures_seen (play r ls) ≡ failures_seen r + failure_lines ls)
play-seen r [] h d = (h, omega arith)
play-seen r (l ∷ ls) h d =
    let (reading, count) = play-seen (feed r l) ls (feed-IsReading r l h d.0) d.1 in
    (
      reading,
      omega (arith, count, ap failures_seen (feed-reading r l h), feed_doctest-seen r (chomp l)),
    )

-- A receiver that reads doctest output loses no failure and makes none up: over any lines before
-- the summary and the summary line itself, the run is complete, and the results hold exactly one
-- failed test for each line that opened a failure, beside the failures that were there before.
pub play-failures :
    (r : Receiver) (ls : List Text) (last : Text)
    → IsReading r
    → All IsDetail ls
    → is_summary (chomp last) ≡ true
    → let q = feed (play r ls) last in
      (q.is_complete ≡ true) × (failures q.results ≡ failures_seen r + failure_lines ls)
play-failures r ls last h d s =
    let (reading, count) = play-seen r ls h d in
    let p = play r ls in
    rw (feed-reading p last reading) (
      ground (arith, feed_doctest-Ends p (chomp last)),
      omega (arith, count, feed_doctest-done p (chomp last) s),
    )
