-- ===== src/Runner/Serial/Heard.antt =====
-- What the protocol hears of the serial data (src/etst/runner.py: `_on_serial_data`;
-- src/etst/ready_run_protocol.py: `feed`).
use embedded_test_runner.Base.{
  ◌≡◌, refl, sym, ap, ◌∙◌, subst, true, false, Option, none, some, List, [], ◌∷◌, ◌++◌, Text, codes,
  arith, is_empty, Bool-cases, inl, inr, if◌then◌else◌,
}
use mathlib.Core.Bool.{true≢false}
use embedded_test_runner.Base.Int.{ℤ}
use embedded_test_runner.ReadyRun.{ReadyRun}
use embedded_test_runner.ReadyRun.Feed.{after, feed}
use embedded_test_runner.Runner.Results.{Failures}
use embedded_test_runner.Runner.Serial.{
  Host, Crash, strip_return, current, sync_test_name, report_crash, check_crash, check_failure,
  feed_line, forward, one_line, all_lines,
}
use embedded_test_runner.Runner.Serial.Chunks.{all_lines-on, all_lines-stop}

-- The router feeds a line to the protocol, by some clock; nothing else in the handling of a line
-- changes the protocol.
pub record IsRouted {S : Type 0} (d : Host S) : Type 0 where
  pub clock : S → ℤ
  pub protocol-feed :
      (line : Text) (s : S)
      → d.protocol (d.feed line s) ≡ after (feed (clock s) (d.protocol s) line)
  pub protocol-set_current_test :
      (name : Text) (s : S) → d.protocol (d.set_current_test name s) ≡ d.protocol s
  pub protocol-with_failures :
      (failures : Failures) (s : S) → d.protocol (d.with_failures failures s) ≡ d.protocol s
  pub protocol-finish : (s : S) → d.protocol (d.finish s) ≡ d.protocol s
  pub protocol-add_errored :
      (name message output : Text) (s : S)
      → d.protocol (d.add_errored name message output s) ≡ d.protocol s
  pub protocol-base_line : (line : Text) (s : S) → d.protocol (d.base_line line s) ≡ d.protocol s

-- `Hears ls p q`: the lines, fed one after another at some times, bring the protocol from p to q
pub data Hears : List Text → ReadyRun → ReadyRun → Type 0 where
  silence : {p : ReadyRun} → Hears [] p p
  hears :
      (now : ℤ) {l : Text} {ls : List Text} {p q : ReadyRun}
      → Hears ls (after (feed now p l)) q
      → Hears (l ∷ ls) p q

pub Hears-append :
    {ls ms : List Text} {p q r : ReadyRun} → Hears ls p q → Hears ms q r → Hears (ls ++ ms) p r
Hears-append silence k = k
Hears-append (hears now h) k = hears now (Hears-append h k)

-- the lines that are fed: those that are not empty, without the "\r" at their ends
unfoldable pub heard_lines : List Text → List Text
heard_lines [] = []
heard_lines (l ∷ ls) =
    let rest = heard_lines ls in if is_empty (strip_return l) then rest else strip_return l ∷ rest

pub heard_lines-append :
    (ls ms : List Text) → heard_lines (ls ++ ms) ≡ heard_lines ls ++ heard_lines ms
unfolding heard_lines
heard_lines-append [] ms = refl
heard_lines-append (l ∷ ls) ms = ground (arith, heard_lines-append ls ms)

module _ {S : Type 0} (d : Host S) (routed : IsRouted d) where
  protocol-sync_test_name : (s : S) → d.protocol (sync_test_name d s) ≡ d.protocol s
  unfolding sync_test_name
  protocol-sync_test_name s = ground (arith, routed.protocol-set_current_test (current d s) s)

  protocol-report_crash :
      (c : Option Crash) (s : S) → d.protocol (report_crash d c s) ≡ d.protocol s
  unfolding report_crash
  protocol-report_crash none s = refl
  protocol-report_crash (some c) s = elim (Bool-cases (d.finished_by_runner s)) [
    | inl over ↦ rw over refl
    | inr more ↦ rw more (routed.protocol-finish _ ∙ routed.protocol-add_errored _ _ _ s)
  ]

  protocol-feed_line :
      (line : Text) (s : S)
      → d.protocol (feed_line d line s) ≡ after (feed (routed.clock s) (d.protocol s) line)
  unfolding feed_line check_failure check_crash
  protocol-feed_line line s =
      routed.protocol-with_failures _ _
      ∙ protocol-report_crash _ _
      ∙ protocol-sync_test_name _
      ∙ routed.protocol-feed line s

  protocol-forward : (line : Text) (s : S) → d.protocol (forward d line s) ≡ d.protocol s
  unfolding forward
  protocol-forward line s = ground (arith, routed.protocol-base_line (line ++ codes "\n") s)

  one_line-empty :
      (line : Text) (s : S) → is_empty line ≡ true → d.protocol (one_line d line s).1 ≡ d.protocol s
  unfolding one_line
  one_line-empty line s h = rw (h, one_line) (protocol-forward line s)

  one_line-heard :
      (line : Text) (s : S)
      → is_empty line ≡ false
      → d.protocol (one_line d line s).1 ≡ after (feed (routed.clock s) (d.protocol s) line)
  unfolding one_line
  one_line-heard line s h =
      let fed = feed_line d line s in
      elim (Bool-cases (d.finished_by_runner fed)) [
        | inl over ↦ rw (h, one_line) (rw over (protocol-feed_line line s))
        | inr more ↦
            rw (h, one_line) (rw more (protocol-forward line fed ∙ protocol-feed_line line s))
      ]

  one_line-Hears :
      (line : Text) (s : S) {ls : List Text} {q : ReadyRun}
      → Hears ls (d.protocol (one_line d line s).1) q
      → Hears (if is_empty line then ls else line ∷ ls) (d.protocol s) q
  one_line-Hears line s {ls} {q} h = elim (Bool-cases (is_empty line)) [
    | inl blank ↦ rw blank (subst (λ p. Hears ls p q) (one_line-empty line s blank) h)
    | inr said ↦
        rw said (hears (routed.clock s) (subst (λ p. Hears ls p q) (one_line-heard line s said) h))
  ]

  -- the lines are fed up to the last one, unless the runner finishes
  pub all_lines-Hears :
      (ls : List Text) (s : S)
      → (all_lines d ls s).0 ≡ false
      → Hears (heard_lines ls) (d.protocol s) (d.protocol (all_lines d ls s).1)
  unfolding all_lines heard_lines
  all_lines-Hears [] s h = silence
  all_lines-Hears (l ∷ ls) s h = elim (Bool-cases (one_line d (strip_return l) s).0) [
    | inl stop ↦ absurd (true≢false (sym (all_lines-stop d l ls s stop) ∙ h))
    | inr on ↦
        let next = (one_line d (strip_return l) s).1 in
        let same = all_lines-on d l ls s on in
        one_line-Hears (strip_return l) s (
          subst (λ q. Hears (heard_lines ls) (d.protocol next) (d.protocol q.1)) (sym same)
            (all_lines-Hears ls next (ap (λ q. q.0) (sym same) ∙ h)))
  ]
