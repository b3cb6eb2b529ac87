-- ===== src/Runner/Serial/Whole.antt =====
-- A whole run as serial data (src/etst/runner.py: `_on_serial_data`;
-- src/etst/ready_run_protocol.py: `feed`; src/etst/protocol.py: the builders of the lines).
use embedded_test_runner.Base.{
  ◌≡◌, refl, sym, ap, ◌∙◌, subst, Bool, true, false, Option, List, [], ◌∷◌, ◌++◌, Text,
  append_assoc, append-nil, ◌==◌, ℕ, All,
}
use embedded_test_runner.Base.Int.{ℤ}
use embedded_test_runner.Protocol.Messages.{msg_done, msg_counts, run_count, msg_case_start}
use embedded_test_runner.ReadyRun.{ReadyRun, running}
use embedded_test_runner.ReadyRun.Feed.{after, latch}
use embedded_test_runner.ReadyRun.Received.{
  feed-msg_counts, feed-msg_case_start, feed-msg_done, started, seconds_or_zero,
}
use embedded_test_runner.ReadyRun.Run.{
  TestCase, IsTestCase, full_names, add_all, IsDone, latch-fields, expected_after,
}
use embedded_test_runner.Runner.Serial.{Host, split_lines, cons_line, all_lines, on_serial_data}
use embedded_test_runner.Runner.Serial.Chunks.{put_lines, split_lines-append}
use embedded_test_runner.Runner.Serial.Heard.{
  IsRouted, Hears, silence, hears, Hears-append, heard_lines, heard_lines-append, all_lines-Hears,
}

unfoldable pub joined : List Text → Text
joined [] = []
joined (x ∷ xs) = x ++ joined xs

-- a buffer holds no complete line
cons_line-rest :
    (newline : Bool) (c : ℕ) (split : List Text × Text)
    → (c == b'\n') ≡ newline
    → split_lines split.1 ≡ ([], split.1)
    → split_lines (cons_line newline c split).1 ≡ ([], (cons_line newline c split).1)
unfolding split_lines
cons_line-rest true c (ls, rest) h k = k
cons_line-rest false c ([], rest) h k = rw (h, k) refl
cons_line-rest false c (l ∷ ls, rest) h k = k

split_lines-rest : (x : Text) → split_lines (split_lines x).1 ≡ ([], (split_lines x).1)
unfolding split_lines
split_lines-rest [] = refl
split_lines-rest (c ∷ x) = cons_line-rest (c == b'\n') c (split_lines x) refl (split_lines-rest x)

module _ {S : Type 0} (d : Host S) where
  -- reads one after another
  unfoldable pub on_reads : List Text → Text × S → Text × S
  on_reads [] st = st
  on_reads (x ∷ xs) st = on_reads xs (on_serial_data d x st)

  -- the runner finishes in none of the reads
  unfoldable pub Unbroken : List Text → Text × S → Type 0
  Unbroken [] st = Unit
  Unbroken (x ∷ xs) st =
      ((all_lines d (split_lines (st.0 ++ x)).0 st.1).0 ≡ false)
      × Unbroken xs (on_serial_data d x st)

module _ {S : Type 0} (d : Host S) (routed : IsRouted d) where
  on_reads-Hears_from :
      (xs : List Text) (buf : Text) (s : S)
      → split_lines buf ≡ ([], buf)
      → Unbroken d xs (buf, s)
      → Hears
          (heard_lines (split_lines (buf ++ joined xs)).0)
          (d.protocol s)
          (d.protocol (on_reads d xs (buf, s)).1)
  unfolding joined on_reads Unbroken on_serial_data put_lines heard_lines
  on_reads-Hears_from [] buf s h u =
      subst (λ text. Hears (heard_lines (split_lines text).0) (d.protocol s) (d.protocol s))
        (sym (append-nil buf))
        (subst (λ split. Hears (heard_lines split.0) (d.protocol s) (d.protocol s)) (sym h) silence)
  on_reads-Hears_from (x ∷ xs) buf s h u =
      let first = split_lines (buf ++ x) in
      let rest = split_lines (first.1 ++ joined xs) in
      let end = (on_reads d xs (on_serial_data d x (buf, s))).1 in
      subst (λ ls. Hears ls (d.protocol s) (d.protocol end))
        (sym (heard_lines-append first.0 rest.0)
          ∙ ap (λ split. heard_lines split.0) (sym (split_lines-append (buf ++ x) (joined xs)))
          ∙ ap (λ text. heard_lines (split_lines text).0) (append_assoc buf x (joined xs)))
        (Hears-append (all_lines-Hears d routed first.0 s u.0)
          (on_reads-Hears_from xs first.1 _ (split_lines-rest (buf ++ x)) u.1))

  -- Whatever the reads of a cycle are, the protocol hears exactly the lines that are complete in all
  -- of them together and not empty, each once and in their order, as long as the runner does not
  -- finish. The router feeds a line to the protocol, and nothing else changes it.
  pub on_reads-Hears :
      (xs : List Text) (s : S)
      → Unbroken d xs ([], s)
      → Hears
          (heard_lines (split_lines (joined xs)).0)
          (d.protocol s)
          (d.protocol (on_reads d xs ([], s)).1)
  unfolding split_lines
  on_reads-Hears xs s u = on_reads-Hears_from xs [] s refl u

-- the lines of a run, from the counts on
abbrev pub case_lines : List TestCase → List Text
case_lines [] = msg_done ∷ []
case_lines (t ∷ ts) = msg_case_start t.suite t.name t.timeout ∷ case_lines ts

abbrev pub run_lines : ℤ → ℤ → Option ℤ → List TestCase → List Text
run_lines total skip run ts = msg_counts total skip run ∷ case_lines ts

Hears-none : {p q : ReadyRun} → Hears [] p q → p ≡ q
Hears-none silence = refl

Hears-case_lines :
    (p : ReadyRun) {q : ReadyRun} (ts : List TestCase)
    → p.state ≡ running
    → All IsTestCase ts
    → Hears (case_lines ts) p q
    → IsDone q (add_all p.completed_tests (full_names ts)) p.expected_run p.expected_run_latched
Hears-case_lines p {q} [] r h (hears now heard) =
    subst (λ end. IsDone end p.completed_tests p.expected_run p.expected_run_latched)
      (Hears-none heard)
      (rw (feed-msg_done now p r)
        (record { state = refl; tests = refl; expected_run = refl; expected_run_latched = refl }))
Hears-case_lines p {q} (t ∷ ts) r h (hears now heard) =
    Hears-case_lines (started p t.suite t.name (seconds_or_zero t.timeout)) ts r h.1 (
      subst (λ f. Hears (case_lines ts) (after f) q)
        (feed-msg_case_start now p r t.suite t.name t.timeout h.0.suite h.0.name) heard)

Hears-run_lines :
    (p : ReadyRun) {q : ReadyRun} (total skip : ℤ) (run : Option ℤ) (ts : List TestCase)
    → p.state ≡ running
    → All IsTestCase ts
    → Hears (run_lines total skip run ts) p q
    → IsDone q
        (add_all p.completed_tests (full_names ts))
        (expected_after p (run_count total skip run))
        true
Hears-run_lines p {q} total skip run ts r h (hears now heard) =
    let counted : ReadyRun = record p {
      test_total = total;
      test_skip = skip;
      test_run = run_count total skip run;
    } in
    let (state, tests, expected, latched) = latch-fields counted in
    let cases = Hears-case_lines (latch counted) ts (state ∙ r) h (
      subst (λ f. Hears (case_lines ts) (after f) q) (feed-msg_counts now p r total skip run)
        heard) in
    record {
      state = cases.state;
      tests = cases.tests ∙ ap (λ seen. add_all seen (full_names ts)) tests;
      expected_run = cases.expected_run ∙ expected;
      expected_run_latched = cases.expected_run_latched ∙ latched;
    }

module _ {S : Type 0} (d : Host S) (routed : IsRouted d) where
  -- A protocol that runs, and the serial data of the rest of a run: its complete lines that are not
  -- empty are those that the message builders make of the counts, each test and DONE, with quotable
  -- suites and names. However the data comes in reads, the protocol has then finished, the tests are
  -- listed once in the order of their start, behind those of earlier cycles, and the run count is the
  -- expected one unless an earlier cycle has reported one; as long as the runner does not finish
  -- before, and only the router's feeding changes the protocol.
  pub on_reads-IsDone :
      (xs : List Text) (s : S) (total skip : ℤ) (run : Option ℤ) (ts : List TestCase)
      → Unbroken d xs ([], s)
      → heard_lines (split_lines (joined xs)).0 ≡ run_lines total skip run ts
      → (d.protocol s).state ≡ running
      → All IsTestCase ts
      → IsDone
          (d.protocol (on_reads d xs ([], s)).1)
          (add_all (d.protocol s).completed_tests (full_names ts))
          (expected_after (d.protocol s) (run_count total skip run))
          true
  on_reads-IsDone xs s total skip run ts u lines r h =
      Hears-run_lines (d.protocol s) total skip run ts r h (
        subst (λ ls. Hears ls (d.protocol s) (d.protocol (on_reads d xs ([], s)).1)) lines
          (on_reads-Hears d routed xs s u))
