-- ===== src/ReadyRun/Run.antt =====
-- A whole run: the device is ready, the command is sent, the counts and the tests arrive, and the
-- device is done.
use embedded_test_runner.Base.{
  ◌≡◌, refl, sym, ap, subst, ◌∙◌, Bool, false, true, Option, List, [], ◌∷◌, ◌++◌, Text, arith,
  codes, text_eq, All, append_assoc, append-nil, text_eq_iff, if◌then◌else◌,
}
use embedded_test_runner.Base.Int.{ℤ}
use embedded_test_runner.Base.Dict.{contains}
use embedded_test_runner.Protocol.Messages.{
  msg_ready, msg_done, msg_counts, run_count, msg_case_start,
}
use embedded_test_runner.Protocol.Messages.Parsed.{IsQuotable}
use embedded_test_runner.Protocol.Messages.Checked.{check_tag, check_tag_sound}
use embedded_test_runner.ReadyRun.{
  ReadyRun, waiting_for_ready, ready, running, finished, command_sent,
}
use embedded_test_runner.ReadyRun.Feed.{
  returned, after, feed, feed_in, tag_of, latch, add_once, full_name,
}
use embedded_test_runner.ReadyRun.Session.{Event, line, command, step, play, Distinct}
use embedded_test_runner.ReadyRun.Received.{
  feed-message, feed-msg_counts, feed-msg_case_start, feed-msg_done, started, seconds_or_zero,
}

-- a test of the device: its suite, its name and its timeout
pub record TestCase : Type 0 where
  pub suite : Text
  pub name : Text
  pub timeout : Option ℤ

pub record IsTestCase (t : TestCase) : Type 0 where
  pub suite : IsQuotable t.suite
  pub name : IsQuotable t.name

abbrev pub case_event : ℤ → TestCase → Event
case_event now t = line now (msg_case_start t.suite t.name t.timeout)

abbrev pub case_events : ℤ → List TestCase → List Event
case_events now [] = line now msg_done ∷ []
case_events now (t ∷ ts) = case_event now t ∷ case_events now ts

-- the events of a run
abbrev pub run_events : ℤ → ℤ → ℤ → Option ℤ → List TestCase → List Event
run_events now total skip run ts =
    line now msg_ready ∷ command ∷ line now (msg_counts total skip run) ∷ case_events now ts

abbrev pub full_names : List TestCase → List Text
full_names [] = []
full_names (t ∷ ts) = full_name t.suite t.name ∷ full_names ts

abbrev pub add_all : List Text → List Text → List Text
add_all seen [] = seen
add_all seen (x ∷ xs) = add_all (add_once x seen) xs

pub feed-msg_ready :
    (now : ℤ) (p : ReadyRun)
    → p.state ≡ waiting_for_ready
    → feed now p msg_ready ≡ returned (record p { state = ready; accumulated_args = [] })
unfolding msg_ready check_tag feed_in tag_of text_eq
feed-msg_ready now p w =
    feed-message now p (codes "READY") [] (check_tag_sound _ refl) (tt, tt, tt) ∙ rw w

-- what is known of the protocol when the device is done
pub record IsDone (q : ReadyRun) (seen : List Text) (expected : ℤ) (latched : Bool) : Type 0 where
  pub state : q.state ≡ finished
  pub tests : q.completed_tests ≡ seen
  pub expected_run : q.expected_run ≡ expected
  pub expected_run_latched : q.expected_run_latched ≡ latched

play-case_events :
    (now : ℤ) (p : ReadyRun) (ts : List TestCase)
    → p.state ≡ running
    → All IsTestCase ts
    → IsDone
        (play p (case_events now ts))
        (add_all p.completed_tests (full_names ts))
        p.expected_run
        p.expected_run_latched
unfolding step
play-case_events now p [] r h =
    rw (feed-msg_done now p r)
      (record { state = refl; tests = refl; expected_run = refl; expected_run_latched = refl })
play-case_events now p (t ∷ ts) r h =
    subst
      (λ f.
        IsDone (play (after f) (case_events now ts))
          (add_all p.completed_tests (full_names (t ∷ ts))) p.expected_run p.expected_run_latched)
      (sym (feed-msg_case_start now p r t.suite t.name t.timeout h.0.suite h.0.name))
      (play-case_events now (started p t.suite t.name (seconds_or_zero t.timeout)) ts r h.1)

-- the first count of a session becomes the expected one
abbrev pub expected_after : ReadyRun → ℤ → ℤ
expected_after p n = if p.expected_run_latched then p.expected_run else n

pub latch-fields :
    (p : ReadyRun)
    → ((latch p).state ≡ p.state)
      × ((latch p).completed_tests ≡ p.completed_tests)
      × ((latch p).expected_run ≡ expected_after p p.test_run)
      × ((latch p).expected_run_latched ≡ true)
latch-fields p = ground arith

play-run_events_from :
    (now : ℤ) (p : ReadyRun) (total skip : ℤ) (run : Option ℤ) (ts : List TestCase)
    → p.state ≡ running
    → All IsTestCase ts
    → IsDone
        (play p (line now (msg_counts total skip run) ∷ case_events now ts))
        (add_all p.completed_tests (full_names ts))
        (expected_after p (run_count total skip run))
        true
unfolding step
play-run_events_from now p total skip run ts r h =
    let counted : ReadyRun = record p {
      test_total = total;
      test_skip = skip;
      test_run = run_count total skip run;
    } in
    let (state, tests, expected, latched) = latch-fields counted in
    let done = play-case_events now (latch counted) ts (state ∙ r) h in
    subst
      (λ f.
        IsDone (play (after f) (case_events now ts)) (add_all p.completed_tests (full_names ts))
          (expected_after p (run_count total skip run)) true)
      (sym (feed-msg_counts now p r total skip run))
      (record {
        state = done.state;
        tests = done.tests ∙ ap (λ seen. add_all seen (full_names ts)) tests;
        expected_run = done.expected_run ∙ expected;
        expected_run_latched = done.expected_run_latched ∙ latched;
      })

-- A device that is waited for, is sent the command and then reports its counts, each test and DONE
-- has finished, with the tests listed in the order in which they started, each once, behind those
-- of earlier cycles; the run count is the expected one, unless an earlier cycle has reported one.
-- The suites and names are not empty, of one line and without quotes.
pub play-run_events :
    (now : ℤ) (p : ReadyRun) (total skip : ℤ) (run : Option ℤ) (ts : List TestCase)
    → p.state ≡ waiting_for_ready
    → All IsTestCase ts
    → IsDone
        (play p (run_events now total skip run ts))
        (add_all p.completed_tests (full_names ts))
        (if p.expected_run_latched then p.expected_run else run_count total skip run)
        true
unfolding step command_sent
play-run_events now p total skip run ts w h =
    let started_events = line now (msg_counts total skip run) ∷ case_events now ts in
    subst
      (λ f.
        IsDone (play (command_sent (after f)) started_events)
          (add_all p.completed_tests (full_names ts)) (expected_after p (run_count total skip run))
          true)
      (sym (feed-msg_ready now p w))
      (play-run_events_from now (record p { state = running; accumulated_args = [] }) total skip run
        ts refl h)

-- in a fresh session with different tests, the list is that of the tests
add_once-new : (x : Text) (xs : List Text) → contains x xs ≡ false → add_once x xs ≡ xs ++ x ∷ []
unfolding add_once
add_once-new x xs h = rw h

contains-middle :
    (y : Text) (seen : List Text) (x : Text) (xs : List Text)
    → contains y (seen ++ x ∷ xs) ≡ false
    → text_eq x y ≡ false
unfolding contains
contains-middle y [] x xs h = ground (arith, text_eq_iff x y, text_eq_iff y x)
contains-middle y (z ∷ seen) x xs h = ground (arith, contains-middle y seen x xs)

Distinct-middle :
    (seen : List Text) (x : Text) (xs : List Text)
    → Distinct (seen ++ x ∷ xs)
    → contains x seen ≡ false
unfolding contains
Distinct-middle [] x xs d = refl
Distinct-middle (y ∷ seen) x xs d =
    ground (arith, contains-middle y seen x xs d.0, Distinct-middle seen x xs d.1)

add_all-append : (seen xs : List Text) → Distinct (seen ++ xs) → add_all seen xs ≡ seen ++ xs
add_all-append seen [] d = sym (append-nil seen)
add_all-append seen (x ∷ xs) d =
    let new : contains x seen ≡ false = Distinct-middle seen x xs d in
    rw (add_once-new x seen new) (
      add_all-append (seen ++ x ∷ []) xs (subst Distinct (sym (append_assoc seen (x ∷ []) xs)) d)
      ∙ append_assoc seen (x ∷ []) xs)

pub add_all-Distinct : (xs : List Text) → Distinct xs → add_all [] xs ≡ xs
add_all-Distinct xs d = add_all-append [] xs d
