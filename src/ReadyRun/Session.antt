-- ===== src/ReadyRun/Session.antt =====
-- Sequences of lines, commands and resets: what the protocol keeps over the cycles of a session.
use embedded_test_runner.Base.{
  ◌≡◌, ◌≢◌, refl, sym, ap, ◌∙◌, false, true, List, [], ◌∷◌, ◌++◌, Text, arith, inl, inr, append-nil,
  append_assoc, text_eq, text_eq_iff, Bool-cases, All,
}
use embedded_test_runner.Base.Int.{ℤ, pos}
use embedded_test_runner.Base.Dict.{contains}
use embedded_test_runner.ReadyRun.{ReadyRun, init, command_sent, reset_for_wake, reset, reset_all}
use embedded_test_runner.ReadyRun.Feed.{after, feed, add_once}
use embedded_test_runner.ReadyRun.Frame.{SessionStep, feed-SessionStep}

-- what the runner does with its protocol object
pub data Event : Type 0 where
  line : ℤ → Text → Event
  command : Event
  wake : Event
  new_cycle : Event
  new_session : Event

unfoldable pub step : ReadyRun → Event → ReadyRun
step p (line now message) = after (feed now p message)
step p command = command_sent p
step p wake = reset_for_wake p
step p new_cycle = reset p
step p new_session = reset_all p

abbrev pub play : ReadyRun → List Event → ReadyRun
play p [] = p
play p (e ∷ es) = play (step p e) es

-- no text twice
abbrev pub Distinct : List Text → Type 0
Distinct [] = Unit
Distinct (x ∷ xs) = (contains x xs ≡ false) × Distinct xs

contains-concat :
    (y x : Text) (xs : List Text)
    → contains y xs ≡ false
    → text_eq y x ≡ false
    → contains y (xs ++ x ∷ []) ≡ false
unfolding contains
contains-concat y x [] h e = ground arith
contains-concat y x (z ∷ xs) h e = ground (arith, contains-concat y x xs)

Distinct-concat :
    (x : Text) (xs : List Text) → Distinct xs → contains x xs ≡ false → Distinct (xs ++ x ∷ [])
unfolding contains
Distinct-concat x [] d h = (refl, tt)
Distinct-concat x (y ∷ xs) d h = (
  contains-concat y x xs d.0 (ground (arith, text_eq_iff y x, text_eq_iff x y)),
  Distinct-concat x xs d.1 (ground arith),
)

pub Distinct-add_once : (x : Text) (xs : List Text) → Distinct xs → Distinct (add_once x xs)
unfolding add_once
Distinct-add_once x xs d = elim (Bool-cases (contains x xs)) [
  | inl old ↦ rw old d
  | inr new ↦ rw new (Distinct-concat x xs d new)
]

add_once-ne-nil : (x : Text) (xs : List Text) → add_once x xs ≢ []
unfolding add_once contains
add_once-ne-nil x [] = λ e. cc
add_once-ne-nil x (y ∷ xs) = ground arith

-- Every test is listed once; a device that has not reported counts is expected to run none; and
-- while a test is current, some test is listed.
pub record IsConsistent (p : ReadyRun) : Type 0 where
  pub distinct : Distinct p.completed_tests
  pub unlatched : p.expected_run_latched ≡ false → p.expected_run ≡ pos 0
  pub listed : p.current_test_name ≢ [] → p.completed_tests ≢ []

SessionStep-IsConsistent : (p q : ReadyRun) → SessionStep p q → IsConsistent p → IsConsistent q
SessionStep-IsConsistent p q s h = record {
  distinct = elim s.tests [
    | inl same ↦ rw same.0 h.distinct
    | inr (x, added) ↦ rw added (Distinct-add_once x p.completed_tests h.distinct)
  ];
  unlatched = ground (arith, h.unlatched);
  listed = elim s.tests [
    | inl same ↦ rw same.0 (rw same.1 h.listed)
    | inr (x, added) ↦ rw added (λ _. add_once-ne-nil x p.completed_tests)
  ];
}

command_sent-SessionStep : (p : ReadyRun) → SessionStep p (command_sent p)
unfolding command_sent
command_sent-SessionStep p = record {
  tests = inl (ground arith, ground arith);
  expected = inl (ground arith, ground arith);
}

reset_for_wake-SessionStep : (p : ReadyRun) → SessionStep p (reset_for_wake p)
unfolding reset_for_wake
reset_for_wake-SessionStep p = record {
  tests = inl (ground arith, ground arith);
  expected = inl (ground arith, ground arith);
}

step-IsConsistent : (p : ReadyRun) (e : Event) → IsConsistent p → IsConsistent (step p e)
unfolding step reset_all
step-IsConsistent p (line now message) h =
    SessionStep-IsConsistent p _ (feed-SessionStep now p message) h
step-IsConsistent p command h = SessionStep-IsConsistent p _ (command_sent-SessionStep p) h
step-IsConsistent p wake h = SessionStep-IsConsistent p _ (reset_for_wake-SessionStep p) h
step-IsConsistent p new_cycle h = record {
  distinct = h.distinct;
  unlatched = h.unlatched;
  listed = λ ne. absurd (ne refl);
}
step-IsConsistent p new_session h = record {
  distinct = tt;
  unlatched = λ _. refl;
  listed = λ ne. absurd (ne refl);
}

-- Consistency lasts over any events, whatever lines arrive and whenever a command is sent, the
-- device wakes or a cycle or a session begins.
pub play-IsConsistent : (p : ReadyRun) (es : List Event) → IsConsistent p → IsConsistent (play p es)
play-IsConsistent p [] h = h
play-IsConsistent p (e ∷ es) h = play-IsConsistent (step p e) es (step-IsConsistent p e h)

pub IsConsistent-init : IsConsistent init
IsConsistent-init = record { distinct = tt; unlatched = λ _. refl; listed = λ ne. absurd (ne refl) }

-- an event that does not begin a new session
abbrev pub IsSameSession : Event → Type 0
IsSameSession new_session = ⊥
IsSameSession _ = Unit

-- the tests seen before stay, in their order; new ones come behind
abbrev pub Extends : List Text → List Text → Type 0
Extends xs ys = (zs : List Text) × (ys ≡ xs ++ zs)

Extends-trans : (xs ys zs : List Text) → Extends xs ys → Extends ys zs → Extends xs zs
Extends-trans xs ys zs (more, p) (rest, q) =
    (more ++ rest, q ∙ ap (λ r. r ++ rest) p ∙ append_assoc xs more rest)

Extends-add_once : (x : Text) (xs : List Text) → Extends xs (add_once x xs)
unfolding add_once
Extends-add_once x xs = elim (Bool-cases (contains x xs)) [
  | inl old ↦ ([], rw old (sym (append-nil xs)))
  | inr new ↦ (x ∷ [], rw new)
]

SessionStep-Extends :
    (p q : ReadyRun) → SessionStep p q → Extends p.completed_tests q.completed_tests
SessionStep-Extends p q s = elim s.tests [
  | inl same ↦ ([], same.0 ∙ sym (append-nil p.completed_tests))
  | inr (x, added) ↦ rw added (Extends-add_once x p.completed_tests)
]

step-Extends :
    (p : ReadyRun) (e : Event)
    → IsSameSession e
    → Extends p.completed_tests (step p e).completed_tests
unfolding step reset
step-Extends p (line now message) h = SessionStep-Extends p _ (feed-SessionStep now p message)
step-Extends p command h = SessionStep-Extends p _ (command_sent-SessionStep p)
step-Extends p wake h = SessionStep-Extends p _ (reset_for_wake-SessionStep p)
step-Extends p new_cycle h = ([], sym (append-nil p.completed_tests))
step-Extends p new_session h = absurd h

-- Over the cycles of a session no test that was seen is forgotten, and their order stays: the list
-- only grows at its end.
pub play-Extends :
    (p : ReadyRun) (es : List Event)
    → All IsSameSession es
    → Extends p.completed_tests (play p es).completed_tests
play-Extends p [] h = ([], sym (append-nil p.completed_tests))
play-Extends p (e ∷ es) h =
    Extends-trans _ _ _ (step-Extends p e h.0) (play-Extends (step p e) es h.1)

abbrev SameExpectation : ReadyRun → ReadyRun → Type 0
SameExpectation p q = (q.expected_run_latched ≡ true) × (q.expected_run ≡ p.expected_run)

keeps : (p q : ReadyRun) → p.expected_run_latched ≡ true → SessionStep p q → SameExpectation p q
keeps p q l s = ground (arith, s.expected)

step-SameExpectation :
    (p : ReadyRun) (e : Event)
    → IsSameSession e
    → p.expected_run_latched ≡ true
    → SameExpectation p (step p e)
unfolding step reset
step-SameExpectation p (line now message) h l = keeps p _ l (feed-SessionStep now p message)
step-SameExpectation p command h l = keeps p _ l (command_sent-SessionStep p)
step-SameExpectation p wake h l = keeps p _ l (reset_for_wake-SessionStep p)
step-SameExpectation p new_cycle h l = (l, refl)
step-SameExpectation p new_session h l = absurd h

-- Once the device has reported its counts, the number of tests that the session is expected to run
-- does not change, whatever later cycles of the same session report.
pub play_expected :
    (p : ReadyRun) (es : List Event)
    → All IsSameSession es
    → p.expected_run_latched ≡ true
    → ((play p es).expected_run_latched ≡ true) × ((play p es).expected_run ≡ p.expected_run)
play_expected p [] h l = (l, refl)
play_expected p (e ∷ es) h l =
    let now = step-SameExpectation p e h.0 l in
    let later = play_expected (step p e) es h.1 now.0 in (later.0, later.1 ∙ now.1)
