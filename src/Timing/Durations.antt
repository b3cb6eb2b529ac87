-- ===== src/Timing/Durations.antt =====
-- The recorded durations, and their order in the report.
use embedded_test_runner.Base.{
  ◌≡◌, refl, Option, none, some, List, [], ◌∷◌, Text, arith, All, inl, inr, Bool-cases, text_eq,
  ◌&&◌, not, codes,
}
use mathlib.Core.List.{Perm}
use mathlib.Core.List.Perm
use embedded_test_runner.Base.Int.{ℤ, pos, ◌-ℤ◌, ◌≤ℤ◌, ◌<ℤ◌, -ℤ_parts}
use embedded_test_runner.Base.Dict.{Dict, insert, lookup}
use embedded_test_runner.Protocol.Line.{ParsedTag, parse_line}
use embedded_test_runner.ReadyRun.Feed.{crc_failed}
use embedded_test_runner.Timing.{
  Tracker, recorded, finalize, begin, feed_parsed, feed, slow_in, slow_tests,
}

abbrev pub Longest : Dict ℤ → Type 0
Longest [] = Unit
Longest ((name, duration) ∷ d) = All (λ (x : Text × ℤ). x.1 ≤ℤ duration) d × Longest d

lookup-slow_in :
    (threshold : ℤ) (name : Text) (duration : ℤ) (d : Dict ℤ)
    → lookup name d ≡ some duration
    → threshold <ℤ duration
    → lookup name (slow_in threshold d) ≡ some duration
unfolding slow_in lookup
lookup-slow_in threshold name duration [] found slow = cc
lookup-slow_in threshold name duration ((n, x) ∷ d) found slow =
    ground (arith, lookup-slow_in threshold name duration d)

-- A test whose duration is recorded and over the threshold is one of the slow tests, with that
-- duration.
pub lookup-slow_tests :
    (t : Tracker) (name : Text) (duration : ℤ)
    → lookup name t.durations ≡ some duration
    → t.slow_threshold <ℤ duration
    → lookup name (slow_tests t) ≡ some duration
unfolding slow_tests
lookup-slow_tests t name duration = lookup-slow_in t.slow_threshold name duration t.durations

-- what holds at the time `now`: no duration is negative, and the current test began before
pub record IsTimed (now : ℤ) (t : Tracker) : Type 0 where
  pub durations : All (λ (x : Text × ℤ). pos 0 ≤ℤ x.1) t.durations
  pub begun : (start : ℤ) → t.test_start_time ≡ some start → start ≤ℤ now

All-insert :
    (k : Text) (v : ℤ) (d : Dict ℤ)
    → pos 0 ≤ℤ v
    → All (λ (x : Text × ℤ). pos 0 ≤ℤ x.1) d
    → All (λ (x : Text × ℤ). pos 0 ≤ℤ x.1) (insert k v d)
unfolding insert
All-insert k v [] h a = (h, tt)
All-insert k v ((j, w) ∷ d) h a = ground (arith, All-insert k v d h a.1)

recorded-All :
    (now : ℤ) (d : Dict ℤ) (test : Text) (start : Option ℤ)
    → All (λ (x : Text × ℤ). pos 0 ≤ℤ x.1) d
    → ((s : ℤ) → start ≡ some s → s ≤ℤ now)
    → All (λ (x : Text × ℤ). pos 0 ≤ℤ x.1) (recorded now d test start)
unfolding recorded
recorded-All now d [] start a h = a
recorded-All now d (c ∷ test) none a h = a
recorded-All now d (c ∷ test) (some s) a h =
    let before = h s refl in
    All-insert (c ∷ test) (now -ℤ s) d (omega (arith, before, -ℤ_parts now s)) a

finalize-IsTimed :
    (now stop : ℤ) (t : Tracker) → now ≤ℤ stop → IsTimed now t → IsTimed stop (finalize stop t)
unfolding finalize
finalize-IsTimed now stop t le h = record {
  durations =
      recorded-All stop t.durations t.current_test t.test_start_time h.durations
        (λ s e. (let b = h.begun s e in omega arith));
  begun = λ start e. cc;
}

later : (now then' : ℤ) (t : Tracker) → now ≤ℤ then' → IsTimed now t → IsTimed then' t
later now then' t le h = record {
  durations = h.durations;
  begun = λ s e. (let b = h.begun s e in omega arith);
}

begin-IsTimed :
    (now stop start : ℤ) (t : Tracker) (suite name : Option Text)
    → now ≤ℤ stop
    → stop ≤ℤ start
    → IsTimed now t
    → IsTimed start (begin stop start t suite name)
unfolding begin
begin-IsTimed now stop start t (some suite) (some name) le le' h = record {
  durations = (finalize-IsTimed now stop t le h).durations;
  begun = λ s e. ground arith;
}
begin-IsTimed now stop start t (some suite) none le le' h = later now start t (omega arith) h
begin-IsTimed now stop start t none name le le' h = later now start t (omega arith) h

feed_parsed-IsTimed :
    (now stop start : ℤ) (t : Tracker) (p : Option ParsedTag)
    → now ≤ℤ stop
    → stop ≤ℤ start
    → IsTimed now t
    → IsTimed start (feed_parsed stop start t p)
unfolding feed_parsed
feed_parsed-IsTimed now stop start t none le le' h = later now start t (omega arith) h
feed_parsed-IsTimed now stop start t (some p) le le' h =
    elim (Bool-cases (text_eq p.tag (codes "CASE:START") && not (crc_failed p))) [
      | inl is_start ↦ rw is_start (begin-IsTimed now stop start t _ _ le le' h)
      | inr other ↦ rw other (later now start t (omega arith) h)
    ]

-- the lines of a run, each with the two readings of the clock
abbrev pub play : Tracker → List (ℤ × ℤ × Text) → Tracker
play t [] = t
play t ((stop, start, message) ∷ lines) = play (feed stop start t message) lines

-- the clock does not run backwards
abbrev pub IsMonotone : ℤ → List (ℤ × ℤ × Text) → ℤ → Type 0
IsMonotone now [] end = now ≤ℤ end
IsMonotone now ((stop, start, message) ∷ lines) end =
    (now ≤ℤ stop) × (stop ≤ℤ start) × IsMonotone start lines end

-- With a clock that does not run backwards, from a tracker without negative durations, no duration
-- that is recorded up to the end of a run is negative, whatever the lines.
pub finalize-play-IsTimed :
    (now end : ℤ) (t : Tracker) (lines : List (ℤ × ℤ × Text))
    → IsMonotone now lines end
    → IsTimed now t
    → IsTimed end (finalize end (play t lines))
unfolding feed
finalize-play-IsTimed now end t [] m h = finalize-IsTimed now end t m h
finalize-play-IsTimed now end t ((stop, start, message) ∷ lines) m h =
    finalize-play-IsTimed start end (feed stop start t message) lines m.2
      (feed_parsed-IsTimed now stop start t (parse_line message) m.0 m.1 h)
