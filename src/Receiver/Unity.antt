-- ===== src/Receiver/Unity.antt =====
-- Outputs of Unity, with the results taken at any points (src/etst/result_receiver.py:
-- `_feed_unity`, `drain_results`).
use embedded_test_runner.Base.{
  ◌≡◌, refl, sym, ap, ◌∙◌, true, false, none, some, List, [], ◌∷◌, ◌++◌, Text, arith, append_assoc,
  append-nil, Bool-cases, Option-cases, inl, inr, if◌then◌else◌,
}
use embedded_test_runner.Receiver.Patterns.{UnityResult, unity_result, unity_summary}
use embedded_test_runner.Receiver.{
  TestResult, Receiver, unity, test_of, add, chomp, feed_unity, feed, drain_results,
}

-- a line, or a call of `drain_results`
pub data Event : Type 0 where
  line : Text → Event
  drain : Event

-- the receiver at the end, and all results that were taken
abbrev pub play : Receiver → List Event → Receiver × List TestResult
play r [] = (r, [])
play r (line l ∷ es) = play (feed r l) es
play r (drain ∷ es) =
    let drained = drain_results r in
    let later = play drained.0 es in (later.0, drained.1 ++ later.1)

-- the results that stand in the lines up to the summary
unfoldable pub unity_results : List Event → List TestResult
unity_results [] = []
unity_results (drain ∷ es) = unity_results es
unity_results (line l ∷ es) =
    let later = unity_results es in
    elim (unity_result (chomp l)) [
      | some u ↦ test_of u ∷ later
      | none ↦ if unity_summary (chomp l) then [] else later
    ]

-- a receiver of Unity output that has not seen the summary
abbrev pub IsReading : Receiver → Type 0
IsReading r = (r.detected_framework ≡ some unity) × (r.is_complete ≡ false)

-- what was taken and what is left
abbrev pub all_results : Receiver × List TestResult → List TestResult
all_results played = played.1 ++ played.0.results

feed_complete : (r : Receiver) (l : Text) → r.is_complete ≡ true → feed r l ≡ r
unfolding feed
feed_complete r l h = rw h refl

play_complete :
    (r : Receiver) (es : List Event) → r.is_complete ≡ true → all_results (play r es) ≡ r.results
unfolding drain_results
play_complete r [] h = refl
play_complete r (line l ∷ es) h =
    ap (λ q. all_results (play q es)) (feed_complete r l h) ∙ play_complete r es h
play_complete r (drain ∷ es) h =
    let left = record r { results = [] } in
    append_assoc r.results (play left es).1 (play left es).0.results
    ∙ ap (λ xs. r.results ++ xs) (play_complete left es h)
    ∙ append-nil r.results

feed-reading : (r : Receiver) (l : Text) → IsReading r → feed r l ≡ feed_unity r (chomp l)
unfolding feed
feed-reading r l h = rw (h.1, h.0) refl

result-line :
    (r : Receiver) (l : Text) (u : UnityResult) (es : List Event)
    → unity_result (chomp l) ≡ some u
    → (feed_unity r (chomp l) ≡ add r (test_of u))
      × (unity_results (line l ∷ es) ≡ test_of u ∷ unity_results es)
unfolding feed_unity unity_results
result-line r l u es e = (ground arith, ground arith)

summary-line :
    (r : Receiver) (l : Text) (es : List Event)
    → unity_result (chomp l) ≡ none
    → unity_summary (chomp l) ≡ true
    → (feed_unity r (chomp l) ≡ record r { is_complete = true })
      × (unity_results (line l ∷ es) ≡ [])
unfolding feed_unity unity_results
summary-line r l es e s = (ground arith, ground arith)

other-line :
    (r : Receiver) (l : Text) (es : List Event)
    → unity_result (chomp l) ≡ none
    → unity_summary (chomp l) ≡ false
    → (feed_unity r (chomp l) ≡ r) × (unity_results (line l ∷ es) ≡ unity_results es)
unfolding feed_unity unity_results
other-line r l es e s = (ground arith, ground arith)

-- A receiver of Unity output gives one result for each result line up to the summary, and no result
-- is lost or delivered twice: what `drain_results` returned, wherever it was called, and what is
-- left at the end are the results of the lines in order, behind those that were there before.
pub play-unity_results :
    (r : Receiver) (es : List Event)
    → IsReading r
    → all_results (play r es) ≡ r.results ++ unity_results es
unfolding unity_results drain_results
play-unity_results r [] h = sym (append-nil r.results)
play-unity_results r (drain ∷ es) h =
    let left = record r { results = [] } in
    append_assoc r.results (play left es).1 (play left es).0.results
    ∙ ap (λ xs. r.results ++ xs) (play-unity_results left es h)
play-unity_results r (line l ∷ es) h =
    ap (λ q. all_results (play q es)) (feed-reading r l h)
    ∙ elim (Option-cases (unity_result (chomp l))) [
      | inr (u, found) ↦
          ap (λ q. all_results (play q es)) (result-line r l u es found).0
          ∙ play-unity_results (add r (test_of u)) es h
          ∙ append_assoc r.results (test_of u ∷ []) (unity_results es)
          ∙ ap (λ xs. r.results ++ xs) (sym (result-line r l u es found).1)
      | inl other ↦ elim (Bool-cases (unity_summary (chomp l))) [
        | inl last ↦
            ap (λ q. all_results (play q es)) (summary-line r l es other last).0
            ∙ play_complete (record r { is_complete = true }) es refl
            ∙ sym (append-nil r.results)
            ∙ ap (λ xs. r.results ++ xs) (sym (summary-line r l es other last).1)
        | inr more ↦
            ap (λ q. all_results (play q es)) (other-line r l es other more).0
            ∙ play-unity_results r es h
            ∙ ap (λ xs. r.results ++ xs) (sym (other-line r l es other more).1)
      ]
    ]
