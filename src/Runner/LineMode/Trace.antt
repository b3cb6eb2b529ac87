-- ===== src/Runner/LineMode/Trace.antt =====
-- What any output does in the line mode (src/etst/runner.py: `on_testing_line_output`).
use embedded_test_runner.Base.{◌≡◌, Bool, true, false, List, [], ◌∷◌, ◌++◌}
use embedded_test_runner.Runner.Cycle.{Port}
use embedded_test_runner.Runner.LineMode.{
  LineState, TimedLine, is_silent_hang, abort_hang, process_line, on_testing_line_output,
}

-- the runner has finished once it finishes
pub record IsFinishing {S : Type 0} (d : Port S) : Type 0 where
  pub finished-finish : (s : S) → d.host.finished_by_runner (d.host.finish s) ≡ true

module _ {S : Type 0} (d : Port S) where
  unfoldable pub play_lines : List TimedLine → LineState S → LineState S
  play_lines [] st = st
  play_lines (line ∷ lines) st = play_lines lines (on_testing_line_output d line st)

  -- Lines that are all processed: the runner has not finished before any of them, and none of them
  -- comes after a hang.
  pub data Processed : List TimedLine → LineState S → LineState S → Type 0 where
    start : {st : LineState S} → Processed [] st st
    processed :
        {line : TimedLine} {lines : List TimedLine} {st end : LineState S}
        → d.host.finished_by_runner st.session ≡ false
        → is_silent_hang d line st ≡ false
        → Processed lines (process_line d line st) end
        → Processed (line ∷ lines) st end

  finished : LineState S → Bool
  finished st = d.host.finished_by_runner st.session

  -- How output ends: all of it is processed, or what comes behind a finished runner is ignored, or
  -- a hang is reported once and what comes behind it is ignored.
  pub data Ending : List TimedLine → LineState S → LineState S → Type 0 where
    all_processed : {st : LineState S} → Ending [] st st
    ignored :
        {lines : List TimedLine} {st : LineState S}
        → d.host.finished_by_runner st.session ≡ true
        → Ending lines st st
    aborted :
        {line : TimedLine} {lines : List TimedLine} {st : LineState S}
        → d.host.finished_by_runner st.session ≡ false
        → is_silent_hang d line st ≡ true
        → Ending (line ∷ lines) st (abort_hang d line st)

module _ {S : Type 0} (d : Port S) (laws : IsFinishing d) where
  -- the lines that are processed, the state that they lead to, and the lines behind them
  unfoldable pub Traced : List TimedLine → LineState S → LineState S → Type 0
  Traced lines st end =
      (before : List TimedLine) × (after : List TimedLine) × (reached : LineState S) × (lines
        ≡ before ++ after)
      × Processed d before st reached
      × Ending d after reached end
