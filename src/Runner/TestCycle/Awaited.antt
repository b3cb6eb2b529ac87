-- ===== src/Runner/TestCycle/Awaited.antt =====
-- A cycle waits for a DONE that comes late (src/etst/runner.py: `_run_test_cycle`).
use embedded_test_runner.Base.{◌≡◌, Bool, true, false, List, [], ◌∷◌, Text, some}
use mathlib.Core.Option
use embedded_test_runner.Base.Int.{ℤ, ltb_ℤ}
use embedded_test_runner.ReadyRun.{ReadyRun}
use embedded_test_runner.Runner.Cycle.{Read, received, silent, failed}
use embedded_test_runner.Runner.TestCycle.{Bench, is_done, heard, drain}
use embedded_test_runner.Runner.TestCycle.Heeded.{IsBench}

-- a read that the clock lets begin, and that does not raise
abbrev pub IsTimely : ℤ → (ℤ × Read) → Type 0
IsTimely deadline (now, received later data') = ltb_ℤ now deadline ≡ true
IsTimely deadline (now, silent later monotonic) = ltb_ℤ now deadline ≡ true
IsTimely deadline (now, failed message) = false ≡ true

module _ {S : Type 0} (d : Bench S) (laws : IsBench d) where
  -- what reads add to the buffer and the state, one after another
  unfoldable pub heard_all : List (ℤ × Read) → Text × S → Text × S
  heard_all [] st = st
  heard_all ((now, read) ∷ reads) st = heard_all reads (heard d read st)

  DrainsToDone : ℤ → List (ℤ × Read) → Text × S → Type 0
  DrainsToDone deadline reads st =
      (end : Text × S) × (drain d deadline reads st ≡ some end) × (is_done d end.1 ≡ true)
