-- ===== src/Runner/TestCycle/Drained.antt =====
-- Draining what is left to read (src/etst/runner.py: `_run_test_cycle`).
use embedded_test_runner.Base.{◌≡◌, refl, true, false, not, ◌&&◌, List, ◌∷◌, Text, some}
use embedded_test_runner.Base.Int.{ℤ, pos, ltb_ℤ, ◌+ℤ◌}
use embedded_test_runner.Runner.Cycle.{Read, Round}
use embedded_test_runner.Runner.TestCycle.{Bench, Timeline, is_done, drain_round, drain, after_loop}

module _ {S : Type 0} (d : Bench S) where
  pub drain-late :
      (deadline now : ℤ) (read : Read) (reads : List (ℤ × Read)) (st : Text × S)
      → ltb_ℤ now deadline ≡ false
      → drain d deadline ((now, read) ∷ reads) st ≡ some st
  unfolding drain
  drain-late deadline now read reads st h = rw (h, drain) refl

  pub drain-last :
      (deadline now : ℤ) (read : Read) (reads : List (ℤ × Read)) (st : Text × S)
      → ltb_ℤ now deadline ≡ true
      → (drain_round d read st).0 ≡ true
      → drain d deadline ((now, read) ∷ reads) st ≡ some (drain_round d read st).1
  unfolding drain
  drain-last deadline now read reads st h k = rw (h, drain) (rw k refl)

  pub drain-more :
      (deadline now : ℤ) (read : Read) (reads : List (ℤ × Read)) (st : Text × S)
      → ltb_ℤ now deadline ≡ true
      → (drain_round d read st).0 ≡ false
      → drain d deadline ((now, read) ∷ reads) st ≡ drain d deadline reads (drain_round d read st).1
  unfolding drain
  drain-more deadline now read reads st h k = rw (h, drain) (rw k refl)

  pub after_loop-there :
      (t : Timeline) (r : Round S)
      → (not (is_done d r.session) && d.port.is_open r.session) ≡ false
      → after_loop d t r ≡ some (r.line_buf, r.session)
  unfolding after_loop
  after_loop-there t r h = rw (h, after_loop) refl

  pub after_loop-drain :
      (t : Timeline) (r : Round S)
      → (not (is_done d r.session) && d.port.is_open r.session) ≡ true
      → after_loop d t r ≡ drain d (t.draining +ℤ pos 10000) t.last_reads (r.line_buf, r.session)
  unfolding after_loop
  after_loop-drain t r h = rw (h, after_loop) refl
