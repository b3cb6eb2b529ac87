-- ===== src/Runner/Cycle/Answered.antt =====
-- A device that is ready has been sent its command (src/etst/runner.py: `_run_test_cycle`).
use embedded_test_runner.Base.{◌≡◌, ◌≢◌, Text}
use embedded_test_runner.ReadyRun.{ReadyRun, ready}
use embedded_test_runner.Runner.Cycle.{Port, Next, goes_on, leaves, raises, protocol}

-- writing to the port leaves the protocol alone, and the protocol is the one that was set
pub record IsPort {S : Type 0} (d : Port S) : Type 0 where
  pub protocol-write : (text : Text) (s : S) → protocol d (d.write text s) ≡ protocol d s
  pub protocol-with_protocol : (p : ReadyRun) (s : S) → protocol d (d.with_protocol p s) ≡ p

module _ {S : Type 0} (d : Port S) (laws : IsPort d) where
  unfoldable pub NotReady : S → Type 0
  NotReady s = (protocol d s).state ≢ ready

  -- a loop that goes on has no protocol that is ready
  unfoldable pub Answered : Next S → Type 0
  unfolding NotReady
  Answered (goes_on r) = NotReady r.session
  Answered (leaves r) = Unit
  Answered (raises message s) = Unit
