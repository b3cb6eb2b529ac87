-- ===== src/Runner/Waking.antt =====
-- The wait for a device that sleeps (src/etst/runner.py: `_handle_sleep_resume`, before the test is
-- resumed).
--
-- embedded_bridge's SleepWakeMonitor, the serial port and `time.monotonic` are the operations of a
-- `SleepWatch`; times are in milliseconds. The echoes are left out.
pub mod Ends
use embedded_test_runner.Base.{
  ℕ, zero, suc, ◌+◌, Bool, true, false, Option, none, some, List, [], ◌∷◌, Text, codes, ltb,
  text_eq, if◌then◌else◌,
}
use mathlib.Core.Option

-- `watch_port` makes the monitor of a port, `check_port` and `monitor_state` are its methods
pub record SleepWatch (W : Type 0) : Type 0 where
  pub close_serial : W → W
  pub watch_port : Text → W → W
  pub check_port : W → W
  pub monitor_state : W → Text
  pub sleep : ℕ → W → W
  pub monotonic : W → ℕ

module _ {W : Type 0} (d : SleepWatch W) where
  -- The loop that checks the port until the monitor is in a state or the deadline is over, with a
  -- pause behind each check, and whether the state was seen; `none` is out of fuel.
  unfoldable pub await_state : ℕ → ℕ → ℕ → Text → W → Option (Bool × W)
  await_state zero deadline ms state w = none
  await_state (suc fuel) deadline ms state w = elim (ltb (d.monotonic w) deadline) [
    | false ↦ some (false, w)
    | true ↦
        let checked = d.check_port w in
        elim (text_eq (d.monitor_state checked) state) [
          | true ↦ some (true, checked)
          | false ↦ await_state fuel deadline ms state (d.sleep ms checked)
        ]
  ]

  -- the port is to come back, within the reported time and the padding
  unfoldable pub await_wake : ℕ → ℕ → W → Option (Bool × W)
  await_wake fuel time w = await_state fuel (d.monotonic w + time) 200 (codes "waking") w

  unfoldable pub after_drop : ℕ → ℕ → Option (Bool × W) → Option (Bool × W)
  after_drop fuel time none = none
  after_drop fuel time (some (dropped, w)) = await_wake fuel time w

  -- With a port: first it has to go, within ten seconds, and then to come back. Without one: a pause.
  unfoldable pub watch : ℕ → ℕ → ℕ → Option Text → W → Option W
  watch drop_fuel wake_fuel time none w = some (d.sleep time w)
  watch drop_fuel wake_fuel time (some []) w = some (d.sleep time w)
  watch drop_fuel wake_fuel time (some (c ∷ path)) w =
      let watched = d.watch_port (c ∷ path) w in
      Option.map (λ (end : Bool × W). end.1)
        (after_drop wake_fuel time
          (await_state drop_fuel (d.monotonic watched + 10000) 100 (codes "sleeping") watched))

  -- `time` is the device's `sleep_duration_ms` with the padding
  unfoldable pub wait_for_wake : ℕ → ℕ → ℕ → Option Text → W → Option W
  wait_for_wake drop_fuel wake_fuel time port w =
      watch drop_fuel wake_fuel time port (d.close_serial w)
