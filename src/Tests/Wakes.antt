-- ===== src/Tests/Wakes.antt =====
-- The wait for a device that sleeps on concrete inputs.
use embedded_test_runner.Base.{
  ◌≡◌, refl, ℕ, ◌+◌, Option, some, none, codes, arith, ltb, true, false, if◌then◌else◌,
}
use embedded_test_runner.Runner.Waking.{SleepWatch, wait_for_wake}
use embedded_test_runner.Runner.Waking.Ends.{IsWatch, Woken, wait_for_wake-Woken}

-- the world is a clock; the port is gone from the second 1 to the second 3
abbrev napping : SleepWatch ℕ
napping = record {
  close_serial = λ w. w;
  watch_port = λ port w. w;
  check_port = λ w. w + 1;
  monitor_state = λ w.
      if ltb w 1000
      then codes "active"
      else if ltb w 3000
      then codes "sleeping"
      else codes "waking";
  sleep = λ ms w. w + ms;
  monotonic = λ w. w;
}

napping-IsWatch : IsWatch napping
napping-IsWatch = record {
  sleep_passes = λ ms w. omega arith;
  watch_passes = λ port w. omega arith;
  check_passes = λ w. omega arith;
}

wakes : wait_for_wake napping 101 26 5000 (some (codes "/dev/ttyACM0")) 0 ≡ some 3022
unfolding embedded_test_runner.Base.text_eq embedded_test_runner.Runner.Waking.after_drop
    embedded_test_runner.Runner.Waking.await_state embedded_test_runner.Runner.Waking.await_wake
    embedded_test_runner.Runner.Waking.watch wait_for_wake
wakes = refl

wait_for_wake-Woken_example :
    (end : ℕ) × (wait_for_wake napping 101 26 5000 (some (codes "/dev/ttyACM0")) 0 ≡ some end)
    × Woken napping napping-IsWatch 0 5000 end
wait_for_wake-Woken_example =
    wait_for_wake-Woken napping napping-IsWatch 25 5000 (some (codes "/dev/ttyACM0")) 0
      (omega arith)
