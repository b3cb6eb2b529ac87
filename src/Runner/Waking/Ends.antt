-- ===== src/Runner/Waking/Ends.antt =====
-- The wait for a device that sleeps comes to an end (src/etst/runner.py: `_handle_sleep_resume`).
use embedded_test_runner.Base.{
  ℕ, zero, suc, ◌+◌, ◌*◌, ◌≤◌, ◌<◌, ◌≡◌, refl, ap, ◌∙◌, Bool, true, false, Option, none, some, Text,
  codes, [], ◌∷◌, arith, ltb, text_eq, Bool-cases, inl, inr, ◌⊎◌,
}
use mathlib.Core.Option
use embedded_test_runner.Runner.Waking.{
  SleepWatch, await_state, await_wake, after_drop, watch, wait_for_wake,
}

-- The clock does not run backwards, and a pause takes its time.
pub record IsWatch {W : Type 0} (d : SleepWatch W) : Type 0 where
  pub sleep_passes : (ms : ℕ) (w : W) → d.monotonic w + ms ≤ d.monotonic (d.sleep ms w)
  pub watch_passes : (port : Text) (w : W) → d.monotonic w ≤ d.monotonic (d.watch_port port w)
  pub check_passes : (w : W) → d.monotonic w ≤ d.monotonic (d.check_port w)

module _ {W : Type 0} (d : SleepWatch W) (laws : IsWatch d) where
  -- the state was seen, or the deadline is over
  abbrev Verdict : ℕ → Text → Bool → W → Type 0
  Verdict deadline state true w = text_eq (d.monitor_state w) state ≡ true
  Verdict deadline state false w = deadline ≤ d.monotonic w

  Awaited : ℕ → ℕ → Text → Option (Bool × W) → Type 0
  Awaited start deadline state result =
      (seen : Bool) × (end : W) × (result ≡ some (seen, end))
      × (start ≤ d.monotonic end)
      × Verdict deadline state seen end

  await_state-late :
      (fuel deadline ms : ℕ) (state : Text) (w : W)
      → ltb (d.monotonic w) deadline ≡ false
      → await_state d (suc fuel) deadline ms state w ≡ some (false, w)
  unfolding await_state
  await_state-late fuel deadline ms state w h = rw (h, await_state) refl

  await_state-seen :
      (fuel deadline ms : ℕ) (state : Text) (w : W)
      → ltb (d.monotonic w) deadline ≡ true
      → text_eq (d.monitor_state (d.check_port w)) state ≡ true
      → await_state d (suc fuel) deadline ms state w ≡ some (true, d.check_port w)
  unfolding await_state
  await_state-seen fuel deadline ms state w h k = rw (h, await_state) (rw k refl)

  await_state-on :
      (fuel deadline ms : ℕ) (state : Text) (w : W)
      → ltb (d.monotonic w) deadline ≡ true
      → text_eq (d.monitor_state (d.check_port w)) state ≡ false
      → await_state d (suc fuel) deadline ms state w
        ≡ await_state d fuel deadline ms state (d.sleep ms (d.check_port w))
  unfolding await_state
  await_state-on fuel deadline ms state w h k = rw (h, await_state) (rw k refl)

  Awaited-later :
      (start later deadline : ℕ) (state : Text) (result : Option (Bool × W))
      → start ≤ later
      → Awaited later deadline state result
      → Awaited start deadline state result
  unfolding Awaited
  Awaited-later start later deadline state result h (seen, end, same, passed, verdict) =
      (seen, end, same, omega arith, verdict)

  await_state-late_Awaited :
      (fuel deadline ms : ℕ) (state : Text) (w : W)
      → ltb (d.monotonic w) deadline ≡ false
      → Awaited (d.monotonic w) deadline state (await_state d (suc fuel) deadline ms state w)
  unfolding Awaited
  await_state-late_Awaited fuel deadline ms state w h =
      (false, w, await_state-late fuel deadline ms state w h, omega arith, ground arith)

  pause_passes : (ms : ℕ) (w : W) → d.monotonic w + ms ≤ d.monotonic (d.sleep ms (d.check_port w))
  pause_passes ms w =
      let slept = laws.sleep_passes ms (d.check_port w) in
      let checked = laws.check_passes w in omega arith

  -- one round before the deadline
  await_state-round :
      (fuel deadline ms : ℕ) (state : Text) (w : W)
      → ltb (d.monotonic w) deadline ≡ true
      → (let next = d.sleep ms (d.check_port w) in
          Awaited (d.monotonic next) deadline state (await_state d fuel deadline ms state next))
      → Awaited (d.monotonic w) deadline state (await_state d (suc fuel) deadline ms state w)
  unfolding Awaited
  await_state-round fuel deadline ms state w early (seen, end, same, passed, verdict) =
      elim (Bool-cases (text_eq (d.monitor_state (d.check_port w)) state)) [
        | inl now ↦ (
          true,
          d.check_port w,
          await_state-seen fuel deadline ms state w early now,
          laws.check_passes w,
          now,
        )
        | inr more ↦ (
          seen,
          end,
          await_state-on fuel deadline ms state w early more ∙ same,
          (let later = pause_passes ms w in omega arith),
          verdict,
        )
      ]

  early-lt : (deadline : ℕ) (w : W) → ltb (d.monotonic w) deadline ≡ true → d.monotonic w < deadline
  early-lt deadline w h = ground arith

  -- one check for each pause that fits into the time up to the deadline, and one more
  await_state-Awaited :
      (fuel deadline ms : ℕ) (state : Text) (w : W)
      → deadline ≤ d.monotonic w + ms * fuel
      → Awaited (d.monotonic w) deadline state (await_state d (suc fuel) deadline ms state w)
  await_state-Awaited zero deadline ms state w h =
      elim (Bool-cases (ltb (d.monotonic w) deadline)) [
        | inr late ↦ await_state-late_Awaited 0 deadline ms state w late
        | inl early ↦ absurd (let before = early-lt deadline w early in omega arith)
      ]
  await_state-Awaited (suc fuel) deadline ms state w h =
      elim (Bool-cases (ltb (d.monotonic w) deadline)) [
        | inr late ↦ await_state-late_Awaited (suc fuel) deadline ms state w late
        | inl early ↦ await_state-round (suc fuel) deadline ms state w early (
            await_state-Awaited fuel deadline ms state (d.sleep ms (d.check_port w))
              (let later = pause_passes ms w in grind arith))
      ]

  await_wake-Awaited :
      (n time : ℕ) (w : W)
      → time ≤ 200 * n
      → Awaited
          (d.monotonic w)
          (d.monotonic w + time)
          (codes "waking")
          (await_wake d (suc n) time w)
  unfolding await_wake
  await_wake-Awaited n time w h =
      await_state-Awaited n (d.monotonic w + time) 200 (codes "waking") w (omega arith)

  -- the device is seen to wake, or the time is over
  unfoldable pub Woken : ℕ → ℕ → W → Type 0
  Woken start time end =
      (text_eq (d.monitor_state end) (codes "waking") ≡ true) ⊎ (start + time ≤ d.monotonic end)

  woken :
      (start time : ℕ) (seen : Bool) (end : W)
      → Verdict (start + time) (codes "waking") seen end
      → Woken start time end
  unfolding Woken
  woken start time true end h = inl h
  woken start time false end h = inr h

  Woken-earlier :
      (start later time : ℕ) (end : W) → start ≤ later → Woken later time end → Woken start time end
  unfolding Woken
  Woken-earlier start later time end h (inl seen) = inl seen
  Woken-earlier start later time end h (inr over) = inr (omega arith)

  -- a watched port: it is seen to go or not, and then awaited
  watch-port :
      (n time c : ℕ) (path : Text) (w : W)
      → time ≤ 200 * n
      → (end : W) × (watch d 101 (suc n) time (some (c ∷ path)) w ≡ some end)
        × Woken (d.monotonic w) time end
  unfolding watch Awaited after_drop
  watch-port n time c path w h =
      let watched = d.watch_port (c ∷ path) w in
      let (dropped, w1, drop, since, verdict) =
        await_state-Awaited 100 (d.monotonic watched + 10000) 100 (codes "sleeping") watched
          (omega arith) in
      let (seen, end, wake, passed, last) = await_wake-Awaited n time w1 h in
      let began = laws.watch_passes (c ∷ path) w in
      (
        end,
        ap (λ o. Option.map (λ (q : Bool × W). q.1) (after_drop d (suc n) time o)) drop
            ∙ ap (Option.map (λ (q : Bool × W). q.1)) wake,
        Woken-earlier (d.monotonic w) (d.monotonic w1) time end (omega arith)
            (woken (d.monotonic w1) time seen end last),
      )

  watch-Woken :
      (n time : ℕ) (port : Option Text) (w : W)
      → time ≤ 200 * n
      → (end : W) × (watch d 101 (suc n) time port w ≡ some end) × Woken (d.monotonic w) time end
  unfolding watch Woken
  watch-Woken n time none w h = (d.sleep time w, refl, inr (laws.sleep_passes time w))
  watch-Woken n time (some []) w h = (d.sleep time w, refl, inr (laws.sleep_passes time w))
  watch-Woken n time (some (c ∷ path)) w h = watch-port n time c path w h

  -- The wait for a device that sleeps comes to an end, whatever its port does, under a clock that does
  -- not run backwards and on which a pause takes its time. At the end the monitor has seen the device
  -- wake, or the reported time and the padding have passed since the port was closed. A hundred and
  -- one rounds for the port to go, and one for each fifth of a second of that time and one more, are
  -- enough.
  pub wait_for_wake-Woken :
      (n time : ℕ) (port : Option Text) (w : W)
      → time ≤ 200 * n
      → (end : W) × (wait_for_wake d 101 (suc n) time port w ≡ some end)
        × Woken (d.monotonic (d.close_serial w)) time end
  unfolding wait_for_wake
  wait_for_wake-Woken n time port w h = watch-Woken n time port (d.close_serial w) h
