-- ===== src/Runner/Connection/Reconnect.antt =====
-- The restart of the device comes to an end (src/etst/runner.py: `_restart_device`).
use embedded_test_runner.Base.{
  ℕ, zero, suc, ◌+◌, ◌*◌, ◌≤◌, ◌≡◌, refl, sym, ap, subst, true, false, Option, none, some, [],
  arith, ltb, Bool-cases, inl, inr, ◌⊎◌,
}
use mathlib.Core.Option
use embedded_test_runner.Base.Action.{Outcome, done, threw, world}
use embedded_test_runner.Runner.Connection.{
  Device, Link, now, open_connection, pause_before, pause, after_open, reconnect, await_ack,
  close_connection, send_restart, await_restart, restart_device,
}
use embedded_test_runner.Runner.Connection.Clock.{
  IsClock, pause_before-bounded, Passes-open_connection,
}
use embedded_test_runner.Runner.Connection.Acknowledged.{Acknowledges, await_ack-ends, early-lt}

module _ {E W Ser : Type 0} (d : Device E W Ser) (laws : IsClock d) where
  -- a connection that a call of `_open_serial` made
  unfoldable pub Reconnected : Link d → Type 0
  Reconnected c = (before : Link d) × (open_connection d false before ≡ done tt c)

  unfoldable pub GaveUp : ℕ → Link d → Type 0
  GaveUp deadline c = (c.ser ≡ none) × (deadline ≤ now d c)

  Settled : Option (Link d) → ℕ → Type 0
  Settled result deadline =
      (end : Link d) × (result ≡ some end) × (Reconnected end ⊎ GaveUp deadline end)

  reconnect-late :
      (fuel deadline retry : ℕ) (c : Link d)
      → c.ser ≡ none
      → ltb (now d c) deadline ≡ false
      → Settled (reconnect d (suc fuel) deadline retry c) deadline
  unfolding reconnect Settled GaveUp
  reconnect-late fuel deadline retry c h late =
      (c, rw (late, reconnect) refl, inr (h, ground arith))

  -- a try, and what happens behind it if it fails
  tried :
      (deadline : ℕ) (next : Link d → Option (Link d)) (before : Link d)
      (r : Outcome E (Link d) (Unit {0}))
      → open_connection d false before ≡ r
      → ((c : Link d) → c.ser ≡ none → now d c ≡ now d (world r) → Settled (next c) deadline)
      → Settled (after_open d next r) deadline
  unfolding after_open Settled Reconnected
  tried deadline next before (done tt c) h failed = (c, refl, inl (before, h))
  tried deadline next before (threw e c) h failed = failed (record c { ser = none }) refl refl

  reconnect-tries :
      (fuel deadline retry : ℕ) (c : Link d)
      → ltb (now d c) deadline ≡ true
      → reconnect d (suc fuel) deadline retry c
        ≡ after_open d
            (λ failed. reconnect d fuel deadline (retry + 1) failed)
            (open_connection d false (pause d (pause_before retry) c))
  unfolding reconnect
  reconnect-tries fuel deadline retry c h = rw (h, reconnect) refl

  later_try :
      (retry : ℕ) (c : Link d)
      → now d c + 500_000 ≤ now d (world (open_connection d false (pause d (pause_before retry) c)))
  unfolding pause
  later_try retry c =
      let slept = laws.sleep_passes (pause_before retry) c.outside in
      let opened = (Passes-open_connection d laws false).passes (pause d (pause_before retry) c) in
      let long = pause_before-bounded retry in omega arith

  try_again :
      (fuel deadline retry : ℕ) (c : Link d)
      → ltb (now d c) deadline ≡ true
      → ((c' : Link d)
          → c'.ser ≡ none
          → now d c + 500_000 ≤ now d c'
          → Settled (reconnect d fuel deadline (retry + 1) c') deadline)
      → Settled (reconnect d (suc fuel) deadline retry c) deadline
  try_again fuel deadline retry c early next =
      let before = pause d (pause_before retry) c in
      subst (λ result. Settled result deadline) (sym (reconnect-tries fuel deadline retry c early))
        (tried deadline _ before (open_connection d false before) refl
          λ c' h same. next c' h (let late = later_try retry c in omega arith))

  reconnect-ends :
      (fuel deadline retry : ℕ) (c : Link d)
      → c.ser ≡ none
      → deadline ≤ now d c + 500_000 * fuel
      → Settled (reconnect d (suc fuel) deadline retry c) deadline
  reconnect-ends zero deadline retry c h low = elim (Bool-cases (ltb (now d c) deadline)) [
    | inr late ↦ reconnect-late 0 deadline retry c h late
    | inl early ↦ absurd (let before = early-lt d laws deadline c early in omega arith)
  ]
  reconnect-ends (suc fuel) deadline retry c h low = elim (Bool-cases (ltb (now d c) deadline)) [
    | inr late ↦ reconnect-late (suc fuel) deadline retry c h late
    | inl early ↦
        try_again (suc fuel) deadline retry c early
          λ c' none_left later. reconnect-ends fuel deadline (retry + 1) c' none_left (omega arith)
  ]

  -- how a restart may end: not sent, or with the connection that the tries to reconnect end with
  unfoldable pub RestartEnd : Link d → Outcome E (Link d) (Unit {0}) → Type 0
  RestartEnd c (threw e v) = send_restart d c ≡ threw e v
  RestartEnd c (done a v) =
      (sent acknowledged : Link d) × (send_restart d c ≡ done tt sent)
      × (await_ack d 5_000_001 (now d sent + 5_000_000) [] sent ≡ some acknowledged)
      × (Reconnected v ⊎ GaveUp (now d (close_connection d acknowledged) + 30_000_000) v)

  await_restart-done :
      (sent ack end : Link d)
      → await_ack d 5_000_001 (now d sent + 5_000_000) [] sent ≡ some ack
      → reconnect d 61 (now d (close_connection d ack) + 30_000_000) 0 (close_connection d ack)
        ≡ some end
      → await_restart d 5_000_001 61 (done tt sent) ≡ some (done tt end)
  unfolding await_restart
  await_restart-done sent ack end heard result =
      rw (heard, await_restart) (ap (λ o. Option.map (λ (e : Link d). done tt e) o) result)

  await_restart-ends :
      (c : Link d) (r : Outcome E (Link d) (Unit {0}))
      → send_restart d c ≡ r
      → (end : Outcome E (Link d) (Unit {0})) × (await_restart d 5_000_001 61 r ≡ some end)
        × RestartEnd c end
  unfolding RestartEnd Acknowledges Settled close_connection await_restart
  await_restart-ends c (threw e v) h = (threw e v, refl, h)
  await_restart-ends c (done a sent) h =
      let (ack, heard) =
        await_ack-ends d laws 5_000_000 (now d sent + 5_000_000) [] sent (omega arith) in
      let closed = close_connection d ack in
      let (end, result, last) =
        reconnect-ends 60 (now d closed + 30_000_000) 0 closed refl (omega arith) in
      (done tt end, await_restart-done sent ack end heard result, (sent, ack, h, heard, last))

  -- The restart of a device comes to an end, whatever the port does, under a clock that does not run
  -- backwards and on which a pause takes its time and a read a microsecond at least. It ends with the
  -- exception of opening the port or of sending RESTART; or with a connection that a call of
  -- `_open_serial` made; or, half a minute after the port was closed, with no connection. Sixty tries
  -- to reconnect are enough.
  pub restart_device-ends :
      (c : Link d)
      → (end : Outcome E (Link d) (Unit {0})) × (restart_device d 5_000_001 61 c ≡ some end)
        × RestartEnd c end
  unfolding restart_device
  restart_device-ends c = await_restart-ends c (send_restart d c) refl
