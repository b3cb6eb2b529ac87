-- ===== src/Runner/Connection/Acknowledged.antt =====
-- The wait for the device to acknowledge a restart comes to an end (src/etst/runner.py: `_restart_device`).
use embedded_test_runner.Base.{
  ℕ, zero, suc, ◌+◌, ◌≤◌, ◌<◌, ◌≡◌, refl, ◌∙◌, true, false, Option-cases, none, some, ◌++◌, Text,
  arith, ltb, Bool-cases, inl, inr,
}
use embedded_test_runner.Base.Action.{Outcome, done, threw, world}
use embedded_test_runner.Runner.Connection.{
  Device, Link, lift, now, on_serial, await_ack, after_read, unless_acknowledged, is_acknowledged,
}
use embedded_test_runner.Runner.Connection.Clock.{IsClock, now-lift_outcome}

module _ {E W Ser : Type 0} (d : Device E W Ser) (laws : IsClock d) where
  await_ack-late :
      (fuel deadline : ℕ) (buf : Text) (c : Link d)
      → ltb (now d c) deadline ≡ false
      → await_ack d (suc fuel) deadline buf c ≡ some c
  unfolding await_ack
  await_ack-late fuel deadline buf c h = rw (h, await_ack) refl

  await_ack-reads :
      (fuel deadline : ℕ) (buf : Text) (c : Link d)
      → ltb (now d c) deadline ≡ true
      → await_ack d (suc fuel) deadline buf c
        ≡ after_read d
            (λ text read.
              unless_acknowledged d (λ b l. await_ack d fuel deadline b l) text (buf ++ text) read)
            (on_serial d d.read c)
  unfolding await_ack
  await_ack-reads fuel deadline buf c h = rw (h, await_ack) refl

  unfoldable pub Acknowledges : ℕ → ℕ → Text → Link d → Type 0
  Acknowledges fuel deadline buf c = (end : Link d) × (await_ack d fuel deadline buf c ≡ some end)

  after_read-ends :
      (fuel deadline : ℕ) (buf : Text) (r : Outcome E (Link d) Text)
      → ((b : Text) → Acknowledges fuel deadline b (world r))
      → (end : Link d) × (after_read d
            (λ text read.
              unless_acknowledged d (λ b l. await_ack d fuel deadline b l) text (buf ++ text) read)
            r
          ≡ some end)
  unfolding unless_acknowledged Acknowledges
  after_read-ends fuel deadline buf (threw e c) h = (c, refl)
  after_read-ends fuel deadline buf (done text c) h =
      elim (Bool-cases (is_acknowledged d text (buf ++ text))) [
        | inl heard ↦ (c, ground (arith, heard))
        | inr silence ↦ let rest = h (buf ++ text) in (rest.0, ground (arith, silence, rest.1))
      ]

  reading_passes :
      (c : Link d) {ser : Ser} → c.ser ≡ some ser → now d c < now d (world (on_serial d d.read c))
  unfolding on_serial lift
  reading_passes c {ser} present =
      let same = now-lift_outcome d laws c (d.read ser c.outside) in
      let later = laws.read_passes ser c.outside in ground (arith, present, same, later)

  read_on :
      (fuel deadline : ℕ) (buf : Text) (c : Link d)
      → ltb (now d c) deadline ≡ true
      → ((b : Text) → Acknowledges fuel deadline b (world (on_serial d d.read c)))
      → Acknowledges (suc fuel) deadline buf c
  unfolding Acknowledges
  read_on fuel deadline buf c early h =
      let rest = after_read-ends fuel deadline buf (on_serial d d.read c) h in
      (rest.0, await_ack-reads fuel deadline buf c early ∙ rest.1)

  pub early-lt : (deadline : ℕ) (c : Link d) → ltb (now d c) deadline ≡ true → now d c < deadline
  early-lt deadline c h = ground arith

  Acknowledges-without_port :
      (fuel deadline : ℕ) (buf : Text) (c : Link d)
      → ltb (now d c) deadline ≡ true
      → c.ser ≡ none
      → Acknowledges (suc fuel) deadline buf c
  unfolding Acknowledges on_serial
  Acknowledges-without_port fuel deadline buf c early absent =
      (c, await_ack-reads fuel deadline buf c early ∙ rw absent refl)

  -- no longer than a read for each microsecond up to the deadline
  pub await_ack-ends :
      (fuel deadline : ℕ) (buf : Text) (c : Link d)
      → deadline ≤ now d c + fuel
      → Acknowledges (suc fuel) deadline buf c
  unfolding Acknowledges
  await_ack-ends zero deadline buf c h = elim (Bool-cases (ltb (now d c) deadline)) [
    | inr late ↦ (c, await_ack-late 0 deadline buf c late)
    | inl early ↦ absurd (let low = early-lt deadline c early in omega arith)
  ]
  await_ack-ends (suc fuel) deadline buf c h = elim (Bool-cases (ltb (now d c) deadline)) [
    | inr late ↦ (c, await_ack-late (suc fuel) deadline buf c late)
    | inl early ↦ elim (Option-cases c.ser) [
      | inl absent ↦ Acknowledges-without_port (suc fuel) deadline buf c early absent
      | inr (ser, present) ↦ read_on (suc fuel) deadline buf c early λ b.
          await_ack-ends fuel deadline b (world (on_serial d d.read c))
            (let later = reading_passes c present in omega arith)
    ]
  ]
