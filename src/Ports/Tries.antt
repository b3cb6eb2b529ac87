-- ===== src/Ports/Tries.antt =====
-- Which try of `open_serial` decides (src/etst/serial_port.py).
use embedded_test_runner.Base.{
  ℕ, zero, suc, ◌≤◌, ◌≡◌, refl, true, false, Option, some, arith, sym, ap, subst, ◌∙◌, Bool-cases,
  inl, inr, ◌⊎◌,
}
use embedded_test_runner.Base.Action.{Outcome, done, threw}
use embedded_test_runner.Ports.{Pyserial, PortArgs, try_open, after_try, open_serial}

module _ {E W Ser : Type 0} (d : Pyserial E W Ser) where
  -- `n` tries one after another, each of which fails with a port error and is followed by a pause
  -- of a second
  pub data Failing (a : PortArgs) : ℕ → W → W → Type 0 where
    here : {w : W} → Failing a 0 w w
    fails :
        {n : ℕ} {w v : W} (e : E)
        → try_open d a w ≡ threw e v
        → d.is_port_error e ≡ true
        → {u : W} → Failing a n (d.sleep 1000 v) u
        → Failing a (suc n) w u

  abbrev pub as_result : Outcome E W Ser → Outcome E W (Option Ser)
  as_result (done ser w) = done (some ser) w
  as_result (threw e w) = threw e w

  -- a try that is not followed by another: it succeeds, or it fails with another error
  abbrev pub IsFinal : Outcome E W Ser → Type 0
  IsFinal (done ser w) = Unit
  IsFinal (threw e w) = d.is_port_error e ≡ false

  after_try-final :
      (left : ℕ) (next : W → Outcome E W (Option Ser)) (r : Outcome E W Ser)
      → IsFinal r ⊎ (left ≡ 0)
      → after_try d left next r ≡ as_result r
  unfolding after_try
  after_try-final left next (done ser w) h = refl
  after_try-final left next (threw e w) (inl h) = ground (arith, h)
  after_try-final left next (threw e w) (inr h) = ground (arith, h)

  after_try-next :
      (left : ℕ) (next : W → Outcome E W (Option Ser)) (e : E) (w : W)
      → d.is_port_error e ≡ true
      → after_try d (suc left) next (threw e w) ≡ next (d.sleep 1000 w)
  unfolding after_try
  after_try-next left next e w h = ground (arith, h)

  Decided : PortArgs → ℕ → W → Type 0
  Decided a left w =
      (n : ℕ) × (v : W) × (n ≤ left)
      × Failing a n w v
      × (IsFinal (try_open d a v) ⊎ (n ≡ left))
      × (open_serial d a (suc left) w ≡ as_result (try_open d a v))

  at_once :
      (a : PortArgs) (left : ℕ) (w : W) → IsFinal (try_open d a w) ⊎ (left ≡ 0) → Decided a left w
  unfolding Decided open_serial
  at_once a left w (inl h) =
      (0, w, omega arith, here, inl h, after_try-final left _ (try_open d a w) (inl h))
  at_once a left w (inr h) =
      (0, w, omega arith, here, inr (sym h), after_try-final left _ (try_open d a w) (inr h))

  another :
      (a : PortArgs) (left : ℕ) (w : W) {e : E} {u : W}
      → try_open d a w ≡ threw e u
      → d.is_port_error e ≡ true
      → Decided a left (d.sleep 1000 u)
      → Decided a (suc left) w
  unfolding Decided open_serial
  another a left w raised port (n, v, low, tries, last, result) = (
    suc n,
    v,
    omega arith,
    fails _ raised port tries,
    elim last [ inl final ↦ inl final | inr end ↦ inr (ap suc end) ],
    ap (after_try d (suc left) _) raised ∙ after_try-next left _ _ _ port ∙ result,
  )

  decide :
      (a : PortArgs) (left : ℕ) (w : W) (r : Outcome E W Ser)
      → try_open d a w ≡ r
      → Decided a left w
  decide a left w (done ser u) h = at_once a left w (inl (subst IsFinal (sym h) tt))
  decide a zero w (threw e u) h = at_once a 0 w (inr refl)
  decide a (suc left) w (threw e u) h = elim (Bool-cases (d.is_port_error e)) [
    | inl port ↦ another a left w h port (decide a left (d.sleep 1000 u) _ refl)
    | inr other ↦ at_once a (suc left) w (inl (subst IsFinal (sym h) other))
  ]

  -- With at least one attempt, `open_serial` ends the way one of its attempts does, which is at most
  -- the last one allowed. All attempts before it fail with an OSError or a SerialException, with a
  -- pause of a second behind each. The deciding one succeeds, fails with another exception, or is
  -- the last. In particular the result is an open port or the exception, never None.
  pub open_serial-as_result :
      (a : PortArgs) (left : ℕ) (w : W)
      → (n : ℕ) × (v : W) × (n ≤ left)
        × Failing a n w v
        × (IsFinal (try_open d a v) ⊎ (n ≡ left))
        × (open_serial d a (suc left) w ≡ as_result (try_open d a v))
  unfolding Decided
  open_serial-as_result a left w = decide a left w (try_open d a w) refl
