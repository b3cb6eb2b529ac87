-- ===== src/Runner/Connection/Clock.antt =====
-- The clock does not run backwards while the port is opened (src/etst/runner.py: `_open_serial`;
-- src/etst/serial_port.py: `open_serial`).
use embedded_test_runner.Base.{
  ℕ, zero, suc, ◌+◌, ◌*◌, ◌≤◌, ◌<◌, ◌≡◌, refl, Bool, true, false, Option-cases, Option, Text, codes,
  arith, inl, inr,
}
use embedded_test_runner.Base.Action.{
  Outcome, done, threw, Action, pure, ◌>>=◌, ◌>>◌, follow, effect, when, world,
}
use embedded_test_runner.Ports.{PortArgs, toggle_reset, try_open, after_try, open_serial}
use embedded_test_runner.Runner.Connection.{
  Device, Link, lift_outcome, lift, now, on_serial, set_port_path, set_serial, port_args, connect,
  open_connection, pause_before,
}

-- the clock does not run backwards in a call
pub record Passes {E W A : Type 0} (clock : W → ℕ) (m : Action E W A) : Type 0 where
  pub passes : (w : W) → clock w ≤ clock (world (m w))

-- The clock does not run backwards, a pause takes its time, and a read takes some.
pub record IsClock {E W Ser : Type 0} (d : Device E W Ser) : Type 0 where
  pub sleep_passes : (ms : ℕ) (w : W) → d.clock w + ms * 1000 ≤ d.clock (d.pyserial.sleep ms w)
  pub resolve_passes : Passes d.clock d.resolve_port
  pub write_passes : (text : Text) (ser : Ser) → Passes d.clock (d.write text ser)
  pub read_passes : (ser : Ser) (w : W) → d.clock w < d.clock (world (d.read ser w))
  pub url_passes : (port : Text) → Passes d.clock (d.pyserial.serial_for_url port)
  pub baudrate_passes : (n : ℕ) (ser : Ser) → Passes d.clock (d.pyserial.set_baudrate n ser)
  pub timeout_passes : (n : ℕ) (ser : Ser) → Passes d.clock (d.pyserial.set_timeout n ser)
  pub open_passes : (ser : Ser) → Passes d.clock (d.pyserial.open_port ser)
  pub flush_passes : (ser : Ser) → Passes d.clock (d.pyserial.flush_input ser)
  pub dtr_passes : (b : Bool) (ser : Ser) → Passes d.clock (d.pyserial.set_dtr b ser)
  pub rts_passes : (b : Bool) (ser : Ser) → Passes d.clock (d.pyserial.set_rts b ser)
  pub buffer_passes : (ser : Ser) → Passes d.clock (d.pyserial.reset_input_buffer ser)

pub pause_before-bounded : (retry : ℕ) → 500 ≤ pause_before retry
unfolding pause_before
pause_before-bounded retry = ground arith

module _ {E W : Type 0} (clock : W → ℕ) where
  Passes-follow :
      {A B : Type 0} (w : W) (r : Outcome E W A) (k : A → Action E W B)
      → clock w ≤ clock (world r)
      → ((a : A) → Passes clock (k a))
      → clock w ≤ clock (world (follow r k))
  Passes-follow w (done a v) k h later = let h' = (later a).passes v in omega arith
  Passes-follow w (threw e v) k h later = h

  Passes-bind :
      {A B : Type 0} {m : Action E W A} {k : A → Action E W B}
      → Passes clock m
      → ((a : A) → Passes clock (k a))
      → Passes clock (m >>= k)
  unfolding ◌>>=◌
  Passes-bind {m = m} {k = k} h later = record {
    passes = λ w. Passes-follow w (m w) k (h.passes w) later;
  }

  Passes-next :
      {B : Type 0} {m : Action E W (Unit {0})} {k : Action E W B}
      → Passes clock m
      → Passes clock k
      → Passes clock (m >> k)
  unfolding ◌>>◌
  Passes-next h later = Passes-bind h (λ a. later)

  Passes-pure : {A : Type 0} (a : A) → Passes {E = E} clock (pure a)
  unfolding pure
  Passes-pure a = record { passes = λ w. omega arith }

  Passes-when : (b : Bool) (m : Action E W (Unit {0})) → Passes clock m → Passes clock (when b m)
  unfolding when
  Passes-when true m h = record { passes = h.passes }
  Passes-when false m h = record { passes = λ w. omega arith }

module _ {E W Ser : Type 0} (d : Device E W Ser) (laws : IsClock d) where
  Passes-effect : (ms : ℕ) → Passes d.clock (effect {E = E} (d.pyserial.sleep ms))
  unfolding effect
  Passes-effect ms = record { passes = λ w. let h = laws.sleep_passes ms w in omega arith }

  Passes-toggle_reset : (ser : Ser) → Passes d.clock (toggle_reset d.pyserial ser)
  unfolding toggle_reset
  Passes-toggle_reset ser = Passes-next d.clock (laws.flush_passes ser) (
      Passes-next d.clock (laws.dtr_passes false ser) (
        Passes-next d.clock (laws.rts_passes false ser) (
          Passes-next d.clock (Passes-effect 100) (
            Passes-next d.clock (laws.dtr_passes true ser)
              (Passes-next d.clock (laws.rts_passes true ser) (Passes-effect 100))))))

  Passes-try_open : (a : PortArgs) → Passes d.clock (try_open d.pyserial a)
  unfolding try_open
  Passes-try_open a = Passes-bind d.clock (laws.url_passes a.port) λ ser.
      Passes-next d.clock (laws.baudrate_passes a.baudrate ser) (
        Passes-next d.clock (laws.timeout_passes a.timeout ser) (
          Passes-next d.clock (laws.open_passes ser) (
            Passes-next d.clock
              (Passes-when d.clock a.reset (toggle_reset d.pyserial ser) (Passes-toggle_reset ser))
              (Passes-next d.clock (laws.buffer_passes ser) (Passes-pure d.clock ser)))))

  after_try-Passes :
      (t : ℕ) (left : ℕ) (next : W → Outcome E W (Option Ser)) (r : Outcome E W Ser)
      → t ≤ d.clock (world r)
      → Passes d.clock next
      → t ≤ d.clock (world (after_try d.pyserial left next r))
  unfolding after_try
  after_try-Passes t left next (done ser v) h later = h
  after_try-Passes t left next (threw e v) h later =
      ground (arith, later.passes (d.pyserial.sleep 1000 v), laws.sleep_passes 1000 v)

  Passes-open_serial :
      (a : PortArgs) (retries : ℕ) → Passes d.clock (open_serial d.pyserial a retries)
  unfolding open_serial
  Passes-open_serial a zero = record { passes = λ w. omega arith }
  Passes-open_serial a (suc left) = record {
    passes = λ w.
        after_try-Passes (d.clock w) left _ (try_open d.pyserial a w) ((Passes-try_open a).passes w)
          (Passes-open_serial a left);
  }

  pub now-lift_outcome :
      {A : Type 0} (c : Link d) (r : Outcome E W A)
      → now d (world (lift_outcome d c r)) ≡ d.clock (world r)
  now-lift_outcome c (done a w) = refl
  now-lift_outcome c (threw e w) = refl

  Passes-lift : {A : Type 0} {m : Action E W A} → Passes d.clock m → Passes (now d) (lift d m)
  unfolding lift
  Passes-lift {m = m} h = record {
    passes = λ c.
        let later = h.passes c.outside in
        let same = now-lift_outcome c (m c.outside) in omega arith;
  }

  Passes-set_port_path : (port : Text) → Passes (now d) (set_port_path d port)
  unfolding set_port_path
  Passes-set_port_path port = record { passes = λ c. omega arith }

  Passes-set_serial : (ser : Option Ser) → Passes (now d) (set_serial d ser)
  unfolding set_serial
  Passes-set_serial ser = record { passes = λ c. omega arith }

  Passes-on_serial :
      {A : Type 0} {m : Ser → Action E W A}
      → ((ser : Ser) → Passes d.clock (m ser))
      → Passes (now d) (on_serial d m)
  unfolding on_serial
  Passes-on_serial {m = m} h = record {
    passes = λ c. elim (Option-cases c.ser) [
      | inl absent ↦ ground (arith, absent)
      | inr (ser, present) ↦ ground (arith, present, (Passes-lift (h ser)).passes c)
    ];
  }

  Passes-connect : (reset : Bool) → Passes (now d) (connect d reset)
  unfolding connect
  Passes-connect reset = Passes-bind (now d) (Passes-lift laws.resolve_passes) λ port.
      Passes-next (now d) (Passes-set_port_path port) (
        Passes-bind (now d) (Passes-lift (Passes-open_serial (port_args d reset port) 5)) λ ser.
          Passes-next (now d) (Passes-set_serial ser)
            (Passes-on_serial (laws.write_passes (codes "\n"))))

  pub Passes-open_connection : (reset : Bool) → Passes (now d) (open_connection d reset)
  unfolding open_connection
  Passes-open_connection reset = record {
    passes = λ c. ground (arith, (Passes-connect reset).passes c);
  }
