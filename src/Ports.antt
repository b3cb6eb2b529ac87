-- ===== src/Ports.antt =====
-- Opening a serial port (src/etst/serial_port.py: `open_serial`).
--
-- pyserial is an argument, the operations of a `Pyserial`; it is taken to be installed. Every call
-- of it may raise. Times are in milliseconds.
pub mod Tries
use embedded_test_runner.Base.{ℕ, zero, suc, Bool, true, false, Option, none, some, Text, leb}
use embedded_test_runner.Base.Action.{Outcome, done, threw, Action, pure, ◌>>=◌, ◌>>◌, effect, when}

-- `serial_for_url` makes a port that is not open; `is_port_error` tells an OSError or a
-- SerialException
pub record Pyserial (E W Ser : Type 0) : Type 0 where
  pub serial_for_url : Text → Action E W Ser
  pub set_baudrate : ℕ → Ser → Action E W (Unit {0})
  pub set_timeout : ℕ → Ser → Action E W (Unit {0})
  pub open_port : Ser → Action E W (Unit {0})
  pub flush_input : Ser → Action E W (Unit {0})
  pub set_dtr : Bool → Ser → Action E W (Unit {0})
  pub set_rts : Bool → Ser → Action E W (Unit {0})
  pub reset_input_buffer : Ser → Action E W (Unit {0})
  pub sleep : ℕ → W → W
  pub is_port_error : E → Bool

-- the arguments but for `retries`
pub record PortArgs : Type 0 where
  pub port : Text
  pub baudrate : ℕ
  pub timeout : ℕ
  pub reset : Bool

module _ {E W Ser : Type 0} (d : Pyserial E W Ser) where
  -- DTR and RTS toggled, which resets the device
  unfoldable pub toggle_reset : Ser → Action E W (Unit {0})
  toggle_reset ser = do
    d.flush_input ser
    d.set_dtr false ser
    d.set_rts false ser
    effect (d.sleep 100)
    d.set_dtr true ser
    d.set_rts true ser
    effect (d.sleep 100)

  -- the `try`
  unfoldable pub try_open : PortArgs → Action E W Ser
  try_open a = do
    ser ← d.serial_for_url a.port
    d.set_baudrate a.baudrate ser
    d.set_timeout a.timeout ser
    d.open_port ser
    when a.reset (toggle_reset ser)
    d.reset_input_buffer ser
    pure ser

  -- The `except`: a port error is followed by a pause and the next attempt, unless this was the
  -- last one; `left` are the attempts after this one.
  unfoldable pub after_try :
      ℕ → (W → Outcome E W (Option Ser)) → Outcome E W Ser → Outcome E W (Option Ser)
  after_try left next (done ser w) = done (some ser) w
  after_try left next (threw e w) = elim (d.is_port_error e) [
    | true ↦ elim (leb 1 left) [ true ↦ next (d.sleep 1000 w) | false ↦ threw e w ]
    | false ↦ threw e w
  ]

  -- the loop; without retries it is left at once, and the function returns None
  unfoldable pub open_serial : PortArgs → ℕ → Action E W (Option Ser)
  open_serial a zero w = done none w
  open_serial a (suc left) w = after_try left (λ v. open_serial a left v) (try_open a w)
