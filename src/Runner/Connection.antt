-- ===== src/Runner/Connection.antt =====
-- The connection to the device (src/etst/runner.py: `_open_serial`, `_close_serial`,
-- `_send_command`, `_restart_device`).
--
-- The port itself, `_resolve_port` and the clock are the operations of a `Device`; what is read is
-- taken as decoded text. Pauses are in milliseconds, and the clock, `time.time()`, is in microseconds.
-- The echoes are left out.
pub mod Clock
pub mod Acknowledged
pub mod Reconnect
use embedded_test_runner.Base.{
  ℕ, zero, suc, ◌+◌, ◌*◌, Bool, true, false, not, ◌&&◌, Option, none, some, [], ◌++◌, Text, codes,
  ltb, leb, is_empty, find, if◌then◌else◌,
}
use mathlib.Core.Option
use embedded_test_runner.Base.Action.{
  Outcome, done, threw, Action, pure, ◌>>=◌, ◌>>◌, when, swallow, world,
}
use embedded_test_runner.Protocol.Line.{format_crc}
use embedded_test_runner.Ports.{Pyserial, PortArgs, open_serial}

-- `attribute_error` is what a method call on None raises
pub record Device (E W Ser : Type 0) : Type 0 where
  pub pyserial : Pyserial E W Ser
  pub resolve_port : Action E W Text
  pub test_speed : ℕ
  pub no_reset : Bool
  pub is_open : Ser → W → Bool
  pub write : Text → Ser → Action E W (Unit {0})
  pub flush : Ser → Action E W (Unit {0})
  pub read : Ser → Action E W Text
  pub close : Ser → Action E W (Unit {0})
  pub attribute_error : E
  pub clock : W → ℕ

-- `_ser`, `_port_path`, and all else
pub record Connection (W Ser : Type 0) : Type 0 where
  pub ser : Option Ser
  pub port_path : Option Text
  pub outside : W

-- the pause before a try to reconnect: min((retry + 1) / 2.0, 2.0) seconds
unfoldable pub pause_before : ℕ → ℕ
pause_before retry = if leb ((retry + 1) * 500) 2000 then (retry + 1) * 500 else 2000

module _ {E W Ser : Type 0} (d : Device E W Ser) where
  abbrev pub Link : Type 0
  Link = Connection W Ser

  -- a call that leaves the runner's fields alone
  abbrev pub lift_outcome : {A : Type 0} → Link → Outcome E W A → Outcome E Link A
  lift_outcome c (done a w) = done a (record c { outside = w })
  lift_outcome c (threw e w) = threw e (record c { outside = w })

  unfoldable pub lift : {A : Type 0} → Action E W A → Action E Link A
  lift m c = lift_outcome c (m c.outside)

  abbrev pub now : Link → ℕ
  now c = d.clock c.outside

  -- `self._ser and self._ser.is_open`
  unfoldable pub is_connected : Link → Bool
  is_connected c = elim c.ser [ none ↦ false | some ser ↦ d.is_open ser c.outside ]

  -- a method of `self._ser`
  unfoldable pub on_serial : {A : Type 0} → (Ser → Action E W A) → Action E Link A
  on_serial m c = elim c.ser [ none ↦ threw d.attribute_error c | some ser ↦ lift (m ser) c ]

  unfoldable pub set_port_path : Text → Action E Link (Unit {0})
  set_port_path port c = done tt (record c { port_path = some port })

  unfoldable pub set_serial : Option Ser → Action E Link (Unit {0})
  set_serial ser c = done tt (record c { ser = ser })

  -- the arguments of `open_serial` here; the timeout is its default
  abbrev pub port_args : Bool → Text → PortArgs
  port_args reset port = record {
    port = port;
    baudrate = d.test_speed;
    timeout = 1000;
    reset = reset && not d.no_reset;
  }

  unfoldable pub connect : Bool → Action E Link (Unit {0})
  connect reset = do
    port ← lift d.resolve_port
    set_port_path port
    ser ← lift (open_serial d.pyserial (port_args reset port) 5)
    set_serial ser
    on_serial (d.write (codes "\n"))

  -- `_open_serial`
  unfoldable pub open_connection : Bool → Action E Link (Unit {0})
  unfolding connect
  open_connection reset c = elim (is_connected c) [ true ↦ done tt c | false ↦ connect reset c ]

  -- `_close_serial`
  unfoldable pub close_connection : Link → Link
  close_connection c =
      let closed = if is_connected c then world (swallow (on_serial d.close c)) else c in
      record closed { ser = none }

  -- `_send_command`
  unfoldable pub send_text : Text → Action E Link (Unit {0})
  send_text command c =
      when (is_connected c)
        (do on_serial (d.write (format_crc command ++ codes "\n")); on_serial d.flush) c

  -- the loop that waits for the device to acknowledge the restart, to which an exception is an end
  -- as well; `none` is out of fuel
  abbrev pub after_read : (Text → Link → Option Link) → Outcome E Link Text → Option Link
  after_read next (done data' c) = next data' c
  after_read next (threw e c) = some c

  unfoldable pub is_acknowledged : Text → Text → Bool
  is_acknowledged data' buf =
      not (is_empty data') && elim (find (codes "Restarting") buf) [ none ↦ false | some i ↦ true ]

  -- on the data just read and the buffer with it
  unfoldable pub unless_acknowledged :
      (Text → Link → Option Link) → Text → Text → Link → Option Link
  unless_acknowledged next data' buf c = elim (is_acknowledged data' buf) [
    | true ↦ some c
    | false ↦ next buf c
  ]

  unfoldable pub await_ack : ℕ → ℕ → Text → Link → Option Link
  await_ack zero deadline buf c = none
  await_ack (suc fuel) deadline buf c = elim (ltb (now c) deadline) [
    | false ↦ some c
    | true ↦
        after_read
          (λ data' read.
            unless_acknowledged (λ b l. await_ack fuel deadline b l) data' (buf ++ data') read)
          (on_serial d.read c)
  ]

  unfoldable pub pause : ℕ → Link → Link
  pause ms c = record c { outside = d.pyserial.sleep ms c.outside }

  unfoldable pub after_open : (Link → Option Link) → Outcome E Link (Unit {0}) → Option Link
  after_open next (done a c) = some c
  after_open next (threw e c) = next (record c { ser = none })

  -- the loop that opens the port again; `none` is out of fuel
  unfoldable pub reconnect : ℕ → ℕ → ℕ → Link → Option Link
  reconnect zero deadline retry c = none
  reconnect (suc fuel) deadline retry c = elim (ltb (now c) deadline) [
    | false ↦ some c
    | true ↦
        after_open (λ failed. reconnect fuel deadline (retry + 1) failed)
          (open_connection false (pause (pause_before retry) c))
  ]

  -- once RESTART is sent
  unfoldable pub await_restart :
      ℕ → ℕ → Outcome E Link (Unit {0}) → Option (Outcome E Link (Unit {0}))
  await_restart ack_fuel fuel (threw e c) = some (threw e c)
  await_restart ack_fuel fuel (done a c) = elim (await_ack ack_fuel (now c + 5_000_000) [] c) [
    | none ↦ none
    | some acknowledged ↦
        let closed = close_connection acknowledged in
        Option.map (λ (end : Link). done tt end) (reconnect fuel (now closed + 30_000_000) 0 closed)
  ]

  unfoldable pub send_restart : Action E Link (Unit {0})
  send_restart c =
      (do when (not (is_connected c)) (open_connection false); send_text (codes "RESTART")) c

  -- `_restart_device`; `ack_fuel` bounds the reads while it waits, `fuel` the tries to reconnect
  unfoldable pub restart_device : ℕ → ℕ → Link → Option (Outcome E Link (Unit {0}))
  restart_device ack_fuel fuel c = await_restart ack_fuel fuel (send_restart c)
