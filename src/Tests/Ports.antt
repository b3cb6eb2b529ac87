-- ===== src/Tests/Ports.antt =====
-- The serial port on concrete inputs.
use embedded_test_runner.Base.{
  ◌≡◌, refl, ℕ, ◌+◌, ◌*◌, ◌≤◌, ◌<◌, ◌⊎◌, Option, some, none, [], codes, arith, ltb, true, false,
  Bool, if◌then◌else◌,
}
use embedded_test_runner.Base.Action.{Outcome, done, threw, Action, world}
use embedded_test_runner.Ports.{Pyserial, PortArgs, try_open, open_serial}
use embedded_test_runner.Ports.Tries.{Failing, IsFinal, as_result, open_serial-as_result}
use embedded_test_runner.Runner.Connection.{
  Device, Connection, Link, now, send_restart, restart_device,
}
use embedded_test_runner.Runner.Connection.Clock.{IsClock}
use embedded_test_runner.Runner.Connection.Reconnect.{RestartEnd, restart_device-ends}

-- a port that is there from the second 2 on, and a world that is a clock in microseconds
abbrev usb : Pyserial (Unit {0}) ℕ (Unit {0})
usb = record {
  serial_for_url = λ port w. done tt w;
  set_baudrate = λ n ser w. done tt w;
  set_timeout = λ n ser w. done tt w;
  open_port = λ ser w. if ltb w 2_000_000 then threw tt w else done tt w;
  flush_input = λ ser w. done tt w;
  set_dtr = λ b ser w. done tt w;
  set_rts = λ b ser w. done tt w;
  reset_input_buffer = λ ser w. done tt w;
  sleep = λ ms w. w + ms * 1000;
  is_port_error = λ e. true;
}

abbrev usb_args : PortArgs
usb_args = record { port = codes "/dev/ttyACM0"; baudrate = 115200; timeout = 1000; reset = true }

opens_third : open_serial usb usb_args 5 0 ≡ done (some tt) 2_200_000
unfolding open_serial try_open embedded_test_runner.Ports.after_try
    embedded_test_runner.Ports.toggle_reset embedded_test_runner.Base.Action.◌>>=◌
    embedded_test_runner.Base.Action.◌>>◌ embedded_test_runner.Base.Action.when
    embedded_test_runner.Base.Action.effect embedded_test_runner.Base.Action.pure
opens_third = refl

gives_up : open_serial usb usb_args 2 0 ≡ threw tt 1_000_000
unfolding open_serial try_open embedded_test_runner.Ports.after_try
    embedded_test_runner.Ports.toggle_reset embedded_test_runner.Base.Action.◌>>=◌
    embedded_test_runner.Base.Action.◌>>◌ embedded_test_runner.Base.Action.when
    embedded_test_runner.Base.Action.effect embedded_test_runner.Base.Action.pure
gives_up = refl

open_serial-as_result_example :
    (n : ℕ) × (v : ℕ) × (n ≤ 4)
    × Failing usb usb_args n 0 v
    × (IsFinal usb (try_open usb usb_args v) ⊎ (n ≡ 4))
    × (open_serial usb usb_args 5 0 ≡ as_result usb (try_open usb usb_args v))
open_serial-as_result_example = open_serial-as_result usb usb_args 4 0

abbrev board : Device (Unit {0}) ℕ (Unit {0})
board = record {
  pyserial = usb;
  resolve_port = λ w. done (codes "/dev/ttyACM0") w;
  test_speed = 115200;
  no_reset = false;
  is_open = λ ser w. true;
  write = λ text ser w. done tt w;
  flush = λ ser w. done tt w;
  read = λ ser w. done [] (w + 1_000_000);
  close = λ ser w. done tt w;
  attribute_error = tt;
  clock = λ w. w;
}

board-IsClock : IsClock board
board-IsClock = record {
  sleep_passes = λ ms w. omega arith;
  resolve_passes = record { passes = λ w. omega arith };
  write_passes = λ text ser. record { passes = λ w. omega arith };
  read_passes = λ ser w. omega arith;
  url_passes = λ port. record { passes = λ w. omega arith };
  baudrate_passes = λ n ser. record { passes = λ w. omega arith };
  timeout_passes = λ n ser. record { passes = λ w. omega arith };
  open_passes = λ ser. record { passes = λ w. ground arith };
  flush_passes = λ ser. record { passes = λ w. omega arith };
  dtr_passes = λ b ser. record { passes = λ w. omega arith };
  rts_passes = λ b ser. record { passes = λ w. omega arith };
  buffer_passes = λ ser. record { passes = λ w. omega arith };
}

abbrev unplugged : Link board
unplugged = record { ser = none; port_path = none; outside = 0 }

-- the port is opened, the acknowledgement never comes, and the port is opened again
restarts :
    restart_device board 7 3 unplugged
    ≡ some (
        done tt
          (record { ser = some tt; port_path = some (codes "/dev/ttyACM0"); outside = 7_500_000 }))
unfolding restart_device open_serial try_open embedded_test_runner.Ports.after_try
    embedded_test_runner.Ports.toggle_reset embedded_test_runner.Base.Action.◌>>=◌
    embedded_test_runner.Base.Action.◌>>◌ embedded_test_runner.Base.Action.when
    embedded_test_runner.Base.Action.effect embedded_test_runner.Base.Action.pure
    embedded_test_runner.Runner.Connection.await_restart
    embedded_test_runner.Runner.Connection.send_restart
    embedded_test_runner.Runner.Connection.is_connected
    embedded_test_runner.Runner.Connection.open_connection
    embedded_test_runner.Runner.Connection.connect embedded_test_runner.Runner.Connection.lift
    embedded_test_runner.Runner.Connection.set_port_path
    embedded_test_runner.Runner.Connection.set_serial
    embedded_test_runner.Runner.Connection.on_serial
    embedded_test_runner.Runner.Connection.send_text
    embedded_test_runner.Runner.Connection.await_ack
    embedded_test_runner.Runner.Connection.after_open
    embedded_test_runner.Runner.Connection.close_connection
    embedded_test_runner.Runner.Connection.is_acknowledged
    embedded_test_runner.Runner.Connection.pause embedded_test_runner.Runner.Connection.pause_before
    embedded_test_runner.Runner.Connection.reconnect
    embedded_test_runner.Runner.Connection.unless_acknowledged embedded_test_runner.Base.find
    embedded_test_runner.Base.strip_prefix embedded_test_runner.Protocol.Crc.compute_crc8
    embedded_test_runner.Protocol.Line.format_crc embedded_test_runner.Protocol.Utf8.encode
    embedded_test_runner.Protocol.Utf8.encode_char
restarts = refl

restart_device-ends_example :
    (end : Outcome (Unit {0}) (Link board) (Unit {0})) × (restart_device board 5_000_001 61
        unplugged
      ≡ some end)
    × RestartEnd board board-IsClock unplugged end
restart_device-ends_example = restart_device-ends board board-IsClock unplugged
