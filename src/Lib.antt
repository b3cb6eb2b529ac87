-- ===== src/Lib.antt =====
-- The host's side of the embedded test runner: the protocol that a device speaks over a serial line
-- while it runs its tests, the trackers that read the lines, and how the runner turns them into the
-- results of a test suite.
--
-- A line is `ETST:TAG payload *XX`, where XX is the CRC-8 of what stands before it. The runner splits
-- the serial data into lines and feeds each line to the components: the state machine, which knows
-- when the device is ready, runs, sleeps and is done and which tests have started; the disconnect
-- handler; the timing tracker; the result receiver, which reads the output of doctest and of Unity.
-- At the end the runner reconciles the suite with what the state machine saw.
--
-- The files and the code that they model:
--   Protocol/Utf8, Protocol/Crc      src/etst/protocol.py: `compute_crc8` and the encoding it reads
--   Protocol/Line                    src/etst/protocol.py: `format_crc`, `ParsedTag`, `parse_line`
--   Protocol/Payload                 src/etst/protocol.py: `parse_payload`
--   Protocol/Messages                src/etst/protocol.py: the `msg_` functions
--   ReadyRun, ReadyRun/Feed          src/etst/ready_run_protocol.py: `ReadyRunProtocol`. The record
--                                    ReadyRun holds the object's fields; `feed_waiting`, `feed_ready`
--                                    and `handle` are the branches of `feed`, ReadyRun/Feed/Fields
--                                    what it reads of a line
--   Disconnect                       src/etst/disconnect.py: `DisconnectHandler`; a call of a callback
--                                    is an output
--   Timing                           src/etst/timing_tracker.py: `TestTimingTracker`
--   Receiver/Patterns, Receiver      src/etst/result_receiver.py: the regular expressions and
--                                    `TestResultReceiver`
--   Runner/Args, Runner/Args/Warned  src/etst/runner.py: `_env`, `_extract_filters`,
--                                    `_build_initial_command`, `_collect_env_vars`,
--                                    `_build_args_and_run`
--   Runner/Results                   src/etst/runner.py: `_check_assertion_failure`,
--                                    `_report_test_failures`, `_ensure_test_results`,
--                                    `_check_for_under_run`
--   Runner/Stage                     src/etst/runner.py: `stage_testing`, `_handle_sleep_resume`. A
--                                    cycle, the wait for the port and the suite are the operations of
--                                    `Session`
--   Runner/Serial                    src/etst/runner.py: `_on_serial_data`, `_sync_test_name`,
--                                    `_check_crash`. The router and what lies behind it are the
--                                    operations of `Host`
--   Runner/Cycle                     src/etst/runner.py: the loop of `_run_test_cycle`, `_send_command`,
--                                    `_effective_hang_timeout`. A read comes with the readings of the
--                                    clocks; the port is the operations of `Port`
--   Runner/TestCycle                 src/etst/runner.py: the whole of `_run_test_cycle`, over the
--                                    operations of `Bench` and the readings and reads of a `Timeline`
--   Runner/Receivers                 src/etst/runner.py: the fields and the router of `__init__`, as
--                                    the instance of `Host` that the other modules make
--   Runner/Waking                    src/etst/runner.py: how `_handle_sleep_resume` waits for the port
--                                    to go and to come back
--   Runner/LineMode                  src/etst/runner.py: `on_testing_line_output`,
--                                    `configure_hang_timeout`
--   Runner/Plugins                   src/etst/runner.py: `_load_receiver_plugins`, `_notify_plugins`,
--                                    the hooks that forward to it and `setup`
--   Runner/Summary                   src/etst/runner.py: `_print_summary`, `teardown`
--   Runner/Connection                src/etst/runner.py: `_open_serial`, `_close_serial`,
--                                    `_send_command`, `_restart_device`, over the calls of `Device`
--   Ports                            src/etst/serial_port.py: `open_serial`, over those of `Pyserial`
--   BuildInit                        scripts/pio_test_init.py, over the operations of `BuildSystem`
--   Sources                          src/etst/robust_doctest_parser.py: `_parse_source`
-- The other files of each folder hold proofs, Base the names that all of them share, and Tests runs
-- on concrete inputs.
--
-- Conventions. A text is the list of its code points. An operation that changes an object is a
-- function from its state to its state; where `int` raises a ValueError, the result says so and holds
-- the fields set before. The clock is an argument, in milliseconds, and so are durations. A regular
-- expression is a backtracking matcher (Base/Regex), or, for the two of `parse_line` and that of
-- `parse_payload`, the match that Python's engine returns, written out.
--
-- Fuel. The token loop of `parse_payload` runs on fuel one above the length of the text; every
-- round takes at least one character. `str` of a number runs on one more than the number. The loop
-- of `stage_testing` runs on fuel, of which three for each test that sleeps and one more are
-- enough. `_restart_device` runs on two amounts of fuel: one read for each microsecond of its five
-- seconds of waiting, and 61 tries to reconnect, each of which takes half a second at least. The wait
-- for a sleeping device runs on 101 checks for the port to go, a tenth of a second apart, and on one
-- for each fifth of a second of the time that the device has to come back, and one more. All else is
-- structural recursion; a loop that reads the port is one on the list of what its reads give.
--
-- Not modelled: the decoding of bytes, with its replacement characters; logging and echoes; word
-- characters, digits, white space and numerals beyond ASCII; the limit on the digits that `int`
-- reads; callbacks that raise; the serial port, PlatformIO, embedded_bridge and the plugins, of
-- which Runner/Results takes PlatformIO's suite as an interface; src/etst/__init__.py, which only imports.
pub mod Base
pub mod Protocol
pub mod ReadyRun
pub mod Disconnect
pub mod Timing
pub mod Receiver
pub mod Runner
pub mod Sources
pub mod Ports
pub mod BuildInit
pub mod Tests
