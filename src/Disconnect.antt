-- ===== src/Disconnect.antt =====
-- Planned disconnections (src/etst/disconnect.py). Durations and times are in milliseconds.
--
-- A handler may have no callbacks; `on_disconnect` and `on_reconnect` say whether it has. The
-- calls that `feed` makes of them are its output. A `ValueError` of `int` leaves `feed` before
-- anything is changed.
pub mod Windows
use embedded_test_runner.Base.{
  ℕ, ◌+◌, Bool, true, false, not, Option, none, some, List, [], ◌∷◌, ◌++◌, Text, codes, text_eq,
  strip, if◌then◌else◌,
}
use embedded_test_runner.Base.Int.{ℤ, pos}
use embedded_test_runner.Base.Dict.{lookup}
use embedded_test_runner.Protocol.Line.{ParsedTag, parse_line}
use embedded_test_runner.Protocol.Payload.{parse_payload}
use embedded_test_runner.ReadyRun.Feed.{crc_failed, int_of_str}

pub record Handler : Type 0 where
  pub on_disconnect : Bool
  pub on_reconnect : Bool
  pub active : Bool
  pub pending_duration : ℤ
  pub disconnect_count : ℕ
  pub disconnect_time : Option ℤ

abbrev pub new : Bool → Bool → Handler
new on_disconnect on_reconnect = record {
  on_disconnect = on_disconnect;
  on_reconnect = on_reconnect;
  active = false;
  pending_duration = pos 0;
  disconnect_count = 0;
  disconnect_time = none;
}

pub data Call : Type 0 where
  disconnected : ℤ → Call
  reconnected : Call

pub data Fed : Type 0 where
  returned : Handler → List Call → Fed
  raised : Handler → Fed

abbrev call_if : Bool → Call → List Call
call_if has_callback call = if has_callback then call ∷ [] else []

unfoldable pub disconnect : ℤ → Handler → Option ℤ → Fed
disconnect now h none = raised h
disconnect now h (some ms) =
    returned (record h { active = true; pending_duration = ms; disconnect_time = some now })
      (call_if h.on_disconnect (disconnected ms))

unfoldable pub reconnect : Handler → Fed
reconnect h =
    if not h.active
    then returned h []
    else returned
        (record h {
          active = false;
          disconnect_count = h.disconnect_count + 1;
          disconnect_time = none;
        })
        (call_if h.on_reconnect reconnected)

unfoldable pub feed_parsed : ℤ → Handler → Option ParsedTag → Fed
unfolding disconnect reconnect
feed_parsed now h none = returned h []
feed_parsed now h (some t) =
    if crc_failed t
    then returned h []
    else if text_eq t.tag (codes "DISCONNECT")
    then disconnect now h (int_of_str (lookup (codes "ms") (parse_payload t.payload_str)))
    else if text_eq t.tag (codes "RECONNECT")
    then reconnect h
    else returned h []

unfoldable pub feed : ℤ → Handler → Text → Fed
feed now h message = feed_parsed now h (parse_line (strip message))

unfoldable pub reset : Handler → Handler
reset h = record h {
  active = false;
  pending_duration = pos 0;
  disconnect_count = 0;
  disconnect_time = none;
}
