-- ===== src/ReadyRun/Feed/Fields.antt =====
-- What `ReadyRunProtocol.feed` reads of a line (src/etst/ready_run_protocol.py): the tags that it
-- tells apart, the fields of a payload, and the result of setting one.
use embedded_test_runner.Base.{
  ℕ, Bool, Option, none, some, [], ◌∷◌, Text, codes, text_eq, lstrip, take_while, drop_while, ◌==◌,
  if◌then◌else◌, reverse,
}
use embedded_test_runner.Base.Int.{ℤ, pos}
use embedded_test_runner.Base.Decimal.{parse_int}
use embedded_test_runner.Protocol.Line.{non_space}
use embedded_test_runner.Protocol.Payload.{Value, str, flag}
use embedded_test_runner.ReadyRun.{ReadyRun}

-- the tags that `feed` tells apart
pub data Tag : Type 0 where
  ready_tag args_tag arg_tag error_tag case_start_tag counts_tag sleep_tag busy_tag : Tag
  restart_tag done_tag warn_tag other_tag : Tag

unfoldable pub tag_of : Text → Tag
tag_of t =
    if text_eq t (codes "READY")
    then ready_tag
    else if text_eq t (codes "ARGS")
    then args_tag
    else if text_eq t (codes "ARG")
    then arg_tag
    else if text_eq t (codes "ERROR")
    then error_tag
    else if text_eq t (codes "CASE:START")
    then case_start_tag
    else if text_eq t (codes "COUNTS")
    then counts_tag
    else if text_eq t (codes "SLEEP")
    then sleep_tag
    else if text_eq t (codes "BUSY")
    then busy_tag
    else if text_eq t (codes "RESTART")
    then restart_tag
    else if text_eq t (codes "DONE")
    then done_tag
    else if text_eq t (codes "WARN")
    then warn_tag
    else other_tag

-- the state after `feed`, and whether it returned or raised a `ValueError`
pub data Fed : Type 0 where
  returned : ReadyRun → Fed
  raised : ReadyRun → Fed

abbrev pub after : Fed → ReadyRun
after (returned p) = p
after (raised p) = p

-- sets a field from a number, or raises
infixl 5 ◌>>=◌
abbrev pub ◌>>=◌ : Fed → (ReadyRun → Fed) → Fed
returned p >>= f = f p
raised p >>= f = raised p

abbrev pub set_or_raise : ReadyRun → Option ℤ → (ℤ → ReadyRun) → Fed
set_or_raise p none f = raised p
set_or_raise p (some n) f = returned (f n)

-- int(payload.get(key, 0)); int(True) is 1
unfoldable pub int_of : Option Value → Option ℤ
int_of none = some (pos 0)
int_of (some flag) = some (pos 1)
int_of (some (str s)) = parse_int s

-- `int(s) if isinstance(s, str) else 0`, of payload.get("ms", "0")
unfoldable pub int_of_str : Option Value → Option ℤ
int_of_str none = some (pos 0)
int_of_str (some flag) = some (pos 0)
int_of_str (some (str s)) = parse_int s

-- `int(timeout) if timeout else 0`, of payload.get("timeout", "")
unfoldable pub timeout_of : Option Value → Option ℤ
timeout_of none = some (pos 0)
timeout_of (some flag) = some (pos 1)
timeout_of (some (str [])) = some (pos 0)
timeout_of (some (str (c ∷ s))) = parse_int (c ∷ s)

-- a text that is not empty
abbrev pub text_of : Option Value → Option Text
text_of (some (str (c ∷ s))) = some (c ∷ s)
text_of _ = none

-- `s.strip('"')`
abbrev pub is_quote : ℕ → Bool
is_quote c = c == b'"'

unfoldable pub strip_quotes : Text → Text
strip_quotes s = reverse (drop_while is_quote (reverse (drop_while is_quote s)))

-- `payload_str.split(None, 1)`: the first word, and what stands behind the white space after it
unfoldable pub first_word : Text → Text
unfolding lstrip
first_word s = take_while non_space (lstrip s)

unfoldable pub behind_first_word : Text → Text
unfolding lstrip
behind_first_word s = lstrip (drop_while non_space (lstrip s))
