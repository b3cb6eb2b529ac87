-- ===== src/Protocol/Payload.antt =====
-- Payloads (src/etst/protocol.py: `_TOKEN_RE` and `parse_payload`).
--
-- The scan stands at a place in the text. Characters that are not word characters are passed
-- over; at a word character the key is the whole run of them, and the three alternatives of the
-- expression are tried in their order behind it.
pub mod Scan
pub mod RoundTrip
pub mod Shape
use embedded_test_runner.Base.Dict.{Dict, insert}
use embedded_test_runner.Base.{
  ℕ, zero, suc, Bool, true, false, not, ◌&&◌, Option, none, some, [], ◌∷◌, ◌==◌, if◌then◌else◌,
  Text, is_word, length, take_while, drop_while,
}
use embedded_test_runner.Protocol.Line.{non_space}

-- `str | bool`; a bare flag maps to True
pub data Value : Type 0 where
  str : Text → Value
  flag : Value

abbrev pub not_quote : ℕ → Bool
not_quote c = not (c == b'"')

-- `[^"]*"` behind the opening quote: the value and what follows the closing quote
closed : Text → Text → Option (Value × Text)
closed value [] = none
closed value (quote ∷ rest) = some (str value, rest)

quoted : Text → Option (Value × Text)
unfolding closed
quoted (e ∷ q ∷ rest) =
    if e == b'=' && q == b'"'
    then closed (take_while not_quote rest) (drop_while not_quote rest)
    else none
quoted _ = none

-- `=(\S+)`
plain_value : Text → Text → Option (Value × Text)
plain_value [] rest = none
plain_value (c ∷ value) rest = some (str (c ∷ value), rest)

plain : Text → Option (Value × Text)
unfolding plain_value
plain (e ∷ rest) =
    if e == b'=' then plain_value (take_while non_space rest) (drop_while non_space rest) else none
plain [] = none

-- what follows a key: its value, and the rest of the text
unfoldable pub value_of : Text → Value × Text
unfolding quoted plain
value_of rest = elim (quoted rest) [
  | some found ↦ found
  | none ↦ elim (plain rest) [ some found ↦ found | none ↦ (flag, rest) ]
]

-- the loop over the matches
unfoldable pub token_loop : ℕ → Dict Value → Text → Dict Value
token_loop zero result s = result
token_loop (suc fuel) result [] = result
token_loop (suc fuel) result (c ∷ s) = elim (is_word c) [
  | true ↦
      let key = take_while is_word (c ∷ s) in
      let (value, rest) = value_of (drop_while is_word (c ∷ s)) in
      token_loop fuel (insert key value result) rest
  | false ↦ token_loop fuel result s
]

-- every round consumes a character, so the length is fuel enough
unfoldable pub parse_from : Dict Value → Text → Dict Value
parse_from result s = token_loop (suc (length s)) result s

unfoldable pub parse_payload : Text → Dict Value
unfolding parse_from
parse_payload s = parse_from [] s
