-- ===== src/Protocol/Line.antt =====
-- Protocol lines (src/etst/protocol.py: `format_crc`, `ParsedTag`, `parse_line` with the two
-- regular expressions that it matches).
--
-- A regular expression is written out as the match that Python's engine returns: a lazy `\S+?`
-- in front of white space is the whole run of characters that are not white space, `\s+` takes
-- all the white space there is, and a lazy `.*?` in front of `\s+\*XX$` stops before the last
-- run of white space. `.` does not match a newline.
pub mod Suffix
pub mod RoundTrip
use embedded_test_runner.Base.{
  ℕ, ◌+◌, ◌-◌, ◌*◌, ◌/◌, ◌%◌, Bool, true, false, not, ◌||◌, ◌&&◌, Option, none, some, List, [], ◌∷◌,
  ◌++◌, reverse, ltb, ◌==◌, if◌then◌else◌, Text, codes, within, is_space, is_empty, strip_prefix,
  rfind, strip, take, length, take_while, drop_while,
}
use embedded_test_runner.Protocol.Crc.{compute_crc8}

-- PREFIX
abbrev pub prefix : Text
prefix = codes "ETST:"

abbrev pub hex_digit : ℕ → ℕ
hex_digit d = if ltb d 10 then 48 + d else 55 + d

-- f"{n:02X}" of a byte
abbrev pub hex2 : ℕ → Text
hex2 n = hex_digit (n / 16) ∷ hex_digit (n % 16) ∷ []

unfoldable pub format_crc : Text → Text
format_crc content = content ++ (codes " *" ++ hex2 (compute_crc8 content))

pub record ParsedTag : Type 0 where
  pub tag : Text
  pub payload_str : Text
  pub crc_valid : Option Bool
  pub raw : Text

-- the value of a character of `[0-9A-Fa-f]`
unfoldable pub hex_value : ℕ → Option ℕ
hex_value c =
    if within b'0' b'9' c
    then some (c - 48)
    else if within b'A' b'F' c
    then some (c - 55)
    else if within b'a' b'f' c
    then some (c - 87)
    else none

-- the groups of `_LINE_RE`; `hex` holds the two characters of the third
pub record LineMatch : Type 0 where
  pub tag : Text
  pub payload : Text
  pub hex : Text
  pub crc : ℕ

abbrev pub non_space : ℕ → Bool
non_space c = not (is_space c)

abbrev pub is_newline : ℕ → Bool
is_newline c = c == b'\n'

unfoldable pub has_newline : Text → Bool
has_newline [] = false
has_newline (c ∷ s) = is_newline c || has_newline s

-- `(.*?))?\s+\*XX$` behind the white space that follows the tag, on the text in front of `*XX`,
-- last character first
unfoldable pub payload_before : Text → Option Text
unfolding has_newline
payload_before [] = some []
payload_before (c ∷ cs) =
    if is_space c
    then (let payload = reverse (drop_while is_space cs) in
        if has_newline payload then none else some payload)
    else none

unfoldable pub crc_suffix : Text → Text → Option LineMatch
unfolding payload_before hex_value
crc_suffix tag (h2 ∷ h1 ∷ star ∷ before) = elim (hex_value h1) [
  | none ↦ none
  | some v1 ↦ elim (hex_value h2) [
    | none ↦ none
    | some v2 ↦
        if star == b'*'
        then elim (payload_before before) [
          | none ↦ none
          | some payload ↦
              some (record { tag = tag; payload = payload; hex = h1 ∷ h2 ∷ []; crc = v1 * 16 + v2 })
        ]
        else none
  ]
]
crc_suffix tag _ = none

-- `_LINE_RE`, behind "ETST:"
unfoldable pub line_re : Text → Option LineMatch
unfolding crc_suffix
line_re r =
    let tag = take_while non_space r in
    let rest = drop_while non_space r in
    if is_empty tag || is_empty rest
    then none
    else crc_suffix tag (reverse (drop_while is_space rest))

-- `_LINE_NO_CRC_RE`, behind "ETST:": the tag and the payload
unfoldable pub line_no_crc_re : Text → Option (Text × Text)
unfolding has_newline
line_no_crc_re r =
    let tag = take_while non_space r in
    let payload = drop_while is_space (drop_while non_space r) in
    if is_empty tag || has_newline payload then none else some (tag, payload)

-- stripped[:i], where -1 cuts the last character off
abbrev pub slice_to : Option ℕ → Text → Text
slice_to (some i) s = take i s
slice_to none s = take (length s - 1) s

-- the two branches of `parse_line` on a match
unfoldable pub with_crc : Text → LineMatch → ParsedTag
with_crc stripped m =
    let content = slice_to (rfind (codes " *" ++ m.hex) stripped) stripped in
    record {
      tag = m.tag;
      payload_str = m.payload;
      crc_valid = some (compute_crc8 content == m.crc);
      raw = stripped;
    }

unfoldable pub without_crc : Text → Option (Text × Text) → Option ParsedTag
without_crc stripped none = none
without_crc stripped (some (tag, payload)) =
    some (record { tag = tag; payload_str = payload; crc_valid = none; raw = stripped })

-- behind `line.strip()`
unfoldable pub parse_stripped : Text → Option ParsedTag
parse_stripped stripped = elim (strip_prefix prefix stripped) [
  | none ↦ none
  | some r ↦ elim (line_re r) [
    | some m ↦ some (with_crc stripped m)
    | none ↦ without_crc stripped (line_no_crc_re r)
  ]
]

unfoldable pub parse_line : Text → Option ParsedTag
parse_line line = parse_stripped (strip line)
