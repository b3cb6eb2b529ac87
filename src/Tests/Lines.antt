-- ===== src/Tests/Lines.antt =====
-- Lines of the protocol (src/etst/protocol.py) on concrete inputs.
use embedded_test_runner.Base.{
  ◌≡◌, ◌≢◌, refl, true, false, some, none, [], ◌∷◌, ◌++◌, codes, ℕ, Text, arith, List, Bool, ◌<◌,
}
use embedded_test_runner.Base.{Every, All}
use embedded_test_runner.Base.Dict.{Dict}
use embedded_test_runner.Protocol.Utf8.{IsText}
use embedded_test_runner.Protocol.Crc.{compute_crc8}
use embedded_test_runner.Protocol.Crc.Detect.{compute_crc8-lt, compute_crc8_detects}
use embedded_test_runner.Protocol.Line.{format_crc, parse_line, prefix, ParsedTag}
use embedded_test_runner.Protocol.Line.Suffix.{IsTag, IsPayload, body}
use embedded_test_runner.Protocol.Line.RoundTrip.{
  line_of, parse_line-format_crc, parse_line_corrupted,
}
use embedded_test_runner.Base.Int.{pos}
use embedded_test_runner.Base.Decimal.{str_int}
use embedded_test_runner.Sources.{parse_source}
use embedded_test_runner.Sources.RoundTrip.{parse_source-reference}
use embedded_test_runner.Protocol.Payload.{parse_payload, flag, str}
use embedded_test_runner.Protocol.Payload.RoundTrip.{
  Item, quoted_item, plain_item, flag_item, IsItem, parse_payload-render,
}
use embedded_test_runner.Protocol.Messages.Checked.{
  check_key, check_key_sound, check_tag, check_tag_sound,
}

format_crc-ready : format_crc (codes "ETST:READY") ≡ codes "ETST:READY *61"
unfolding format_crc compute_crc8
format_crc-ready = refl

sleep-IsTag : IsTag (codes "SLEEP")
unfolding check_tag
sleep-IsTag = (check_tag_sound (codes "SLEEP") refl).0

ms-IsPayload : IsPayload (codes "ms=3000")
unfolding embedded_test_runner.Base.lstrip embedded_test_runner.Base.rstrip
    embedded_test_runner.Base.is_space embedded_test_runner.Protocol.Line.has_newline
ms-IsPayload = record { trimmed = record { left = refl; right = refl }; one_line = refl }

abbrev sleep_line : Text
sleep_line = prefix ++ body (codes "SLEEP") (codes "ms=3000")

sleep_line-IsText : IsText sleep_line
sleep_line-IsText = omega arith

ms_prefix-IsText : IsText (codes "ETST:SLEEP ms=")
ms_prefix-IsText = omega arith

zeros-IsText : IsText (codes "000")
zeros-IsText = omega arith

ready-IsText : IsText (codes "ETST:READY")
ready-IsText = omega arith

abbrev items : List Item
items =
    quoted_item (codes "suite") (codes "Net Suite")
    ∷ plain_item (codes "ms") (codes "30")
    ∷ flag_item (codes "last")
    ∷ []

items-IsItem : All IsItem items
unfolding check_key embedded_test_runner.Base.is_space
items-IsItem = (
  (check_key_sound (codes "suite") refl, ground arith),
  (
    (check_key_sound (codes "ms") refl, ((refl, (refl, tt)), λ e. omega (arith, e))),
    ((check_key_sound (codes "last") refl, tt), tt),
  ),
)

-- ETST:SLEEP ms=3000, as it is sent and read
parse_line-format_crc_example :
    parse_line (format_crc sleep_line)
    ≡ some (record {
      tag = codes "SLEEP";
      payload_str = codes "ms=3000";
      crc_valid = some true;
      raw = format_crc sleep_line;
    })
parse_line-format_crc_example =
    parse_line-format_crc (codes "SLEEP") (codes "ms=3000") sleep_line-IsText sleep-IsTag
      ms-IsPayload

-- the same line, sent as ms=2000 and received as ms=3000
parse_line_corrupted_example :
    (p : ParsedTag) × (parse_line (
        line_of
          (body (codes "SLEEP") (codes "ms=3000"))
          (compute_crc8 (codes "ETST:SLEEP ms=2000")))
      ≡ some p)
    × (p.crc_valid ≡ some false)
parse_line_corrupted_example =
    parse_line_corrupted (codes "ETST:SLEEP ms=") (codes "000") (codes "SLEEP") (codes "ms=3000")
      b'2' b'3' ms_prefix-IsText zeros-IsText (omega arith) (omega arith) (λ e. omega (arith, e))
      sleep-IsTag ms-IsPayload refl

parse_payload-render_example :
    parse_payload (codes "suite=\"Net Suite\" ms=30 last")
    ≡ (codes "suite", str (codes "Net Suite"))
      ∷ (codes "ms", str (codes "30"))
      ∷ (codes "last", flag)
      ∷ []
unfolding embedded_test_runner.Base.Dict.insert embedded_test_runner.Base.text_eq
parse_payload-render_example = parse_payload-render items items-IsItem

compute_crc8_detects_example :
    compute_crc8 (codes "ETST:SLEEP ms=2000") ≢ compute_crc8 (codes "ETST:SLEEP ms=3000")
compute_crc8_detects_example =
    compute_crc8_detects (codes "ETST:SLEEP ms=") (codes "000") b'2' b'3' ms_prefix-IsText
      zeros-IsText (omega arith) (omega arith) (λ e. omega (arith, e))

compute_crc8-lt_example : compute_crc8 (codes "ETST:READY") < 256
compute_crc8-lt_example = compute_crc8-lt (codes "ETST:READY") ready-IsText

-- a file on a drive
parse_source-reference_example :
    parse_source (codes "C:/t.cpp:42:") ≡ some (codes "C:/t.cpp", pos 42)
unfolding str_int embedded_test_runner.Base.Decimal.dec
parse_source-reference_example = parse_source-reference (codes "C:/t.cpp") (pos 42)
