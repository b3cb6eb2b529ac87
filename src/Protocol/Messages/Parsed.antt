-- ===== src/Protocol/Messages/Parsed.antt =====
-- What a receiver gets of the built messages: `parse_line` and `parse_payload` return the tag and
-- the values that the builder was given.
use embedded_test_runner.Base.{
  ◌≡◌, refl, ◌≢◌, true, false, Option, none, some, List, [], ◌∷◌, ◌++◌, Text, codes, Every, All,
  arith, append-nil, strip,
}
use embedded_test_runner.Base.Int.{ℤ}
use embedded_test_runner.Base.Decimal.{str_int}
use embedded_test_runner.Protocol.Utf8.{IsText}
use embedded_test_runner.Protocol.Line.{prefix, format_crc, parse_line, ParsedTag, has_newline}
use embedded_test_runner.Protocol.Line.Suffix.{body}
use embedded_test_runner.Protocol.Line.RoundTrip.{parse_line-format_crc, strip-line_of}
use embedded_test_runner.Protocol.Crc.{compute_crc8}
use embedded_test_runner.Protocol.Crc.Detect.{compute_crc8-lt}
use embedded_test_runner.Protocol.Payload.{not_quote}
use embedded_test_runner.Protocol.Payload.RoundTrip.{Item, quoted_item, plain_item, render, IsItem}
use embedded_test_runner.Protocol.Payload.Shape.{
  IsOneLine, IsTextItem, IsPayload-render, IsText-render, IsText-body,
}
use embedded_test_runner.Protocol.Messages.{
  msg_counts, run_count, msg_case_start, msg_sleep, msg_busy, msg_disconnect,
}
use embedded_test_runner.Protocol.Messages.Checked.{
  IsAsciiTag, str_int-IsPlain, str_int-IsText, check_key, check_key_sound,
}

-- what the parser makes of a message that arrived whole
abbrev pub received : Text → Text → Text → ParsedTag
received line tag payload = record {
  tag = tag;
  payload_str = payload;
  crc_valid = some true;
  raw = line;
}

-- a line that carries a tag and items
abbrev pub message : Text → List Item → Text
message tag is = format_crc (prefix ++ body tag (render is))

abbrev pub IsSendable : List Item → Type 0
IsSendable is = All IsItem is × All IsOneLine is × All IsTextItem is

IsText-line :
    (tag : Text) (is : List Item)
    → IsAsciiTag tag
    → IsSendable is
    → IsText (prefix ++ body tag (render is))
IsText-line tag is ht h =
    let rest = IsText-body tag (render is) ht.1 (IsText-render is h.0 h.2) in
    (omega arith, (omega arith, (omega arith, (omega arith, (omega arith, rest)))))

pub parse_line-message :
    (tag : Text) (is : List Item)
    → IsAsciiTag tag
    → IsSendable is
    → parse_line (message tag is) ≡ some (received (message tag is) tag (render is))
parse_line-message tag is ht h =
    parse_line-format_crc tag (render is) (IsText-line tag is ht h) ht.0
      (IsPayload-render is h.0 h.1)

pub strip-message :
    (tag : Text) (is : List Item)
    → IsAsciiTag tag
    → IsSendable is
    → strip (message tag is) ≡ message tag is
unfolding format_crc
strip-message tag is ht h =
    strip-line_of (body tag (render is)) (compute_crc8 (prefix ++ body tag (render is)))
      (compute_crc8-lt _ (IsText-line tag is ht h))

abbrev pub counts_items : ℤ → ℤ → ℤ → List Item
counts_items total skip run =
    plain_item (codes "total") (str_int total)
    ∷ plain_item (codes "skip") (str_int skip)
    ∷ plain_item (codes "run") (str_int run)
    ∷ []

pub msg_counts-message :
    (total skip : ℤ) (run : Option ℤ)
    → msg_counts total skip run
      ≡ message (codes "COUNTS") (counts_items total skip (run_count total skip run))
unfolding msg_counts
msg_counts-message total skip run = rw (append-nil (str_int (run_count total skip run)))

pub counts_items-IsSendable : (total skip run : ℤ) → IsSendable (counts_items total skip run)
unfolding check_key
counts_items-IsSendable total skip run =
    let plain = λ (k : Text) (n : ℤ) (h : check_key k ≡ true).
      let e : IsItem (plain_item k (str_int n)) = (check_key_sound k h, str_int-IsPlain n) in e in
    (
      (
        plain (codes "total") total refl,
        (plain (codes "skip") skip refl, (plain (codes "run") run refl, tt)),
      ),
      (tt, (tt, (tt, tt))),
      (str_int-IsText total, (str_int-IsText skip, (str_int-IsText run, tt))),
    )

-- SLEEP, BUSY and DISCONNECT carry one number
abbrev pub ms_items : ℤ → List Item
ms_items ms = plain_item (codes "ms") (str_int ms) ∷ []

pub ms_items-IsSendable : (ms : ℤ) → IsSendable (ms_items ms)
unfolding check_key
ms_items-IsSendable ms =
    (((check_key_sound _ refl, str_int-IsPlain ms), tt), (tt, tt), (str_int-IsText ms, tt))

pub msg_sleep-message : (ms : ℤ) → msg_sleep ms ≡ message (codes "SLEEP") (ms_items ms)
unfolding msg_sleep
msg_sleep-message ms = rw (append-nil (str_int ms))

pub msg_busy-message : (ms : ℤ) → msg_busy ms ≡ message (codes "BUSY") (ms_items ms)
unfolding msg_busy
msg_busy-message ms = rw (append-nil (str_int ms))

pub msg_disconnect-message :
    (ms : ℤ) → msg_disconnect ms ≡ message (codes "DISCONNECT") (ms_items ms)
unfolding msg_disconnect
msg_disconnect-message ms = rw (append-nil (str_int ms))

-- a suite or test name that a quoted value can carry
pub record IsQuotable (s : Text) : Type 0 where
  pub some_character : s ≢ []
  pub no_quote : Every not_quote s
  pub one_line : has_newline s ≡ false
  pub is_text : IsText s

abbrev pub timeout_items : Option ℤ → List Item
timeout_items none = []
timeout_items (some timeout) = plain_item (codes "timeout") (str_int timeout) ∷ []

abbrev pub case_items : Text → Text → Option ℤ → List Item
case_items suite name timeout =
    quoted_item (codes "suite") suite ∷ quoted_item (codes "name") name ∷ timeout_items timeout

timeout_items-IsSendable : (timeout : Option ℤ) → IsSendable (timeout_items timeout)
unfolding check_key
timeout_items-IsSendable none = (tt, tt, tt)
timeout_items-IsSendable (some n) =
    (((check_key_sound _ refl, str_int-IsPlain n), tt), (tt, tt), (str_int-IsText n, tt))

pub case_items-IsSendable :
    (suite name : Text) (timeout : Option ℤ)
    → IsQuotable suite
    → IsQuotable name
    → IsSendable (case_items suite name timeout)
unfolding check_key
case_items-IsSendable suite name timeout hs hn =
    let t = timeout_items-IsSendable timeout in
    (
      ((check_key_sound _ refl, hs.no_quote), ((check_key_sound _ refl, hn.no_quote), t.0)),
      (hs.one_line, (hn.one_line, t.1)),
      (hs.is_text, (hn.is_text, t.2)),
    )

pub msg_case_start-message :
    (suite name : Text) (timeout : Option ℤ)
    → msg_case_start suite name timeout
      ≡ message (codes "CASE:START") (case_items suite name timeout)
unfolding msg_case_start
msg_case_start-message suite name none = refl
msg_case_start-message suite name (some n) = rw (append-nil (str_int n))
