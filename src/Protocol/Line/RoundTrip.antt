-- ===== src/Protocol/Line/RoundTrip.antt =====
-- Lines that carry a checksum, whatever it is: `parse_line` returns the tag and the payload that
-- stand in them, and compares the checksum with that of the content.
use embedded_test_runner.Base.{
  ℕ, ◌/◌, ◌%◌, ◌<◌, ◌≡◌, ◌≢◌, refl, sym, ap, subst, ◌∙◌, true, false, some, [], ◌∷◌, ◌++◌,
  append_assoc, arith, ◌==◌, ==_iff, Text, codes, is_space, strip_prefix, strip_prefix-append,
  rfind-append, strip, IsTrimmed, IsTrimmed-intro, strip-IsTrimmed, take-length-append,
}
use embedded_test_runner.Protocol.Utf8.{IsText}
use embedded_test_runner.Protocol.Crc.{compute_crc8}
use embedded_test_runner.Protocol.Crc.Detect.{compute_crc8-lt, compute_crc8_detects}
use embedded_test_runner.Protocol.Line.{
  prefix, hex_digit, hex2, format_crc, ParsedTag, LineMatch, line_re, with_crc, parse_stripped,
  parse_line,
}
use embedded_test_runner.Protocol.Line.Suffix.{
  IsTag, IsPayload, body, suffix, match_of, hex_digit_not_space, line_re-suffix,
}

-- the whole line, for content `prefix ++ b` and a checksum `n`
abbrev pub line_of : Text → ℕ → Text
line_of b n = (prefix ++ b) ++ suffix n

pub strip-line_of : (b : Text) (n : ℕ) → n < 256 → strip (line_of b n) ≡ line_of b n
strip-line_of b n small = strip-IsTrimmed (line_of b n) (
    subst IsTrimmed
      (append_assoc (prefix ++ b) (codes " *" ++ hex_digit (n / 16) ∷ []) (hex_digit (n % 16) ∷ []))
      (IsTrimmed-intro b'E' (codes "TST:" ++ b ++ (codes " *" ++ hex_digit (n / 16) ∷ []))
        (hex_digit (n % 16)) (unfold is_space in refl)
        (hex_digit_not_space (n % 16) (omega arith))))

with_crc-line_of :
    (tag payload : Text) (n : ℕ)
    → with_crc (line_of (body tag payload) n) (match_of tag payload n) ≡ record {
      tag = tag;
      payload_str = payload;
      crc_valid = some (compute_crc8 (prefix ++ body tag payload) == n);
      raw = line_of (body tag payload) n;
    }
unfolding with_crc
with_crc-line_of tag payload n = rw (
  rfind-append (prefix ++ body tag payload) b' ' (b'*' ∷ hex2 n),
  take-length-append (prefix ++ body tag payload) (suffix n),
)

parse_stripped-with_crc :
    (s r : Text) (m : LineMatch)
    → strip_prefix prefix s ≡ some r
    → line_re r ≡ some m
    → parse_stripped s ≡ some (with_crc s m)
unfolding parse_stripped
parse_stripped-with_crc s r m e f = rw (e, parse_stripped) (rw f)

-- A line with a checksum: the tag and the payload come back, and the checksum is compared with
-- that of the content.
pub parse_line-line_of :
    (tag payload : Text) (n : ℕ)
    → n < 256
    → IsTag tag
    → IsPayload payload
    → parse_line (line_of (body tag payload) n)
      ≡ some (record {
        tag = tag;
        payload_str = payload;
        crc_valid = some (compute_crc8 (prefix ++ body tag payload) == n);
        raw = line_of (body tag payload) n;
      })
unfolding parse_line
parse_line-line_of tag payload n small ht hp =
    let (rest, shape, found) = line_re-suffix tag payload n small ht hp in
    let whole : line_of (body tag payload) n ≡ prefix ++ (tag ++ b' ' ∷ rest) =
      append_assoc prefix (body tag payload) (suffix n) ∙ ap (λ r. prefix ++ r) shape in
    let behind : strip_prefix prefix (line_of (body tag payload) n) ≡ some (tag ++ b' ' ∷ rest) =
      ap (strip_prefix prefix) whole ∙ strip_prefix-append prefix (tag ++ b' ' ∷ rest) in
    ap parse_stripped (strip-line_of (body tag payload) n small)
    ∙ parse_stripped-with_crc _ _ (match_of tag payload n) behind found
    ∙ ap some (with_crc-line_of tag payload n)

-- What `format_crc` builds of a tag that is one word and a payload that is trimmed and has no
-- newline is read back as the same tag and payload, with a valid checksum.
pub parse_line-format_crc :
    (tag payload : Text)
    → IsText (prefix ++ body tag payload)
    → IsTag tag
    → IsPayload payload
    → parse_line (format_crc (prefix ++ body tag payload))
      ≡ some (record {
        tag = tag;
        payload_str = payload;
        crc_valid = some true;
        raw = format_crc (prefix ++ body tag payload);
      })
unfolding format_crc
parse_line-format_crc tag payload h ht hp =
    let n = compute_crc8 (prefix ++ body tag payload) in
    parse_line-line_of tag payload n (compute_crc8-lt _ h) ht hp
    ∙ ap
        (λ b. some (record {
          tag = tag;
          payload_str = payload;
          crc_valid = some b;
          raw = line_of (body tag payload) n;
        }))
        ((==_iff n n).1 refl)

not_eq : (m n : ℕ) → m ≢ n → (m == n) ≡ false
not_eq m n h = ground arith

All-insert : (xs ys : Text) (a : ℕ) → IsText xs → IsText ys → a < 0x110000 → IsText (xs ++ a ∷ ys)
All-insert [] ys a hx hy ha = (ha, hy)
All-insert (x ∷ xs) ys a hx hy ha = (hx.0, All-insert xs ys a hx.1 hy ha)

-- A line whose content changed in one ASCII character under way, the checksum being still that of
-- the content sent, is marked as invalid, if what arrives is still a tag and a payload that is
-- trimmed and has no newline.
pub parse_line_corrupted :
    (xs ys tag payload : Text) (a b : ℕ)
    → IsText xs
    → IsText ys
    → a < 128
    → b < 128
    → a ≢ b
    → IsTag tag
    → IsPayload payload
    → prefix ++ body tag payload ≡ xs ++ b ∷ ys
    → (p : ParsedTag) × (parse_line (line_of (body tag payload) (compute_crc8 (xs ++ a ∷ ys)))
        ≡ some p)
      × (p.crc_valid ≡ some false)
parse_line_corrupted xs ys tag payload a b hx hy ha hb ne ht hp e =
    let n = compute_crc8 (xs ++ a ∷ ys) in
    let small : n < 256 = compute_crc8-lt _ (All-insert xs ys a hx hy (omega arith)) in
    let differs : (compute_crc8 (prefix ++ body tag payload) == n) ≡ false =
      not_eq _ n
        (λ same. compute_crc8_detects xs ys a b hx hy ha hb ne (sym same ∙ ap compute_crc8 e)) in
    (_, parse_line-line_of tag payload n small ht hp, ap some differs)
