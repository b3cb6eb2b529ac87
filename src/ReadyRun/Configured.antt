-- ===== src/ReadyRun/Configured.antt =====
-- The effect of ARGS and ERROR, as `msg_args` and `msg_error` of src/etst/protocol.py write them.
use embedded_test_runner.Base.{
  ◌≡◌, ◌≢◌, ◌⊎◌, inl, inr, refl, sym, ap, ◌∙◌, true, false, [], ◌∷◌, ◌++◌, Text, codes, text_eq,
  arith, Every, Every-append, subst, ℕ, strip, reverse, drop_while, is_space, reverse-append,
  reverse-reverse, take_while-append, drop_while-append, lstrip-cons, IsTrimmed, IsTrimmed-intro,
  some, append_assoc, take_while, lstrip,
}
use embedded_test_runner.Base.Int.{ℤ}
use embedded_test_runner.Protocol.Utf8.{IsText}
use embedded_test_runner.Protocol.Crc.{compute_crc8}
use embedded_test_runner.Protocol.Crc.Detect.{compute_crc8-lt}
use embedded_test_runner.Protocol.Line.{prefix, format_crc, ParsedTag, non_space, has_newline}
use embedded_test_runner.Protocol.Line.Suffix.{IsTag, IsPayload, body}
use embedded_test_runner.Protocol.Line.RoundTrip.{parse_line-format_crc, strip-line_of}
use embedded_test_runner.Protocol.Payload.{not_quote}
use embedded_test_runner.Protocol.Payload.Shape.{has_newline-append, IsText-append, IsText-body}
use embedded_test_runner.Protocol.Messages.{msg_args, msg_error}
use embedded_test_runner.Protocol.Messages.Parsed.{received}
use embedded_test_runner.Protocol.Messages.Checked.{check_tag, check_tag_sound}
use embedded_test_runner.ReadyRun.{ReadyRun, ready, running, error}
use embedded_test_runner.ReadyRun.Feed.{
  returned, feed, feed_in, handle, tag_of, set_error, first_word, behind_first_word, strip_quotes,
  is_quote,
}

strip-format_crc :
    (tag payload : Text)
    → IsText (prefix ++ body tag payload)
    → strip (format_crc (prefix ++ body tag payload)) ≡ format_crc (prefix ++ body tag payload)
unfolding format_crc
strip-format_crc tag payload h =
    strip-line_of (body tag payload) (compute_crc8 (prefix ++ body tag payload))
      (compute_crc8-lt _ h)

feed-line :
    (now : ℤ) (p : ReadyRun) (tag payload : Text)
    → IsText (prefix ++ body tag payload)
    → IsTag tag
    → IsPayload payload
    → feed now p (format_crc (prefix ++ body tag payload))
      ≡ feed_in p.state now p (received (format_crc (prefix ++ body tag payload)) tag payload)
unfolding feed
feed-line now p tag payload h ht hp =
    rw (strip-format_crc tag payload h, parse_line-format_crc tag payload h ht hp)

-- ARGS, while the protocol is ready: the text, if it is not empty, of one line and trimmed, is kept
-- as it was sent, behind those before it.
pub feed-msg_args :
    (now : ℤ) (p : ReadyRun) (args : Text)
    → p.state ≡ ready
    → args ≢ []
    → IsPayload args
    → IsText args
    → feed now p (msg_args args)
      ≡ returned (record p { accumulated_args = p.accumulated_args ++ args ∷ [] })
unfolding msg_args feed_in tag_of check_tag text_eq
feed-msg_args now p [] r some' hp ht = absurd (some' refl)
feed-msg_args now p (c ∷ args) r some' hp ht =
    feed-line now p (codes "ARGS") (c ∷ args) (ground (arith, ht))
      (check_tag_sound (codes "ARGS") refl).0 hp
    ∙ rw r refl

IsText-line :
    (tag payload : Text) → IsText tag → IsText payload → IsText (prefix ++ body tag payload)
IsText-line tag payload ht hp = (
  omega arith,
  (omega arith, (omega arith, (omega arith, (omega arith, IsText-body tag payload ht hp)))),
)

-- no quote at the ends of a text without quotes
drop_quotes : (s : Text) → Every not_quote s → drop_while is_quote s ≡ s
drop_quotes [] h = refl
drop_quotes (c ∷ s) h = ground (arith, h.0)

Every-reverse : (s : Text) → Every not_quote s → Every not_quote (reverse s)
Every-reverse [] h = tt
Every-reverse (c ∷ s) h =
    subst (Every not_quote) (sym (reverse-append (c ∷ []) s))
      (Every-append not_quote (reverse s) (c ∷ []) (Every-reverse s h.1) (h.0, tt))

drop_first : (c : ℕ) (s : Text) → not_quote c ≡ true → drop_while is_quote (b'"' ∷ c ∷ s) ≡ c ∷ s
drop_first c s h = ground (arith, h)

strip_quotes-quoted :
    (message : Text)
    → Every not_quote message
    → strip_quotes (b'"' ∷ (message ++ codes "\"")) ≡ message
unfolding strip_quotes
strip_quotes-quoted [] h = refl
strip_quotes-quoted (c ∷ message) h =
    ap (λ s. reverse (drop_while is_quote (reverse s))) (drop_first c (message ++ codes "\"") h.0)
    ∙ ap (λ s. reverse (drop_while is_quote s)) (reverse-append (c ∷ message) (codes "\""))
    ∙ ap reverse (drop_quotes (reverse (c ∷ message)) (Every-reverse (c ∷ message) h))
    ∙ reverse-reverse (c ∷ message)

-- the payload of an ERROR line
abbrev error_payload : Text → Text → Text
error_payload code message = code ++ b' ' ∷ b'"' ∷ (message ++ codes "\"")

blank : non_space b' ' ≡ false
unfolding is_space
blank = refl

first_word-payload :
    (c : ℕ) (code rest : Text)
    → Every non_space (c ∷ code)
    → first_word ((c ∷ code) ++ b' ' ∷ rest) ≡ c ∷ code
unfolding first_word
first_word-payload c code rest h =
    ap (take_while non_space) (lstrip-cons c (code ++ b' ' ∷ rest) (ground (arith, h.0)))
    ∙ take_while-append non_space (c ∷ code) b' ' rest h blank

lstrip-quote : (s : Text) → lstrip (b' ' ∷ b'"' ∷ s) ≡ b'"' ∷ s
unfolding lstrip is_space
lstrip-quote s = refl

behind_first_word-payload :
    (c : ℕ) (code rest : Text)
    → Every non_space (c ∷ code)
    → behind_first_word ((c ∷ code) ++ b' ' ∷ b'"' ∷ rest) ≡ b'"' ∷ rest
unfolding behind_first_word
behind_first_word-payload c code rest h =
    ap (λ s. lstrip (drop_while non_space s))
      (lstrip-cons c (code ++ b' ' ∷ b'"' ∷ rest) (ground (arith, h.0)))
    ∙ ap lstrip (drop_while-append non_space (c ∷ code) b' ' (b'"' ∷ rest) h blank)
    ∙ lstrip-quote rest

set_error-payload :
    (p : ReadyRun) (code message : Text)
    → IsTag code
    → Every not_quote message
    → set_error p (error_payload code message)
      ≡ record p { error_code = code; error_message = message; state = error }
unfolding set_error
set_error-payload p [] message hc hm = absurd (hc.some_character refl)
set_error-payload p (c ∷ code) message hc hm =
    let payload = error_payload (c ∷ code) message in
    let quoted = b'"' ∷ (message ++ codes "\"") in
    ap
      (λ w. record p {
        error_code = w;
        error_message = strip_quotes (behind_first_word payload);
        state = error;
      })
      (first_word-payload c code quoted hc.no_space)
    ∙ ap (λ s. record p { error_code = c ∷ code; error_message = strip_quotes s; state = error })
        (behind_first_word-payload c code (message ++ codes "\"") hc.no_space)
    ∙ ap (λ s. record p { error_code = c ∷ code; error_message = s; state = error })
        (strip_quotes-quoted message hm)

quote_not_space : is_space b'"' ≡ false
unfolding is_space
quote_not_space = refl

word-one_line : (s : Text) → Every non_space s → has_newline s ≡ false
unfolding has_newline is_space
word-one_line [] h = refl
word-one_line (c ∷ s) h = ground (arith, h.0, word-one_line s h.1)

quoted-one_line :
    (message : Text)
    → has_newline message ≡ false
    → has_newline (b' ' ∷ b'"' ∷ (message ++ codes "\"")) ≡ false
unfolding has_newline
quoted-one_line message h = has_newline-append message (codes "\"") h refl

-- an ERROR line with a valid checksum
feed_in-error :
    (now : ℤ) (p : ReadyRun) (t : ParsedTag)
    → (p.state ≡ ready) ⊎ (p.state ≡ running)
    → t.tag ≡ codes "ERROR"
    → t.crc_valid ≡ some true
    → feed_in p.state now p t ≡ returned (set_error p t.payload_str)
unfolding feed_in handle tag_of text_eq
feed_in-error now p t (inl r) e v = rw (r, v, e) refl
feed_in-error now p t (inr r) e v = rw (r, v, e) refl

IsPayload-error :
    (code message : Text)
    → IsTag code
    → Every not_quote message
    → has_newline message ≡ false
    → IsPayload (error_payload code message)
IsPayload-error [] message hc hm one_line = absurd (hc.some_character refl)
IsPayload-error (c ∷ code) message hc hm one_line = record {
  trimmed = subst IsTrimmed (append_assoc (c ∷ code) (b' ' ∷ b'"' ∷ message) (codes "\"")) (
      IsTrimmed-intro c (code ++ b' ' ∷ b'"' ∷ message) b'"' (ground (arith, hc.no_space.0))
        quote_not_space);
  one_line =
      has_newline-append (c ∷ code) (b' ' ∷ b'"' ∷ (message ++ codes "\""))
        (word-one_line (c ∷ code) hc.no_space) (quoted-one_line message one_line);
}

-- ERROR, while the protocol is ready or runs: the protocol fails, with the code and the message
-- that were sent, if the code is one word and the message has no quotes and no newline.
pub feed-msg_error :
    (now : ℤ) (p : ReadyRun) (code message : Text)
    → (p.state ≡ ready) ⊎ (p.state ≡ running)
    → IsTag code
    → Every not_quote message
    → has_newline message ≡ false
    → IsText code
    → IsText message
    → feed now p (msg_error code message)
      ≡ returned (record p { error_code = code; error_message = message; state = error })
unfolding msg_error check_tag
feed-msg_error now p [] message live hc hm one_line tc tm = absurd (hc.some_character refl)
feed-msg_error now p (c ∷ code) message live hc hm one_line tc tm =
    let payload = error_payload (c ∷ code) message in
    let texts =
      IsText-append (c ∷ code) (b' ' ∷ b'"' ∷ (message ++ codes "\"")) tc
        (omega arith, (omega arith, IsText-append message (codes "\"") tm (omega arith, tt))) in
    feed-line now p (codes "ERROR") payload
      (IsText-line (codes "ERROR") payload (ground arith) texts)
      (check_tag_sound (codes "ERROR") refl).0 (IsPayload-error (c ∷ code) message hc hm one_line)
    ∙ feed_in-error now p (received _ (codes "ERROR") payload) live refl refl
    ∙ ap returned (set_error-payload p (c ∷ code) message hc hm)
