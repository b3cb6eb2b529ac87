-- ===== src/Protocol/Payload/RoundTrip.antt =====
-- Payloads built of `key="value"`, `key=value` and bare flags, with a space between two, as the
-- message builders write them: `parse_payload` reads each of them back, in order.
use mathlib.Core.List.{foldl}
use mathlib.Core.Path.{ap₂}
use embedded_test_runner.Base.{
  ◌≡◌, ◌≢◌, refl, ap, ◌∙◌, false, none, some, [], ◌∷◌, ◌++◌, Text, is_word, is_space, take_while,
  drop_while, arith, List, Every, take_while-append, drop_while-append, take_while-Every,
  drop_while-Every, append-nil, All,
}
use embedded_test_runner.Base.Dict.{Dict, insert}
use embedded_test_runner.Protocol.Line.{non_space}
use embedded_test_runner.Protocol.Payload.{
  Value, str, flag, quoted, plain, value_of, token_loop, parse_from, parse_payload, not_quote,
}
use embedded_test_runner.Protocol.Payload.Scan.{parse_from_word, parse_from_other}

-- `key="value"`, `key=value`, `key`
pub data Item : Type 0 where
  quoted_item : Text → Text → Item
  plain_item : Text → Text → Item
  flag_item : Text → Item

abbrev pub key_of : Item → Text
key_of (quoted_item k v) = k
key_of (plain_item k v) = k
key_of (flag_item k) = k

abbrev pub item_value : Item → Value
item_value (quoted_item k v) = str v
item_value (plain_item k v) = str v
item_value (flag_item k) = flag

-- the text of an item, in front of `rest`
abbrev pub render_item : Item → Text → Text
render_item (quoted_item k v) rest = k ++ b'=' ∷ b'"' ∷ (v ++ b'"' ∷ rest)
render_item (plain_item k v) rest = k ++ b'=' ∷ (v ++ rest)
render_item (flag_item k) rest = k ++ rest

abbrev pub render : List Item → Text
render [] = []
render (i ∷ []) = render_item i []
render (i ∷ is) = render_item i (b' ' ∷ render is)

-- what the dictionary holds after the items
abbrev pub put_item : Dict Value → Item → Dict Value
put_item d i = insert (key_of i) (item_value i) d

pub record IsKey (k : Text) : Type 0 where
  pub some_character : k ≢ []
  pub word : Every is_word k

-- a value that needs no quotes
abbrev pub IsPlain : Text → Type 0
IsPlain [] = ⊥
IsPlain (c ∷ v) = Every non_space (c ∷ v) × (c ≢ b'"')

abbrev pub IsItem : Item → Type 0
IsItem (quoted_item k v) = IsKey k × Every not_quote v
IsItem (plain_item k v) = IsKey k × IsPlain v
IsItem (flag_item k) = IsKey k × Unit {0}

-- what may follow an item: nothing, or a space and more
abbrev Follows : Text → Type 0
Follows [] = Unit
Follows (c ∷ s) = c ≡ b' '

-- behind a key stands a character that is no word character, or nothing
abbrev Ends : Text → Type 0
Ends [] = Unit
Ends (c ∷ s) = is_word c ≡ false

take_while-key : (k s : Text) → Every is_word k → Ends s → take_while is_word (k ++ s) ≡ k
take_while-key k [] h e = rw append-nil (take_while-Every is_word k h)
take_while-key k (c ∷ s) h e = take_while-append is_word k c s h e

drop_while-key : (k s : Text) → Every is_word k → Ends s → drop_while is_word (k ++ s) ≡ s
drop_while-key k [] h e = rw append-nil (drop_while-Every is_word k h)
drop_while-key k (c ∷ s) h e = drop_while-append is_word k c s h e

-- a key, and what the scan finds behind it
parse_from_key :
    (result : Dict Value) (k s : Text) (value : Value) (rest : Text)
    → IsKey k
    → Ends s
    → value_of s ≡ (value, rest)
    → parse_from result (k ++ s) ≡ parse_from (insert k value result) rest
parse_from_key result [] s value rest h e found = absurd (h.some_character refl)
parse_from_key result (c ∷ k) s value rest h e found =
    parse_from_word result c (k ++ s) h.word.0
    ∙ ap₂ (λ key (found : Value × Text). parse_from (insert key found.0 result) found.1)
        (take_while-key (c ∷ k) s h.word e)
        (ap value_of (drop_while-key (c ∷ k) s h.word e) ∙ found)

quoted-quoted :
    (v rest : Text)
    → Every not_quote v
    → quoted (b'=' ∷ b'"' ∷ (v ++ b'"' ∷ rest)) ≡ some (str v, rest)
unfolding quoted
quoted-quoted v rest h =
    rw (
      take_while-append not_quote v b'"' rest h refl,
      drop_while-append not_quote v b'"' rest h refl,
    )

value_of-quoted :
    (v rest : Text)
    → Every not_quote v
    → value_of (b'=' ∷ b'"' ∷ (v ++ b'"' ∷ rest)) ≡ (str v, rest)
unfolding value_of
value_of-quoted v rest h = rw (quoted-quoted v rest h, value_of)

space_stops : non_space b' ' ≡ false
unfolding is_space
space_stops = refl

take_while-plain :
    (v rest : Text) → Every non_space v → Follows rest → take_while non_space (v ++ rest) ≡ v
take_while-plain v [] h f = rw append-nil (take_while-Every non_space v h)
take_while-plain v (c ∷ s) h f = take_while-append non_space v c s h (rw f space_stops)

drop_while-plain :
    (v rest : Text) → Every non_space v → Follows rest → drop_while non_space (v ++ rest) ≡ rest
drop_while-plain v [] h f = rw append-nil (drop_while-Every non_space v h)
drop_while-plain v (c ∷ s) h f = drop_while-append non_space v c s h (rw f space_stops)

plain-value :
    (v rest : Text) → IsPlain v → Follows rest → plain (b'=' ∷ (v ++ rest)) ≡ some (str v, rest)
unfolding plain
plain-value [] rest h f = absurd h
plain-value (c ∷ v) rest h f =
    rw (take_while-plain (c ∷ v) rest h.0 f, drop_while-plain (c ∷ v) rest h.0 f)

quoted-plain : (v rest : Text) → IsPlain v → quoted (b'=' ∷ (v ++ rest)) ≡ none
unfolding quoted
quoted-plain [] rest h = absurd h
quoted-plain (c ∷ v) rest h = ground arith

value_of-found :
    (s : Text) (found : Value × Text) → quoted s ≡ none → plain s ≡ some found → value_of s ≡ found
unfolding value_of
value_of-found s found q p = rw (q, value_of) (rw p)

value_of-plain :
    (v rest : Text) → IsPlain v → Follows rest → value_of (b'=' ∷ (v ++ rest)) ≡ (str v, rest)
value_of-plain v rest h f = value_of-found _ _ (quoted-plain v rest h) (plain-value v rest h f)

value_of-flag : (rest : Text) → Follows rest → value_of rest ≡ (flag, rest)
unfolding value_of
value_of-flag [] f = refl
value_of-flag (c ∷ []) f = ground arith
value_of-flag (c ∷ d ∷ s) f = ground arith

Ends-Follows : (rest : Text) → Follows rest → Ends rest
unfolding is_word
Ends-Follows [] f = tt
Ends-Follows (c ∷ s) f = ground arith

-- one item, with what follows it
parse_from-item :
    (result : Dict Value) (i : Item) (rest : Text)
    → IsItem i
    → Follows rest
    → parse_from result (render_item i rest) ≡ parse_from (put_item result i) rest
parse_from-item result (quoted_item k v) rest h f =
    parse_from_key result k _ (str v) rest h.0 (unfold is_word in refl) (value_of-quoted v rest h.1)
parse_from-item result (plain_item k v) rest h f =
    parse_from_key result k _ (str v) rest h.0 (unfold is_word in refl)
      (value_of-plain v rest h.1 f)
parse_from-item result (flag_item k) rest h f =
    parse_from_key result k rest flag rest h.0 (Ends-Follows rest f) (value_of-flag rest f)

parse_from-render :
    (is : List Item) (result : Dict Value)
    → All IsItem is
    → parse_from result (render is) ≡ foldl put_item result is
parse_from-render [] result h = unfold parse_from token_loop in refl
parse_from-render (i ∷ []) result h =
    parse_from-item result i [] h.0 tt ∙ (unfold parse_from token_loop in refl)
parse_from-render (i ∷ j ∷ is) result h =
    parse_from-item result i (b' ' ∷ render (j ∷ is)) h.0 refl
    ∙ parse_from_other (put_item result i) b' ' (render (j ∷ is)) (unfold is_word in refl)
    ∙ parse_from-render (j ∷ is) (put_item result i) h.1

-- A payload made of any items, with keys of word characters, quoted values without quotes and plain
-- values without white space, is parsed to the dictionary that gets them in order: the last value
-- of a key that is repeated stays, at the place of the first.
pub parse_payload-render :
    (is : List Item) → All IsItem is → parse_payload (render is) ≡ foldl put_item [] is
unfolding parse_payload
parse_payload-render is h = parse_from-render is [] h
