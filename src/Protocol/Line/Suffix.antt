-- ===== src/Protocol/Line/Suffix.antt =====
-- What the two regular expressions of `parse_line` (src/etst/protocol.py) find in a line with a
-- checksum.
use embedded_test_runner.Base.{
  ℕ, ◌+◌, ◌*◌, ◌/◌, ◌%◌, ◌<◌, ◌≡◌, ◌≢◌, refl, ap, ◌∙◌, true, false, some, [], ◌∷◌, ◌++◌,
  append_assoc, reverse, reverse-append, reverse-reverse, arith, Text, codes, is_space, is_empty,
  IsTrimmed, lstrip-head, rstrip-drop_while, drop_while, Every, take_while-append,
  drop_while-append,
}
use embedded_test_runner.Protocol.Line.{
  hex_digit, hex2, hex_value, LineMatch, non_space, has_newline, payload_before, crc_suffix,
  line_re,
}

-- what `\S+` matches
pub record IsTag (tag : Text) : Type 0 where
  pub some_character : tag ≢ []
  pub no_space : Every non_space tag

-- a payload that comes back as it is: no white space at its ends and no newline; it may be empty
pub record IsPayload (payload : Text) : Type 0 where
  pub trimmed : IsTrimmed payload
  pub one_line : has_newline payload ≡ false

-- the tag, and the payload behind a space if there is one
abbrev pub body : Text → Text → Text
body tag [] = tag
body tag (c ∷ payload) = tag ++ b' ' ∷ c ∷ payload

abbrev pub suffix : ℕ → Text
suffix n = codes " *" ++ hex2 n

hex_value-hex_digit : (d : ℕ) → d < 16 → hex_value (hex_digit d) ≡ some d
unfolding hex_value
hex_value-hex_digit d h = ground arith

pub hex_digit_not_space : (d : ℕ) → d < 16 → is_space (hex_digit d) ≡ false
unfolding is_space
hex_digit_not_space d h = ground arith

payload_before-reverse :
    (payload : Text) → IsPayload payload → payload_before (b' ' ∷ reverse payload) ≡ some payload
unfolding payload_before is_space
payload_before-reverse payload h =
    let e : reverse (drop_while is_space (reverse payload)) ≡ payload =
      ap reverse (rstrip-drop_while payload h.trimmed.right) ∙ reverse-reverse payload in
    rw e (rw h.one_line)

crc_suffix-before :
    (tag payload before : Text) (h1 h2 v1 v2 : ℕ)
    → hex_value h1 ≡ some v1
    → hex_value h2 ≡ some v2
    → payload_before before ≡ some payload
    → crc_suffix tag (h2 ∷ h1 ∷ b'*' ∷ before)
      ≡ some (record { tag = tag; payload = payload; hex = h1 ∷ h2 ∷ []; crc = v1 * 16 + v2 })
unfolding crc_suffix
crc_suffix-before tag payload before h1 h2 v1 v2 e1 e2 e = ground arith

-- the groups that `_LINE_RE` finds
abbrev pub match_of : Text → Text → ℕ → LineMatch
match_of tag payload n = record { tag = tag; payload = payload; hex = hex2 n; crc = n }

is_empty-IsTag : (tag : Text) → IsTag tag → is_empty tag ≡ false
is_empty-IsTag [] h = absurd (h.some_character refl)
is_empty-IsTag (c ∷ tag) h = refl

space_is_space : non_space b' ' ≡ false
unfolding is_space
space_is_space = refl

drop_space : (c : ℕ) (s : Text) → is_space c ≡ false → drop_while is_space (b' ' ∷ c ∷ s) ≡ c ∷ s
drop_space c s h = let space : is_space b' ' ≡ true = unfold is_space in refl in rw (space, h)

module _ (tag payload : Text) (n : ℕ) (small : n < 256) where
  crc_suffix-hex2 :
      (before : Text)
      → payload_before before ≡ some payload
      → crc_suffix tag (hex_digit (n % 16) ∷ hex_digit (n / 16) ∷ b'*' ∷ before)
        ≡ some (match_of tag payload n)
  crc_suffix-hex2 before e =
      crc_suffix-before tag payload before _ _ (n / 16) (n % 16)
        (hex_value-hex_digit (n / 16) (omega arith)) (hex_value-hex_digit (n % 16) (omega arith)) e
      ∙ ap (λ m. some (record { tag = tag; payload = payload; hex = hex2 n; crc = m }))
          (omega arith)

  -- behind the tag and the white space stands the payload, if any, and the suffix
  line_re-split :
      (rest x before : Text)
      → IsTag tag
      → drop_while is_space (b' ' ∷ rest) ≡ x
      → reverse x ≡ hex_digit (n % 16) ∷ hex_digit (n / 16) ∷ b'*' ∷ before
      → payload_before before ≡ some payload
      → line_re (tag ++ b' ' ∷ rest) ≡ some (match_of tag payload n)
  unfolding line_re
  line_re-split rest x before ht ex er ep =
      rw
        (
          take_while-append non_space tag b' ' rest ht.no_space space_is_space,
          drop_while-append non_space tag b' ' rest ht.no_space space_is_space,
          is_empty-IsTag tag ht,
          ex,
          er,
        )
        (crc_suffix-hex2 before ep)

  reverse-suffix :
      (s : Text)
      → reverse (s ++ suffix n) ≡ hex_digit (n % 16) ∷ hex_digit (n / 16) ∷ b'*' ∷ b' ' ∷ reverse s
  reverse-suffix s = reverse-append s (suffix n)

pub line_re-suffix :
    (tag payload : Text) (n : ℕ)
    → n < 256
    → IsTag tag
    → IsPayload payload
    → (rest : Text) × (body tag payload ++ suffix n ≡ tag ++ b' ' ∷ rest)
      × (line_re (tag ++ b' ' ∷ rest) ≡ some (match_of tag payload n))
line_re-suffix tag [] n small ht hp = (
  b'*' ∷ hex2 n,
  refl,
  line_re-split tag [] n small (b'*' ∷ hex2 n) (b'*' ∷ hex2 n) [] ht (unfold is_space in refl) refl
      (unfold payload_before in refl),
)
line_re-suffix tag (c ∷ payload) n small ht hp = (
  c ∷ (payload ++ suffix n),
  append_assoc tag (b' ' ∷ c ∷ payload) (suffix n),
  line_re-split tag (c ∷ payload) n small (c ∷ (payload ++ suffix n)) (c ∷ (payload ++ suffix n))
      (b' ' ∷ reverse (c ∷ payload)) ht
      (drop_space c (payload ++ suffix n) (lstrip-head c payload hp.trimmed.left))
      (reverse-suffix tag (c ∷ payload) n small (c ∷ payload))
      (payload_before-reverse (c ∷ payload) hp),
)
