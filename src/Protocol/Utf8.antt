-- ===== src/Protocol/Utf8.antt =====
-- `str.encode("utf-8")`, which etst/protocol.py applies before it computes the checksum. A text
-- is a list of Unicode scalar values; a lone surrogate, for which Python raises, is not one.
use embedded_test_runner.Base.{
  ℕ, ◌+◌, ◌/◌, ◌%◌, ◌<◌, ◌≡◌, refl, ap, ◌∙◌, List, [], ◌∷◌, ◌++◌, append_assoc, arith, ltb,
  if◌then◌else◌, Text, All, sym,
}

unfoldable pub encode_char : ℕ → List ℕ
encode_char c =
    if ltb c 0x80
    then c ∷ []
    else if ltb c 0x800
    then (0xc0 + c / 0x40) ∷ (0x80 + c % 0x40) ∷ []
    else if ltb c 0x10000
    then (0xe0 + c / 0x1000) ∷ (0x80 + c / 0x40 % 0x40) ∷ (0x80 + c % 0x40) ∷ []
    else (0xf0 + c / 0x40000)
      ∷ (0x80 + c / 0x1000 % 0x40)
      ∷ (0x80 + c / 0x40 % 0x40)
      ∷ (0x80 + c % 0x40)
      ∷ []

unfoldable pub encode : Text → List ℕ
unfolding encode_char
encode [] = []
encode (c ∷ s) = encode_char c ++ encode s

-- code points of Unicode
abbrev pub IsText : Text → Type 0
IsText = All (λ c. c < 0x110000)

abbrev pub AreBytes : List ℕ → Type 0
AreBytes = All (λ b. b < 256)

pub AreBytes-append : (xs ys : List ℕ) → AreBytes xs → AreBytes ys → AreBytes (xs ++ ys)
AreBytes-append [] ys hx hy = hy
AreBytes-append (x ∷ xs) ys hx hy = (hx.0, AreBytes-append xs ys hx.1 hy)

encode_char-AreBytes : (c : ℕ) → c < 0x110000 → AreBytes (encode_char c)
unfolding encode_char
encode_char-AreBytes c h = ground arith

pub encode-AreBytes : (s : Text) → IsText s → AreBytes (encode s)
unfolding encode
encode-AreBytes [] h = tt
encode-AreBytes (c ∷ s) h =
    AreBytes-append (encode_char c) (encode s) (encode_char-AreBytes c h.0) (encode-AreBytes s h.1)

pub encode-append : (s t : Text) → encode (s ++ t) ≡ encode s ++ encode t
unfolding encode
encode-append [] t = refl
encode-append (c ∷ s) t =
    ap (λ r. encode_char c ++ r) (encode-append s t)
    ∙ sym (append_assoc (encode_char c) (encode s) (encode t))
