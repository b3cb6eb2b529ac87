-- ===== src/Protocol/Messages/Checked.antt =====
-- Keys, tags and numbers that a message can be made of (src/etst/protocol.py: the `msg_` functions):
-- those that are known are checked by evaluation.
use embedded_test_runner.Base.{
  ℕ, suc, ◌≡◌, refl, ◌≢◌, true, false, [], ◌∷◌, Text, is_word, is_space, Every, is_digit, arith,
  is_empty, not, ◌&&◌, ltb, Bool,
}
use embedded_test_runner.Base.Int.{ℤ, pos, negsuc}
use embedded_test_runner.Base.Decimal.{str_int, dec, dec-IsNumeral, IsNumeral}
use embedded_test_runner.Protocol.Utf8.{IsText}
use embedded_test_runner.Protocol.Line.{non_space}
use embedded_test_runner.Protocol.Line.Suffix.{IsTag}
use embedded_test_runner.Protocol.Payload.RoundTrip.{IsKey, IsPlain}

-- an ASCII tag with no white space in it
abbrev pub IsAsciiTag : Text → Type 0
IsAsciiTag tag = IsTag tag × IsText tag

-- numbers are values that need no quotes
Every-digit-plain : (s : Text) → Every is_digit s → Every non_space s
Every-digit-plain [] h = tt
Every-digit-plain (c ∷ s) h = ((unfold is_digit is_space in ground arith), Every-digit-plain s h.1)

digits-IsPlain : (s : Text) → IsNumeral s → IsPlain s
digits-IsPlain [] h = absurd (h.0 refl)
digits-IsPlain (c ∷ s) h = (Every-digit-plain (c ∷ s) h.1, (unfold is_digit in ground arith))

signed-IsPlain : (c : ℕ) (s : Text) → is_space c ≡ false → c ≢ b'"' → IsNumeral s → IsPlain (c ∷ s)
signed-IsPlain c s h q k = ((ground arith, Every-digit-plain s k.1), q)

pub str_int-IsPlain : (n : ℤ) → IsPlain (str_int n)
unfolding str_int
str_int-IsPlain (pos n) = digits-IsPlain (dec n) (dec-IsNumeral n)
str_int-IsPlain (negsuc n) =
    signed-IsPlain b'-' (dec (suc n)) (unfold is_space in refl) (omega arith)
      (dec-IsNumeral (suc n))

IsText-digits : (s : Text) → Every is_digit s → IsText s
IsText-digits [] h = tt
IsText-digits (c ∷ s) h = ((unfold is_digit in ground arith), IsText-digits s h.1)

pub str_int-IsText : (n : ℤ) → IsText (str_int n)
unfolding str_int
str_int-IsText (pos n) = IsText-digits (dec n) (dec-IsNumeral n).1
str_int-IsText (negsuc n) = (omega arith, IsText-digits (dec (suc n)) (dec-IsNumeral (suc n)).1)

-- keys and tags that are known are checked by evaluation
check_word : Text → Bool
check_word [] = true
check_word (c ∷ k) = is_word c && check_word k

unfoldable pub check_key : Text → Bool
unfolding check_word is_word
check_key k = not (is_empty k) && check_word k

check_word_sound : (k : Text) → check_word k ≡ true → Every is_word k
unfolding check_word
check_word_sound [] h = tt
check_word_sound (c ∷ k) h = ground (arith, check_word_sound k)

pub check_key_sound : (k : Text) → check_key k ≡ true → IsKey k
unfolding check_key
check_key_sound [] h = cc
check_key_sound (c ∷ k) h = record { some_character = λ e. cc; word = check_word_sound (c ∷ k) h }

check_ascii : Text → Bool
check_ascii [] = true
check_ascii (c ∷ k) = non_space c && ltb c 128 && check_ascii k

unfoldable pub check_tag : Text → Bool
unfolding check_ascii is_space
check_tag t = not (is_empty t) && check_ascii t

check_ascii_sound : (t : Text) → check_ascii t ≡ true → Every non_space t × IsText t
unfolding check_ascii
check_ascii_sound [] h = (tt, tt)
check_ascii_sound (c ∷ t) h = ground (arith, check_ascii_sound t)

pub check_tag_sound : (t : Text) → check_tag t ≡ true → IsAsciiTag t
unfolding check_tag
check_tag_sound [] h = cc
check_tag_sound (c ∷ t) h =
    let (spaces, chars) = check_ascii_sound (c ∷ t) h in
    (record { some_character = λ e. cc; no_space = spaces }, chars)
