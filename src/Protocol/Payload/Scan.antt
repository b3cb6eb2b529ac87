-- ===== src/Protocol/Payload/Scan.antt =====
-- The scan of a payload, one token at a time: the fuel that it is given is always enough.
use embedded_test_runner.Base.{
  ℕ, zero, suc, ◌≤◌, ◌<◌, ◌≡◌, refl, sym, ◌∙◌, true, false, inl, inr, [], ◌∷◌, Text, is_word,
  length, take_while, drop_while, length-drop_while, arith, Bool-cases,
}
use embedded_test_runner.Base.Dict.{Dict, insert}
use embedded_test_runner.Protocol.Line.{non_space}
use embedded_test_runner.Protocol.Payload.{Value, value_of, token_loop, parse_from, not_quote}

-- The rest behind a value is no longer than what followed the key.
length-value_of : (s : Text) → length (value_of s).1 ≤ length s
unfolding value_of
length-value_of [] = omega arith
length-value_of (e ∷ []) = ground arith
length-value_of (e ∷ q ∷ s) =
    ground (arith, length-drop_while not_quote s, length-drop_while non_space (q ∷ s))

token_loop_word :
    (f : ℕ) (result : Dict Value) (c : ℕ) (s : Text)
    → is_word c ≡ true
    → let (value, rest) = value_of (drop_while is_word (c ∷ s)) in
      token_loop (suc f) result (c ∷ s)
      ≡ token_loop f (insert (take_while is_word (c ∷ s)) value result) rest
unfolding token_loop
token_loop_word f result c s word = rw (word, token_loop) (rw word)

token_loop_other :
    (f : ℕ) (result : Dict Value) (c : ℕ) (s : Text)
    → is_word c ≡ false
    → token_loop (suc f) result (c ∷ s) ≡ token_loop f result s
unfolding token_loop
token_loop_other f result c s other = rw (other, token_loop)

shorter_behind :
    (c : ℕ) (s : Text)
    → is_word c ≡ true
    → length (value_of (drop_while is_word (c ∷ s))).1 ≤ length s
shorter_behind c s word =
    rw word (omega (arith, length-value_of (drop_while is_word s), length-drop_while is_word s))

pub token_loop_fuel :
    (f g : ℕ) (result : Dict Value) (s : Text)
    → length s < f
    → length s < g
    → token_loop f result s ≡ token_loop g result s
token_loop_fuel zero g result s hf hg = absurd (omega arith)
token_loop_fuel (suc f) zero result s hf hg = absurd (omega arith)
token_loop_fuel (suc f) (suc g) result [] hf hg = unfold token_loop in refl
token_loop_fuel (suc f) (suc g) result (c ∷ s) hf hg = elim (Bool-cases (is_word c)) [
  | inl word ↦
      let shorter = shorter_behind c s word in
      token_loop_word f result c s word
      ∙ token_loop_fuel f g _ (value_of (drop_while is_word (c ∷ s))).1 (omega arith) (omega arith)
      ∙ sym (token_loop_word g result c s word)
  | inr other ↦
      token_loop_other f result c s other
      ∙ token_loop_fuel f g result s (omega arith) (omega arith)
      ∙ sym (token_loop_other g result c s other)
]

-- one token, with no fuel in sight
pub parse_from_word :
    (result : Dict Value) (c : ℕ) (s : Text)
    → is_word c ≡ true
    → let (value, rest) = value_of (drop_while is_word (c ∷ s)) in
      parse_from result (c ∷ s) ≡ parse_from (insert (take_while is_word (c ∷ s)) value result) rest
unfolding parse_from
parse_from_word result c s word =
    token_loop_word (suc (length s)) result c s word
    ∙ token_loop_fuel _ _ _ _ (omega (arith, shorter_behind c s word)) (omega arith)

pub parse_from_other :
    (result : Dict Value) (c : ℕ) (s : Text)
    → is_word c ≡ false
    → parse_from result (c ∷ s) ≡ parse_from result s
unfolding parse_from
parse_from_other result c s other = token_loop_other (suc (length s)) result c s other
