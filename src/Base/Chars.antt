-- ===== src/Base/Chars.antt =====
-- Text as the list of its code points: Python's `str` with the operations that the program uses.
-- `is_space` is the whole set of white space of `str.strip` and of `\s`; `is_word` and `is_digit`
-- are the ASCII parts of `\w` and `\d`, which are what the wire format is made of.
use Prim.Native.Nat.{ℕ, suc, ◌+◌}
use Prim.Native.Char.{code}
use Prim.Native.String.{String}
use mathlib.Core.Path.{◌≡◌, refl}
use mathlib.Core.Logic.{◌↔◌}
use mathlib.Core.Bool.{Bool, true, false, ◌&&◌, ◌||◌}
use mathlib.Core.Option
use mathlib.Core.Option.{Option, none, some}
use mathlib.Core.List.{List, [], ◌∷◌, ◌++◌, reverse}
use native.Mathlib.Omega.{arith}
use embedded_test_runner.Base.Test.{leb, ◌==◌, if◌then◌else◌, ==_iff}
use embedded_test_runner.Base.Lists.{drop_while}

abbrev pub Text : Type 0
Text = List ℕ

-- a literal; all of the program's literals that matter here are ASCII
abbrev pub codes : String → Text
codes String.[] = []
codes (String.◌∷◌ c s) = code c ∷ codes s

abbrev pub within : ℕ → ℕ → ℕ → Bool
within lo hi c = leb lo c && leb c hi

-- white space of `str.strip`, `str.split` and `\s`
unfoldable pub is_space : ℕ → Bool
is_space c =
    within 9 13 c
    || within 28 32 c
    || c == 0x85
    || c == 0xa0
    || c == 0x1680
    || within 0x2000 0x200a c
    || within 0x2028 0x2029 c
    || c == 0x202f
    || c == 0x205f
    || c == 0x3000

unfoldable pub is_digit : ℕ → Bool
is_digit c = within b'0' b'9' c

unfoldable pub is_word : ℕ → Bool
is_word c = within b'a' b'z' c || within b'A' b'Z' c || within b'0' b'9' c || c == b'_'

-- `==` on texts
unfoldable pub text_eq : Text → Text → Bool
text_eq [] [] = true
text_eq (x ∷ xs) (y ∷ ys) = x == y && text_eq xs ys
text_eq _ _ = false

pub text_eq_iff : (a b : Text) → (text_eq a b ≡ true) ↔ (a ≡ b)
unfolding text_eq
text_eq_iff (x ∷ a) (y ∷ b) = ground (arith, text_eq_iff a b)
text_eq_iff _ _ = ground arith

pub text_eq_refl : (a : Text) → text_eq a a ≡ true
text_eq_refl a = (text_eq_iff a a).1 refl

-- the truth value of a text
abbrev pub is_empty {ℓ} : {A : Type ℓ} → List A → Bool
is_empty [] = true
is_empty (x ∷ xs) = false

-- the rest behind a prefix: `startswith` and the slice behind it
unfoldable pub strip_prefix : Text → Text → Option Text
strip_prefix [] s = some s
strip_prefix (c ∷ p) [] = none
strip_prefix (c ∷ p) (d ∷ s) = let rest = strip_prefix p s in if c == d then rest else none

pub strip_prefix-append : (p s : Text) → strip_prefix p (p ++ s) ≡ some s
unfolding strip_prefix
strip_prefix-append [] s = refl
strip_prefix-append (c ∷ p) s = rw ((==_iff c c).1 refl) (strip_prefix-append p s)

abbrev pub starts_with : Text → Text → Bool
starts_with s p = elim (strip_prefix p s) [ some _ ↦ true | none ↦ false ]

-- `str.find`: the first place where `p` stands
unfoldable pub find : Text → Text → Option ℕ
unfolding strip_prefix
find p [] = if is_empty p then some 0 else none
find p (c ∷ s) =
    let later = Option.map suc (find p s) in if starts_with (c ∷ s) p then some 0 else later

-- `str.rfind`: the last one
unfoldable pub rfind : Text → Text → Option ℕ
unfolding strip_prefix
rfind p [] = if is_empty p then some 0 else none
rfind p (c ∷ s) = elim (rfind p s) [
  | some i ↦ some (suc i)
  | none ↦ if starts_with (c ∷ s) p then some 0 else none
]

unfoldable pub lstrip : Text → Text
lstrip s = drop_while is_space s

unfoldable pub rstrip : Text → Text
rstrip s = reverse (drop_while is_space (reverse s))

unfoldable pub strip : Text → Text
unfolding lstrip rstrip
strip s = rstrip (lstrip s)

-- `s.lower()`, on ASCII
unfoldable pub lower : Text → Text
lower [] = []
lower (c ∷ s) = (if leb 65 c && leb c 90 then c + 32 else c) ∷ lower s
