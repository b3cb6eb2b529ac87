-- ===== src/Base/Strip.antt =====
-- What `strip` leaves alone.
use Prim.Native.Nat.{ℕ}
use mathlib.Core.Path.{◌≡◌, refl, ap, sym, ◌∙◌}
use mathlib.Core.Logic.{inl, inr}
use mathlib.Core.Bool.{Bool, false, not}
use mathlib.Core.List.{[], ◌∷◌, ◌++◌, reverse, reverse-append, reverse-reverse, reverse_aux}
use native.Mathlib.Omega.{arith}
use embedded_test_runner.Base.Test.{Bool-cases}
use embedded_test_runner.Base.Lists.{length, drop_while, length-drop_while, Every}
use embedded_test_runner.Base.Chars.{Text, is_space, lstrip, rstrip, strip}

-- no white space at either end
pub record IsTrimmed (s : Text) : Type 0 where
  pub left : lstrip s ≡ s
  pub right : rstrip s ≡ s

pub strip-IsTrimmed : (s : Text) → IsTrimmed s → strip s ≡ s
unfolding strip
strip-IsTrimmed s h = ap rstrip h.left ∙ h.right

-- a text that begins and ends with other characters
pub lstrip-cons : (c : ℕ) (s : Text) → is_space c ≡ false → lstrip (c ∷ s) ≡ c ∷ s
unfolding lstrip
lstrip-cons c s h = rw h

drop_while-reverse-concat :
    (s : Text) (c : ℕ)
    → is_space c ≡ false
    → drop_while is_space (reverse (s ++ c ∷ [])) ≡ reverse (s ++ c ∷ [])
drop_while-reverse-concat s c h = rw (reverse-append s (c ∷ [])) (rw h)

pub rstrip-concat : (s : Text) (c : ℕ) → is_space c ≡ false → rstrip (s ++ c ∷ []) ≡ s ++ c ∷ []
unfolding rstrip
rstrip-concat s c h = ap reverse (drop_while-reverse-concat s c h) ∙ reverse-reverse _

pub IsTrimmed-intro :
    (c : ℕ) (s : Text) (d : ℕ)
    → is_space c ≡ false
    → is_space d ≡ false
    → IsTrimmed (c ∷ (s ++ d ∷ []))
IsTrimmed-intro c s d hc hd = record {
  left = lstrip-cons c (s ++ d ∷ []) hc;
  right = rstrip-concat (c ∷ s) d hd;
}

-- the first character of a trimmed text
pub lstrip-head : (c : ℕ) (s : Text) → lstrip (c ∷ s) ≡ c ∷ s → is_space c ≡ false
unfolding lstrip
lstrip-head c s h = elim (Bool-cases (is_space c)) [
  | inr other ↦ other
  | inl space ↦ absurd (impossible (rw space at h))
]
  where
    impossible : drop_while is_space s ≡ c ∷ s → ⊥
    impossible e = omega (arith, ap length e, length-drop_while is_space s)

pub rstrip-drop_while : (s : Text) → rstrip s ≡ s → drop_while is_space (reverse s) ≡ reverse s
unfolding rstrip
rstrip-drop_while s h = sym (reverse-reverse _) ∙ ap reverse h

-- a text with no white space in it
drop_while-Every-not : (s : Text) → Every (λ c. not (is_space c)) s → drop_while is_space s ≡ s
drop_while-Every-not [] h = refl
drop_while-Every-not (c ∷ s) h = ground arith

Every-reverse_onto : (p : ℕ → Bool) (s t : Text) → Every p s → Every p t → Every p (reverse_aux s t)
Every-reverse_onto p [] t hs ht = ht
Every-reverse_onto p (c ∷ s) t hs ht = Every-reverse_onto p s (c ∷ t) hs.1 (hs.0, ht)

pub IsTrimmed-Every : (s : Text) → Every (λ c. not (is_space c)) s → IsTrimmed s
unfolding lstrip rstrip
IsTrimmed-Every s h = record {
  left = drop_while-Every-not s h;
  right =
      ap reverse (drop_while-Every-not (reverse s) (Every-reverse_onto _ s [] h tt))
      ∙ reverse-reverse s;
}
