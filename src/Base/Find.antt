-- ===== src/Base/Find.antt =====
-- `rfind` of a pattern that stands at the end.
use Prim.Native.Nat.{ℕ, suc, ◌<◌}
use mathlib.Core.Path.{◌≡◌, refl, subst}
use mathlib.Core.Bool.{true, false}
use mathlib.Core.Option.{none, some}
use mathlib.Core.List.{[], ◌∷◌, ◌++◌, append-nil}
use native.Mathlib.Omega.{arith}
use embedded_test_runner.Base.Lists.{length}
use embedded_test_runner.Base.Chars.{Text, strip_prefix, strip_prefix-append, starts_with, rfind}

strip_prefix_short : (p s : Text) → length s < length p → strip_prefix p s ≡ none
unfolding strip_prefix
strip_prefix_short [] s h = absurd (omega arith)
strip_prefix_short (c ∷ p) [] h = refl
strip_prefix_short (c ∷ p) (d ∷ s) h = ground (arith, strip_prefix_short p s (omega arith))

starts_with_short : (p s : Text) → length s < length p → starts_with s p ≡ false
starts_with_short p s h = ground (arith, strip_prefix_short p s h)

starts_with_self : (p : Text) → starts_with p p ≡ true
starts_with_self p =
    let e : strip_prefix p p ≡ some [] =
      subst (λ s. strip_prefix p s ≡ some []) (append-nil p) (strip_prefix-append p []) in
    ground arith

rfind_short : (p s : Text) → length s < length p → rfind p s ≡ none
unfolding rfind
rfind_short [] s h = absurd (omega arith)
rfind_short (c ∷ p) [] h = refl
rfind_short (c ∷ p) (d ∷ s) h =
    let shorter : length s < suc (length p) = omega arith in
    rw (rfind_short (c ∷ p) s shorter, starts_with_short (c ∷ p) (d ∷ s) h)

-- The last place of `p` in a text that ends in `p` is that end.
pub rfind-append : (s : Text) (c : ℕ) (p : Text) → rfind (c ∷ p) (s ++ c ∷ p) ≡ some (length s)
unfolding rfind
rfind-append [] c p = rw (rfind_short (c ∷ p) p (omega arith), starts_with_self (c ∷ p))
rfind-append (d ∷ s) c p = rw (rfind-append s c p)
