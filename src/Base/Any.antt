-- ===== src/Base/Any.antt =====
-- Python's `any` and the list comprehension with a condition.
use mathlib.Core.Path.{◌≡◌, refl}
use mathlib.Core.Bool.{Bool, true, false, ◌||◌}
use mathlib.Core.List.{List, [], ◌∷◌, ◌++◌}
use native.Mathlib.Omega.{arith}
use embedded_test_runner.Base.Test.{if◌then◌else◌}

-- `any(... for x in xs)`
unfoldable pub any_of {ℓ} : {A : Type ℓ} → (A → Bool) → List A → Bool
any_of p [] = false
any_of p (x ∷ xs) = p x || any_of p xs

-- `[x for x in xs if keep(x)]`
unfoldable pub filter {ℓ} : {A : Type ℓ} → (A → Bool) → List A → List A
filter p [] = []
filter p (x ∷ xs) = let rest = filter p xs in if p x then x ∷ rest else rest

pub any_of-append {ℓ} :
    {A : Type ℓ} (q : A → Bool) (xs ys : List A)
    → any_of q (xs ++ ys) ≡ (any_of q xs || any_of q ys)
unfolding any_of
any_of-append q [] ys = refl
any_of-append q (x ∷ xs) ys = ground (arith, any_of-append q xs ys)

-- an item that passes the filter whenever it passes the test is still there
pub any_of-filter {ℓ} :
    {A : Type ℓ} (q k : A → Bool) (h : (x : A) → q x ≡ true → k x ≡ true) (xs : List A)
    → any_of q xs ≡ true
    → any_of q (filter k xs) ≡ true
unfolding any_of filter
any_of-filter q k h [] e = e
any_of-filter q k h (x ∷ xs) e = ground (arith, h x, any_of-filter q k h xs)

pub any_of-weaken {ℓ} :
    {A : Type ℓ} (q r : A → Bool) (h : (x : A) → q x ≡ true → r x ≡ true) (xs : List A)
    → any_of q xs ≡ true
    → any_of r xs ≡ true
unfolding any_of
any_of-weaken q r h [] e = e
any_of-weaken q r h (x ∷ xs) e = ground (arith, h x, any_of-weaken q r h xs)
