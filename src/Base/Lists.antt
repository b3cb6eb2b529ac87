-- ===== src/Base/Lists.antt =====
-- Lists measured by native numbers, under the library's names, and scans of a list.
use Prim.Native.Nat.{ℕ, zero, suc, ◌+◌, ◌≤◌}
use mathlib.Core.Path.{◌≡◌, refl, ap}
use mathlib.Core.Bool.{Bool, true, false}
use mathlib.Core.List.{List, [], ◌∷◌, ◌++◌}
use native.Mathlib.Omega.{arith}
use embedded_test_runner.Base.Test.{if◌then◌else◌}

module _ {ℓ} {A : Type ℓ} where
  abbrev pub length : List A → ℕ
  length [] = 0
  length (x ∷ xs) = suc (length xs)

  abbrev pub take : ℕ → List A → List A
  take zero xs = []
  take (suc n) [] = []
  take (suc n) (x ∷ xs) = x ∷ take n xs

  abbrev pub drop : ℕ → List A → List A
  drop zero xs = xs
  drop (suc n) [] = []
  drop (suc n) (x ∷ xs) = drop n xs

  pub length-append : (xs ys : List A) → length (xs ++ ys) ≡ length xs + length ys
  length-append [] ys = omega arith
  length-append (x ∷ xs) ys = omega (arith, length-append xs ys)

  pub take-length-append : (xs ys : List A) → take (length xs) (xs ++ ys) ≡ xs
  take-length-append [] ys = refl
  take-length-append (x ∷ xs) ys = ap (◌∷◌ x) (take-length-append xs ys)

  -- the longest prefix whose items all pass, and what stands behind it
  abbrev pub take_while : (A → Bool) → List A → List A
  take_while p [] = []
  take_while p (x ∷ xs) = if p x then x ∷ take_while p xs else []

  abbrev pub drop_while : (A → Bool) → List A → List A
  drop_while p [] = []
  drop_while p (x ∷ xs) = if p x then drop_while p xs else x ∷ xs

  abbrev pub All {κ} : (A → Type κ) → List A → Type κ
  All P [] = Unit
  All P (x ∷ xs) = P x × All P xs

  pub All-append {κ} :
      (Q : A → Type κ) (front back : List A) → All Q front → All Q back → All Q (front ++ back)
  All-append Q [] back h k = k
  All-append Q (x ∷ front) back h k = (h.0, All-append Q front back h.1 k)

module _ {ℓ} {A : Type ℓ} (p : A → Bool) where
  -- every item passes
  abbrev pub Every : List A → Type 0
  Every [] = Unit
  Every (x ∷ xs) = (p x ≡ true) × Every xs

  pub Every-append : (xs ys : List A) → Every xs → Every ys → Every (xs ++ ys)
  Every-append [] ys hx hy = hy
  Every-append (x ∷ xs) ys hx hy = (hx.0, Every-append xs ys hx.1 hy)

  pub take_while-append :
      (xs : List A) (y : A) (ys : List A)
      → Every xs
      → p y ≡ false
      → take_while p (xs ++ y ∷ ys) ≡ xs
  take_while-append [] y ys h stop = rw stop
  take_while-append (x ∷ xs) y ys h stop = rw h.0 (ap (◌∷◌ x) (take_while-append xs y ys h.1 stop))

  pub drop_while-append :
      (xs : List A) (y : A) (ys : List A)
      → Every xs
      → p y ≡ false
      → drop_while p (xs ++ y ∷ ys) ≡ y ∷ ys
  drop_while-append [] y ys h stop = rw stop
  drop_while-append (x ∷ xs) y ys h stop = rw h.0 (drop_while-append xs y ys h.1 stop)

  pub take_while-Every : (xs : List A) → Every xs → take_while p xs ≡ xs
  take_while-Every [] h = refl
  take_while-Every (x ∷ xs) h = rw h.0 (ap (◌∷◌ x) (take_while-Every xs h.1))

  pub drop_while-Every : (xs : List A) → Every xs → drop_while p xs ≡ []
  drop_while-Every [] h = refl
  drop_while-Every (x ∷ xs) h = rw h.0 (drop_while-Every xs h.1)

  pub Every-take_while : (xs : List A) → Every (take_while p xs)
  Every-take_while [] = tt
  Every-take_while (x ∷ xs) = ground (arith, Every-take_while xs)

  -- the two scans split the list
  pub take_while-drop_while : (xs : List A) → take_while p xs ++ drop_while p xs ≡ xs
  take_while-drop_while [] = refl
  take_while-drop_while (x ∷ xs) = ground (arith, take_while-drop_while xs)

  pub length-drop_while : (xs : List A) → length (drop_while p xs) ≤ length xs
  length-drop_while [] = omega arith
  length-drop_while (x ∷ xs) = ground (arith, length-drop_while xs)
