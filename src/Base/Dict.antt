-- ===== src/Base/Dict.antt =====
-- Python's `dict` with text keys, in insertion order: a key that is set again keeps its place.
use mathlib.Core.Path.{◌≡◌, refl, sym, subst, ◌∙◌}
use mathlib.Core.Bool.{Bool, true, false}
use mathlib.Core.Option.{Option, none, some}
use mathlib.Core.List.{List, [], ◌∷◌}
use native.Mathlib.Omega.{arith}
use embedded_test_runner.Base.Test.{if◌then◌else◌, Bool-cases}
use embedded_test_runner.Base.Lists.{All, Every}
use mathlib.Core.Logic.{inl, inr}
use embedded_test_runner.Base.Chars.{Text, text_eq, text_eq_iff, text_eq_refl}

abbrev pub Dict {ℓ} : Type ℓ → Type ℓ
Dict V = List (Text × V)

-- `x in xs` on a list of texts
unfoldable pub contains : Text → List Text → Bool
contains k [] = false
contains k (j ∷ js) = let rest = contains k js in if text_eq k j then true else rest

pub contains_self : (t : Text) (ts : List Text) → contains t (t ∷ ts) ≡ true
unfolding contains
contains_self t ts = rw (text_eq_refl t) refl

pub Every-contains :
    (q : Text → Bool) (xs : List Text)
    → ((t : Text) → contains t xs ≡ true → q t ≡ true)
    → Every q xs
unfolding contains
Every-contains q [] h = tt
Every-contains q (x ∷ xs) h =
    (h x (rw (text_eq_refl x) refl), Every-contains q xs (λ (t : Text) e. h t (ground (arith, e))))

pub All-contains :
    (P : Text → Type 0) (xs : List Text) → All P xs → (t : Text) → contains t xs ≡ true → P t
unfolding contains
All-contains P [] h t e = ground (arith, e)
All-contains P (x ∷ xs) h t e = elim (Bool-cases (text_eq t x)) [
  | inl same ↦ subst P (sym ((text_eq_iff t x).0 same)) h.0
  | inr other ↦ All-contains P xs h.1 t (ground (arith, e, other))
]

module _ {ℓ} {V : Type ℓ} where
  -- d.get(k)
  unfoldable pub lookup : Text → Dict V → Option V
  lookup k [] = none
  lookup k ((j, v) ∷ d) = let rest = lookup k d in if text_eq k j then some v else rest

  -- d[k] = v
  unfoldable pub insert : Text → V → Dict V → Dict V
  insert k v [] = (k, v) ∷ []
  insert k v ((j, w) ∷ d) =
      let rest = insert k v d in if text_eq k j then (j, v) ∷ d else (j, w) ∷ rest

  unfoldable pub keys : Dict V → List Text
  keys [] = []
  keys ((j, v) ∷ d) = j ∷ keys d

  pub lookup-insert :
      (j k : Text) (v : V) (d : Dict V)
      → lookup j (insert k v d) ≡ (if text_eq j k then some v else lookup j d)
  unfolding lookup insert
  lookup-insert j k v [] = refl
  lookup-insert j k v ((i, w) ∷ d) =
      ground (arith, text_eq_iff j k, text_eq_iff k i, text_eq_iff j i, lookup-insert j k v d)

  pub lookup-insert_self : (k : Text) (v : V) (d : Dict V) → lookup k (insert k v d) ≡ some v
  lookup-insert_self k v d = lookup-insert k k v d ∙ rw (text_eq_refl k)
