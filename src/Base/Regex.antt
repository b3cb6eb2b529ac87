-- ===== src/Base/Regex.antt =====
-- Regular expressions as backtracking matchers, tried in the order of Python's `re`. A matcher
-- takes the text that is left and the continuation of the match; a repetition of a class of
-- characters hands the characters that it took on to what follows.
use mathlib.Core.Bool.{Bool, true, false, not}
use mathlib.Core.Option.{Option, none, some}
use mathlib.Core.List.{[], ◌∷◌, ◌++◌}
use embedded_test_runner.Base.Test.{◌==◌, if◌then◌else◌}
use embedded_test_runner.Base.Chars.{Text, strip_prefix}
use Prim.Native.Nat.{ℕ}

-- `.`
abbrev pub any_character : ℕ → Bool
any_character c = not (c == b'\n')

module _ {ℓ} {R : Type ℓ} where
  -- the first of two matches
  abbrev pub or_else : Option R → Option R → Option R
  or_else (some r) other = some r
  or_else none other = other

  -- literal characters
  unfoldable pub literal : Text → (Text → Option R) → Text → Option R
  literal w k s = elim (strip_prefix w s) [ some rest ↦ k rest | none ↦ none ]

  -- `[…]*`: as many as there are, then one fewer, and so on
  unfoldable pub many_from : (ℕ → Bool) → Text → (Text → Text → Option R) → Text → Option R
  many_from p taken k [] = k taken []
  many_from p taken k (c ∷ s) = elim (p c) [
    | true ↦ or_else (many_from p (taken ++ c ∷ []) k s) (k taken (c ∷ s))
    | false ↦ k taken (c ∷ s)
  ]

  abbrev pub many : (ℕ → Bool) → (Text → Text → Option R) → Text → Option R
  many p = many_from p []

  -- `[…]+`
  abbrev pub many1 : (ℕ → Bool) → (Text → Text → Option R) → Text → Option R
  many1 p k [] = none
  many1 p k (c ∷ s) = if p c then many_from p (c ∷ []) k s else none

  -- `[…]+?`: as few as will do
  unfoldable pub few_from : (ℕ → Bool) → Text → (Text → Text → Option R) → Text → Option R
  few_from p taken k [] = k taken []
  few_from p taken k (c ∷ s) = elim (k taken (c ∷ s)) [
    | some r ↦ some r
    | none ↦ elim (p c) [ true ↦ few_from p (taken ++ c ∷ []) k s | false ↦ none ]
  ]

  abbrev pub few1 : (ℕ → Bool) → (Text → Text → Option R) → Text → Option R
  few1 p k [] = none
  few1 p k (c ∷ s) = if p c then few_from p (c ∷ []) k s else none

  -- `$`: at the end, or before a newline at the end
  abbrev pub at_end : Option R → Text → Option R
  at_end r [] = r
  at_end r (c ∷ []) = if c == b'\n' then r else none
  at_end r (c ∷ d ∷ s) = none

  -- `search`: the first place where the expression matches
  unfoldable pub search_for : (Text → Option R) → Text → Option R
  search_for m [] = m []
  search_for m (c ∷ s) = elim (m (c ∷ s)) [ some r ↦ some r | none ↦ search_for m s ]
