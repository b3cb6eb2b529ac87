-- ===== src/Runner/Args/Warned.antt =====
-- The warnings of `_env` about old names (src/etst/runner.py: `_env`, `_deprecated_env_warned`).
use embedded_test_runner.Base.{
  ◌≡◌, refl, ap, ◌∙◌, ℕ, suc, Bool, true, not, ◌&&◌, ◌||◌, List, [], ◌∷◌, ◌++◌, Text, text_eq,
  text_eq_iff, is_empty, any_of, map, arith, if◌then◌else◌, Bool-cases, inl, inr,
}
use embedded_test_runner.Base.Dict.{contains}
use embedded_test_runner.Runner.Args.{Environ, env_get, or_text, read_env}

-- the arguments of a call of `_env`
pub record Variable : Type 0 where
  pub new_name : Text
  pub old_name : Text
  pub default : Text

-- what `_env` has warned about, in the order of the warnings, and the two arguments of each warning
pub record Warned : Type 0 where
  pub names : List Text
  pub logged : List (Text × Text)

abbrev warn : Variable → Warned → Warned
warn v w = record {
  names = w.names ++ v.old_name ∷ [];
  logged = w.logged ++ (v.old_name, v.new_name) ∷ [];
}

-- with the stripped value of the old name
unfoldable pub use_old : Text → Variable → Warned → Text × Warned
use_old [] v w = (v.default, w)
use_old (c ∷ value) v w = (c ∷ value, if contains v.old_name w.names then w else warn v w)

-- with that of the new name, then that of the old one
unfoldable pub use_new : Text → Text → Variable → Warned → Text × Warned
use_new [] old v w = use_old old v w
use_new (c ∷ value) old v w = (c ∷ value, w)

unfoldable pub env_value : Environ → Variable → Warned → Text × Warned
env_value env v w = use_new (env_get env v.new_name) (env_get env v.old_name) v w

-- calls of `_env`, one behind the other
unfoldable pub env_values : Environ → List Variable → Warned → List Text × Warned
env_values env [] w = ([], w)
env_values env (v ∷ vs) w =
    let one = env_value env v w in let more = env_values env vs one.1 in (one.0 ∷ more.0, more.1)

abbrev pub nothing_warned : Warned
nothing_warned = record { names = []; logged = [] }

-- a call that finds these values takes the one of the old name, which is this one
abbrev takes : Text → Text → Text → Variable → Bool
takes name new old v = text_eq name v.old_name && (is_empty new && not (is_empty old))

abbrev pub takes_old : Environ → Text → Variable → Bool
takes_old env name v = takes name (env_get env v.new_name) (env_get env v.old_name) v

abbrev pub plain_value : Environ → Variable → Text
plain_value env v = read_env env v.new_name v.old_name v.default

-- how many of the warnings are about a name
unfoldable pub times : Text → List (Text × Text) → ℕ
times name [] = 0
times name ((old, new) ∷ logged) =
    let rest = times name logged in if text_eq name old then suc rest else rest

use_new-value :
    (new old : Text) (v : Variable) (w : Warned)
    → (use_new new old v w).0 ≡ or_text new (or_text old v.default)
unfolding use_new use_old
use_new-value [] [] v w = refl
use_new-value [] (c ∷ old) v w = refl
use_new-value (c ∷ new) old v w = refl

times-append :
    (name old new : Text) (logged : List (Text × Text))
    → times name (logged ++ (old, new) ∷ [])
      ≡ (if text_eq name old then suc (times name logged) else times name logged)
unfolding times
times-append name old new [] = refl
times-append name old new ((o, n) ∷ logged) = ground (arith, times-append name old new logged)

contains-append :
    (name old : Text) (names : List Text)
    → contains name (names ++ old ∷ []) ≡ (contains name names || text_eq name old)
unfolding contains
contains-append name old [] = ground arith
contains-append name old (n ∷ names) = ground (arith, contains-append name old names)

contains-same :
    (name old : Text) (names : List Text)
    → text_eq name old ≡ true
    → contains name names ≡ contains old names
contains-same name old names e = ap (λ (n : Text). contains n names) ((text_eq_iff name old).0 e)

-- a name is in the set when it is in it already or the call takes its value
use_new-names :
    (new old : Text) (v : Variable) (w : Warned) (name : Text)
    → contains name (use_new new old v w).1.names ≡ (contains name w.names || takes name new old v)
unfolding use_new use_old
use_new-names [] [] v w name = ground arith
use_new-names [] (c ∷ old) v w name = elim (Bool-cases (contains v.old_name w.names)) [
  | inl known ↦ rw known (ground (arith, known, contains-same name v.old_name w.names))
  | inr new ↦ rw new (ground (arith, contains-append name v.old_name w.names))
]
use_new-names (c ∷ new) old v w name = ground arith

use_new-times :
    (new old : Text) (v : Variable) (w : Warned) (name : Text)
    → times name (use_new new old v w).1.logged ≡ (
        if takes name new old v && not (contains name w.names)
        then suc (times name w.logged)
        else times name w.logged)
unfolding use_new use_old
use_new-times [] [] v w name = ground arith
use_new-times [] (c ∷ old) v w name = elim (Bool-cases (contains v.old_name w.names)) [
  | inl known ↦ rw known (ground (arith, known, contains-same name v.old_name w.names))
  | inr new ↦ rw new (
      ground (
        arith,
        new,
        contains-same name v.old_name w.names,
        times-append name v.old_name v.new_name w.logged,
      ))
]
use_new-times (c ∷ new) old v w name = ground arith

-- the warnings of one call and of the calls behind it, with the truth values of what they depend on
warned_more :
    (now later known : Bool) (n : ℕ) {known1 : Bool} {n1 : ℕ}
    → known1 ≡ (known || now)
    → n1 ≡ (if now && not known then suc n else n)
    → (if later && not known1 then suc n1 else n1)
      ≡ (if (now || later) && not known then suc n else n)
warned_more now later known n e k = ground (arith, e, k)

-- Whatever variables are read, one behind the other, of one environment: each call gives the value
-- that it gives alone; and a name that is not in the set yet is warned about exactly once if some
-- call takes its value, because the new name is blank and it is not, and never otherwise.
pub env_values_warned :
    (env : Environ) (vs : List Variable) (w : Warned) (name : Text)
    → ((env_values env vs w).0 ≡ map (plain_value env) vs)
      × (times name (env_values env vs w).1.logged ≡ (
          if any_of (takes_old env name) vs && not (contains name w.names)
          then suc (times name w.logged)
          else times name w.logged))
unfolding env_values env_value any_of read_env
env_values_warned env [] w name = (refl, refl)
env_values_warned env (v ∷ vs) w name =
    let new = env_get env v.new_name in
    let old = env_get env v.old_name in
    let more = env_values_warned env vs (env_value env v w).1 name in
    (
      ap (λ (x : Text). x ∷ (env_values env vs (env_value env v w).1).0) (use_new-value new old v w)
          ∙ ap (λ (xs : List Text). plain_value env v ∷ xs) more.0,
      more.1
          ∙ warned_more (takes name new old v) (any_of (takes_old env name) vs)
              (contains name w.names) (times name w.logged) (use_new-names new old v w name)
              (use_new-times new old v w name),
    )
