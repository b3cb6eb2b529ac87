-- ===== src/Runner/Args/EnvVars.antt =====
-- Which variables reach the device (src/etst/runner.py: `_collect_env_vars`).
use embedded_test_runner.Base.{
  ◌≢◌, ℕ, Bool, not, Option, some, List, [], ◌∷◌, ◌++◌, Text, codes, text_eq, Every, ◌==◌,
  if◌then◌else◌,
}
use embedded_test_runner.Base.Dict.{Dict}

abbrev pub not_equals : ℕ → Bool
not_equals c = not (c == b'=')

-- a key that `--env` can set: it has a character, and none is `=`
abbrev pub IsEnvKey : Text → Type 0
IsEnvKey key = (key ≢ []) × Every not_equals key

-- the program arguments that set the pairs
abbrev pub env_args : List (Text × Text) → List Text
env_args [] = []
env_args ((key, value) ∷ pairs) = codes "--env" ∷ (key ++ b'=' ∷ value) ∷ env_args pairs

-- the last value that the pairs give the key, or the other one
abbrev pub value_in : List (Text × Text) → Text → Option Text → Option Text
value_in [] key other = other
value_in ((k, value) ∷ pairs) key other =
    value_in pairs key (if text_eq key k then some value else other)
