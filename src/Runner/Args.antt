-- ===== src/Runner/Args.antt =====
-- The commands and ARGS lines that the runner builds of the program arguments and the environment
-- (src/etst/runner.py: `_env`, `_extract_filters`, `_build_initial_command`, `_collect_env_vars`,
-- `_build_args_and_run`). The environment is a dictionary; the echoes are left out. `read_env` is the
-- value of `_env`; Runner/Args/Warned has its warnings.
pub mod Commands
pub mod EnvVars
pub mod Warned
use embedded_test_runner.Base.{
  ℕ, zero, suc, ◌+◌, Bool, true, false, not, ◌&&◌, Option, none, some, List, [], ◌∷◌, ◌++◌, Text,
  codes, text_eq, is_empty, starts_with, strip_prefix, find, strip, take, drop, ◌==◌, if◌then◌else◌,
}
use embedded_test_runner.Base.Dict.{Dict, lookup, insert}

abbrev pub Environ : Type 0
Environ = Dict Text

abbrev value_or_empty : Option Text → Text
value_or_empty none = []
value_or_empty (some v) = v

-- os.environ.get(name, "").strip()
abbrev pub env_get : Environ → Text → Text
env_get env name = strip (value_or_empty (lookup name env))

abbrev pub or_text : Text → Text → Text
or_text [] other = other
or_text (c ∷ s) other = c ∷ s

-- `_env`: the new name, then the old one, then the default
unfoldable pub read_env : Environ → Text → Text → Text → Text
read_env env new_name old_name default =
    or_text (env_get env new_name) (or_text (env_get env old_name) default)

-- `command[4:].strip()` of a "RUN:" command
unfoldable pub extract_filters : Text → Text
extract_filters command = elim (strip_prefix (codes "RUN:") command) [
  | some rest ↦ strip rest
  | none ↦ []
]

-- `" " in s`
unfoldable pub has_space : Text → Bool
has_space [] = false
has_space (c ∷ s) = let rest = has_space s in if c == b' ' then true else rest

-- a value with a space is quoted, so that the firmware does not split it
unfoldable pub flag_text : Text → Text → Text
flag_text flag value =
    if has_space value then flag ++ codes " \"" ++ value ++ codes "\"" else flag ++ b' ' ∷ value

abbrev pub is_flag : Text → Bool
is_flag arg = starts_with arg (codes "--")

-- the `while i < len(program_args)` loop of `_build_initial_command`
unfoldable pub arg_filters : List Text → List Text
arg_filters [] = []
arg_filters (arg ∷ []) = arg ∷ []
arg_filters (arg ∷ value ∷ rest) = elim (is_flag arg && not (is_flag value)) [
  | true ↦ flag_text arg value ∷ arg_filters rest
  | false ↦ arg ∷ arg_filters (value ∷ rest)
]

-- that of `_build_args_and_run`, which passes `--env` and what follows it over
unfoldable pub filter_parts : List Text → List Text
filter_parts [] = []
filter_parts (arg ∷ []) = arg ∷ []
filter_parts (arg ∷ value ∷ rest) = elim (text_eq arg (codes "--env")) [
  | true ↦ filter_parts rest
  | false ↦ elim (is_flag arg && not (is_flag value)) [
    | true ↦ flag_text arg value ∷ filter_parts rest
    | false ↦ arg ∷ filter_parts (value ∷ rest)
  ]
]

-- the variables with their old names and their flags
abbrev pub env_map : List (Text × Text × Text)
env_map =
    (codes "ETST_CASE", codes "PTR_TEST_CASE", codes "--tc")
    ∷ (codes "ETST_SUITE", codes "PTR_TEST_SUITE", codes "--ts")
    ∷ (codes "ETST_CASE_EXCLUDE", codes "PTR_TEST_CASE_EXCLUDE", codes "--tce")
    ∷ (codes "ETST_SUITE_EXCLUDE", codes "PTR_TEST_SUITE_EXCLUDE", codes "--tse")
    ∷ (codes "ETST_UNSKIP_CASE", codes "PTR_UNSKIP_TEST_CASE", codes "--unskip-tc")
    ∷ (codes "ETST_UNSKIP_SUITE", codes "PTR_UNSKIP_TEST_SUITE", codes "--unskip-ts")
    ∷ (codes "ETST_SKIP_CASE", codes "PTR_SKIP_TEST_CASE", codes "--skip-tc")
    ∷ (codes "ETST_SKIP_SUITE", codes "PTR_SKIP_TEST_SUITE", codes "--skip-ts")
    ∷ (codes "ETST_NO_SKIP", codes "PTR_NO_SKIP", codes "--no-skip")
    ∷ []

env_part : Text → Text → Text
env_part flag value = if text_eq flag (codes "--no-skip") then flag else flag_text flag value

unfoldable pub env_filters : Environ → List (Text × Text × Text) → List Text
unfolding env_part
env_filters env [] = []
env_filters env ((new_var, old_var, flag) ∷ vars) =
    let rest = env_filters env vars in
    let value = read_env env new_var old_var [] in
    if is_empty value then rest else env_part flag value ∷ rest

-- " ".join(parts)
unfoldable pub join_spaces : List Text → Text
join_spaces [] = []
join_spaces (p ∷ []) = p
join_spaces (p ∷ q ∷ ps) = p ++ b' ' ∷ join_spaces (q ∷ ps)

-- a leading space, if there are filters
abbrev pub filter_suffix : List Text → Text
filter_suffix [] = []
filter_suffix (p ∷ ps) = b' ' ∷ join_spaces (p ∷ ps)

abbrev pub resume_after : Environ → Text
resume_after env = read_env env (codes "ETST_RESUME_AFTER") (codes "PTR_RESUME_AFTER") []

run_command : Text → List Text → Text
run_command [] [] = codes "RUN_ALL"
run_command [] (p ∷ ps) = codes "RUN: " ++ join_spaces (p ∷ ps)
run_command (c ∷ resume) filters = codes "RESUME_AFTER: " ++ (c ∷ resume) ++ filter_suffix filters

-- `_build_initial_command`; no program arguments are the empty list
unfoldable pub build_initial_command : Environ → List Text → Text
unfolding run_command
build_initial_command env program_args =
    run_command (resume_after env) (arg_filters program_args ++ env_filters env env_map)

host_vars : Environ → Dict Text → Dict Text
host_vars [] vars = vars
host_vars ((key, value) ∷ env) vars = host_vars env (elim (strip_prefix (codes "ETST_ENV_") key) [
  | none ↦ vars
  | some [] ↦ vars
  | some (c ∷ stripped) ↦ insert (c ∷ stripped) value vars
])

-- `env_vars[kv[:eq_pos]] = kv[eq_pos + 1:]`, if `=` stands behind the first character
abbrev pub set_at : Option ℕ → Text → Dict Text → Dict Text
set_at (some (suc i)) kv vars = insert (take (suc i) kv) (drop (suc (suc i)) kv) vars
set_at _ kv vars = vars

set_pair : Text → Dict Text → Dict Text
set_pair kv vars = set_at (find (codes "=") kv) kv vars

arg_vars : List Text → Dict Text → Dict Text
unfolding set_pair
arg_vars [] vars = vars
arg_vars (arg ∷ []) vars = vars
arg_vars (arg ∷ kv ∷ rest) vars = elim (text_eq arg (codes "--env")) [
  | true ↦ arg_vars rest (set_pair kv vars)
  | false ↦ arg_vars (kv ∷ rest) vars
]

unfoldable pub collect_env_vars : Environ → List Text → Dict Text
unfolding host_vars arg_vars
collect_env_vars env program_args = arg_vars program_args (host_vars env [])

env_lines : Dict Text → List Text
env_lines [] = []
env_lines ((key, value) ∷ vars) = (codes "--env " ++ (key ++ b'=' ∷ value)) ∷ env_lines vars

abbrev parts_line : List Text → List Text
parts_line [] = []
parts_line (p ∷ ps) = join_spaces (p ∷ ps) ∷ []

command_for : Text → List Text → List Text → Text
command_for (c ∷ resume) parts lines = codes "RESUME_AFTER: " ++ (c ∷ resume) ++ filter_suffix parts
command_for [] parts [] = codes "RUN_ALL"
command_for [] parts (l ∷ ls) = codes "RUN"

-- the ARGS lines and the RUN command
unfoldable pub build_args_and_run : Environ → List Text → List Text × Text
unfolding env_lines command_for
build_args_and_run env program_args =
    let parts = filter_parts program_args ++ env_filters env env_map in
    let lines = env_lines (collect_env_vars env program_args) ++ parts_line parts in
    (lines, command_for (resume_after env) parts lines)
