-- ===== src/Runner/Args/Commands.antt =====
-- Which command is built, and what the two builders have in common.
use embedded_test_runner.Base.{
  ◌≡◌, refl, sym, ap, ◌∙◌, false, List, [], ◌∷◌, ◌++◌, Text, codes, text_eq, arith, All,
  strip_prefix, if◌then◌else◌,
}
use embedded_test_runner.Base.Dict.{Dict}
use embedded_test_runner.Runner.Args.{
  Environ, extract_filters, arg_filters, filter_parts, env_filters, env_map, resume_after,
  run_command, build_initial_command, collect_env_vars, env_lines, parts_line, command_for,
  build_args_and_run,
}

-- an argument that is not `--env`
abbrev pub NotEnv : Text → Type 0
NotEnv arg = text_eq arg (codes "--env") ≡ false

filter_parts-arg_filters :
    (args : List Text) → All NotEnv args → filter_parts args ≡ arg_filters args
unfolding filter_parts arg_filters
filter_parts-arg_filters [] h = refl
filter_parts-arg_filters (arg ∷ []) h = refl
filter_parts-arg_filters (arg ∷ value ∷ rest) h =
    ground (arith, filter_parts-arg_filters rest h.1.1, filter_parts-arg_filters (value ∷ rest) h.1)

extract-command_for :
    (resume : Text) (parts lines : List Text)
    → extract_filters (command_for resume parts lines) ≡ []
unfolding extract_filters command_for strip_prefix
extract-command_for [] parts [] = refl
extract-command_for [] parts (l ∷ ls) = refl
extract-command_for (c ∷ resume) parts lines = refl

-- The filters that `stage_testing` takes from the command for later RESUME_AFTER commands are empty,
-- whatever the arguments and the environment: the command is never one that begins with "RUN:".
pub extract_filters-build_args_and_run :
    (env : Environ) (args : List Text) → extract_filters (build_args_and_run env args).1 ≡ []
unfolding build_args_and_run
extract_filters-build_args_and_run env args = extract-command_for (resume_after env) _ _

-- the one command that says what the ARGS lines and the RUN command say together
abbrev pub spelled : List Text × Text → Text
spelled ([], command) = command
spelled (l ∷ ls, command) = if text_eq command (codes "RUN") then codes "RUN: " ++ l else command

spelled-command_for :
    (resume : Text) (parts : List Text)
    → run_command resume parts
      ≡ spelled (parts_line parts, command_for resume parts (parts_line parts))
unfolding run_command command_for text_eq
spelled-command_for [] [] = refl
spelled-command_for [] (p ∷ ps) = refl
spelled-command_for (c ∷ resume) [] = refl
spelled-command_for (c ∷ resume) (p ∷ ps) = refl

run_parts : Environ → List Text → Dict Text → List Text × Text
run_parts env parts vars =
    let lines = env_lines vars ++ parts_line parts in
    (lines, command_for (resume_after env) parts lines)

-- Where no variable is set and no argument is `--env`, `_build_initial_command` gives the command
-- that says what the ARGS lines and the command of `_build_args_and_run` say together.
pub build_initial_command-spelled :
    (env : Environ) (args : List Text)
    → All NotEnv args
    → collect_env_vars env args ≡ []
    → build_initial_command env args ≡ spelled (build_args_and_run env args)
unfolding build_initial_command build_args_and_run run_parts env_lines
build_initial_command-spelled env args h none_set =
    let given = env_filters env env_map in
    spelled-command_for (resume_after env) (arg_filters args ++ given)
    ∙ ap (λ parts. spelled (run_parts env (parts ++ given) []))
        (sym (filter_parts-arg_filters args h))
    ∙ ap (λ vars. spelled (run_parts env (filter_parts args ++ given) vars)) (sym none_set)
