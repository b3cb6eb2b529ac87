-- ===== src/Tests/Builds.antt =====
-- The build script on a concrete file system.
use embedded_test_runner.Base.{
  ◌≡◌, refl, Bool, true, Option, some, none, List, [], ◌∷◌, ◌++◌, codes, Text, any_of,
}
use embedded_test_runner.Base.Dict.{contains}
use embedded_test_runner.BuildInit.{BuildSystem, candidates, holds_bridge, pio_test_init}
use embedded_test_runner.BuildInit.Imports.{has_bridge, pio_test_init-importable}

abbrev slashes : List Text → Text
slashes [] = []
slashes (p ∷ []) = p
slashes (p ∷ q ∷ ps) = p ++ codes "/" ++ slashes (q ∷ ps)

-- the package stands in the libraries of the project
abbrev project : BuildSystem
project = record {
  script_path = some (codes "lib/scripts/pio_test_init.py");
  working_directory = codes "project";
  libdeps = codes "libdeps";
  dirname = λ path. codes "lib";
  normpath = λ path. path;
  join = slashes;
  is_directory = λ path. contains path (
      codes "lib/src" ∷ codes "libdeps" ∷ codes "libdeps/Embedded-Bridge/src/embedded_bridge" ∷ []);
  list_directory = λ path. codes "doctest" ∷ codes "Embedded-Bridge" ∷ [];
}

imports :
    pio_test_init project (codes "site" ∷ [])
    ≡ codes "libdeps/Embedded-Bridge/src" ∷ codes "lib/src" ∷ codes "site" ∷ []
unfolding candidates contains embedded_test_runner.Base.find embedded_test_runner.Base.lower
    embedded_test_runner.Base.text_eq embedded_test_runner.BuildInit.add_first
    embedded_test_runner.BuildInit.add_own_source embedded_test_runner.BuildInit.insert_first
    embedded_test_runner.BuildInit.is_bridge embedded_test_runner.BuildInit.lib_root
    embedded_test_runner.BuildInit.scanned holds_bridge pio_test_init
imports = refl

pio_test_init-importable_example :
    ((p : Text)
      → contains p (codes "site" ∷ []) ≡ true
      → contains p (pio_test_init project (codes "site" ∷ [])) ≡ true)
    × (has_bridge project (candidates project) ≡ true
        → any_of (holds_bridge project) (pio_test_init project (codes "site" ∷ [])) ≡ true)
pio_test_init-importable_example = pio_test_init-importable project (codes "site" ∷ [])
