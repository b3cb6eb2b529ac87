-- ===== src/BuildInit.antt =====
-- The PlatformIO script that makes the Python sources importable (src/scripts/pio_test_init.py).
--
-- SCons, the file system, `os.path` and the working directory are a `BuildSystem`; `sys.path` is the
-- list that is passed on.
pub mod Imports
use embedded_test_runner.Base.{
  Bool, true, false, not, ◌&&◌, Option, none, some, List, [], ◌∷◌, ◌++◌, Text, codes, lower, find,
  if◌then◌else◌,
}
use embedded_test_runner.Base.Dict.{contains}

-- `script_path` is that of the innermost SConscript, if there is one; `join` is `os.path.join`
pub record BuildSystem : Type 0 where
  pub script_path : Option Text
  pub working_directory : Text
  pub libdeps : Text
  pub dirname : Text → Text
  pub normpath : Text → Text
  pub join : List Text → Text
  pub is_directory : Text → Bool
  pub list_directory : Text → List Text

-- `if p not in sys.path: sys.path.insert(0, p)`
unfoldable pub insert_first : Text → List Text → List Text
insert_first path sys_path = if contains path sys_path then sys_path else path ∷ sys_path

module _ (d : BuildSystem) where
  unfoldable pub lib_root : Text
  lib_root = elim d.script_path [
    | some path ↦ d.dirname (d.dirname path)
    | none ↦ d.normpath (d.join (d.working_directory ∷ codes ".." ∷ codes ".." ∷ []))
  ]

  unfoldable pub add_own_source : List Text → List Text
  add_own_source sys_path =
      let source = d.join (lib_root ∷ codes "src" ∷ []) in
      if d.is_directory source then insert_first source sys_path else sys_path

  -- "embedded-bridge" in name.lower()
  unfoldable pub is_bridge : Text → Bool
  is_bridge name = elim (find (codes "embedded-bridge") (lower name)) [
    | none ↦ false
    | some i ↦ true
  ]

  -- the candidates that the scan of the libraries adds
  unfoldable pub scanned : List Text → List Text
  scanned [] = []
  scanned (name ∷ names) =
      let rest = scanned names in
      if is_bridge name
      then d.join (d.libdeps ∷ name ∷ codes "python" ∷ codes "src" ∷ [])
        ∷ d.join (d.libdeps ∷ name ∷ codes "src" ∷ [])
        ∷ rest
      else rest

  unfoldable pub candidates : List Text
  candidates =
      d.join (lib_root ∷ codes ".." ∷ codes "embedded-bridge" ∷ codes "python" ∷ codes "src" ∷ [])
      ∷ (if d.is_directory d.libdeps then scanned (d.list_directory d.libdeps) else [])

  unfoldable pub holds_bridge : Text → Bool
  holds_bridge candidate = d.is_directory (d.join (candidate ∷ codes "embedded_bridge" ∷ []))

  -- the loop, which the first candidate that holds the package ends
  unfoldable pub add_first : List Text → List Text → List Text
  add_first [] sys_path = sys_path
  add_first (candidate ∷ rest) sys_path = elim (holds_bridge (d.normpath candidate)) [
    | true ↦ insert_first (d.normpath candidate) sys_path
    | false ↦ add_first rest sys_path
  ]

  -- the whole script
  unfoldable pub pio_test_init : List Text → List Text
  pio_test_init sys_path = add_first candidates (add_own_source sys_path)
