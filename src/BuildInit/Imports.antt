-- ===== src/BuildInit/Imports.antt =====
-- What the script does to the import path (src/scripts/pio_test_init.py).
use embedded_test_runner.Base.{
  ◌≡◌, sym, ap, Bool, true, List, [], ◌∷◌, Text, codes, arith, text_eq, text_eq_iff, Bool-cases,
  inl, inr, any_of,
}
use embedded_test_runner.Base.Dict.{contains, contains_self}
use embedded_test_runner.BuildInit.{
  BuildSystem, insert_first, lib_root, add_own_source, candidates, holds_bridge, add_first,
  pio_test_init,
}

contains-insert_first :
    (path : Text) (sys_path : List Text) → contains path (insert_first path sys_path) ≡ true
unfolding insert_first
contains-insert_first path sys_path = ground (arith, contains_self path sys_path)

contains-insert_first_before :
    (p path : Text) (sys_path : List Text)
    → contains p sys_path ≡ true
    → contains p (insert_first path sys_path) ≡ true
unfolding insert_first contains
contains-insert_first_before p path sys_path h = ground (arith, h)

any_of-contains :
    (q : Text → Bool) (p : Text) (xs : List Text)
    → contains p xs ≡ true
    → q p ≡ true
    → any_of q xs ≡ true
unfolding any_of contains
any_of-contains q p [] h k = ground (arith, h)
any_of-contains q p (x ∷ xs) h k = elim (Bool-cases (text_eq p x)) [
  | inl same ↦ ground (arith, ap q (sym ((text_eq_iff p x).0 same)), k)
  | inr other ↦ ground (arith, other, any_of-contains q p xs, h)
]

module _ (d : BuildSystem) where
  contains-add_first :
      (p : Text) (cs sys_path : List Text)
      → contains p sys_path ≡ true
      → contains p (add_first d cs sys_path) ≡ true
  unfolding add_first
  contains-add_first p [] sys_path h = h
  contains-add_first p (c ∷ cs) sys_path h = elim (Bool-cases (holds_bridge d (d.normpath c))) [
    | inl here ↦ rw (here, add_first) (contains-insert_first_before p (d.normpath c) sys_path h)
    | inr other ↦ rw (other, add_first) (contains-add_first p cs sys_path h)
  ]

  -- some candidate holds the package
  abbrev pub has_bridge : List Text → Bool
  has_bridge cs = any_of (λ c. holds_bridge d (d.normpath c)) cs

  add_first-found :
      (cs sys_path : List Text)
      → has_bridge cs ≡ true
      → any_of (holds_bridge d) (add_first d cs sys_path) ≡ true
  unfolding add_first any_of
  add_first-found [] sys_path h = ground (arith, h)
  add_first-found (c ∷ cs) sys_path h = elim (Bool-cases (holds_bridge d (d.normpath c))) [
    | inl here ↦
        rw (here, add_first)
          (any_of-contains (holds_bridge d) (d.normpath c) (insert_first (d.normpath c) sys_path)
            (contains-insert_first (d.normpath c) sys_path) here)
    | inr other ↦ rw (other, add_first) (add_first-found cs sys_path (ground (arith, h, other)))
  ]

  contains-add_own_source :
      (p : Text) (sys_path : List Text)
      → contains p sys_path ≡ true
      → contains p (add_own_source d sys_path) ≡ true
  unfolding add_own_source
  contains-add_own_source p sys_path h =
      let source = d.join (lib_root d ∷ codes "src" ∷ []) in
      ground (arith, contains-insert_first_before p source sys_path h, h)

  -- The script loses no entry of the import path; and if some candidate holds the package
  -- embedded_bridge, some entry holds it afterwards.
  pub pio_test_init-importable :
      (sys_path : List Text)
      → ((p : Text) → contains p sys_path ≡ true → contains p (pio_test_init d sys_path) ≡ true)
        × (has_bridge (candidates d) ≡ true
            → any_of (holds_bridge d) (pio_test_init d sys_path) ≡ true)
  unfolding pio_test_init
  pio_test_init-importable sys_path = (
    λ p h.
        contains-add_first p (candidates d) (add_own_source d sys_path)
          (contains-add_own_source p sys_path h),
    add_first-found (candidates d) (add_own_source d sys_path),
  )
