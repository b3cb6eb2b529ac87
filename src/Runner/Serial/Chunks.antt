-- ===== src/Runner/Serial/Chunks.antt =====
-- How the serial data is cut into reads does not matter (src/etst/runner.py: `_on_serial_data`).
use embedded_test_runner.Base.{
  ℕ, ◌≡◌, refl, sym, ap, ◌∙◌, Bool, true, false, List, [], ◌∷◌, ◌++◌, Text, arith, ◌==◌,
}
use embedded_test_runner.Runner.Serial.{
  Host, cons_line, split_lines, one_line, strip_return, all_lines,
}

-- lines in front of a split
unfoldable pub put_lines : List Text → List Text × Text → List Text × Text
put_lines ls split = (ls ++ split.0, split.1)

cons_line-put_lines :
    (newline : Bool) (c : ℕ) (split : List Text × Text) (y : Text)
    → (c == b'\n') ≡ newline
    → cons_line newline c (put_lines split.0 (split_lines (split.1 ++ y)))
      ≡ put_lines (cons_line newline c split).0 (split_lines ((cons_line newline c split).1 ++ y))
unfolding put_lines split_lines
cons_line-put_lines true c (ls, rest) y h = refl
cons_line-put_lines false c ([], rest) y h =
    ap (λ n. cons_line n c (split_lines (rest ++ y))) (sym h)
cons_line-put_lines false c (l ∷ ls, rest) y h = refl

pub split_lines-append :
    (x y : Text)
    → split_lines (x ++ y) ≡ put_lines (split_lines x).0 (split_lines ((split_lines x).1 ++ y))
unfolding split_lines put_lines
split_lines-append [] y = refl
split_lines-append (c ∷ x) y =
    ap (cons_line (c == b'\n') c) (split_lines-append x y)
    ∙ cons_line-put_lines (c == b'\n') c (split_lines x) y refl

module _ {S : Type 0} (d : Host S) where
  pub all_lines-on :
      (l : Text) (ls : List Text) (s : S)
      → (one_line d (strip_return l) s).0 ≡ false
      → all_lines d (l ∷ ls) s ≡ all_lines d ls (one_line d (strip_return l) s).1
  unfolding all_lines
  all_lines-on l ls s h = ground (arith, h)

  pub all_lines-stop :
      (l : Text) (ls : List Text) (s : S)
      → (one_line d (strip_return l) s).0 ≡ true
      → (all_lines d (l ∷ ls) s).0 ≡ true
  unfolding all_lines
  all_lines-stop l ls s h = ground (arith, h)
