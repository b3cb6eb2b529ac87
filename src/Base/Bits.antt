-- ===== src/Base/Bits.antt =====
-- Checks of every value of a small range by evaluation, and the laws of `^` on bytes got this way.
use Prim.Native.Nat.{ℕ, zero, suc, ◌<◌, bit_xor}
use mathlib.Core.Path.{◌≡◌, refl, ap, sym, ◌∙◌}
use mathlib.Core.Bool.{Bool, true, ◌&&◌}
use native.Mathlib.Omega.{arith}
use embedded_test_runner.Base.Test.{ltb, ◌==◌}

-- the test passes for each number under the bound
unfoldable pub passes_under : (ℕ → Bool) → ℕ → Bool
passes_under test zero = true
passes_under test (suc bound) = passes_under test bound && test bound

pub passes_under_sound :
    (test : ℕ → Bool) (bound : ℕ)
    → passes_under test bound ≡ true
    → (x : ℕ) → x < bound
    → test x ≡ true
unfolding passes_under
passes_under_sound test zero h x small = absurd (omega (arith, small))
passes_under_sound test (suc bound) h x small = ground (arith, passes_under_sound test bound _ x)

abbrev xor_laws : ℕ → ℕ → Bool
xor_laws a b = bit_xor a (bit_xor a b) == b && ltb (bit_xor a b) 256 && bit_xor a b == bit_xor b a

xor_table : passes_under (λ a. passes_under (xor_laws a) 256) 256 ≡ true
unfolding passes_under
xor_table = refl

xor_checked : (a b : ℕ) → a < 256 → b < 256 → xor_laws a b ≡ true
xor_checked a b ha hb =
    passes_under_sound (xor_laws a) 256 (passes_under_sound _ 256 xor_table a ha) b hb

pub xor_twice : (a b : ℕ) → a < 256 → b < 256 → bit_xor a (bit_xor a b) ≡ b
xor_twice a b ha hb = ground (arith, xor_checked a b ha hb)

pub xor-lt : (a b : ℕ) → a < 256 → b < 256 → bit_xor a b < 256
xor-lt a b ha hb = ground (arith, xor_checked a b ha hb)

pub xor_comm : (a b : ℕ) → a < 256 → b < 256 → bit_xor a b ≡ bit_xor b a
xor_comm a b ha hb = ground (arith, xor_checked a b ha hb)

pub xor_injective : (s a b : ℕ) → s < 256 → a < 256 → b < 256 → bit_xor s a ≡ bit_xor s b → a ≡ b
xor_injective s a b hs ha hb e = sym (xor_twice s a hs ha) ∙ ap (bit_xor s) e ∙ xor_twice s b hs hb
