-- ===== src/Base/Action.antt =====
-- Calls that change the world and may raise: what src/etst/serial_port.py and the methods of
-- src/etst/runner.py around the serial port are made of.
use mathlib.Core.Bool.{Bool, true, false}

-- how a call ends: with a value or an exception, and the world it leaves behind
pub data Outcome (E W A : Type 0) : Type 0 where
  done : A → W → Outcome E W A
  threw : E → W → Outcome E W A

abbrev pub Action : Type 0 → Type 0 → Type 0 → Type 0
Action E W A = W → Outcome E W A

abbrev pub follow : {E W A B : Type 0} → Outcome E W A → (A → Action E W B) → Outcome E W B
follow (done a w) k = k a w
follow (threw e w) k = threw e w

unfoldable pub pure : {E W A : Type 0} → A → Action E W A
pure a w = done a w

infixl 5 ◌>>=◌ ◌>>◌
unfoldable pub ◌>>=◌ : {E W A B : Type 0} → Action E W A → (A → Action E W B) → Action E W B
◌>>=◌ m k w = follow (m w) k

unfoldable pub ◌>>◌ : {E W B : Type 0} → Action E W (Unit {0}) → Action E W B → Action E W B
m >> k = m >>= λ _. k

-- what cannot raise
unfoldable pub effect : {E W : Type 0} → (W → W) → Action E W (Unit {0})
effect f w = done tt (f w)

-- `if`, for an action on its own
unfoldable pub when : {E W : Type 0} → Bool → Action E W (Unit {0}) → Action E W (Unit {0})
when b m w = elim b [ true ↦ m w | false ↦ done tt w ]

-- `try … except Exception: pass`
abbrev pub swallow : {E W : Type 0} → Outcome E W (Unit {0}) → Outcome E W (Unit {0})
swallow (done a w) = done tt w
swallow (threw e w) = done tt w

-- the world behind a call
abbrev pub world : {E W A : Type 0} → Outcome E W A → W
world (done a w) = w
world (threw e w) = w
