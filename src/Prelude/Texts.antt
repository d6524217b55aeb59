-- ===== src/Prelude/Texts.antt =====
-- Equality of texts, as the proofs use it.
use Prim.Native.String.{String}
use mathlib.Core.Path.{◌≡◌}
use mathlib.Core.Logic.{◌≢◌}
use mathlib.Core.Bool.{Bool, true, false, not}
use native.Mathlib.Omega.{arith}
use text.Mathlib.Text.{◌==◌}
use text.Mathlib.TextEquality.{eq_iff}

-- `a !== b`.
infix 50 ◌=/=◌
abbrev pub ◌=/=◌ : String → String → Bool
a =/= b = not (a == b)

pub ==→≡ : (a b : String) → (a == b) ≡ true → a ≡ b
==→≡ a b h = (eq_iff a b).0 h

pub ≡→== : (a b : String) → a ≡ b → (a == b) ≡ true
≡→== a b h = (eq_iff a b).1 h

pub ≢→==-false : (a b : String) → a ≢ b → (a == b) ≡ false
≢→==-false a b h = ground (arith, eq_iff a b)

pub ==-comm : (a b : String) → (a == b) ≡ (b == a)
==-comm a b = ground (arith, eq_iff a b, eq_iff b a)
