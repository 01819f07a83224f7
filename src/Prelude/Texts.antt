-- ===== src/Prelude/Texts.antt =====
-- Go strings are sequences of bytes.
use Prim.Native.Nat.{ℕ}
use Prim.Native.Char.{code}
use Prim.Native.String.{String}
use mathlib.Core.List.{List, [], ◌∷◌}

abbrev pub Text : Type 0
Text = List ℕ

-- The bytes of an ASCII literal.
abbrev pub t : String → Text
t String.[] = []
t (String.◌∷◌ c s) = code c ∷ t s
