-- ===== src/Bytes/Defs.antt =====
-- The Go operators `==` and `<` on strings, and literals.
use Prim.Native.Char.{code}
use Prim.Native.String.{String}
use gostats.Prelude.{ℕ, Bool, true, false, ◌&&◌, List, [], ◌∷◌, ltb, ◌==◌, if◌then◌else◌}

abbrev pub Bytes : Type 0
Bytes = List ℕ

-- A text literal; its code points are its bytes when it is ASCII.
abbrev pub codes : String → Bytes
codes String.[] = []
codes (String.◌∷◌ c s) = code c ∷ codes s

-- `s == t`
unfoldable pub beq : Bytes → Bytes → Bool
beq [] [] = true
beq [] (_ ∷ _) = false
beq (_ ∷ _) [] = false
beq (x ∷ s) (y ∷ t) = (x == y) && beq s t

-- `s < t`
unfoldable pub less : Bytes → Bytes → Bool
less [] [] = false
less [] (_ ∷ _) = true
less (_ ∷ _) [] = false
less (x ∷ s) (y ∷ t) = if ltb x y then true else if ltb y x then false else less s t
