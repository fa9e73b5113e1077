-- ===== src/Prelude/Texts.antt =====
-- `s[:n]` of a text.
use Prim.Native.Nat.{ℕ, zero, suc}
use Prim.Native.String.{String}

unfoldable pub truncate : ℕ → String → String
truncate zero s = String.[]
truncate (suc n) String.[] = String.[]
truncate (suc n) (String.◌∷◌ c s) = String.◌∷◌ c (truncate n s)
