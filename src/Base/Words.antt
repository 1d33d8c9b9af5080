-- ===== src/Base/Words.antt =====
-- Texts cut at a character, as `split` of the source's language cuts them.
use Prim.Native.Char.{Char, code}
use Prim.Native.Nat.{ℕ}
use Prim.Native.String.{String}
use mathlib.Core.Bool.{true, false}
use mathlib.Core.List.{List, [], ◌∷◌}
use serve.Base.Tests.{◌==◌}

unfoldable pub push_char : Char → List String → List String
push_char c [] = (String.◌∷◌ c String.[]) ∷ []
push_char c (w ∷ ws) = (String.◌∷◌ c w) ∷ ws

-- `s.split(sep)`, for a separator of one character, given by its number
unfoldable pub split : ℕ → String → List String
split sep String.[] = String.[] ∷ []
split sep (String.◌∷◌ c s) =
    let rest = split sep s in
    elim (code c == sep) [ true ↦ String.[] ∷ rest | false ↦ push_char c rest ]

-- `s.substring(1)`
unfoldable pub without_first : String → String
without_first String.[] = String.[]
without_first (String.◌∷◌ c s) = s
