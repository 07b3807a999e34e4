-- ===== src/Prelude/Codes.antt =====
-- Texts as the lists of their characters' numbers, for the patterns of the source, which are on ASCII.
use Prim.Native.Nat.{ℕ}
use Prim.Native.String.{String}
use Prim.Native.Char.{code}
use mathlib.Core.Bool.{Bool, ◌&&◌, ◌||◌}
use mathlib.Core.List.{List, [], ◌∷◌}
use druvia.Prelude.Tests.{leb, ◌==◌}
use druvia.Prelude.Lists.{all, length}

abbrev pub Text : Type 0
Text = List ℕ

unfoldable pub codes : String → Text
codes String.[] = []
codes (String.◌∷◌ c s) = code c ∷ codes s

-- [a-f0-9]
pub is_hex_char : ℕ → Bool
is_hex_char c = (leb 0x61 c && leb c 0x66) || (leb 0x30 c && leb c 0x39)

-- /^[a-f0-9]{64}$/
unfoldable pub is_hex_sha256 : Text → Bool
unfolding is_hex_char
is_hex_sha256 cs = length cs == 64 && all is_hex_char cs
