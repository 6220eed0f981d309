-- ===== src/Common/Text.antt =====
-- Texts, as far as names are compared.
use Prim.Native.Char.{code}
use Prim.Native.String.{String}
use mathlib.Core.Path.{◌≡◌}
use mathlib.Core.Bool.{Bool, true, not, ◌&&◌}
use mutinynet_indexer.Common.Tests.{ltb, leb}

-- Only ASCII characters, and no upper-case letter.
abbrev pub is_plain : String → Bool
is_plain String.[] = true
is_plain (String.◌∷◌ c s) =
    (ltb (code c) 128 && not (leb 65 (code c) && leb (code c) 90)) && is_plain s

-- `str::to_lowercase` of the standard library, which leaves such texts alone.
pub record Lowercase : Type 0 where
  pub to_lowercase : String → String
  pub to_lowercase_plain : (s : String) → is_plain s ≡ true → to_lowercase s ≡ s
