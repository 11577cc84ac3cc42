-- ===== src/Base/Texts.antt =====
-- Texts as the codes of their characters.
use Prim.Native.Nat.{ℕ, zero, suc}
use Prim.Native.Char.{code}
use Prim.Native.String.{String}
use mathlib.Core.List.{List, [], ◌∷◌}
use micron.Base.Tests.{◌==◌, if◌then◌else◌}

abbrev pub codes : String → List ℕ
codes String.[] = []
codes (String.◌∷◌ c s) = code c ∷ codes s

-- The text at a place of memory, up to the NUL and to `left` characters.
unfoldable pub text_at : (left i : ℕ) → (ℕ → ℕ) → List ℕ
text_at zero i buffer = []
text_at (suc left) i buffer =
    let rest = text_at left (suc i) buffer in if buffer i == 0 then [] else buffer i ∷ rest
