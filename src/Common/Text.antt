-- ===== src/Common/Text.antt =====
-- Texts by their characters, and lists of texts.
use Prim.Native.Char.{code}
use Prim.Native.Nat.{ℕ}
use Prim.Native.String.{String}
use mathlib.Core.Bool.{Bool, true, false, ◌&&◌, ◌||◌}
use mathlib.Core.List.{List, [], ◌∷◌}
use text.Mathlib.Text.{◌==◌ as str_eq}
use latency_aware_inference.Common.Tests.{leb, ◌==◌}
use latency_aware_inference.Common.Lists.{length}

abbrev pub codes : String → List ℕ
codes String.[] = []
codes (String.◌∷◌ c s) = code c ∷ codes s

-- A digit of `[0-9a-f]`.
abbrev pub is_hex : ℕ → Bool
is_hex c = leb b'0' c && leb c b'9' || leb b'a' c && leb c b'f'

abbrev pub all_hex : List ℕ → Bool
all_hex [] = true
all_hex (c ∷ cs) = is_hex c && all_hex cs

-- `re.fullmatch('[0-9a-f]{n}', s)`
unfoldable pub is_hex_text : ℕ → String → Bool
is_hex_text n s = length (codes s) == n && all_hex (codes s)

abbrev pub among : String → List String → Bool
among s [] = false
among s (x ∷ xs) = str_eq x s || among s xs
