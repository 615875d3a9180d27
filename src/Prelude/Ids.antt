-- ===== src/Prelude/Ids.antt =====
-- The regular expressions that the sources match identifiers against, over code points.
use Prim.Native.Char.{code}
use Prim.Native.String.{String}
use Prim.Native.Nat.{ℕ}
use mathlib.Core.Bool.{Bool, false, ◌&&◌, ◌||◌}
use mathlib.Core.List.{List, [], ◌∷◌}
use nexus_vector_keeperhub.Prelude.Tests.{leb, nat_eq}
use nexus_vector_keeperhub.Prelude.Lists.{length, all}

abbrev pub codes : String → List ℕ
codes String.[] = []
codes (String.◌∷◌ c s) = code c ∷ codes s

-- `[0-9a-f]`
unfoldable pub is_hex : ℕ → Bool
is_hex c = leb b'0' c && leb c b'9' || leb b'a' c && leb c b'f'

-- `<prefix>[0-9a-f]{n}` matched in full
unfoldable pub full_match : List ℕ → ℕ → List ℕ → Bool
unfolding is_hex
full_match [] n s = nat_eq (length s) n && all is_hex s
full_match (p ∷ ps) n [] = false
full_match (p ∷ ps) n (c ∷ s) = nat_eq p c && full_match ps n s
