-- ===== src/Base/Fields.antt =====
-- The functions of the strings package that the configuration's lists go through: `Split` at one
-- character, `TrimSpace` and `Cut`.
pub mod Laws
use Prim.Native.Nat.{ℕ}
use mathlib.Core.Bool.{Bool, ◌&&◌, ◌||◌}
use mathlib.Core.Option.{Option, none, some}
use mathlib.Core.List.{List, [], ◌∷◌, ◌++◌}
use spangen.Base.Tests.{◌==◌, leb, if◌then◌else◌}
use spangen.Base.Strings.{Text}

-- `unicode.IsSpace`.
unfoldable pub is_space : ℕ → Bool
is_space c =
    leb 9 c && leb c 13
    || c == 32
    || c == 0x85
    || c == 0xa0
    || c == 0x1680
    || leb 0x2000 c && leb c 0x200a
    || c == 0x2028
    || c == 0x2029
    || c == 0x202f
    || c == 0x205f
    || c == 0x3000

unfoldable pub trim_left : Text → Text
trim_left [] = []
trim_left (c ∷ s) = let rest = trim_left s in if is_space c then rest else c ∷ s

-- `c ∷ s` where s is trimmed at its end already.
unfoldable pub keep : ℕ → Text → Text
keep c [] = if is_space c then [] else c ∷ []
keep c (d ∷ s) = c ∷ d ∷ s

unfoldable pub trim_right : Text → Text
unfolding keep
trim_right [] = []
trim_right (c ∷ s) = keep c (trim_right s)

-- `strings.TrimSpace`
unfoldable pub trim_space : Text → Text
unfolding trim_left trim_right is_space
trim_space s = trim_left (trim_right s)

unfoldable pub push : ℕ → List Text → List Text
push c [] = (c ∷ []) ∷ []
push c (p ∷ ps) = (c ∷ p) ∷ ps

-- `strings.Split(s, sep)`
unfoldable pub split : Text → ℕ → List Text
unfolding push
split [] sep = [] ∷ []
split (c ∷ s) sep = if c == sep then [] ∷ split s sep else push c (split s sep)

unfoldable pub join : List Text → ℕ → Text
join [] sep = []
join (p ∷ []) sep = p
join (p ∷ q ∷ ps) sep = p ++ sep ∷ join (q ∷ ps) sep

-- What stands before and behind the first `c` of a text.
unfoldable pub cut : Text → ℕ → Option (Text × Text)
cut [] c = none
cut (d ∷ s) c =
    if d == c then some ([], s) else elim (cut s c) [ none ↦ none | some (a, b) ↦ some (d ∷ a, b) ]
