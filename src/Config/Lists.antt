-- ===== src/Config/Lists.antt =====
-- config.go: `splitCSV` and `parseKV`, the two loops over the parts of a comma-separated text.
-- A Go map is an association list with one entry for each key.
pub mod Laws
use spangen.Base.{
  ℕ, List, [], ◌∷◌, ◌++◌, Option, none, some, Bool, true, false, Text, text_eq, if◌then◌else◌,
}
use spangen.Base.Fields.{trim_space, split, cut}

abbrev pub comma : ℕ
comma = b','

abbrev pub equals : ℕ
equals = b'='

module _ {ℓ} {V : Type ℓ} where
  unfoldable pub lookup : Text → List (Text × V) → Option V
  lookup k [] = none
  lookup k ((j, v) ∷ m) = if text_eq j k then some v else lookup k m

  -- `m[k] = v`
  unfoldable pub insert : Text → V → List (Text × V) → List (Text × V)
  insert k v [] = (k, v) ∷ []
  insert k v ((j, w) ∷ m) = if text_eq j k then (k, v) ∷ m else (j, w) ∷ insert k v m

-- `append(out, p)` unless p is empty.
unfoldable pub add_part : List Text → Text → List Text
add_part out [] = out
add_part out (c ∷ p) = out ++ (c ∷ p) ∷ []

csv_loop : List Text → List Text → List Text
csv_loop [] out = out
csv_loop (p ∷ ps) out = csv_loop ps (add_part out (trim_space p))

unfoldable pub split_csv : Text → List Text
unfolding csv_loop add_part
split_csv s = csv_loop (split s comma) []

-- What a part with the `=` at i > 0 stores; the part before it is empty where i is 0.
unfoldable pub store_entry : List (Text × Text) → Option (Text × Text) → List (Text × Text)
store_entry m none = m
store_entry m (some ([], v)) = m
store_entry m (some (c ∷ k, v)) = insert (trim_space (c ∷ k)) (trim_space v) m

unfoldable pub add_entry : List (Text × Text) → Text → List (Text × Text)
unfolding store_entry
add_entry m p = store_entry m (cut p equals)

kv_loop : List Text → List (Text × Text) → List (Text × Text)
kv_loop [] m = m
kv_loop (p ∷ ps) m = kv_loop ps (add_entry m (trim_space p))

unfoldable pub parse_kv : Text → List (Text × Text)
unfolding kv_loop add_entry
parse_kv s = kv_loop (split s comma) []
