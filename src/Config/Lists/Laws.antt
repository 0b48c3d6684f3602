-- ===== src/Config/Lists/Laws.antt =====
-- What `splitCSV` and `parseKV` return, and that they read back what was joined.
use spangen.Base.{
  ◌≡◌, refl, ap, ◌∙◌, ◌≢◌, List, [], ◌∷◌, ◌++◌, Option, none, some, map, All, All-append, Text,
  text_eq, text_eq_iff, arith, if◌then◌else◌,
}
use mathlib.Core.List.{append-nil, append_assoc}
use spangen.Base.Fields.{is_space, trim_space, split, join, cut}
use spangen.Base.Fields.Laws.{
  Lacks, IsTrimmed, trim_space-IsTrimmed, trim_space_fixed, trim_space-Lacks, split-Lacks,
  split-join, cut-append, IsTrimmed-between,
}
use spangen.Config.Lists.{
  comma, equals, lookup, insert, add_part, csv_loop, split_csv, store_entry, add_entry, kv_loop,
  parse_kv,
}

-- An entry of a list: not empty, no space at its ends, no comma.
pub record IsEntry (p : Text) : Type 0 where
  pub full : p ≢ []
  pub trimmed : IsTrimmed p
  pub single : Lacks comma p

add_part-IsEntry :
    (out : List Text) (p : Text)
    → All IsEntry out
    → IsTrimmed p
    → Lacks comma p
    → All IsEntry (add_part out p)
unfolding add_part
add_part-IsEntry out [] h t l = h
add_part-IsEntry out (c ∷ p) h t l =
    All-append IsEntry out _ h (record { full = λ e. cc; trimmed = t; single = l }, tt)

csv_loop-IsEntry :
    (ps out : List Text) → All (Lacks comma) ps → All IsEntry out → All IsEntry (csv_loop ps out)
unfolding csv_loop
csv_loop-IsEntry [] out l h = h
csv_loop-IsEntry (p ∷ ps) out l h =
    csv_loop-IsEntry ps _ l.1
      (add_part-IsEntry out _ h (trim_space-IsTrimmed p) (trim_space-Lacks comma p l.0))

-- Whatever the text, every part that `splitCSV` returns is a proper entry.
pub split_csv-IsEntry : (s : Text) → All IsEntry (split_csv s)
unfolding split_csv
split_csv-IsEntry s = csv_loop-IsEntry _ [] (split-Lacks s comma) tt

add_part_full : (out : List Text) (p : Text) → p ≢ [] → add_part out p ≡ out ++ p ∷ []
unfolding add_part
add_part_full out [] h = absurd (h refl)
add_part_full out (c ∷ p) h = refl

csv_loop-append : (ps out : List Text) → All IsEntry ps → csv_loop ps out ≡ out ++ ps
unfolding csv_loop
csv_loop-append [] out h = rw append-nil
csv_loop-append (p ∷ ps) out h =
    rw (trim_space_fixed p h.0.trimmed, add_part_full out p h.0.full)
      (csv_loop-append ps _ h.1 ∙ append_assoc out (p ∷ []) ps)

IsEntry-Lacks : (ps : List Text) → All IsEntry ps → All (Lacks comma) ps
IsEntry-Lacks [] h = tt
IsEntry-Lacks (p ∷ ps) h = (h.0.single, IsEntry-Lacks ps h.1)

-- `splitCSV` reads a joined list of proper entries back; no entry and the empty text are alike.
pub split_csv-join : (ps : List Text) → All IsEntry ps → split_csv (join ps comma) ≡ ps
unfolding split_csv split join trim_space
split_csv-join [] h = refl
split_csv-join (p ∷ ps) h =
    rw (split-join (p ∷ ps) comma (λ e. cc) (IsEntry-Lacks (p ∷ ps) h))
      (csv_loop-append (p ∷ ps) [] h)

abbrev pub entry : Text × Text → Text
entry (k, v) = k ++ equals ∷ v

-- A header that the flag's text can carry: the key has no `=`, and neither side a comma.
pub record IsHeader (h : Text × Text) : Type 0 where
  pub key_full : h.0 ≢ []
  pub key_trimmed : IsTrimmed h.0
  pub value_trimmed : IsTrimmed h.1
  pub key_plain : Lacks equals h.0
  pub key_single : Lacks comma h.0
  pub value_single : Lacks comma h.1

-- The value of the last header with key j.
unfoldable pub last_value : Text → List (Text × Text) → Option Text
last_value j [] = none
last_value j ((k, v) ∷ hs) = elim (last_value j hs) [
  | none ↦ if text_eq k j then some v else none
  | some w ↦ some w
]

lookup-insert {ℓ} :
    {V : Type ℓ} (k j : Text) (v : V) (m : List (Text × V))
    → lookup j (insert k v m) ≡ (if text_eq k j then some v else lookup j m)
unfolding lookup insert
lookup-insert k j v [] = refl
lookup-insert k j v ((i, w) ∷ m) =
    ground (arith, text_eq_iff k j, text_eq_iff i k, text_eq_iff i j, lookup-insert k j v m)

entry-IsEntry : (h : Text × Text) → IsHeader h → IsTrimmed (entry h)
unfolding is_space
entry-IsEntry (k, v) h = IsTrimmed-between k v equals h.key_full refl h.key_trimmed h.value_trimmed

store_full :
    (k v : Text) (m : List (Text × Text))
    → IsHeader (k, v)
    → store_entry m (some (k, v)) ≡ insert k v m
unfolding store_entry
store_full [] v m h = absurd (h.key_full refl)
store_full (c ∷ k) v m h =
    rw (trim_space_fixed (c ∷ k) h.key_trimmed, trim_space_fixed v h.value_trimmed)

add_entry_lem :
    (k v : Text) (m : List (Text × Text))
    → IsHeader (k, v)
    → add_entry m (trim_space (entry (k, v))) ≡ insert k v m
unfolding add_entry
add_entry_lem k v m h =
    rw (trim_space_fixed (entry (k, v)) (entry-IsEntry (k, v) h), cut-append k v equals h.key_plain)
      (store_full k v m h)

kv_loop-entry :
    (h : Text × Text) (ps : List Text) (m : List (Text × Text))
    → IsHeader h
    → kv_loop (entry h ∷ ps) m ≡ kv_loop ps (insert h.0 h.1 m)
unfolding kv_loop
kv_loop-entry (k, v) ps m h = ap (kv_loop ps) (add_entry_lem k v m h)

abbrev or_else {ℓ} : {A : Type ℓ} → Option A → Option A → Option A
or_else none o = o
or_else (some a) o = some a

or_else-none {ℓ} : {A : Type ℓ} (o : Option A) → or_else o none ≡ o
or_else-none none = refl
or_else-none (some a) = refl

lookup-kv_loop :
    (j : Text) (hs m : List (Text × Text))
    → All IsHeader hs
    → lookup j (kv_loop (map entry hs) m) ≡ or_else (last_value j hs) (lookup j m)
unfolding last_value
lookup-kv_loop j [] m a = unfold kv_loop in refl
lookup-kv_loop j ((k, v) ∷ hs) m a =
    ap (lookup j) (kv_loop-entry (k, v) (map entry hs) m a.0)
    ∙ lookup-kv_loop j hs (insert k v m) a.1
    ∙ ground (arith, lookup-insert k j v m)

equals-ne-comma : equals ≢ comma
equals-ne-comma = omega arith

entry-Lacks : (h : Text × Text) → IsHeader h → Lacks comma (entry h)
entry-Lacks (k, v) h =
    All-append (λ d. d ≢ comma) k (equals ∷ v) h.key_single (equals-ne-comma, h.value_single)

map-Lacks : (hs : List (Text × Text)) → All IsHeader hs → All (Lacks comma) (map entry hs)
map-Lacks [] a = tt
map-Lacks (h ∷ hs) a = (entry-Lacks h a.0, map-Lacks hs a.1)

-- `parseKV` reads the headers of a joined list back, the last of each key.
pub lookup-parse_kv :
    (j : Text) (hs : List (Text × Text))
    → All IsHeader hs
    → lookup j (parse_kv (join (map entry hs) comma)) ≡ last_value j hs
unfolding parse_kv last_value
lookup-parse_kv j [] a = unfold split join cut trim_space lookup in refl
lookup-parse_kv j (h ∷ hs) a =
    rw (split-join (map entry (h ∷ hs)) comma (λ e. cc) (map-Lacks (h ∷ hs) a))
      (lookup-kv_loop j (h ∷ hs) [] a ∙ unfold lookup in or_else-none (last_value j (h ∷ hs)))
