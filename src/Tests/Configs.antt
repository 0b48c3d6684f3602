-- ===== src/Tests/Configs.antt =====
-- The configuration at concrete inputs.
use spangen.Base.{ℕ, ◌≡◌, refl, ◌≢◌, ◌↔◌, [], ◌∷◌, none, map, All, codes, text_eq, arith}
use spangen.Base.Int.{pos}
use spangen.Base.Result.{ok, err}
use spangen.Base.Fields.{split, join, trim_space}
use spangen.Base.Fields.Laws.{IsTrimmed}
use spangen.Config.Validate.{invalid_sink, validate, IsValid, validate-IsValid, one_of}
use spangen.Config.Lists.{comma, lookup, split_csv, parse_kv}
use spangen.Config.Lists.Laws.{
  IsEntry, IsHeader, entry, last_value, split_csv-IsEntry, split_csv-join, lookup-parse_kv,
}
use spangen.Config.Hash.{fnv64, host_id, detect_replica_index}
use spangen.Config.Hash.Laws.{published_offset, host_id-ne-published}
use spangen.Config.Env.{Inputs}
use spangen.Config.Parse.{resolve, parse}
use spangen.Config.Parse.Laws.{IsUnset, defaults, parse_default}

-- Nothing set, on a pod of a StatefulSet. Floats are texts of digits here.
abbrev pub bare : Inputs ℕ
bare = record {
  lookup_env = λ _. none;
  parse_uint = λ _. none;
  parse_float = λ _. none;
  parse_duration = λ _. none;
  float_lit = λ m e. m;
  flag_text = λ _. none;
  flag_int = λ _. none;
  flag_uint = λ _. none;
  flag_float = λ _. none;
  flag_duration = λ _. none;
  flag_bool = λ _. none;
  hostname = codes "spangen-3";
  random = none;
  now = 0;
}

bare-IsUnset : IsUnset bare
bare-IsUnset = record {
  env = λ _. refl;
  text = λ _. refl;
  int = λ _. refl;
  uint = λ _. refl;
  float = λ _. refl;
  bool = λ _. refl;
  duration = λ _. refl;
}

parse_default_example : parse bare ≡ ok (defaults bare)
parse_default_example = parse_default bare bare-IsUnset

validate-IsValid_example : (validate (resolve bare) ≡ ok tt) ↔ IsValid (resolve bare)
validate-IsValid_example = validate-IsValid (resolve bare)

default_index : detect_replica_index (codes "spangen-3") [] ≡ pos 3
unfolding detect_replica_index
default_index = refl

unknown_sink :
    validate (record (resolve bare) { sink = codes "kafka" }) ≡ err (invalid_sink (codes "kafka"))
unfolding validate one_of text_eq
unknown_sink = refl

split_csv_run : split_csv (codes " a:1, ,b:2,") ≡ codes "a:1" ∷ codes "b:2" ∷ []
unfolding split_csv split trim_space
split_csv_run = refl

split_csv-IsEntry_example : All IsEntry (split_csv (codes " a:1, ,b:2,"))
split_csv-IsEntry_example = split_csv-IsEntry (codes " a:1, ,b:2,")

a-IsEntry : IsEntry (codes "a")
unfolding trim_space
a-IsEntry = record {
  full = λ e. cc;
  trimmed = record { left = refl; right = refl };
  single = omega arith;
}

split_csv-join_example :
    split_csv (join (codes "a" ∷ codes "a" ∷ []) comma) ≡ codes "a" ∷ codes "a" ∷ []
split_csv-join_example = split_csv-join (codes "a" ∷ codes "a" ∷ []) (a-IsEntry, (a-IsEntry, tt))

-- The header a, with a value.
a_with-IsHeader : (v : ℕ) → IsTrimmed (v ∷ []) → v ≢ comma → IsHeader (codes "a", v ∷ [])
unfolding trim_space
a_with-IsHeader v t n = record {
  key_full = λ e. cc;
  key_trimmed = record { left = refl; right = refl };
  value_trimmed = t;
  key_plain = omega arith;
  key_single = omega arith;
  value_single = (n, tt);
}

lookup-parse_kv_example :
    lookup
      (codes "a")
      (parse_kv (join (map entry ((codes "a", codes "1") ∷ (codes "a", codes "2") ∷ [])) comma))
    ≡ last_value (codes "a") ((codes "a", codes "1") ∷ (codes "a", codes "2") ∷ [])
unfolding trim_space
lookup-parse_kv_example =
    lookup-parse_kv (codes "a") ((codes "a", codes "1") ∷ (codes "a", codes "2") ∷ []) (
      a_with-IsHeader b'1' (record { left = refl; right = refl }) (omega arith),
      (a_with-IsHeader b'2' (record { left = refl; right = refl }) (omega arith), tt),
    )

host_id-ne-published_example :
    host_id (codes "pod") [] none 0 ≢ fnv64 published_offset (codes "pod")
host_id-ne-published_example = host_id-ne-published b'p' (codes "od") [] none 0 (omega arith)
