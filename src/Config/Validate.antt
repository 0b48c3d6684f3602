-- ===== src/Config/Validate.antt =====
-- config.go: `validate`, against a description of the configurations that it should accept.
use spangen.Base.{
  ◌≡◌, refl, ◌≢◌, ◌↔◌, ◌⊎◌, Bool, true, false, not, ◌&&◌, ◌||◌, List, [], ◌∷◌, Text, codes, text_eq,
  text_eq_iff, arith, if◌then◌else◌,
}
use spangen.Base.Int.{ℤ, pos, ◌≤ℤ◌, ltb_ℤ}
use spangen.Base.Result.{Result, ok, ◌>>◌, guard}
use spangen.Config.{Config, ChConfig}

-- The errors that `fmt.Errorf` makes, by the format.
pub data ConfigError : Type 0 where
  invalid_sink invalid_protocol invalid_mode invalid_schema invalid_compression : Text → ConfigError
  no_endpoints gzip_needs_http no_otlp_endpoint too_few_services : ConfigError
  invalid_range : ℤ → ℤ → ConfigError

-- The labels of a `switch` whose default is an error.
unfoldable pub one_of : Text → List Text → Bool
one_of s [] = false
one_of s (t ∷ ts) = text_eq s t || one_of s ts

unfoldable pub OneOf : Text → List Text → Type 0
OneOf s [] = ⊥
OneOf s (t ∷ ts) = (s ≡ t) ⊎ OneOf s ts

pub one_of_iff : (s : Text) (ts : List Text) → (one_of s ts ≡ true) ↔ OneOf s ts
unfolding one_of OneOf
one_of_iff s [] = (λ h. cc, λ h. absurd h)
one_of_iff s (t ∷ ts) = ground (arith, text_eq_iff s t, one_of_iff s ts)

abbrev pub sinks : List Text
sinks = codes "clickhouse" ∷ codes "otlp" ∷ []

abbrev pub protocols : List Text
protocols = codes "native" ∷ codes "http" ∷ []

abbrev pub modes : List Text
modes = codes "local" ∷ codes "distributed" ∷ codes "shard-roundrobin" ∷ []

abbrev pub schemas : List Text
schemas = codes "map" ∷ codes "json" ∷ []

abbrev pub compressions : List Text
compressions = codes "none" ∷ codes "lz4" ∷ codes "zstd" ∷ codes "gzip" ∷ []

is_empty {ℓ} : {A : Type ℓ} → List A → Bool
is_empty [] = true
is_empty (x ∷ xs) = false

unfoldable pub validate_ch : ChConfig → Result ConfigError (Unit {0})
unfolding is_empty
validate_ch ch = do
  guard (one_of ch.protocol protocols) (invalid_protocol ch.protocol)
  guard (one_of ch.mode modes) (invalid_mode ch.mode)
  guard (one_of ch.schema schemas) (invalid_schema ch.schema)
  guard (not (is_empty ch.endpoints)) no_endpoints
  guard (one_of ch.compression compressions) (invalid_compression ch.compression)
  guard (not (text_eq ch.compression (codes "gzip") && not (text_eq ch.protocol (codes "http"))))
      gzip_needs_http

unfoldable pub validate : {F : Type 0} → Config F → Result ConfigError (Unit {0})
unfolding is_empty
validate c = do
  guard (one_of c.sink sinks) (invalid_sink c.sink)
  if text_eq c.sink (codes "clickhouse") then validate_ch c.ch else ok tt
  guard (not (text_eq c.sink (codes "otlp") && is_empty c.otlp.endpoint)) no_otlp_endpoint
  guard
      (not (
        ltb_ℤ c.gen.spans_per_trace_min (pos 1)
        || ltb_ℤ c.gen.spans_per_trace_max c.gen.spans_per_trace_min))
      (invalid_range c.gen.spans_per_trace_min c.gen.spans_per_trace_max)
  guard (not (ltb_ℤ c.gen.services (pos 1))) too_few_services

-- What a ClickHouse configuration has to be.
pub record IsValidCh (ch : ChConfig) : Type 0 where
  pub protocol : OneOf ch.protocol protocols
  pub mode : OneOf ch.mode modes
  pub schema : OneOf ch.schema schemas
  pub endpoints : ch.endpoints ≢ []
  pub compression : OneOf ch.compression compressions
  pub gzip : ch.compression ≡ codes "gzip" → ch.protocol ≡ codes "http"

-- What a configuration has to be: the part of the sink that is chosen, and the shape of the traces.
pub record IsValid {F : Type 0} (c : Config F) : Type 0 where
  pub sink : OneOf c.sink sinks
  pub ch : c.sink ≡ codes "clickhouse" → IsValidCh c.ch
  pub otlp : c.sink ≡ codes "otlp" → c.otlp.endpoint ≢ []
  pub range :
      (pos 1 ≤ℤ c.gen.spans_per_trace_min)
      × (c.gen.spans_per_trace_min ≤ℤ c.gen.spans_per_trace_max)
  pub services : pos 1 ≤ℤ c.gen.services

is_empty_iff {ℓ} : {A : Type ℓ} (xs : List A) → (is_empty xs ≡ true) ↔ (xs ≡ [])
unfolding is_empty
is_empty_iff [] = (λ _. refl, λ _. refl)
is_empty_iff (x ∷ xs) = (λ h. cc, λ h. cc)

validate_ch-IsValidCh : (ch : ChConfig) → (validate_ch ch ≡ ok tt) ↔ IsValidCh ch
unfolding validate_ch
validate_ch-IsValidCh ch = ground (
  arith,
  one_of_iff ch.protocol protocols,
  one_of_iff ch.mode modes,
  one_of_iff ch.schema schemas,
  one_of_iff ch.compression compressions,
  is_empty_iff ch.endpoints,
  text_eq_iff ch.compression (codes "gzip"),
  text_eq_iff ch.protocol (codes "http"),
)

-- `validate` returns nil exactly on the configurations that `IsValid` describes.
pub validate-IsValid : {F : Type 0} (c : Config F) → (validate c ≡ ok tt) ↔ IsValid c
unfolding validate
validate-IsValid c = ground (
  arith,
  one_of_iff c.sink sinks,
  text_eq_iff c.sink (codes "clickhouse"),
  text_eq_iff c.sink (codes "otlp"),
  is_empty_iff c.otlp.endpoint,
  validate_ch-IsValidCh c.ch,
)
