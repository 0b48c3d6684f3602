-- ===== src/Config.antt =====
-- internal/config/config.go: the configuration's types. `int` and `time.Duration` (nanoseconds) are
-- integers, strings are texts, and the type F of float64 is a parameter.
pub mod Validate
pub mod Lists
pub mod Hash
pub mod Env
pub mod Parse
use spangen.Base.{ℕ, List, Text, Bool, text_eq, codes, if◌then◌else◌}
use spangen.Base.Int.{ℤ}

pub record MetricsConfig : Type 0 where
  pub addr : Text

pub record GenConfig (F : Type 0) : Type 0 where
  pub rate : F
  pub ramp : ℤ
  pub duration : ℤ
  pub max_spans : ℕ
  pub workers : ℤ
  pub services : ℤ
  pub spans_per_trace_min : ℤ
  pub spans_per_trace_max : ℤ
  pub error_rate : F
  pub event_rate : F

pub record ChConfig : Type 0 where
  pub endpoints : List Text
  pub database : Text
  pub table : Text
  pub protocol : Text
  pub mode : Text
  pub schema : Text
  pub username : Text
  pub password : Text
  pub tls : Bool
  pub compression : Text
  pub batch_size : ℤ
  pub max_open_conns : ℤ
  pub block_buffer : ℤ
  pub async : Bool
  pub wait_for_async : Bool
  pub async_max_data_size : ℤ
  pub async_busy_timeout_ms : ℤ
  pub dial_timeout : ℤ
  pub send_timeout : ℤ

pub record OtlpConfig : Type 0 where
  pub endpoint : Text
  pub insecure : Bool
  pub headers : List (Text × Text)
  pub gzip : Bool
  pub spans_per_request : ℤ
  pub connections : ℤ
  pub timeout : ℤ

pub record Config (F : Type 0) : Type 0 where
  pub sink : Text
  pub replica_index : ℤ
  pub seed : ℕ
  pub host_id : ℕ
  pub metrics : MetricsConfig
  pub gen : GenConfig F
  pub ch : ChConfig
  pub otlp : OtlpConfig

unfoldable pub effective_batch_size : {F : Type 0} → Config F → ℤ
unfolding text_eq
effective_batch_size c =
    if text_eq c.sink (codes "otlp") then c.otlp.spans_per_request else c.ch.batch_size
