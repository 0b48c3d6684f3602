-- ===== src/Config/Env.antt =====
-- config.go: the environment helpers. An option is the flag's value if the flag is set, else that of
-- its variable if it is set and reads well, else the default. `flag.Parse`, the environment, and
-- the parsers of strconv and time for which no code is here are functions of `Inputs`.
use spangen.Base.{
  ℕ, List, Option, none, some, Bool, true, false, Text, codes, text_eq, if◌then◌else◌, ◌||◌,
}
use Prim.Native.String.{String}
use spangen.Base.Int.{ℤ}
use spangen.Base.Decimal.{atoi}
use spangen.Base.Fields.{trim_space}

pub record Inputs (F : Type 0) : Type 0 where
  -- os.LookupEnv
  pub lookup_env : Text → Option Text
  -- strconv.ParseUint(v, 0, 64), strconv.ParseFloat(v, 64), time.ParseDuration
  pub parse_uint : Text → Option ℕ
  pub parse_float : Text → Option F
  pub parse_duration : Text → Option ℤ
  -- the literal m / 10 ^ e of type float64
  pub float_lit : ℕ → ℕ → F
  -- what flag.Parse sets for a flag that stands on the command line
  pub flag_text : Text → Option Text
  pub flag_int : Text → Option ℤ
  pub flag_uint : Text → Option ℕ
  pub flag_float : Text → Option F
  pub flag_duration : Text → Option ℤ
  pub flag_bool : Text → Option Bool
  -- os.Hostname, crypto/rand and the clock in nanoseconds
  pub hostname : Text
  pub random : Option (List ℕ)
  pub now : ℕ

unfoldable pub or_default {ℓ} : {A : Type ℓ} → Option A → A → A
or_default none def = def
or_default (some a) def = a

-- `strconv.ParseBool`
unfoldable pub parse_bool : Text → Option Bool
parse_bool s =
    if is "1" || is "t" || is "T" || is "true" || is "TRUE" || is "True"
    then some true
    else if is "0" || is "f" || is "F" || is "false" || is "FALSE" || is "False"
    then some false
    else none
  where
    is : String → Bool
    is t = text_eq s (codes t)

-- The value that `parse` finds in a variable, without the spaces round it.
unfoldable pub env_parsed {ℓ} : {A : Type ℓ} → (Text → Option A) → Option Text → A → A
unfolding or_default
env_parsed parse none def = def
env_parsed parse (some v) def = or_default (parse (trim_space v)) def

module _ {F : Type 0} (i : Inputs F) where
  unfoldable pub env : Text → Text → Text
  unfolding or_default
  env k def = or_default (i.lookup_env k) def

  unfoldable pub env_int : Text → ℤ → ℤ
  unfolding env_parsed
  env_int k def = env_parsed atoi (i.lookup_env k) def

  unfoldable pub env_uint : Text → ℕ → ℕ
  unfolding env_parsed
  env_uint k def = env_parsed i.parse_uint (i.lookup_env k) def

  unfoldable pub env_float : Text → F → F
  unfolding env_parsed
  env_float k def = env_parsed i.parse_float (i.lookup_env k) def

  unfoldable pub env_bool : Text → Bool → Bool
  unfolding env_parsed
  env_bool k def = env_parsed parse_bool (i.lookup_env k) def

  unfoldable pub env_dur : Text → ℤ → ℤ
  unfolding env_parsed
  env_dur k def = env_parsed i.parse_duration (i.lookup_env k) def
