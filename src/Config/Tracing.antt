-- ===== src/Config/Tracing.antt =====
-- config/tracing.go: the OpenTelemetry settings, from the environment.
pub mod Headers
pub mod Endpoint
pub mod Attributes
pub mod Sampling
pub mod Load
pub mod Frame
pub mod Laws
pub mod Accepted
use egress_gateway.Prelude.{
  ℕ, Bool, true, false, List, [], ◌∷◌, ◌++◌, Option, none, some, if◌then◌else◌, Text, text, ◌||◌,
  ◌&&◌, not,
}
use egress_gateway.Prelude.Results.{
  Result, ok, err, ◌>>=◌, ◌>>◌, refuse_if, or_fail, >>=-ok, >>-ok, refuse_if-ok, or_fail-ok,
  ok-injective,
}
use egress_gateway.GoLib.Strings.{trim_space}
use egress_gateway.GoLib.FilePath.{text_eq}

-- A float64 is its bit pattern. A parsed URL: the parts that the code reads.
pub record Url : Type 0 where
  pub scheme : Text
  pub has_user : Bool
  pub host : Text
  pub hostname : Text
  pub path : Text
  pub raw_query : Text
  pub fragment : Text

-- net/url, unicode.ToLower beyond ASCII, and the floats of strconv and math.
pub record Platform : Type 0 where
  pub parse_url : Text → Option Url
  pub path_unescape : Text → Option Text
  pub lower : ℕ → ℕ
  pub parse_float : Text → Option ℕ
  pub is_nan : ℕ → Bool
  pub float_ltb : ℕ → ℕ → Bool

abbrev pub float_zero : ℕ
float_zero = 0

abbrev pub float_one : ℕ
float_one = 0x3FF0000000000000

pub record Tracing : Type 0 where
  pub disabled : Bool
  pub protocol : Text
  pub address : Text
  pub tls : Bool
  pub certificate : Text
  pub client_certificate : Text
  pub client_key : Text
  pub service_name : Text
  pub resource : List (Text × Text)
  pub sample_ratio : ℕ
  pub batch : List (Text × ℕ)

-- A setting that is refused is named by its variable. The panic is the use of a nil URL.
pub data TracingError : Type 0 where
  setting : Text → TracingError
  nil_url : TracingError

abbrev pub Checked {ℓ} : Type ℓ → Type ℓ
Checked A = Result TracingError A

-- `invalid`, and `if bad { return nil, invalid(name) }`
abbrev pub invalid {ℓ} : {A : Type ℓ} → Text → Checked A
invalid name = err (setting name)

abbrev pub refuse : Bool → Text → Checked (Unit {0})
refuse bad name = refuse_if bad (setting name)

-- The environment, as os.LookupEnv answers it.
abbrev pub Lookup : Type 0
Lookup = Text → Option Text

abbrev pub otlp : Text
otlp = text "OTEL_EXPORTER_OTLP_"

abbrev pub traces : Text
traces = text "TRACES_"

unfoldable pub or_empty : Option Text → Text
or_empty none = []
or_empty (some v) = v

-- `get`
unfoldable pub get : Lookup → Text → Text
unfolding or_empty trim_space
get lookup name = trim_space (or_empty (lookup name))

unfoldable pub is_empty : Text → Bool
is_empty [] = true
is_empty (c ∷ s) = false

unfoldable pub or_else : Text → Text → Text
or_else [] d = d
or_else (c ∷ s) d = c ∷ s

-- `effective`: the setting for traces, or the general one
unfoldable pub effective : Lookup → Text → Text
unfolding get or_else
effective lookup suffix =
    or_else (get lookup (otlp ++ traces ++ suffix)) (get lookup (otlp ++ suffix))
