-- ===== src/Config/Tracing/Load.antt =====
-- LoadTracing.
use egress_gateway.Prelude.{
  Bool, true, false, ◌&&◌, ◌||◌, not, List, [], ◌∷◌, ◌++◌, Option, none, some, if◌then◌else◌, Text,
  text,
}
use egress_gateway.Prelude.Results.{ok, ◌>>=◌, ◌>>◌}
use egress_gateway.GoLib.Strings.{equal_fold}
use egress_gateway.Config.Tracing.{
  refuse, Platform, Tracing, Checked, Lookup, otlp, traces, get, is_empty, float_one,
}
use egress_gateway.Config.Tracing.Endpoint.{load_endpoint}
use egress_gateway.Config.Tracing.Attributes.{load_attributes}
use egress_gateway.Config.Tracing.Sampling.{load_sampler, load_batch}

abbrev pub plain_names : List Text
plain_names =
    text "OTEL_SDK_DISABLED"
    ∷ text "OTEL_TRACES_EXPORTER"
    ∷ text "OTEL_SERVICE_NAME"
    ∷ text "OTEL_RESOURCE_ATTRIBUTES"
    ∷ text "OTEL_TRACES_SAMPLER"
    ∷ text "OTEL_TRACES_SAMPLER_ARG"
    ∷ text "OTEL_PROPAGATORS"
    ∷ text "OTEL_BSP_SCHEDULE_DELAY"
    ∷ text "OTEL_BSP_EXPORT_TIMEOUT"
    ∷ text "OTEL_BSP_MAX_QUEUE_SIZE"
    ∷ text "OTEL_BSP_MAX_EXPORT_BATCH_SIZE"
    ∷ []

abbrev pub suffixes : List Text
suffixes =
    text "ENDPOINT"
    ∷ text "PROTOCOL"
    ∷ text "HEADERS"
    ∷ text "CERTIFICATE"
    ∷ text "CLIENT_CERTIFICATE"
    ∷ text "CLIENT_KEY"
    ∷ text "INSECURE"
    ∷ text "TIMEOUT"
    ∷ text "COMPRESSION"
    ∷ []

unfoldable pub both_levels : List Text → List Text
both_levels [] = []
both_levels (s ∷ ss) = (otlp ++ s) ∷ (otlp ++ traces ++ s) ∷ both_levels ss

unfoldable pub names : List Text
unfolding both_levels
names = plain_names ++ both_levels suffixes

unfoldable pub is_any_set : Lookup → List Text → Bool
unfolding get is_empty
is_any_set lookup [] = false
is_any_set lookup (n ∷ ns) = not (is_empty (get lookup n)) || is_any_set lookup ns

abbrev pub start : Tracing
start = record {
  disabled = false;
  protocol = [];
  address = [];
  tls = false;
  certificate = [];
  client_certificate = [];
  client_key = [];
  service_name = [];
  resource = [];
  sample_ratio = float_one;
  batch = [];
}

unfoldable pub is_disabled : Lookup → Bool
unfolding get equal_fold
is_disabled lookup =
    equal_fold (get lookup (text "OTEL_SDK_DISABLED")) (text "true")
    || equal_fold (get lookup (text "OTEL_TRACES_EXPORTER")) (text "none")

module _ (platform : Platform) (lookup : Lookup) where
  -- The settings of tracing that is not disabled.
  unfoldable pub load_enabled : Checked Tracing
  load_enabled = do
    let sdk_disabled = get lookup (text "OTEL_SDK_DISABLED")
    refuse (not (is_empty sdk_disabled) && not (equal_fold sdk_disabled (text "false")))
        (text "OTEL_SDK_DISABLED")
    let exporter = get lookup (text "OTEL_TRACES_EXPORTER")
    refuse (not (is_empty exporter) && not (equal_fold exporter (text "otlp")))
        (text "OTEL_TRACES_EXPORTER")
    c ← load_endpoint platform lookup start
    c' ← load_attributes platform lookup c
    c'' ← load_sampler platform lookup c'
    load_batch lookup c''

  -- `none` where nothing is configured.
  unfoldable pub load_tracing : Checked (Option Tracing)
  load_tracing =
      if not (is_any_set lookup names)
      then ok none
      else if is_disabled lookup
      then ok (some (record start { disabled = true }))
      else do c ← load_enabled; ok (some c)
