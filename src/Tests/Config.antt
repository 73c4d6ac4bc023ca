-- ===== src/Tests/Config.antt =====
-- config/ at work: the defaults, an environment without settings, and one with an endpoint.
use egress_gateway.Prelude.{
  ite, ◌⊎◌, ◌≤◌, Text-discrete, ◌≡◌, refl, true, false, [], none, some, text,
}
use egress_gateway.Prelude.Results.{◌>>=◌, ◌>>◌, refuse_if}
use egress_gateway.GoLib.FilePath.{clean, text_eq}
use egress_gateway.Config.Tracing.{Url, Platform, Tracing, Lookup}
use egress_gateway.Config.Tracing.Accepted.{load_tracing-IsSecure}
use egress_gateway.Config.Tracing.Attributes.{load_attributes}
use egress_gateway.Config.Tracing.Sampling.{
  load_sampler, load_batch, load_batch_items, queue_size, batch_size,
}
use egress_gateway.Config.Tracing.Load.{
  load_enabled, is_any_set, names, is_disabled, start, load_tracing,
}
use egress_gateway.Config.Tracing.Endpoint.{load_endpoint, protocol, check_level, set_endpoint}
use egress_gateway.Config.Tracing.Laws.{IsSecure}
use egress_gateway.Config.Validate.{contains, validate}
use egress_gateway.Config.Load.{defaults, load, value, traced, validated}
use egress_gateway.Config.Laws.{IsValid, IsLoaded, validate-IsValid, load-IsLoaded}

abbrev local : Url
local = record {
  scheme = text "https";
  has_user = false;
  host = text "otel:4318";
  hostname = text "otel";
  path = [];
  raw_query = [];
  fragment = [];
}

abbrev platform : Platform
platform = record {
  parse_url = λ s. some local;
  path_unescape = λ s. some s;
  lower = λ c. c;
  parse_float = λ s. none;
  is_nan = λ n. false;
  float_ltb = λ a b. false;
}

abbrev unset : Lookup
unset n = none

clean_dots : clean (text "/a/../b//./c") ≡ text "/b/c"
unfolding clean
clean_dots = refl

apart : contains (text "/run/gateway/trust") (text "/run/gateway/private") ≡ false
unfolding contains
apart = refl

below : contains (text "/run") (text "/run/..trust") ≡ true
unfolding contains
below = refl

validate-IsValid_example : IsValid defaults
unfolding defaults validate
validate-IsValid_example = validate-IsValid defaults refl

load-IsLoaded_example : IsLoaded platform unset defaults
unfolding load defaults ◌>>=◌ value traced load_tracing is_any_set names validated validate
load-IsLoaded_example = load-IsLoaded platform unset refl

abbrev secured : Tracing
secured = record start { protocol = text "http/protobuf"; address = text "otel:4318"; tls = true }

-- An environment with a service's name alone.
abbrev named : Lookup
named n = ite (Text-discrete n (text "OTEL_SERVICE_NAME")) (some (text "gateway")) none

abbrev sampled : Tracing
sampled = record secured { service_name = text "gateway" }

load_tracing-IsSecure_example :
    (sampled.disabled ≡ true)
    ⊎ (IsSecure platform named sampled × (batch_size sampled ≤ queue_size sampled))
unfolding load_tracing load_enabled is_any_set names is_disabled load_endpoint load_attributes
    load_sampler load_batch queue_size batch_size ◌>>=◌ ◌>>◌ refuse_if text_eq Text-discrete
    protocol check_level set_endpoint load_batch_items
load_tracing-IsSecure_example = load_tracing-IsSecure platform named refl
