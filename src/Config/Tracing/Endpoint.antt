-- ===== src/Config/Tracing/Endpoint.antt =====
-- LoadTracing: the protocol, the endpoint and the certificates.
use egress_gateway.Prelude.{
  ℕ, Bool, true, false, ◌&&◌, ◌||◌, not, ◌++◌, Option, none, some, ltb, ◌==◌, if◌then◌else◌, Text,
  text,
}
use egress_gateway.Prelude.Results.{ok, err, ◌>>=◌, ◌>>◌, refuse_if}
use egress_gateway.GoLib.Strings.{equal_fold, to_lower}
use egress_gateway.GoLib.FilePath.{text_eq, bool_eq}
use egress_gateway.GoLib.Numbers.{atoi}
use egress_gateway.Config.Tracing.{
  nil_url, refuse, Url, Platform, Tracing, Checked, Lookup, otlp, traces, get, is_empty, or_else,
  effective,
}
use egress_gateway.Config.Tracing.Headers.{valid_headers}

abbrev pub max_millis : ℕ
max_millis = 9_223_372_036_854

-- `err != nil || n <= 0 || n > math.MaxInt64/1000000`, and otherwise the number
unfoldable pub positive : Option (Bool × ℕ) → Option ℕ
positive none = none
positive (some (negative, n)) = if negative || n == 0 || ltb max_millis n then none else some n

unfoldable pub is_none : Option ℕ → Bool
is_none none = true
is_none (some n) = false

unfoldable pub is_bad_url : Option Url → Bool
unfolding is_empty text_eq
is_bad_url none = true
is_bad_url (some u) =
    is_empty u.hostname
    || not (text_eq u.scheme (text "http")) && not (text_eq u.scheme (text "https"))
    || u.has_user
    || not (is_empty u.raw_query)
    || not (is_empty u.fragment)

module _ (platform : Platform) (lookup : Lookup) where
  -- The endpoint of one level, checked where it is set.
  unfoldable pub check_endpoint : Text → Checked (Unit {0})
  unfolding refuse_if ◌>>◌ ◌>>=◌ get is_empty is_bad_url
  check_endpoint prefix =
      let value = get lookup (prefix ++ text "ENDPOINT") in
      refuse (not (is_empty value) && is_bad_url (platform.parse_url value))
        (prefix ++ text "ENDPOINT")

  -- The other settings of one level.
  unfoldable pub check_options : Text → Checked (Unit {0})
  unfolding refuse_if ◌>>◌ ◌>>=◌ get is_empty valid_headers positive is_none atoi text_eq equal_fold
  check_options prefix = do
    let headers = get lookup (prefix ++ text "HEADERS")
    refuse (not (is_empty headers) && not (valid_headers platform headers))
        (prefix ++ text "HEADERS")
    let timeout = get lookup (prefix ++ text "TIMEOUT")
    refuse (not (is_empty timeout) && is_none (positive (atoi timeout))) (prefix ++ text "TIMEOUT")
    let compression = get lookup (prefix ++ text "COMPRESSION")
    refuse
        (not (is_empty compression)
          && not (text_eq compression (text "gzip"))
          && not (text_eq compression (text "none")))
        (prefix ++ text "COMPRESSION")
    let insecure = get lookup (prefix ++ text "INSECURE")
    refuse
        (not (is_empty insecure)
          && not (equal_fold insecure (text "true"))
          && not (equal_fold insecure (text "false")))
        (prefix ++ text "INSECURE")

  unfoldable pub check_level : Text → Checked (Unit {0})
  unfolding ◌>>=◌ ◌>>◌ check_endpoint check_options
  check_level prefix = do check_endpoint prefix; check_options prefix

  unfoldable pub protocol : Text
  unfolding effective or_else to_lower
  protocol =
      or_else (to_lower platform.lower (effective lookup (text "PROTOCOL"))) (text "http/protobuf")

  unfoldable pub endpoint : Text
  unfolding effective or_else text_eq protocol
  endpoint = or_else (effective lookup (text "ENDPOINT")) (
      if text_eq protocol (text "grpc")
      then text "http://localhost:4317"
      else text "http://localhost:4318")

  -- The checks behind the endpoint's URL, and the fields that it fills.
  unfoldable pub use_url : Tracing → Url → Checked Tracing
  unfolding refuse_if ◌>>◌ ◌>>=◌ text_eq is_empty effective equal_fold bool_eq
  use_url c u = do
    refuse
        (text_eq c.protocol (text "grpc")
          && not (is_empty u.path)
          && not (text_eq u.path (text "/")))
        (text "OTEL_EXPORTER_OTLP[_TRACES]_ENDPOINT")
    let tls = text_eq u.scheme (text "https")
    refuse (tls && equal_fold (effective lookup (text "INSECURE")) (text "true"))
        (text "OTEL_EXPORTER_OTLP[_TRACES]_INSECURE: conflicts with https endpoint")
    let certificate = effective lookup (text "CERTIFICATE")
    let client_certificate = effective lookup (text "CLIENT_CERTIFICATE")
    let client_key = effective lookup (text "CLIENT_KEY")
    refuse (not (bool_eq (is_empty client_certificate) (is_empty client_key)))
        (text "OTEL_EXPORTER_OTLP[_TRACES]_CLIENT_CERTIFICATE/CLIENT_KEY")
    refuse (not tls && (not (is_empty certificate) || not (is_empty client_certificate)))
        (text "OTEL_EXPORTER_OTLP[_TRACES]_CERTIFICATE: TLS requires an https endpoint")
    ok (record c {
      address = u.host;
      tls = tls;
      certificate = certificate;
      client_certificate = client_certificate;
      client_key = client_key;
    })

  -- `u, _ := url.Parse(endpoint)` drops the error: a URL that did not parse would be nil.
  unfoldable pub set_endpoint : Tracing → Option Url → Checked Tracing
  unfolding use_url
  set_endpoint c none = err nil_url
  set_endpoint c (some u) = use_url c u

  unfoldable pub load_endpoint : Tracing → Checked Tracing
  load_endpoint c = do
    refuse (not (text_eq protocol (text "grpc")) && not (text_eq protocol (text "http/protobuf")))
        (text "OTEL_EXPORTER_OTLP[_TRACES]_PROTOCOL")
    check_level otlp
    check_level (otlp ++ traces)
    set_endpoint (record c { protocol = protocol }) (platform.parse_url endpoint)
