-- ===== src/Daemon/Opa.antt =====
-- internal/daemon/tracing.go: prepareOPA. Reading a file, YAML, JSON and the text of a number are
-- parameters; the last call, WriteAtomic, is in Inspection/Ca/Write, and what it is given is the result.
pub mod Laws
use egress_gateway.Prelude.{
  ℕ, Bool, true, false, not, List, [], ◌∷◌, Option, none, some, if◌then◌else◌, Text, text,
  Text-discrete, find, insert,
}
use egress_gateway.Prelude.Results.{Result, ok, err, ◌>>=◌, or_fail}
use egress_gateway.GoLib.FilePath.{text_eq, join}
use egress_gateway.Config.Tracing.{Tracing}
use egress_gateway.Config.Validate.{Config}
use egress_gateway.Daemon.Json.{
  Json, boolean, number, string, object, Fields, no_fields, field, set_field,
}
use egress_gateway.Daemon.Envoy.{Generated}
use egress_gateway.GoLib.Strings.{is_set}

pub data OpaError : Type 0 where
  unread invalid_yaml settings_not_encoded not_encoded : OpaError

-- A configuration of OPA is a map from names to raw texts; a document may be empty, which is a nil map.
pub record Formats : Type 0 where
  pub read_file : Text → Option Text
  pub unmarshal : Text → Option (Option (List (Text × Text)))
  pub marshal : Json → Option Text
  pub marshal_map : List (Text × Text) → Option Text
  pub decimal : ℕ → Text
  -- a ratio as a percentage
  pub percent : ℕ → Text

unfoldable pub or_new : Option (List (Text × Text)) → List (Text × Text)
or_new none = []
or_new (some native) = native

-- A key of a map that may be missing: its zero value
unfoldable pub or_zero : Option Text → Text
or_zero none = []
or_zero (some t) = t

abbrev pub resource_names : List (Text × Text)
resource_names =
    (text "service.version", text "service_version")
    ∷ (text "service.instance.id", text "service_instance_id")
    ∷ (text "service.namespace", text "service_namespace")
    ∷ (text "deployment.environment", text "deployment_environment")
    ∷ []

abbrev pub batch_names : List (Text × Text)
batch_names =
    (text "SCHEDULE_DELAY", text "batch_timeout_ms")
    ∷ (text "EXPORT_TIMEOUT", text "export_timeout_ms")
    ∷ (text "MAX_QUEUE_SIZE", text "max_queue_size")
    ∷ (text "MAX_EXPORT_BATCH_SIZE", text "max_export_batch_size")
    ∷ []

unfoldable pub opa_name : List (Text × Text) → Text → Text
unfolding or_zero find
opa_name names k = or_zero (find Text-discrete k names)

unfoldable pub add_attribute : List (Text × Text) → Fields → Fields
unfolding opa_name set_field
add_attribute [] fs = fs
add_attribute ((k, v) ∷ kvs) fs =
    add_attribute kvs (set_field (opa_name resource_names k) (string v) fs)

unfoldable pub opa_protocol : Tracing → Text
unfolding text_eq
opa_protocol t = if text_eq t.protocol (text "grpc") then text "grpc" else text "http"

unfoldable pub encryption : Tracing → Text
unfolding is_set
encryption t =
    if is_set t.client_certificate then text "mtls" else if t.tls then text "tls" else text "off"

module _ (io : Formats) where
  unfoldable pub add_batch : List (Text × ℕ) → Fields → Fields
  unfolding opa_name set_field
  add_batch [] fs = fs
  add_batch ((k, v) ∷ kvs) fs =
      add_batch kvs (set_field (opa_name batch_names k) (number (io.decimal v)) fs)

  unfoldable pub tracing_settings : Tracing → Fields
  unfolding opa_protocol encryption add_attribute
  tracing_settings t =
      if t.disabled
      then no_fields
      else field (text "type") (string (opa_protocol t)) (
          field (text "address") (string t.address) (
            field (text "service_name") (string t.service_name) (
              field (text "sample_percentage") (number (io.percent t.sample_ratio)) (
                field (text "encryption") (string (encryption t)) (
                  field (text "allow_insecure_tls") (boolean false) (
                    field (text "tls_ca_cert_file") (string t.certificate) (
                      field (text "tls_cert_file") (string t.client_certificate) (
                        field (text "tls_private_key_file") (string t.client_key) (
                          field (text "resource") (object (add_attribute t.resource no_fields)) (
                            field (text "batch_span_processor_options")
                              (object (
                                add_batch t.batch
                                  (field (text "blocking") (boolean false) no_fields)))
                              no_fields))))))))))

  -- The path of OPA's configuration, and what is written there, if anything is.
  unfoldable pub with_tracing : Config → Tracing → Result OpaError (Text × Option Generated)
  with_tracing c t = do
    raw ← or_fail (io.read_file c.opa_config) unread
    native ← or_fail (io.unmarshal raw) invalid_yaml
    settings ← or_fail (io.marshal (object (tracing_settings t))) settings_not_encoded
    content ←
        or_fail
          (io.marshal_map
            (insert Text-discrete (text "distributed_tracing") settings (or_new native)))
          not_encoded
    ok (
      join c.runtime_dir (text "opa.json"),
      some
          (record { path = join c.runtime_dir (text "opa.json"); content = content; mode = 0o600 }),
    )

  unfoldable pub prepare_from : Config → Option Tracing → Result OpaError (Text × Option Generated)
  prepare_from c none = ok (c.opa_config, none)
  prepare_from c (some t) = with_tracing c t

  unfoldable pub prepare_opa : Config → Result OpaError (Text × Option Generated)
  unfolding prepare_from
  prepare_opa c = prepare_from c c.tracing
