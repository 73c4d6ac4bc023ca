-- ===== src/Tests/Documents.antt =====
-- internal/daemon's rewriting of the configurations of Envoy and of OPA, on small documents.
use egress_gateway.Prelude.{
  ◌≡◌, refl, true, false, [], ◌∷◌, Option, some, Text, text, Text-discrete,
}
use egress_gateway.Prelude.Results.{ok, err, ◌>>=◌, ◌>>◌, refuse_if, or_fail}
use egress_gateway.GoLib.FilePath.{text_eq, join}
use egress_gateway.Config.Load.{defaults}
use egress_gateway.Config.Tracing.{Tracing}
use egress_gateway.Daemon.Json.{
  Json, string, array, object, no_items, item, Fields, no_fields, field, get_field, set_field,
  as_object, as_array, is_present, is_string, visit_as, visit_items, visit_found, visit_array,
  visit_member, visit_object,
}
use egress_gateway.Daemon.Request.{Guard}
use egress_gateway.Daemon.Envoy.{
  Documents, Generated, no_authorization, bootstrap, or_new_object, with_admin, strict,
  move_cluster, with_guard, authorize, visit_http, visit_filter, visit_chain, visit_listener,
  visit_cluster, rewrite, prepare_envoy,
}
use egress_gateway.Daemon.Envoy.Document.{IsWritten, prepare_envoy-IsWritten}
use egress_gateway.Daemon.Opa.{Formats, prepare_opa, prepare_from, with_tracing}
use egress_gateway.Daemon.Opa.Laws.{IsPreparedOpa, prepare_opa-IsPreparedOpa}

abbrev one : Text → Json → Fields
one key j = field key j no_fields

abbrev named : Text → Json → Json
named name config = object (field (text "name") (string name) (one (text "typed_config") config))

-- A listener with one connection manager, which has these HTTP filters
abbrev listening : Json → Json
listening filters = object (
    one (text "filter_chains") (
      array (
        item
          (object (
            one (text "filters") (
              array (
                item
                  (named (text "envoy.filters.network.http_connection_manager")
                    (object (one (text "http_filters") filters)))
                  no_items))))
          no_items)))

abbrev filters : Json
filters = array (
    item (named (text "gateway.request") (object no_fields)) (
      item
        (named (text "envoy.filters.http.ext_authz")
          (object (one (text "failure_mode_allow") (string (text "yes")))))
        no_items))

abbrev bootstrap_with : Json → Json
bootstrap_with fs = object (
    one (text "static_resources") (
      object (
        field (text "listeners") (array (item (listening fs) no_items))
          (one (text "clusters") (array (item (named (text "opa") (object no_fields)) no_items))))))

abbrev io : Json → Documents
io document = record {
  read_file = λ path. some (text "yaml");
  yaml_to_json = λ raw. some (text "json");
  decode = λ raw. some document;
  encode = λ j. some (text "written");
}

abbrev guard : Guard
guard = record { guard = text "-- lua"; quote = λ t. t }

abbrev written : Generated
written = record {
  path = join defaults.runtime_dir (text "envoy.json");
  content = text "written";
  mode = 0o600;
}

prepared : prepare_envoy guard defaults true (io (bootstrap_with filters)) ≡ ok written
unfolding prepare_envoy rewrite ◌>>=◌ or_fail bootstrap ◌>>◌ refuse_if is_present get_field
    visit_object visit_member as_object with_admin set_field visit_array visit_found as_array
    visit_items visit_as authorize move_cluster or_new_object strict visit_chain visit_cluster
    visit_filter visit_http visit_listener with_guard is_string text_eq Text-discrete
prepared = refl

prepare_envoy-IsWritten_example :
    IsWritten guard defaults true (io (bootstrap_with filters)) written
prepare_envoy-IsWritten_example =
    prepare_envoy-IsWritten guard defaults true (io (bootstrap_with filters)) written prepared

-- A policy extension without an ext_authz filter
unauthorized :
    prepare_envoy guard defaults true (io (bootstrap_with (array no_items))) ≡ err no_authorization
unfolding prepare_envoy rewrite ◌>>=◌ or_fail bootstrap ◌>>◌ refuse_if is_present get_field
    visit_object visit_member as_object with_admin set_field visit_array visit_found as_array
    visit_items visit_as authorize move_cluster or_new_object strict visit_chain visit_cluster
    visit_filter visit_http visit_listener with_guard is_string text_eq Text-discrete
unauthorized = refl

abbrev tracing : Tracing
tracing = record {
  disabled = false;
  protocol = text "grpc";
  address = text "collector:4317";
  tls = true;
  certificate = text "/ca.pem";
  client_certificate = [];
  client_key = [];
  service_name = text "gateway";
  resource = (text "service.version", text "1") ∷ [];
  sample_ratio = 1;
  batch = (text "MAX_QUEUE_SIZE", 10) ∷ [];
}

abbrev pub formats : Formats
formats = record {
  read_file = λ path. some (text "yaml");
  unmarshal = λ raw. some (some ((text "services", text "{}") ∷ []));
  marshal = λ j. some (text "settings");
  marshal_map = λ native. some (text "written");
  decimal = λ n. text "10";
  percent = λ ratio. text "100";
}

abbrev traced_opa : Text × Option Generated
traced_opa = (
  join defaults.runtime_dir (text "opa.json"),
  some (record {
    path = join defaults.runtime_dir (text "opa.json");
    content = text "written";
    mode = 0o600;
  }),
)

opa_prepared : prepare_opa formats (record defaults { tracing = some tracing }) ≡ ok traced_opa
unfolding prepare_opa prepare_from with_tracing or_fail ◌>>=◌
opa_prepared = refl

prepare_opa-IsPreparedOpa_example :
    IsPreparedOpa formats (record defaults { tracing = some tracing }) traced_opa
prepare_opa-IsPreparedOpa_example =
    prepare_opa-IsPreparedOpa formats (record defaults { tracing = some tracing }) traced_opa
      opa_prepared
