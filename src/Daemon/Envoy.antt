-- ===== src/Daemon/Envoy.antt =====
-- internal/daemon/envoy.go: prepareEnvoy. Reading a file, YAML and JSON are parameters; the last call,
-- WriteAtomic, is in Inspection/Ca/Write, and what it is given is the result here.
pub mod Laws
pub mod Filters
pub mod Clusters
pub mod Document
use egress_gateway.Prelude.{
  ℕ, Bool, true, false, ◌&&◌, ◌||◌, not, Option, none, some, if◌then◌else◌, Text, text,
}
use egress_gateway.Prelude.Results.{Result, ok, err, ◌>>=◌, ◌>>◌, refuse_if, or_fail}
use egress_gateway.GoLib.FilePath.{join}
use egress_gateway.Config.Validate.{Config, envoy_admin_path, inspection_sds_path}
use egress_gateway.Daemon.Json.{
  Json, null, boolean, number, string, array, object, no_items, item, Fields, no_fields, field,
  get_field, set_field, as_object, is_present, is_string, visit_array, visit_object,
}
use egress_gateway.Daemon.Probes.{opa_socket}
use egress_gateway.Daemon.Request.{Guard, filter}

pub data EnvoyError : Type 0 where
  unread bad_yaml bad_json empty dynamic no_typed_config no_authorization not_encoded : EnvoyError

pub record Documents : Type 0 where
  pub read_file : Text → Option Text
  pub yaml_to_json : Text → Option Text
  pub decode : Text → Option Json
  pub encode : Json → Option Text

-- What WriteAtomic is asked to write.
pub record Generated : Type 0 where
  pub path : Text
  pub content : Text
  pub mode : ℕ

unfoldable pub pipe : Text → Json
pipe path = object (
    field (text "pipe")
      (object
        (field (text "path") (string path) (field (text "mode") (number (text "384")) no_fields)))
      no_fields)

-- Decode into a map: null is a nil map.
unfoldable pub bootstrap : Json → Result EnvoyError Fields
bootstrap null = err empty
bootstrap (boolean b) = err bad_json
bootstrap (number n) = err bad_json
bootstrap (string s) = err bad_json
bootstrap (array is) = err bad_json
bootstrap (object fs) = ok fs

unfoldable pub or_new_object : Option Fields → Fields
or_new_object none = no_fields
or_new_object (some fs) = fs

unfoldable pub with_admin : Config → Fields → Fields
unfolding as_object envoy_admin_path
with_admin c b =
    let admin = or_new_object (as_object (get_field (text "admin") b)) in
    set_field (text "admin") (object (set_field (text "address") (pipe (envoy_admin_path c)) admin))
      b

-- The settings of the shared authorization
unfoldable pub body_limits : Json
body_limits = object (
    field (text "max_request_bytes") (number (text "65536")) (
      field (text "allow_partial_message") (boolean false)
        (field (text "pack_as_bytes") (boolean true) no_fields)))

unfoldable pub strict : Fields → Fields
strict cfg = set_field (text "with_request_body") body_limits (
    set_field (text "encode_raw_headers") (boolean true)
      (set_field (text "failure_mode_allow") (boolean false) cfg))

-- The endpoint of a cluster that the gateway owns
unfoldable pub assignment : Text → Text → Json
assignment name socket = object (
    field (text "cluster_name") (string name) (
      field (text "endpoints")
        (array (
          item
            (object (
              field (text "lb_endpoints")
                (array (
                  item
                    (object (
                      field (text "endpoint")
                        (object (field (text "address") (pipe socket) no_fields)) no_fields))
                    no_items))
                no_fields))
            no_items))
        no_fields))

unfoldable pub move_cluster : Text → Text → Fields → Fields
move_cluster name socket cluster =
    set_field (text "load_assignment") (assignment name socket)
      (set_field (text "type") (string (text "STATIC")) cluster)

abbrev pub authz_name : Text
authz_name = text "envoy.filters.http.ext_authz"

abbrev pub manager_name : Text
manager_name = text "envoy.filters.network.http_connection_manager"

unfoldable pub visit_cluster : Config → Bool → Fields → Result EnvoyError (Fields × Bool)
visit_cluster c shared f =
    if is_string (text "opa") (get_field (text "name") f)
    then ok (move_cluster (text "opa") (opa_socket c) f, shared)
    else if is_string (text "inspection_sds") (get_field (text "name") f)
    then ok (move_cluster (text "inspection_sds") (inspection_sds_path c) f, shared)
    else ok (f, shared)

module _ (g : Guard) (c : Config) where
  unfoldable pub with_guard : Fields → Fields
  with_guard f =
      if is_string (text "gateway.request") (get_field (text "name") f)
        || is_string (text "gateway.dispatch") (get_field (text "name") f)
      then set_field (text "typed_config") (filter g c.role) f
      else f

  unfoldable pub authorize : Fields → Result EnvoyError (Fields × Bool)
  authorize f = do
    cfg ← or_fail (as_object (get_field (text "typed_config") f)) no_typed_config
    ok (with_guard (set_field (text "typed_config") (object (strict cfg)) f), true)

module _ (g : Guard) (c : Config) (policy_extension : Bool) where
  -- The bodies of the four loops, the inner one first. The flag is sharedAuthorization.
  unfoldable pub visit_http : Bool → Fields → Result EnvoyError (Fields × Bool)
  visit_http shared f =
      if policy_extension && is_string authz_name (get_field (text "name") f)
      then authorize g c f
      else ok (with_guard g c f, shared)

  unfoldable pub visit_filter : Bool → Fields → Result EnvoyError (Fields × Bool)
  visit_filter shared f =
      if is_string manager_name (get_field (text "name") f)
      then visit_object (text "typed_config") (visit_array (text "http_filters") visit_http) shared
          f
      else ok (f, shared)

  unfoldable pub visit_chain : Bool → Fields → Result EnvoyError (Fields × Bool)
  visit_chain = visit_array (text "filters") visit_filter

  unfoldable pub visit_listener : Bool → Fields → Result EnvoyError (Fields × Bool)
  visit_listener = visit_array (text "filter_chains") visit_chain

  -- The changes to the document
  unfoldable pub rewrite : Fields → Result EnvoyError Fields
  rewrite b = do
    refuse_if (is_present (get_field (text "dynamic_resources") b)) dynamic
    guarded ←
        visit_object (text "static_resources") (visit_array (text "listeners") visit_listener) false
          (with_admin c b)
    refuse_if (policy_extension && not guarded.1) no_authorization
    moved ←
        visit_object (text "static_resources") (visit_array (text "clusters") (visit_cluster c))
          guarded.1 guarded.0
    ok moved.0

  unfoldable pub prepare_envoy : Documents → Result EnvoyError Generated
  prepare_envoy io = do
    raw ← or_fail (io.read_file c.envoy_config) unread
    json ← or_fail (io.yaml_to_json raw) bad_yaml
    value ← or_fail (io.decode json) bad_json
    b ← bootstrap value
    d ← rewrite b
    content ← or_fail (io.encode (object d)) not_encoded
    ok (record { path = join c.runtime_dir (text "envoy.json"); content = content; mode = 0o600 })
