-- ===== src/Config/Validate.antt =====
-- config/config.go: Config, Validate, and the paths that it derives.
use egress_gateway.Prelude.{
  Bool, false, ◌&&◌, ◌||◌, not, List, [], ◌∷◌, ◌++◌, Option, none, some, if◌then◌else◌, Text, text,
}
use egress_gateway.GoLib.FilePath.{text_eq, is_abs, clean, rel, is_local, join}
use egress_gateway.Config.Names.{
  workload, egress, standalone, istio, istio_mtls, ca_certificate_file, inspection_sds_file,
}
use egress_gateway.Config.Tracing.{Tracing, TracingError, is_empty}

pub record Config : Type 0 where
  pub identity_provider : Text
  pub role : Text
  pub proxy_mode : Text
  pub opa_config : Text
  pub envoy_config : Text
  pub state_dir : Text
  pub public_dir : Text
  pub runtime_dir : Text
  pub tracing : Option Tracing

-- Why a configuration is refused.
pub data ConfigError : Type 0 where
  workload_config_removed empty_value bad_provider bad_role bad_mode bad_path : ConfigError
  bad_tracing : TracingError → ConfigError
  standalone_without_envoy istio_with_envoy bad_envoy_path private_overlap public_overlap :
      ConfigError

-- `contains`: the child lies in the parent, or is it.
unfoldable pub within : Option Text → Bool
unfolding is_local
within none = false
within (some path) = is_local path

unfoldable pub contains : Text → Text → Bool
unfolding rel within
contains parent child = within (rel parent child)

-- The check of the four paths.
unfoldable pub is_bad_path : Text → Bool
unfolding is_abs clean text_eq
is_bad_path path = not (is_abs path) || not (text_eq (clean path) path) || text_eq path (text "/")

unfoldable pub any_bad_path : List Text → Bool
unfolding is_bad_path
any_bad_path [] = false
any_bad_path (p ∷ ps) = is_bad_path p || any_bad_path ps

unfoldable pub overlap : Text → Text → Bool
unfolding contains
overlap a b = contains a b || contains b a

-- Validate: the error, if any.
unfoldable pub validate : Config → Option ConfigError
unfolding text_eq any_bad_path is_empty is_abs clean overlap
validate c =
    if not (text_eq c.identity_provider istio_mtls)
    then some ConfigError.bad_provider
    else if not (text_eq c.role workload) && not (text_eq c.role egress)
    then some ConfigError.bad_role
    else if not (text_eq c.proxy_mode standalone) && not (text_eq c.proxy_mode istio)
    then some ConfigError.bad_mode
    else if any_bad_path (c.opa_config ∷ c.state_dir ∷ c.public_dir ∷ c.runtime_dir ∷ [])
    then some ConfigError.bad_path
    else if text_eq c.proxy_mode standalone && is_empty c.envoy_config
    then some ConfigError.standalone_without_envoy
    else if text_eq c.proxy_mode istio && not (is_empty c.envoy_config)
    then some ConfigError.istio_with_envoy
    else if not (is_empty c.envoy_config)
        && (not (is_abs c.envoy_config) || not (text_eq (clean c.envoy_config) c.envoy_config))
    then some ConfigError.bad_envoy_path
    else if overlap c.state_dir c.runtime_dir
    then some ConfigError.private_overlap
    else if overlap c.public_dir c.state_dir || overlap c.public_dir c.runtime_dir
    then some ConfigError.public_overlap
    else none

unfoldable pub public_ca_path : Config → Text
unfolding join
public_ca_path c = join c.public_dir ca_certificate_file

unfoldable pub opa_address : Config → Text
unfolding join
opa_address c = text "unix://" ++ join c.runtime_dir (text "opa.sock")

unfoldable pub envoy_admin_path : Config → Text
unfolding join
envoy_admin_path c = join c.runtime_dir (text "envoy-admin.sock")

unfoldable pub inspection_sds_path : Config → Text
unfolding join
inspection_sds_path c = join c.runtime_dir inspection_sds_file

unfoldable pub request_guard_path : Config → Text
unfolding join
request_guard_path c = join c.runtime_dir (text "https-guard.lua")
