-- ===== src/Enrollment/Proxy.antt =====
-- proxyEnv, and the settings of the proxy's container.
pub mod Laws
use egress_gateway.Prelude.{
  Bool, true, false, ◌||◌, List, [], ◌∷◌, ◌++◌, map, Option, none, some, if◌then◌else◌, Text, text,
  Text-discrete, has, add,
}
use egress_gateway.Prelude.Results.{Result, ok, err}
use egress_gateway.GoLib.Strings.{is_set, has_prefix}
use egress_gateway.GoLib.FilePath.{text_eq}
use egress_gateway.Config.Names.{egress, istio, env_role, env_proxy_mode}
use egress_gateway.Enrollment.Pod.{EnvVar, VolumeMount, Container, Volume, env_name, config_volume}

-- Options. The type of the network is that of the networking module.
pub record Options (Network : Type 0) : Type 0 where
  pub role : Text
  pub image : Text
  pub image_pull_policy : Text
  pub trust_image : Text
  pub trust_path : Text
  pub trust_mounts : List (Text × Text)
  pub discovery_address : Text
  pub proxy_config : Text
  pub proxy_env : List EnvVar
  pub origin_trust_config_map : Text
  pub policy_config_map : Text
  pub network : Network

pub data ProxyError : Type 0 where
  prohibited : Text → ProxyError

abbrev pub valued : Text → Text → EnvVar
valued name value = record { name = name; value = value; field_path = none }

abbrev pub from_field : Text → Text → EnvVar
from_field name path = record { name = name; value = []; field_path = some path }

-- The loop over the given variables, from the names seen and the variables so far.
unfoldable pub is_prohibited : List Text → Text → Bool
unfolding has has_prefix text_eq
is_prohibited seen name =
    has Text-discrete name seen
    || has_prefix name (text "GATEWAY_")
    || text_eq name (text "OPA_CONFIG")
    || text_eq name (text "ENVOY_CONFIG")

unfoldable pub add_env : List Text → List EnvVar → List EnvVar → Result ProxyError (List EnvVar)
unfolding is_prohibited add
add_env seen env [] = ok env
add_env seen env (e ∷ es) =
    let rest = add_env (add Text-discrete e.name seen) (env ++ (e ∷ [])) es in
    if is_prohibited seen e.name then err (prohibited e.name) else rest

module _ {Network : Type 0} (o : Options Network) where
  unfoldable pub proxy_env : List EnvVar
  unfolding text_eq
  proxy_env =
      valued env_role o.role
      ∷ valued env_proxy_mode istio
      ∷ valued (text "ISTIO_META_WORKLOAD_NAME") o.role
      ∷ valued (text "CA_ADDR") o.discovery_address
      ∷ valued (text "JWT_POLICY") (text "third-party-jwt")
      ∷ valued (text "PILOT_CERT_PROVIDER") (text "istiod")
      ∷ valued (text "ISTIO_META_CLUSTER_ID") (text "Kubernetes")
      ∷ valued (text "ISTIO_META_MESH_ID") (text "cluster.local")
      ∷ valued (text "TRUST_DOMAIN") (text "cluster.local")
      ∷ valued (text "ISTIO_META_INTERCEPTION_MODE")
          (if text_eq o.role egress then text "NONE" else text "REDIRECT")
      ∷ valued (text "PROXY_CONFIG") o.proxy_config
      ∷ from_field (text "POD_NAME") (text "metadata.name")
      ∷ from_field (text "POD_NAMESPACE") (text "metadata.namespace")
      ∷ from_field (text "INSTANCE_IP") (text "status.podIP")
      ∷ from_field (text "SERVICE_ACCOUNT") (text "spec.serviceAccountName")
      ∷ []

  unfoldable pub full_env : Result ProxyError (List EnvVar)
  full_env = add_env (map env_name proxy_env) proxy_env o.proxy_env

  -- The policy's config map, where one is given: the arguments, the mount and the volume.
  unfoldable pub with_policy : Container → Container
  unfolding is_set
  with_policy c =
      if is_set o.policy_config_map
      then record c {
        args = text "--policy" ∷ text "/etc/gateway/policy/policy.rego" ∷ [];
        volume_mounts =
            c.volume_mounts
            ++ (record {
              name = text "gateway-policy";
              mount_path = text "/etc/gateway/policy";
              sub_path = [];
              read_only = true;
            }
                ∷ []);
      }
      else c

  unfoldable pub policy_volumes : List Volume
  unfolding is_set
  policy_volumes =
      if is_set o.policy_config_map
      then config_volume (text "gateway-policy") o.policy_config_map ∷ []
      else []

  unfoldable pub with_origin : Container → Container
  unfolding is_set
  with_origin c =
      if is_set o.origin_trust_config_map
      then record c {
        volume_mounts =
            c.volume_mounts
            ++ (record {
              name = text "origin-trust";
              mount_path = text "/etc/gateway/origin";
              sub_path = [];
              read_only = true;
            }
                ∷ []);
      }
      else c

  unfoldable pub origin_volumes : List Volume
  unfolding is_set
  origin_volumes =
      if is_set o.origin_trust_config_map
      then config_volume (text "origin-trust") o.origin_trust_config_map ∷ []
      else []
