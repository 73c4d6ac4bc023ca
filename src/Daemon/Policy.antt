-- ===== src/Daemon/Policy.antt =====
-- internal/daemon/opa.go: configurePolicyHost, on OPA's parameters.
pub mod Laws
use egress_gateway.Prelude.{
  ℕ, Bool, true, false, not, List, [], ◌∷◌, ◌++◌, Option, none, some, if◌then◌else◌, Text, text,
  Text-discrete, has,
}
use egress_gateway.Prelude.Results.{Result, ok, err}
use egress_gateway.Config.Validate.{Config}
use egress_gateway.Inspection.Crypto.{Bytes}

-- runtime.Params: the fields that the code reads and changes
pub record Params : Type 0 where
  pub config_file : Text
  pub paths : List Text
  pub addrs : List Text
  pub addr_set_by_user : Bool
  pub unix_socket_perm : Text
  pub graceful_shutdown_period : ℕ
  pub ready_timeout : ℕ
  pub config_overrides : List Text

pub data PolicyError : Type 0 where
  unreadable invalid_content fixture_policies : PolicyError

-- The package extension of the policy engine, and the keys of `plugins` in a YAML text.
pub record Extension : Type 0 where
  pub plugin_name : Text
  pub decision_path : Text
  pub plugins_of : Bytes → Option (List Text)

unfoldable pub is_nonempty : List Text → Bool
is_nonempty [] = false
is_nonempty (p ∷ ps) = true

module _ (extension : Extension) (c : Config) (params : Params) where
  abbrev pub overrides : List Text
  overrides =
      (text "plugins." ++ extension.plugin_name ++ text ".role=" ++ c.role)
      ∷ (text "plugins.envoy_ext_authz_grpc.path=" ++ extension.decision_path)
      ∷ text "plugins.envoy_ext_authz_grpc.skip-request-body-parse=true"
      ∷ []

  unfoldable pub use_plugins : List Text → Result PolicyError (Bool × Params)
  unfolding has is_nonempty
  use_plugins plugins =
      if not (has Text-discrete extension.plugin_name plugins)
      then ok (false, params)
      else if is_nonempty params.paths
      then err fixture_policies
      else ok (true, record params { config_overrides = params.config_overrides ++ overrides })

  unfoldable pub use_content : Option (List Text) → Result PolicyError (Bool × Params)
  unfolding use_plugins
  use_content none = err invalid_content
  use_content (some plugins) = use_plugins plugins

  -- configurePolicyHost, on the content of the configuration file
  unfoldable pub configure_policy_host : Option Bytes → Result PolicyError (Bool × Params)
  unfolding use_content
  configure_policy_host none = err unreadable
  configure_policy_host (some raw) = use_content (extension.plugins_of raw)
