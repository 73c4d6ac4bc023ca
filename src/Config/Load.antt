-- ===== src/Config/Load.antt =====
-- config/config.go: Defaults, value and Load.
use egress_gateway.Prelude.{[], ◌∷◌, ◌++◌, Option, none, some, Text, text}
use egress_gateway.Prelude.Results.{Result, ok, err, ◌>>=◌}
use egress_gateway.Config.Names.{
  workload, istio, istio_mtls, env_identity_provider, env_role, env_proxy_mode, env_opa_config,
  env_envoy_config, env_state_dir, env_public_dir, env_runtime_dir,
}
use egress_gateway.Config.Tracing.{Tracing, Platform, Lookup, Checked}
use egress_gateway.Config.Tracing.Load.{load_tracing}
use egress_gateway.Config.Validate.{Config, ConfigError, validate}

abbrev pub Loaded {ℓ} : Type ℓ → Type ℓ
Loaded A = Result ConfigError A

unfoldable pub defaults : Config
defaults = record {
  identity_provider = istio_mtls;
  role = workload;
  proxy_mode = istio;
  opa_config = text "/etc/gateway/opa/workload.yaml";
  envoy_config = [];
  state_dir = text "/var/lib/gateway/private";
  public_dir = text "/run/gateway/trust";
  runtime_dir = text "/run/gateway/private";
  tracing = none;
}

-- `value`: the fallback where the variable is not set; an empty value is an error.
unfoldable pub set_value : Option Text → Text → Loaded Text
set_value none fallback = ok fallback
set_value (some []) fallback = err ConfigError.empty_value
set_value (some (c ∷ s)) fallback = ok (c ∷ s)

unfoldable pub value : Lookup → Text → Text → Loaded Text
unfolding set_value
value lookup name fallback = set_value (lookup name) fallback

unfoldable pub traced : Checked (Option Tracing) → Loaded (Option Tracing)
traced (err e) = err (ConfigError.bad_tracing e)
traced (ok t) = ok t

unfoldable pub validated : Config → Option ConfigError → Loaded Config
validated c none = ok c
validated c (some e) = err e

module _ (platform : Platform) (lookup : Lookup) where
  unfoldable pub load_set : Loaded Config
  load_set = do
    role ← value lookup env_role defaults.role
    mode ← value lookup env_proxy_mode defaults.proxy_mode
    provider ← value lookup env_identity_provider defaults.identity_provider
    opa ← value lookup env_opa_config (text "/etc/gateway/opa/" ++ role ++ text ".yaml")
    envoy ← value lookup env_envoy_config []
    state ← value lookup env_state_dir defaults.state_dir
    public ← value lookup env_public_dir defaults.public_dir
    runtime ← value lookup env_runtime_dir defaults.runtime_dir
    tracing ← traced (load_tracing platform lookup)
    let c : Config = record {
      identity_provider = provider;
      role = role;
      proxy_mode = mode;
      opa_config = opa;
      envoy_config = envoy;
      state_dir = state;
      public_dir = public;
      runtime_dir = runtime;
      tracing = tracing;
    }
    validated c (validate c)

  -- Load: a removed variable is refused before anything is read.
  unfoldable pub load : Loaded Config
  unfolding load_set
  load = elim (lookup (text "GATEWAY_WORKLOAD_CONFIG")) [
    | none ↦ load_set
    | some v ↦ err ConfigError.workload_config_removed
  ]
