-- ===== src/Daemon/Policy/Laws.antt =====
-- What configurePolicyHost accepts, and what it changes.
use mathlib.Core.Path.{subst}
use egress_gateway.Prelude.{
  ◌≡◌, refl, Bool, text, true, false, ◌⊎◌, inl, inr, List, [], ◌∷◌, ◌++◌, Option, none, some, Text,
  Text-discrete, has, arith, Bool-cases,
}
use egress_gateway.Prelude.Results.{ok}
use egress_gateway.Config.Validate.{Config}
use egress_gateway.Inspection.Crypto.{Bytes}
use egress_gateway.Daemon.Policy.{
  Extension, Params, is_nonempty, overrides, use_plugins, use_content, configure_policy_host,
}

module _ (extension : Extension) (c : Config) (params : Params) where
  -- The settings of the host, behind all others, so that they win: the role of this gateway, the
  -- decision that is asked for, and that bodies are left to the policy.
  abbrev pub HostSettings : Params → Type 0
  HostSettings p = p ≡ record params {
    config_overrides =
        params.config_overrides
        ++ ((text "plugins." ++ extension.plugin_name ++ text ".role=" ++ c.role)
            ∷ (text "plugins.envoy_ext_authz_grpc.path=" ++ extension.decision_path)
            ∷ text "plugins.envoy_ext_authz_grpc.skip-request-body-parse=true"
            ∷ []);
  }

  pub record IsConfigured (file : Option Bytes) (enabled : Bool) (p : Params) : Type 0 where
    pub raw : Bytes
    pub read : file ≡ some raw
    pub plugins : List Text
    pub decoded : extension.plugins_of raw ≡ some plugins
    pub asked : has Text-discrete extension.plugin_name plugins ≡ enabled
    pub settings :
        ((enabled ≡ false) × (p ≡ params))
        ⊎ ((enabled ≡ true) × (params.paths ≡ []) × HostSettings p)

  empty_paths : (paths : List Text) → is_nonempty paths ≡ false → paths ≡ []
  unfolding is_nonempty
  empty_paths [] h = refl
  empty_paths (p ∷ ps) h = cc

  abbrev Settings : List Text → Bool × Params → Type 0
  Settings plugins r =
      (has Text-discrete extension.plugin_name plugins ≡ r.0)
      × (((r.0 ≡ false) × (r.1 ≡ params)) ⊎ ((r.0 ≡ true) × (params.paths ≡ []) × HostSettings r.1))

  use_plugins-Settings :
      (plugins : List Text) {r : Bool × Params}
      → use_plugins extension c params plugins ≡ ok r
      → Settings plugins r
  unfolding use_plugins
  use_plugins-Settings plugins {r} h =
      go (Bool-cases (has Text-discrete extension.plugin_name plugins))
        (Bool-cases (is_nonempty params.paths))
    where
      go :
          (has Text-discrete extension.plugin_name plugins ≡ true)
            ⊎ (has Text-discrete extension.plugin_name plugins ≡ false)
          → (is_nonempty params.paths ≡ true) ⊎ (is_nonempty params.paths ≡ false)
          → Settings plugins r
      go (inr e) k =
          let same : (false, params) ≡ r = ground (arith, (rw e at h)) in
          subst (Settings plugins) same (e, inl (refl, refl))
      go (inl e) (inl k) = absurd (ground (arith, (rw (e, k) at h)))
      go (inl e) (inr k) =
          let same : (
            true,
            record params {
              config_overrides = params.config_overrides ++ overrides extension c params;
            },
          )
              ≡ r =
            ground (arith, (rw (e, k) at h)) in
          subst (Settings plugins) same (e, inr (refl, empty_paths params.paths k, refl))

  -- A configuration file that configurePolicyHost accepts was read and decoded. Policy's extension
  -- is enabled exactly if the file has its plugin. If so, there are no fixture policies, and the role,
  -- the decision path and the skipped body are appended to the overrides, which is all that changes;
  -- if not, nothing changes.
  pub configure_policy_host-IsConfigured :
      (file : Option Bytes) {enabled : Bool} {p : Params}
      → configure_policy_host extension c params file ≡ ok (enabled, p)
      → IsConfigured file enabled p
  unfolding configure_policy_host use_content
  configure_policy_host-IsConfigured none h = cc
  configure_policy_host-IsConfigured (some raw) {enabled} {p} h =
      go (extension.plugins_of raw) refl h
    where
      go :
          (o : Option (List Text))
          → extension.plugins_of raw ≡ o
          → use_content extension c params o ≡ ok (enabled, p)
          → IsConfigured (some raw) enabled p
      go none e k = cc
      go (some plugins) e k =
          let (asked, settings) = use_plugins-Settings plugins k in
          record {
            raw = raw;
            read = refl;
            plugins = plugins;
            decoded = e;
            asked = asked;
            settings = settings;
          }
