-- ===== src/Config/Laws.antt =====
-- What Validate and Load accept.
use egress_gateway.Prelude.{
  Bool, true, false, ◌&&◌, ◌||◌, not, [], ◌∷◌, ◌++◌, Option, none, some, Text, text, ◌≡◌, ◌≢◌, ◌⊎◌,
  ◌↔◌, inl, inr, refl, sym, ap, ◌∙◌, arith, All, Option-cases, guard_passed, neither,
}
use egress_gateway.Prelude.Results.{ok, err, >>=-ok, ok-injective}
use egress_gateway.GoLib.FilePath.{text_eq, is_abs, clean}
use mathlib.Core.Path.{subst}
use egress_gateway.Config.Tracing.Load.{load_tracing}
use egress_gateway.Config.Load.{
  traced, Loaded, value, set_value, defaults, validated, load_set, load,
}
use egress_gateway.Config.Names.{
  istio_mtls, env_identity_provider, env_envoy_config, env_role, env_proxy_mode, env_opa_config,
  env_state_dir, env_public_dir, env_runtime_dir, workload, egress, standalone, istio,
}
use egress_gateway.Config.Tracing.{Platform, Tracing, Checked, Lookup, is_empty}
use egress_gateway.Config.Validate.{
  Config, ConfigError, contains, is_bad_path, any_bad_path, overlap, validate,
}

pub record IsCleanPath (path : Text) : Type 0 where
  pub absolute : is_abs path ≡ true
  pub cleaned : clean path ≡ path
  pub not_root : path ≢ text "/"

-- An Envoy configuration belongs to the standalone mode, and there it is a clean absolute path.
abbrev pub FitsMode : Config → Type 0
FitsMode c =
    ((c.proxy_mode ≡ standalone)
      × (c.envoy_config ≢ [])
      × (is_abs c.envoy_config ≡ true)
      × (clean c.envoy_config ≡ c.envoy_config))
    ⊎ ((c.proxy_mode ≡ istio) × (c.envoy_config ≡ []))

abbrev pub IsApart : Text → Text → Type 0
IsApart a b = (contains a b ≡ false) × (contains b a ≡ false)

pub record IsValid (c : Config) : Type 0 where
  pub provider : c.identity_provider ≡ istio_mtls
  pub role : (c.role ≡ workload) ⊎ (c.role ≡ egress)
  pub mode : FitsMode c
  pub paths : All IsCleanPath (c.opa_config ∷ c.state_dir ∷ c.public_dir ∷ c.runtime_dir ∷ [])
  pub private_apart : IsApart c.state_dir c.runtime_dir
  pub state_apart : IsApart c.public_dir c.state_dir
  pub runtime_apart : IsApart c.public_dir c.runtime_dir

pub text_eq_iff : (s t : Text) → (text_eq s t ≡ true) ↔ (s ≡ t)
unfolding text_eq
text_eq_iff s t = ground arith

pub text_ne : (s t : Text) → text_eq s t ≡ false → s ≢ t
text_ne s t h e = cc ((text_eq_iff s t).1 e)

pub ne_text : (s t : Text) → s ≢ t → text_eq s t ≡ false
unfolding text_eq
ne_text s t h = ground arith

is_bad_path-IsCleanPath : (p : Text) → is_bad_path p ≡ false → IsCleanPath p
unfolding is_bad_path
is_bad_path-IsCleanPath p h = record {
  absolute = ground arith;
  cleaned = ground (arith, text_eq_iff (clean p) p);
  not_root = text_ne p (text "/") (ground arith);
}

IsCleanPath-is_bad_path : (p : Text) → IsCleanPath p → is_bad_path p ≡ false
unfolding is_bad_path
IsCleanPath-is_bad_path p g =
    ground
      (arith, (text_eq_iff (clean p) p).1 g.cleaned, ne_text p (text "/") g.not_root, g.absolute)

kept : (b : Bool) → not b ≡ false → b ≡ true
kept b h = ground arith

supported_tests :
    (t a b : Text)
    → (not (text_eq t a) && not (text_eq t b)) ≡ false
    → (text_eq t a ≡ true) ⊎ (text_eq t b ≡ true)
supported_tests t a b h = ground arith

supported : (t a b : Text) → (not (text_eq t a) && not (text_eq t b)) ≡ false → (t ≡ a) ⊎ (t ≡ b)
supported t a b h = go (supported_tests t a b h)
  where
    go : (text_eq t a ≡ true) ⊎ (text_eq t b ≡ true) → (t ≡ a) ⊎ (t ≡ b)
    go (inl e) = inl ((text_eq_iff t a).0 e)
    go (inr e) = inr ((text_eq_iff t b).0 e)

-- The tests of validate, each with its meaning.
module _ (c : Config) where
  mode_of_tests :
      ((text_eq c.proxy_mode standalone ≡ true) ⊎ (text_eq c.proxy_mode istio ≡ true))
      → (text_eq c.proxy_mode standalone && is_empty c.envoy_config) ≡ false
      → (text_eq c.proxy_mode istio && not (is_empty c.envoy_config)) ≡ false
      → (not (is_empty c.envoy_config)
          && (not (is_abs c.envoy_config) || not (text_eq (clean c.envoy_config) c.envoy_config)))
        ≡ false
      → FitsMode c
  unfolding is_empty
  mode_of_tests (inl m) h k l = inl (
    (text_eq_iff c.proxy_mode standalone).0 m,
    nonempty c.envoy_config (ground arith),
    ground arith,
    ground (arith, text_eq_iff (clean c.envoy_config) c.envoy_config),
  )
    where
      nonempty : (t : Text) → is_empty t ≡ false → t ≢ []
      nonempty [] e = absurd (cc)
      nonempty (d ∷ t) e = λ q. cc
  mode_of_tests (inr m) h k l =
      inr ((text_eq_iff c.proxy_mode istio).0 m, empty c.envoy_config (ground arith))
    where
      empty : (t : Text) → is_empty t ≡ true → t ≡ []
      empty [] e = refl
      empty (d ∷ t) e = cc

  -- A configuration that Validate accepts has the provider, a role and a mode that are supported,
  -- an Envoy configuration exactly in standalone mode, clean absolute paths below the root, and
  -- state, public and runtime directories none of which contains another.
  pub validate-IsValid : validate c ≡ none → IsValid c
  unfolding validate any_bad_path overlap
  validate-IsValid h =
      let (provider, r₁) = guard_passed _ _ _ h in
      let (role, r₂) = guard_passed _ _ _ r₁ in
      let (mode, r₃) = guard_passed _ _ _ r₂ in
      let (paths, r₄) = guard_passed _ _ _ r₃ in
      let (with_envoy, r₅) = guard_passed _ _ _ r₄ in
      let (without_envoy, r₆) = guard_passed _ _ _ r₅ in
      let (envoy, r₇) = guard_passed _ _ _ r₆ in
      let (private, r₈) = guard_passed _ _ _ r₇ in
      let (public, _) = guard_passed _ _ _ r₈ in
      let (bad_opa, p₁) = neither (is_bad_path c.opa_config) _ paths in
      let (bad_state, p₂) = neither (is_bad_path c.state_dir) _ p₁ in
      let (bad_public, p₃) = neither (is_bad_path c.public_dir) _ p₂ in
      let (bad_runtime, _) = neither (is_bad_path c.runtime_dir) _ p₃ in
      let (public_state, public_runtime) =
        neither (contains c.public_dir c.state_dir || contains c.state_dir c.public_dir) _ public in
      record {
        provider = (text_eq_iff c.identity_provider istio_mtls).0 (kept _ provider);
        role = supported c.role workload egress role;
        mode =
            mode_of_tests (supported_tests c.proxy_mode standalone istio mode) with_envoy
              without_envoy envoy;
        paths = (
          is_bad_path-IsCleanPath _ bad_opa,
          (
            is_bad_path-IsCleanPath _ bad_state,
            (is_bad_path-IsCleanPath _ bad_public, (is_bad_path-IsCleanPath _ bad_runtime, tt)),
          ),
        );
        private_apart = neither _ _ private;
        state_apart = neither _ _ public_state;
        runtime_apart = neither _ _ public_runtime;
      }

validated-ok :
    (c : Config) (e : Option ConfigError) {d : Config} → validated c e ≡ ok d → (c ≡ d) × (e ≡ none)
unfolding validated
validated-ok c none h = (ground arith, refl)
validated-ok c (some e) h = cc

-- A setting is the nonempty value of its variable or, where that is not set, the default.
abbrev pub IsSetting : Lookup → Text → Text → Text → Type 0
IsSetting lookup name fallback setting =
    ((lookup name ≡ none) × (setting ≡ fallback)) ⊎ ((lookup name ≡ some setting) × (setting ≢ []))

value-IsSetting :
    (lookup : Lookup) (name fallback : Text) {setting : Text}
    → value lookup name fallback ≡ ok setting
    → IsSetting lookup name fallback setting
unfolding value
value-IsSetting lookup name fallback {setting} h = from_lookup (lookup name) refl h
  where
    from_lookup :
        (o : Option Text)
        → lookup name ≡ o
        → set_value o fallback ≡ ok setting
        → IsSetting lookup name fallback setting
    from_lookup none e k = inl (e, unfold set_value in sym (ok-injective k))
    from_lookup (some []) e k = absurd (unfold set_value in cc)
    from_lookup (some (d ∷ t)) e k =
        let same : d ∷ t ≡ setting = unfold set_value in ok-injective k in
        inr (e ∙ ap some same, λ q. cc)

traced-ok : (r : Checked (Option Tracing)) {t : Option Tracing} → traced r ≡ ok t → r ≡ ok t
unfolding traced
traced-ok (err e) h = cc
traced-ok (ok t) h = ap ok (ok-injective h)

-- The settings that a configuration has from the environment: each a nonempty value or, where
-- the variable is not set, the default; that of OPA follows the role.
pub record IsLoaded (platform : Platform) (lookup : Lookup) (c : Config) : Type 0 where
  pub valid : IsValid c
  pub role : IsSetting lookup env_role workload c.role
  pub mode : IsSetting lookup env_proxy_mode istio c.proxy_mode
  pub provider : IsSetting lookup env_identity_provider istio_mtls c.identity_provider
  pub envoy : IsSetting lookup env_envoy_config [] c.envoy_config
  pub tracing : load_tracing platform lookup ≡ ok c.tracing
  pub opa :
      IsSetting lookup env_opa_config
        (text "/etc/gateway/opa/" ++ c.role ++ text ".yaml")
        c.opa_config
  pub state : IsSetting lookup env_state_dir (text "/var/lib/gateway/private") c.state_dir
  pub public : IsSetting lookup env_public_dir (text "/run/gateway/trust") c.public_dir
  pub runtime : IsSetting lookup env_runtime_dir (text "/run/gateway/private") c.runtime_dir
  pub none_removed : lookup (text "GATEWAY_WORKLOAD_CONFIG") ≡ none

module _ (platform : Platform) (lookup : Lookup) {c : Config} where
  load_set-IsLoaded :
      lookup (text "GATEWAY_WORKLOAD_CONFIG") ≡ none
      → load_set platform lookup ≡ ok c
      → IsLoaded platform lookup c
  unfolding load_set defaults
  load_set-IsLoaded removed h =
      let (role, role_eq, h₁) = >>=-ok (value lookup env_role workload) _ h in
      let (mode, mode_eq, h₂) = >>=-ok (value lookup env_proxy_mode istio) _ h₁ in
      let (provider, provider_eq, h₃) =
        >>=-ok (value lookup env_identity_provider istio_mtls) _ h₂ in
      let (opa, opa_eq, h₄) = >>=-ok _ _ h₃ in
      let (envoy, envoy_eq, h₅) = >>=-ok _ _ h₄ in
      let (state, state_eq, h₆) = >>=-ok _ _ h₅ in
      let (public, public_eq, h₇) = >>=-ok _ _ h₆ in
      let (runtime, runtime_eq, h₈) = >>=-ok _ _ h₇ in
      let (tracing, tracing_eq, h₉) = >>=-ok _ _ h₈ in
      let (same, passed) = validated-ok _ _ h₉ in
      subst (IsLoaded platform lookup) same (record {
        valid = validate-IsValid _ passed;
        role = value-IsSetting lookup _ _ role_eq;
        mode = value-IsSetting lookup _ _ mode_eq;
        provider = value-IsSetting lookup _ _ provider_eq;
        envoy = value-IsSetting lookup _ _ envoy_eq;
        tracing = traced-ok _ tracing_eq;
        opa = value-IsSetting lookup _ _ opa_eq;
        state = value-IsSetting lookup _ _ state_eq;
        public = value-IsSetting lookup _ _ public_eq;
        runtime = value-IsSetting lookup _ _ runtime_eq;
        none_removed = removed;
      })

  -- What Load returns without an error is valid, was not asked for by the removed variable, and
  -- has each setting from its variable, which is not empty, or, where that is not set, from its
  -- default, which for OPA's configuration follows the role.
  pub load-IsLoaded : load platform lookup ≡ ok c → IsLoaded platform lookup c
  unfolding load
  load-IsLoaded h = elim (Option-cases (lookup (text "GATEWAY_WORKLOAD_CONFIG"))) [
    | inl e ↦ load_set-IsLoaded e (rw (e, load) at h)
    | inr (v, e) ↦ absurd (refused (rw (e, load) at h))
  ]
    where
      refused : {e : ConfigError} → ◌≡◌ {A = Loaded Config} (err e) (ok c) → ⊥
      refused k = cc
