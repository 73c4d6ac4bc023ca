-- ===== src/Enrollment/Proxy/Laws.antt =====
-- The environment of the proxy.
use mathlib.Core.Path.{subst}
use mathlib.Core.List.{append_assoc, append-nil, map-append}
use egress_gateway.Prelude.{
  inl, inr, ◌≡◌, refl, sym, ap, ◌∙◌, false, List, [], ◌∷◌, ◌++◌, map, Text, text, Text-discrete,
  has, add_new, add-IsDistinct, IsDistinct, All, Bool-cases, neither_iff,
}
use egress_gateway.Prelude.Results.{Result, ok, err, ok-injective}
use egress_gateway.GoLib.Strings.{has_prefix}
use egress_gateway.GoLib.FilePath.{text_eq}
use egress_gateway.Enrollment.Pod.{EnvVar, env_name}
use egress_gateway.Enrollment.Proxy.{
  Options, ProxyError, proxy_env, is_prohibited, add_env, full_env,
}

-- A variable that the caller may give
pub record IsAllowed (e : EnvVar) : Type 0 where
  pub no_gateway : has_prefix e.name (text "GATEWAY_") ≡ false
  pub no_opa_config : text_eq e.name (text "OPA_CONFIG") ≡ false
  pub no_envoy_config : text_eq e.name (text "ENVOY_CONFIG") ≡ false

-- The gateway's variables come first, then those that were given, and no name occurs twice.
pub record IsComplete {Network : Type 0} (o : Options Network) (env : List EnvVar) : Type 0 where
  pub all : env ≡ proxy_env o ++ o.proxy_env
  pub distinct : IsDistinct Text-discrete (map env_name env)
  pub allowed : All IsAllowed o.proxy_env

not_prohibited :
    (seen : List Text) (e : EnvVar)
    → is_prohibited seen e.name ≡ false
    → (has Text-discrete e.name seen ≡ false) × IsAllowed e
unfolding is_prohibited
not_prohibited seen e h =
    let (h₁, envoy) = (neither_iff _ _).0 h in
    let (h₂, opa) = (neither_iff _ _).0 h₁ in
    let (new, gateway) = (neither_iff _ _).0 h₂ in
    (new, record { no_gateway = gateway; no_opa_config = opa; no_envoy_config = envoy })

-- The loop, from an environment whose names have been seen.
add_env-ok :
    (env es : List EnvVar) {r : List EnvVar}
    → IsDistinct Text-discrete (map env_name env)
    → add_env (map env_name env) env es ≡ ok r
    → (r ≡ env ++ es) × IsDistinct Text-discrete (map env_name r) × All IsAllowed es
unfolding add_env
add_env-ok env [] {r} d h =
    let same : env ≡ r = ok-injective h in
    (
      sym same ∙ sym (append-nil env),
      subst (λ l. IsDistinct Text-discrete (map env_name l)) same d,
      tt,
    )
add_env-ok env (e ∷ es) {r} d h = elim (Bool-cases (is_prohibited (map env_name env) e.name)) [
  | inl bad ↦ absurd (refused (rw bad at h))
  | inr good ↦
      let (new, allowed) = not_prohibited (map env_name env) e good in
      let grown = add_new Text-discrete e.name (map env_name env) new in
      let names = grown ∙ sym (map-append env_name env (e ∷ [])) in
      let d' =
        subst (IsDistinct Text-discrete) names
          (add-IsDistinct Text-discrete e.name (map env_name env) d) in
      let (all, distinct, rest) =
        add_env-ok (env ++ (e ∷ [])) es d'
          (ap (λ s. add_env s (env ++ (e ∷ [])) es) (sym names) ∙ (rw good at h)) in
      (all ∙ append_assoc env (e ∷ []) es, distinct, (allowed, rest))
]
  where
    refused : {x : ProxyError} → ◌≡◌ {A = Result ProxyError (List EnvVar)} (err x) (ok r) → ⊥
    refused k = cc

module _ {Network : Type 0} (o : Options Network) where
  proxy_env-IsDistinct : IsDistinct Text-discrete (map env_name (proxy_env o))
  unfolding proxy_env Text-discrete has
  proxy_env-IsDistinct = (
    refl,
    (
      refl,
      (
        refl,
        (
          refl,
          (
            refl,
            (refl, (refl, (refl, (refl, (refl, (refl, (refl, (refl, (refl, (refl, tt)))))))))),
          ),
        ),
      ),
    ),
  )

  -- The environment of a proxy that is composed is the gateway's own variables, then those that
  -- were given, in order; no name occurs twice, so none of the gateway's is overridden, and none
  -- that was given is a GATEWAY_ variable, OPA_CONFIG or ENVOY_CONFIG.
  pub full_env-IsComplete : {env : List EnvVar} → full_env o ≡ ok env → IsComplete o env
  unfolding full_env
  full_env-IsComplete {env} h =
      let (all, distinct, allowed) = add_env-ok (proxy_env o) o.proxy_env proxy_env-IsDistinct h in
      record { all = all; distinct = distinct; allowed = allowed }
