-- ===== src/Enrollment/Compose/Startup.antt =====
-- The gateway's containers of a composed Pod.
use mathlib.Core.Path.{subst}
use egress_gateway.Prelude.{
  ◌≡◌, ◌≢◌, refl, ◌⊎◌, inl, inr, false, none, List, [], ◌∷◌, Text, text, Text-discrete, Bool-cases,
}
use egress_gateway.Prelude.Results.{Result, ok, err, ◌>>=◌, or_fail, ok-injective}
use egress_gateway.GoLib.FilePath.{text_eq}
use egress_gateway.Config.Names.{egress}
use egress_gateway.Config.Laws.{text_eq_iff, text_ne}
use egress_gateway.Enrollment.Pod.{EnvVar, Container}
use egress_gateway.Enrollment.Managed.{
  managed_spec, prepare_volumes, management_init, istio_proxy, base_trust, trust_init_container,
}
use egress_gateway.Enrollment.Proxy.{Options, ProxyError, full_env}
use egress_gateway.Enrollment.Proxy.Laws.{full_env-IsComplete}
use egress_gateway.Enrollment.Compose.{
  Trusted, or_env, set_second, with_image, with_trust, proxy_container, place_proxy, add_proxy,
  add_managed, add_all_managed, trusted_start,
}
use egress_gateway.Enrollment.Compose.ProxyPart.{
  IsPull, IsProxy, pulled, pulled-IsPull, proxy_container-IsProxy,
}

module _ {Network : Type 0} (o : Options Network) where
  -- The containers in the order in which they start: a workload's application trust comes behind
  -- the proxy; an egress gateway has none, and runs the proxy as a regular container without a
  -- restart policy and without a startup probe.
  abbrev pub IsStartup : Text → Container → Trusted → Type 0
  IsStartup pull proxy t =
      ((o.role ≢ egress)
        × (t.init_containers
            ≡ record prepare_volumes { image = o.image; image_pull_policy = pull }
              ∷ record management_init { image = o.image; image_pull_policy = pull }
              ∷ proxy
              ∷ record base_trust {
                image = o.trust_image;
                image_pull_policy = pull;
                command = text "/bin/cp" ∷ o.trust_path ∷ text "/bundle/base.pem" ∷ [];
              }
              ∷ record trust_init_container { image = o.image; image_pull_policy = pull }
              ∷ [])
        × (t.containers ≡ []))
      ⊎ ((o.role ≡ egress)
          × (t.init_containers
              ≡ record prepare_volumes { image = o.image; image_pull_policy = pull }
                ∷ record management_init { image = o.image; image_pull_policy = pull }
                ∷ [])
          × (t.containers ≡ record proxy { restart_policy = none; startup_probe = false } ∷ []))

  pub record IsTrusted (t : Trusted) : Type 0 where
    pub pull : Text
    pub is_pull : IsPull o pull
    pub proxy : Container
    pub is_proxy : IsProxy o pull proxy t.volumes
    pub startup : IsStartup pull proxy t
    pub network_init : t.network_init ≡ text "management-init" ∷ []

  settled :
      {t : Trusted} (r : Result ProxyError (List EnvVar))
      → full_env o ≡ r
      → add_all_managed o managed_spec.init_containers (trusted_start managed_spec) ≡ ok t
      → IsTrusted t
  unfolding add_all_managed add_managed with_trust with_image add_proxy place_proxy or_env or_fail
      set_second text_eq Text-discrete ◌>>=◌
  settled (err x) e h = elim (Bool-cases (text_eq o.role egress)) [
    | inl q ↦ (let k = rw (q, e) at h in absurd (cc))
    | inr q ↦ (let k = rw (q, e) at h in absurd (cc))
  ]
  settled {t} (ok env) e h = elim (Bool-cases (text_eq o.role egress)) [
    | inl q ↦
        (let k = rw (q, e) at h in
          subst IsTrusted (ok-injective k) (record {
            pull = pulled o;
            is_pull = pulled-IsPull o;
            proxy = proxy_container o env (with_image o istio_proxy);
            is_proxy = proxy_container-IsProxy o env (full_env-IsComplete o e);
            startup = inr ((text_eq_iff o.role egress).0 q, refl, refl);
            network_init = refl;
          }))
    | inr q ↦
        (let k = rw (q, e) at h in
          subst IsTrusted (ok-injective k) (record {
            pull = pulled o;
            is_pull = pulled-IsPull o;
            proxy = proxy_container o env (with_image o istio_proxy);
            is_proxy = proxy_container-IsProxy o env (full_env-IsComplete o e);
            startup = inl (text_ne o.role egress q, refl, refl);
            network_init = refl;
          }))
  ]

  pub add_all_managed-IsTrusted :
      {t : Trusted}
      → add_all_managed o managed_spec.init_containers (trusted_start managed_spec) ≡ ok t
      → IsTrusted t
  add_all_managed-IsTrusted = settled (full_env o) refl
