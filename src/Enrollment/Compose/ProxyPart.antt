-- ===== src/Enrollment/Compose/ProxyPart.antt =====
-- The proxy's container, and the settings that the managed containers share.
use mathlib.Core.List.{append-nil}
use egress_gateway.Prelude.{
  ◌≡◌, ◌≢◌, refl, sym, ap, ◌∙◌, ◌⊎◌, inl, inr, true, false, none, some, List, [], ◌∷◌, ◌++◌, Text,
  text,
}
use egress_gateway.GoLib.Strings.{is_set}
use egress_gateway.Enrollment.Pod.{EnvVar, VolumeMount, Container, Volume}
use egress_gateway.Enrollment.Managed.{managed_volumes, istio_proxy}
use egress_gateway.Enrollment.Proxy.{
  Options, policy_volumes, origin_volumes, with_policy, with_origin,
}
use egress_gateway.Enrollment.Proxy.Laws.{IsComplete}
use egress_gateway.Enrollment.Compose.{with_image, proxy_container}

module _ {Network : Type 0} (o : Options Network) where
  abbrev pub IsPull : Text → Type 0
  IsPull pull =
      ((o.image_pull_policy ≢ []) × (pull ≡ o.image_pull_policy))
      ⊎ ((o.image_pull_policy ≡ []) × (pull ≡ text "IfNotPresent"))

  -- The arguments, the mounts and the volumes for the policy's config map
  abbrev pub IsPolicyPart : List Text → List VolumeMount → List Volume → Type 0
  IsPolicyPart args mounts volumes =
      ((o.policy_config_map ≡ []) × (args ≡ []) × (mounts ≡ []) × (volumes ≡ []))
      ⊎ ((o.policy_config_map ≢ [])
          × (args ≡ text "--policy" ∷ text "/etc/gateway/policy/policy.rego" ∷ [])
          × (mounts
              ≡ record {
                name = text "gateway-policy";
                mount_path = text "/etc/gateway/policy";
                sub_path = [];
                read_only = true;
              }
                ∷ [])
          × (volumes
              ≡ record {
                name = text "gateway-policy";
                config_map = some o.policy_config_map;
                projected = none;
              }
                ∷ []))

  abbrev pub IsOriginPart : List VolumeMount → List Volume → Type 0
  IsOriginPart mounts volumes =
      ((o.origin_trust_config_map ≡ []) × (mounts ≡ []) × (volumes ≡ []))
      ⊎ ((o.origin_trust_config_map ≢ [])
          × (mounts
              ≡ record {
                name = text "origin-trust";
                mount_path = text "/etc/gateway/origin";
                sub_path = [];
                read_only = true;
              }
                ∷ [])
          × (volumes
              ≡ record {
                name = text "origin-trust";
                config_map = some o.origin_trust_config_map;
                projected = none;
              }
                ∷ []))

  -- The proxy's container, as a workload runs it, and all volumes of the gateway.
  pub record IsProxy (pull : Text) (proxy : Container) (volumes : List Volume) : Type 0 where
    pub env : List EnvVar
    pub complete : IsComplete o env
    pub args : List Text
    pub policy_mounts : List VolumeMount
    pub policy : List Volume
    pub is_policy : IsPolicyPart args policy_mounts policy
    pub origin_mounts : List VolumeMount
    pub origin : List Volume
    pub is_origin : IsOriginPart origin_mounts origin
    pub container : proxy ≡ record istio_proxy {
      image = o.image;
      image_pull_policy = pull;
      args = args;
      env = env;
      volume_mounts = (istio_proxy.volume_mounts ++ policy_mounts) ++ origin_mounts;
    }
    pub volumes_eq : volumes ≡ (managed_volumes ++ policy) ++ origin

  -- Whether a text is set, as the code tests it
  set_cases : (s : Text) → ((s ≢ []) × (is_set s ≡ true)) ⊎ ((s ≡ []) × (is_set s ≡ false))
  unfolding is_set
  set_cases [] = inr (refl, refl)
  set_cases (c ∷ s) = inl ((λ q. cc), refl)

  abbrev pub pulled : Text
  pulled = (with_image o istio_proxy).image_pull_policy

  pub pulled-IsPull : IsPull pulled
  unfolding with_image
  pulled-IsPull = elim (set_cases o.image_pull_policy) [
    | inl h ↦ inl (h.0, rw h.1 refl)
    | inr h ↦ inr (h.0, rw h.1 refl)
  ]

  with_origin-lem :
      (c : Container)
      → (mounts : List VolumeMount) × IsOriginPart mounts (origin_volumes o)
        × (with_origin o c ≡ record c { volume_mounts = c.volume_mounts ++ mounts })
  unfolding with_origin origin_volumes
  with_origin-lem c = elim (set_cases o.origin_trust_config_map) [
    | inl h ↦ (
      record {
        name = text "origin-trust";
        mount_path = text "/etc/gateway/origin";
        sub_path = [];
        read_only = true;
      }
          ∷ [],
      inr (h.0, refl, rw h.1 refl),
      rw h.1 refl,
    )
    | inr h ↦ ([], inl (h.0, refl, rw h.1 refl), rw h.1 (no_mounts c))
  ]
    where
      no_mounts : (c : Container) → c ≡ record c { volume_mounts = c.volume_mounts ++ [] }
      no_mounts c =
          ap (λ (l : List VolumeMount). record c { volume_mounts = l })
            (sym (append-nil c.volume_mounts))

  with_policy-lem :
      (args : List Text) × (mounts : List VolumeMount) × IsPolicyPart args mounts (policy_volumes o)
      × (with_policy o (with_image o istio_proxy) ≡ record (with_image o istio_proxy) {
        args = args;
        volume_mounts = istio_proxy.volume_mounts ++ mounts;
      })
  unfolding with_policy policy_volumes with_image
  with_policy-lem = elim (set_cases o.policy_config_map) [
    | inl h ↦ (
      text "--policy" ∷ text "/etc/gateway/policy/policy.rego" ∷ [],
      record {
        name = text "gateway-policy";
        mount_path = text "/etc/gateway/policy";
        sub_path = [];
        read_only = true;
      }
          ∷ [],
      inr (h.0, refl, refl, rw h.1 refl),
      rw h.1 refl,
    )
    | inr h ↦ ([], [], inl (h.0, refl, refl, rw h.1 refl), rw h.1 refl)
  ]

  pub proxy_container-IsProxy :
      (env : List EnvVar)
      → IsComplete o env
      → IsProxy pulled
          (proxy_container o env (with_image o istio_proxy))
          ((managed_volumes ++ policy_volumes o) ++ origin_volumes o)
  unfolding proxy_container with_image
  proxy_container-IsProxy env complete =
      let (args, mounts, is_policy, same) = with_policy-lem in
      let (origin_mounts, is_origin, same') =
        with_origin-lem (record (with_policy o (with_image o istio_proxy)) { env = env }) in
      record {
        env = env;
        complete = complete;
        args = args;
        policy_mounts = mounts;
        policy = policy_volumes o;
        is_policy = is_policy;
        origin_mounts = origin_mounts;
        origin = origin_volumes o;
        is_origin = is_origin;
        container =
            same'
            ∙ ap
                (λ (c : Container). record c {
                  env = env;
                  volume_mounts = c.volume_mounts ++ origin_mounts;
                })
                same;
        volumes_eq = refl;
      }
