-- ===== src/Daemon/Readiness.antt =====
-- What the readiness probe says.
use egress_gateway.Prelude.{
  ◌≡◌, ◌≢◌, refl, ◌↔◌, ℕ, Bool, true, false, [], ◌∷◌, Option, none, some, ==_iff, if◌then◌else◌,
  text, arith, Bool-cases, ◌⊎◌, inl, inr,
}
use egress_gateway.Prelude.Options.{first_of-none_iff}
use egress_gateway.GoLib.FilePath.{text_eq, join}
use egress_gateway.Config.Names.{workload, istio}
use egress_gateway.Config.Laws.{text_eq_iff, text_ne, ne_text}
use egress_gateway.Config.Validate.{Config, public_ca_path, envoy_admin_path, inspection_sds_path}
use egress_gateway.Inspection.Crypto.{Bytes}
use egress_gateway.Daemon.Probes.{
  Host, ProbeError, check_status, is_published, get_ok, opa_socket, check_listener,
  check_opa_health, check_opa, check_proxy, check_inspection, ready,
}

check_status-none_iff : (s : Option ℕ) → (check_status s ≡ none) ↔ (s ≡ some 200)
unfolding check_status
check_status-none_iff none = ground arith
check_status-none_iff (some code) = ground (arith, ==_iff code 200)

is_published-none_iff :
    (o : Option Bytes) → (is_published o ≡ none) ↔ ((b : ℕ) × (bs : Bytes) × (o ≡ some (b ∷ bs)))
unfolding is_published
is_published-none_iff none = (λ h. cc, λ (b, bs, h). cc)
is_published-none_iff (some []) = (λ h. cc, λ (b, bs, h). cc)
is_published-none_iff (some (b ∷ bs)) = (λ h. (b, bs, refl), λ h. refl)

same_or_none : (b : Bool) {x : Option ProbeError} → x ≡ none → (if b then x else none) ≡ none
same_or_none true h = h
same_or_none false h = refl

module _ (host : Host) (c : Config) where
  abbrev pub IsPublished : Type 0
  IsPublished = (b : ℕ) × (bs : Bytes) × (host.read_file (public_ca_path c) ≡ some (b ∷ bs))

  pub record IsReady : Type 0 where
    -- A workload's authority is published, and its certificates can be fetched.
    pub inspection :
        (c.role ≢ workload) ⊎ (IsPublished × (host.dials (inspection_sds_path c) ≡ true))
    pub opa :
        host.http_status
          (join c.runtime_dir (text "opa-api.sock"))
          (text "http://localhost/health?plugins&bundles")
        ≡ some 200
    pub dialled : host.dials (opa_socket c) ≡ true
    pub closed : host.closes (opa_socket c) ≡ true
    pub proxy :
        ((c.proxy_mode ≡ istio)
          × (host.http_status [] (text "http://127.0.0.1:15021/healthz/ready") ≡ some 200))
        ⊎ ((c.proxy_mode ≢ istio)
            × (host.http_status (envoy_admin_path c) (text "http://localhost/ready") ≡ some 200))

  inspection_iff :
      ((if text_eq c.role workload then check_inspection host c else none) ≡ none)
      ↔ ((c.role ≢ workload) ⊎ (IsPublished × (host.dials (inspection_sds_path c) ≡ true)))
  unfolding check_inspection
  inspection_iff = (to (Bool-cases (text_eq c.role workload)), from)
    where
      sds_iff :
          ((if host.dials (inspection_sds_path c) then none else some ProbeError.sds_not_ready)
            ≡ none)
          ↔ (host.dials (inspection_sds_path c) ≡ true)
      sds_iff = ground arith

      parts :
          ((if text_eq c.role workload then check_inspection host c else none) ≡ none)
          → text_eq c.role workload ≡ true
          → IsPublished × (host.dials (inspection_sds_path c) ≡ true)
      parts h e =
          let (published, served) = (first_of-none_iff _ _).0 (rw e at h) in
          ((is_published-none_iff _).0 published, sds_iff.0 served)

      to :
          (text_eq c.role workload ≡ true) ⊎ (text_eq c.role workload ≡ false)
          → ((if text_eq c.role workload then check_inspection host c else none) ≡ none)
          → (c.role ≢ workload) ⊎ (IsPublished × (host.dials (inspection_sds_path c) ≡ true))
      to (inl e) h = inr (parts h e)
      to (inr e) h = inl (text_ne c.role workload e)

      all :
          IsPublished × (host.dials (inspection_sds_path c) ≡ true) → check_inspection host c ≡ none
      all k = (first_of-none_iff _ _).1 ((is_published-none_iff _).1 k.0, sds_iff.1 k.1)

      from :
          (c.role ≢ workload) ⊎ (IsPublished × (host.dials (inspection_sds_path c) ≡ true))
          → (if text_eq c.role workload then check_inspection host c else none) ≡ none
      from (inl n) = rw (ne_text c.role workload n) refl
      from (inr k) = same_or_none (text_eq c.role workload) (all k)

  listener_iff :
      (check_listener host c ≡ none)
      ↔ ((host.dials (opa_socket c) ≡ true) × (host.closes (opa_socket c) ≡ true))
  unfolding check_listener
  listener_iff = ground arith

  proxy_iff : (check_proxy host c ≡ none) ↔ (
      ((c.proxy_mode ≡ istio)
        × (host.http_status [] (text "http://127.0.0.1:15021/healthz/ready") ≡ some 200))
      ⊎ ((c.proxy_mode ≢ istio)
          × (host.http_status (envoy_admin_path c) (text "http://localhost/ready") ≡ some 200)))
  unfolding check_proxy get_ok
  proxy_iff = elim (Bool-cases (text_eq c.proxy_mode istio)) [
    | inl e ↦
        let same = (text_eq_iff c.proxy_mode istio).0 e in
        (
          λ h. inl (same, (check_status-none_iff _).0 (rw e at h)),
          λ k. elim k [
            | inl q ↦ rw e ((check_status-none_iff _).1 q.1)
            | inr q ↦ absurd (q.0 same)
          ],
        )
    | inr e ↦
        let differ = text_ne c.proxy_mode istio e in
        (
          λ h. inr (differ, (check_status-none_iff _).0 (rw e at h)),
          λ k. elim k [
            | inl q ↦ absurd (differ q.0)
            | inr q ↦ rw e ((check_status-none_iff _).1 q.1)
          ],
        )
  ]

  -- Ready reports no error exactly where OPA answers for its plugins and bundles and its listener can
  -- be dialled, the proxy of the mode answers, and, for a workload, the published authority is not
  -- empty and the secret server can be dialled.
  pub ready-none_iff : (ready host c ≡ none) ↔ IsReady
  unfolding ready check_opa check_opa_health get_ok
  ready-none_iff = (to, from)
    where
      to : ready host c ≡ none → IsReady
      to h =
          let (inspection, h₁) = (first_of-none_iff _ _).0 h in
          let (opa, proxy) = (first_of-none_iff _ _).0 h₁ in
          let (health, listener) = (first_of-none_iff _ _).0 opa in
          let (dialled, closed) = listener_iff.0 listener in
          record {
            inspection = inspection_iff.0 inspection;
            opa = (check_status-none_iff _).0 health;
            dialled = dialled;
            closed = closed;
            proxy = proxy_iff.0 proxy;
          }

      from : IsReady → ready host c ≡ none
      from r = (first_of-none_iff _ _).1 (
        inspection_iff.1 r.inspection,
        (first_of-none_iff _ _).1 (
          (first_of-none_iff _ _).1
              ((check_status-none_iff _).1 r.opa, listener_iff.1 (r.dialled, r.closed)),
          proxy_iff.1 r.proxy,
        ),
      )
