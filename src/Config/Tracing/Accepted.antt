-- ===== src/Config/Tracing/Accepted.antt =====
-- What LoadTracing returns.
use mathlib.Core.Path.{subst}
use egress_gateway.Prelude.{
  ap, ◌≤◌, ◌≡◌, ◌⊎◌, inl, inr, true, Option, none, some, ltb, ltb-false→le, arith, Bool-cases,
}
use egress_gateway.Prelude.Results.{ok, ◌>>=◌, >>=-ok, refuse_if-ok, ok-injective}
use egress_gateway.Config.Tracing.{Platform, Tracing, Checked, Lookup}
use egress_gateway.Config.Tracing.Sampling.{
  load_batch, load_batch_items, batch_suffixes, queue_size, batch_size,
}
use egress_gateway.Config.Tracing.Load.{
  load_enabled, load_tracing, is_any_set, names, is_disabled, start,
}
use egress_gateway.Config.Tracing.Frame.{
  exporter, Exporter, Keeps-ok, load_attributes-Keeps, load_sampler-Keeps, load_batch-Keeps,
}
use egress_gateway.Config.Tracing.Laws.{IsSecure, load_endpoint-IsSecure}

-- Being secure is a matter of the exporter's settings.
same_exporter-IsSecure :
    (platform : Platform) (lookup : Lookup) (c d : Tracing)
    → c.protocol ≡ d.protocol
    → c.address ≡ d.address
    → c.tls ≡ d.tls
    → c.certificate ≡ d.certificate
    → c.client_certificate ≡ d.client_certificate
    → c.client_key ≡ d.client_key
    → IsSecure platform lookup c
    → IsSecure platform lookup d
same_exporter-IsSecure platform lookup c d p a t e f k s = record {
  protocol = rw p at s.protocol;
  given = s.given;
  is_given = s.is_given;
  used = s.used;
  is_used = rw p at s.is_used;
  url = s.url;
  parsed = s.parsed;
  host = rw a at s.host;
  https = rw t at s.https;
  certificate = rw e at s.certificate;
  client_certificate = rw f at s.client_certificate;
  client_key = rw k at s.client_key;
  paired = rw (f, k) at s.paired;
  encrypted = rw (e, f) at s.encrypted;
  insecure = s.insecure;
  is_insecure = s.is_insecure;
  not_downgraded = s.not_downgraded;
}

exporter-IsSecure :
    (platform : Platform) (lookup : Lookup) (c d : Tracing)
    → exporter c ≡ exporter d
    → IsSecure platform lookup c
    → IsSecure platform lookup d
exporter-IsSecure platform lookup c d q =
    same_exporter-IsSecure platform lookup c d (ap (λ (x : Exporter). x.0) q)
      (ap (λ (x : Exporter). x.1) q) (ap (λ (x : Exporter). x.2) q) (ap (λ (x : Exporter). x.3) q)
      (ap (λ (x : Exporter). x.4) q) (ap (λ (x : Exporter). x.5) q)

load_batch-fits :
    (lookup : Lookup) (c : Tracing) {d : Tracing}
    → load_batch lookup c ≡ ok d
    → batch_size d ≤ queue_size d
unfolding load_batch
load_batch-fits lookup c h =
    let (b, _, h₁) = >>=-ok (load_batch_items lookup batch_suffixes c) _ h in
    let (fits, h₂) = refuse_if-ok (ltb (queue_size b) (batch_size b)) _ _ h₁ in
    subst (λ t. batch_size t ≤ queue_size t) (ok-injective h₂) (ltb-false→le _ _ fits)

module _ (platform : Platform) (lookup : Lookup) where
  load_enabled-IsSecure :
      {c : Tracing}
      → load_enabled platform lookup ≡ ok c
      → IsSecure platform lookup c × (batch_size c ≤ queue_size c)
  unfolding load_enabled
  load_enabled-IsSecure {c} h =
      let (_, h₁) = refuse_if-ok _ _ _ h in
      let (_, h₂) = refuse_if-ok _ _ _ h₁ in
      let (c₁, endpoint, h₃) = >>=-ok _ _ h₂ in
      let (c₂, attributes, h₄) = >>=-ok _ _ h₃ in
      let (c₃, sampler, h₅) = >>=-ok _ _ h₄ in
      let s₁ = load_endpoint-IsSecure platform lookup start endpoint in
      let s₂ =
        exporter-IsSecure platform lookup c₁ c₂
          (Keeps-ok (load_attributes-Keeps platform lookup c₁) attributes) s₁ in
      let s₃ =
        exporter-IsSecure platform lookup c₂ c₃
          (Keeps-ok (load_sampler-Keeps platform lookup c₂) sampler) s₂ in
      (
        exporter-IsSecure platform lookup c₃ c (Keeps-ok (load_batch-Keeps lookup c₃) h₅) s₃,
        load_batch-fits lookup c₃ h₅,
      )

  -- Settings that LoadTracing returns are disabled, or they are as follows. The protocol is one of
  -- the two, and the endpoint in use is the one of ENDPOINT (for traces, or the general one) or the
  -- default of the protocol; its URL parses, the address is its host, and TLS is on exactly if its
  -- scheme is https. The certificate, the client's certificate and its key are those of their
  -- variables; the latter two are both set or neither, and certificates are set only for https. For
  -- https INSECURE is not true. A batch fits into the queue.
  pub load_tracing-IsSecure :
      {c : Tracing}
      → load_tracing platform lookup ≡ ok (some c)
      → (c.disabled ≡ true) ⊎ (IsSecure platform lookup c × (batch_size c ≤ queue_size c))
  unfolding load_tracing
  load_tracing-IsSecure {c} h = elim (Bool-cases (is_any_set lookup names)) [
    | inr e ↦ absurd (unset (rw e at h))
    | inl e ↦ elim (Bool-cases (is_disabled lookup)) [
      | inl d ↦ inl (disabled (rw (e, d) at h))
      | inr d ↦ inr (enabled (rw (e, d) at h))
    ]
  ]
    where
      unset : ◌≡◌ {A = Checked (Option Tracing)} (ok none) (ok (some c)) → ⊥
      unset k = cc

      disabled :
          ◌≡◌ {A = Checked (Option Tracing)}
            (ok (some (record start { disabled = true })))
            (ok (some c))
          → c.disabled ≡ true
      disabled k = ground arith

      enabled :
          (load_enabled platform lookup >>= (λ d. ok (some d))) ≡ ok (some c)
          → IsSecure platform lookup c × (batch_size c ≤ queue_size c)
      enabled k =
          let (d, runs, last) = >>=-ok (load_enabled platform lookup) _ k in
          let same : d ≡ c = ground arith in
          subst (λ t. IsSecure platform lookup t × (batch_size t ≤ queue_size t)) same
            (load_enabled-IsSecure runs)
