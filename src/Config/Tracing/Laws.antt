-- ===== src/Config/Tracing/Laws.antt =====
-- What LoadTracing accepts.
use egress_gateway.Prelude.{
  ◌≡◌, ◌≢◌, ◌⊎◌, ◌↔◌, inl, inr, refl, Bool, true, false, ◌&&◌, ◌||◌, not, [], ◌∷◌, ◌++◌,
  if◌then◌else◌, Option-cases, none, some, Text, text, arith,
}
use egress_gateway.Prelude.Results.{ok, >>-ok, refuse_if-ok, ok-injective}
use mathlib.Core.Path.{subst}
use egress_gateway.GoLib.Strings.{equal_fold}
use egress_gateway.GoLib.FilePath.{text_eq, bool_eq}
use egress_gateway.Config.Tracing.{
  Url, Platform, Tracing, Lookup, otlp, traces, get, or_else, is_empty, effective,
}
use egress_gateway.Config.Tracing.Endpoint.{
  protocol, endpoint, use_url, set_endpoint, load_endpoint,
}

-- The client's certificate and key come together, and certificates only with TLS.
-- A setting as it applies to traces: its own variable, or the general one where that is not set
abbrev pub IsEffective : Lookup → Text → Text → Type 0
IsEffective lookup suffix v =
    ((get lookup (otlp ++ traces ++ suffix) ≢ []) × (v ≡ get lookup (otlp ++ traces ++ suffix)))
    ⊎ ((get lookup (otlp ++ traces ++ suffix) ≡ []) × (v ≡ get lookup (otlp ++ suffix)))

-- The endpoint in use: the one that is set, or the default of the protocol
abbrev pub IsEndpoint : Text → Text → Text → Type 0
IsEndpoint protocol v used =
    ((v ≢ []) × (used ≡ v))
    ⊎ (((v ≡ []) × (protocol ≡ text "grpc") × (used ≡ text "http://localhost:4317"))
        ⊎ ((v ≡ []) × (protocol ≡ text "http/protobuf") × (used ≡ text "http://localhost:4318")))

abbrev pub IsProtocol : Text → Type 0
IsProtocol p = (p ≡ text "grpc") ⊎ (p ≡ text "http/protobuf")

-- The exporter's settings against the URL of its endpoint and the variables.
pub record IsSecure (platform : Platform) (lookup : Lookup) (c : Tracing) : Type 0 where
  pub protocol : IsProtocol c.protocol
  pub given : Text
  pub is_given : IsEffective lookup (text "ENDPOINT") given
  pub used : Text
  pub is_used : IsEndpoint c.protocol given used
  pub url : Url
  pub parsed : platform.parse_url used ≡ some url
  pub host : c.address ≡ url.host
  pub https : (c.tls ≡ true) ↔ (url.scheme ≡ text "https")
  pub certificate : IsEffective lookup (text "CERTIFICATE") c.certificate
  pub client_certificate : IsEffective lookup (text "CLIENT_CERTIFICATE") c.client_certificate
  pub client_key : IsEffective lookup (text "CLIENT_KEY") c.client_key
  pub paired : (c.client_certificate ≡ []) ↔ (c.client_key ≡ [])
  pub encrypted : (url.scheme ≡ text "https") ⊎ ((c.certificate ≡ []) × (c.client_certificate ≡ []))
  pub insecure : Text
  pub is_insecure : IsEffective lookup (text "INSECURE") insecure
  pub not_downgraded : (url.scheme ≢ text "https") ⊎ (equal_fold insecure (text "true") ≡ false)

effective-IsEffective :
    (lookup : Lookup) (suffix : Text) → IsEffective lookup suffix (effective lookup suffix)
unfolding effective
effective-IsEffective lookup suffix =
    first (get lookup (otlp ++ traces ++ suffix)) (get lookup (otlp ++ suffix))
  where
    first : (v w : Text) → ((v ≢ []) × (or_else v w ≡ v)) ⊎ ((v ≡ []) × (or_else v w ≡ w))
    first [] w = inr (refl, unfold or_else in refl)
    first (c ∷ s) w = inl ((λ q. cc), unfold or_else in refl)

same_blanks : (s t : Text) → not (bool_eq (is_empty s) (is_empty t)) ≡ false → (s ≡ []) ↔ (t ≡ [])
unfolding bool_eq is_empty
same_blanks [] [] h = (λ q. refl, λ q. refl)
same_blanks [] (d ∷ t) h = cc
same_blanks (c ∷ s) [] h = cc
same_blanks (c ∷ s) (d ∷ t) h = (λ q. cc, λ q. cc)

blank : (s : Text) → is_empty s ≡ true → s ≡ []
unfolding is_empty
blank [] h = refl
blank (c ∷ s) h = cc

is_text : (s t : Text) → (text_eq s t ≡ true) ↔ (s ≡ t)
unfolding text_eq
is_text s t = ground arith

supports :
    (s : Text)
    → (not (text_eq s (text "grpc")) && not (text_eq s (text "http/protobuf"))) ≡ false
    → IsProtocol s
unfolding text_eq
supports s h = ground arith

secured :
    (s c d : Text)
    → (not (text_eq s (text "https")) && (not (is_empty c) || not (is_empty d))) ≡ false
    → (s ≡ text "https") ⊎ ((c ≡ []) × (d ≡ []))
unfolding text_eq
secured s c d h = ground (arith, blank c, blank d)

kept_up :
    (s : Text) (b : Bool)
    → (text_eq s (text "https") && b) ≡ false
    → (s ≢ text "https") ⊎ (b ≡ false)
unfolding text_eq
kept_up s b h = ground arith

module _ (platform : Platform) (lookup : Lookup) where
  endpoint-IsEndpoint :
      IsProtocol (protocol platform lookup)
      → IsEndpoint
          (protocol platform lookup)
          (effective lookup (text "ENDPOINT"))
          (endpoint platform lookup)
  unfolding endpoint
  endpoint-IsEndpoint p = first (effective lookup (text "ENDPOINT")) p
    where
      default : Text → Text
      default q =
          if text_eq q (text "grpc")
          then text "http://localhost:4317"
          else text "http://localhost:4318"

      first : (v : Text) {q : Text} → IsProtocol q → IsEndpoint q v (or_else v (default q))
      first [] (inl e) = inr (inl (refl, e, unfold or_else text_eq in ground arith))
      first [] (inr e) = inr (inr (refl, e, unfold or_else text_eq in ground arith))
      first (c ∷ s) p = inl ((λ q. cc), unfold or_else in refl)

  use_url-IsSecure :
      (c : Tracing) (u : Url) {d : Tracing}
      → IsProtocol c.protocol
      → IsEndpoint c.protocol (effective lookup (text "ENDPOINT")) (endpoint platform lookup)
      → platform.parse_url (endpoint platform lookup) ≡ some u
      → use_url platform lookup c u ≡ ok d
      → IsSecure platform lookup d
  unfolding use_url
  use_url-IsSecure c u p e parsed h =
      let (_, h₁) = refuse_if-ok _ _ _ h in
      let (not_downgraded, h₂) = refuse_if-ok _ _ _ h₁ in
      let (paired, h₃) = refuse_if-ok _ _ _ h₂ in
      let (encrypted, h₄) = refuse_if-ok _ _ _ h₃ in
      subst (IsSecure platform lookup) (ok-injective h₄) (record {
        protocol = p;
        given = effective lookup (text "ENDPOINT");
        is_given = effective-IsEffective lookup (text "ENDPOINT");
        used = endpoint platform lookup;
        is_used = e;
        url = u;
        parsed = parsed;
        host = refl;
        https = is_text u.scheme (text "https");
        certificate = effective-IsEffective lookup (text "CERTIFICATE");
        client_certificate = effective-IsEffective lookup (text "CLIENT_CERTIFICATE");
        client_key = effective-IsEffective lookup (text "CLIENT_KEY");
        paired = same_blanks _ _ paired;
        encrypted = secured u.scheme _ _ encrypted;
        insecure = effective lookup (text "INSECURE");
        is_insecure = effective-IsEffective lookup (text "INSECURE");
        not_downgraded = kept_up u.scheme _ not_downgraded;
      })

  pub load_endpoint-IsSecure :
      (c : Tracing) {d : Tracing}
      → load_endpoint platform lookup c ≡ ok d
      → IsSecure platform lookup d
  unfolding load_endpoint
  load_endpoint-IsSecure c h =
      let (supported, h₁) = refuse_if-ok _ _ _ h in
      let (_, h₂) = >>-ok _ _ h₁ in
      let (_, h₃) = >>-ok _ _ h₂ in
      elim (Option-cases (platform.parse_url (endpoint platform lookup))) [
        | inl e ↦ absurd (no_url (record c { protocol = protocol platform lookup }) (rw e at h₃))
        | inr (u, e) ↦
            use_url-IsSecure (record c { protocol = protocol platform lookup }) u
              (supports _ supported) (endpoint-IsEndpoint (supports _ supported)) e
              (unfold set_endpoint in (rw e at h₃))
      ]
    where
      no_url : (c : Tracing) {d : Tracing} → set_endpoint platform lookup c none ≡ ok d → ⊥
      no_url c k = unfold set_endpoint in cc
