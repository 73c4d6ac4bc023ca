-- ===== src/Daemon/Envoy/Laws.antt =====
-- What prepareEnvoy makes of a filter, of a cluster and of the document.
use mathlib.Core.Path.{subst}
use egress_gateway.Prelude.{
  ◌≡◌, inl, inr, refl, ap, ◌∙◌, sym, Bool, true, false, Bool-cases, ◌&&◌, ◌||◌, Option, some, Text,
  text, Text-discrete, arith,
}
use egress_gateway.Prelude.Results.{ok, >>=-ok, ok-injective}
use egress_gateway.GoLib.FilePath.{text_eq}
use egress_gateway.Config.Validate.{Config}
use egress_gateway.Daemon.Json.{Json, boolean, object, Fields, get_field, set_field, is_string}
use egress_gateway.Daemon.Json.Laws.{get_field-set_field, get_field-set_other, Makes, is_string-eq}
use egress_gateway.Daemon.Request.{Guard, filter}
use egress_gateway.Daemon.Envoy.{body_limits, strict, authz_name, with_guard, authorize, visit_http}

abbrev pub name_key : Text
name_key = text "name"

abbrev pub config_key : Text
config_key = text "typed_config"

abbrev is_guard : Option Json → Bool
is_guard n = is_string (text "gateway.request") n || is_string (text "gateway.dispatch") n

-- The settings with which a failure of the policy refuses a request
pub record IsStrict (f : Fields) : Type 0 where
  pub settings : Fields
  pub given : get_field config_key f ≡ some (object settings)
  pub fails_closed : get_field (text "failure_mode_allow") settings ≡ some (boolean false)
  pub raw_headers : get_field (text "encode_raw_headers") settings ≡ some (boolean true)
  pub body : get_field (text "with_request_body") settings ≡ some body_limits

module _ (g : Guard) (c : Config) (policy_extension : Bool) where
  -- An HTTP filter of the gateway has its Lua source, one of the policy is strict.
  pub record IsGuarded (f : Fields) : Type 0 where
    pub source :
        is_guard (get_field name_key f) ≡ true → get_field config_key f ≡ some (filter g c.role)
    pub authz :
        policy_extension ≡ true → is_string authz_name (get_field name_key f) ≡ true → IsStrict f

  pub with_guard-name : (f : Fields) → get_field name_key (with_guard g c f) ≡ get_field name_key f
  unfolding with_guard text_eq Text-discrete
  with_guard-name f = elim (Bool-cases (is_guard (get_field name_key f))) [
    | inl e ↦ rw e (get_field-set_other name_key config_key (filter g c.role) f refl)
    | inr e ↦ rw e refl
  ]

  with_guard-source :
      (f : Fields)
      → is_guard (get_field name_key f) ≡ true
      → get_field config_key (with_guard g c f) ≡ some (filter g c.role)
  unfolding with_guard
  with_guard-source f e = rw e (get_field-set_field config_key (filter g c.role) f)

  with_guard-other : (f : Fields) → is_guard (get_field name_key f) ≡ false → with_guard g c f ≡ f
  unfolding with_guard
  with_guard-other f e = rw e refl

  not_guard : (n : Option Json) → is_string authz_name n ≡ true → is_guard n ≡ false
  unfolding is_string text_eq Text-discrete
  not_guard n h = rw (is_string-eq authz_name n h) refl

  strict-IsStrict : (cfg f : Fields) → IsStrict (set_field config_key (object (strict cfg)) f)
  unfolding strict text_eq Text-discrete
  strict-IsStrict cfg f =
      let closed = set_field (text "failure_mode_allow") (boolean false) cfg in
      let raw = set_field (text "encode_raw_headers") (boolean true) closed in
      record {
        settings = strict cfg;
        given = get_field-set_field config_key (object (strict cfg)) f;
        fails_closed =
            get_field-set_other (text "failure_mode_allow") (text "with_request_body") body_limits
              raw refl
            ∙ get_field-set_other (text "failure_mode_allow") (text "encode_raw_headers")
                (boolean true) closed refl
            ∙ get_field-set_field (text "failure_mode_allow") (boolean false) cfg;
        raw_headers =
            get_field-set_other (text "encode_raw_headers") (text "with_request_body") body_limits
              raw refl
            ∙ get_field-set_field (text "encode_raw_headers") (boolean true) closed;
        body = get_field-set_field (text "with_request_body") body_limits raw;
      }

  pub authorize-IsGuarded :
      (f : Fields) (r : Fields × Bool)
      → is_string authz_name (get_field name_key f) ≡ true
      → authorize g c f ≡ ok r
      → IsGuarded r.0
  unfolding authorize text_eq Text-discrete
  authorize-IsGuarded f r named h =
      let (cfg, given, last) = >>=-ok _ _ h in
      let changed = set_field config_key (object (strict cfg)) f in
      let same : get_field name_key changed ≡ get_field name_key f =
        get_field-set_other name_key config_key (object (strict cfg)) f refl in
      let other : is_guard (get_field name_key changed) ≡ false =
        ap is_guard same ∙ not_guard (get_field name_key f) named in
      subst (λ (r : Fields × Bool). IsGuarded r.0) (ok-injective last)
        (subst IsGuarded (sym (with_guard-other changed other))
          (record { source = λ e. cc; authz = λ e k. strict-IsStrict cfg f }))

  pub visit_http-IsGuarded : Makes (visit_http g c policy_extension) IsGuarded
  unfolding visit_http
  visit_http-IsGuarded shared f r h =
      elim (Bool-cases (policy_extension && is_string authz_name (get_field name_key f))) [
        | inl e ↦ authorize-IsGuarded f r (ground arith) (rw e at h)
        | inr e ↦
            subst (λ (r : Fields × Bool). IsGuarded r.0) (ok-injective (rw e at h))
              (record {
                source = λ k. with_guard-source f (ap is_guard (sym (with_guard-name f)) ∙ k);
                authz = λ x k.
                    cc (
                      unauthorized f e x (ap (is_string authz_name) (sym (with_guard-name f)) ∙ k));
              })
      ]
    where
      unauthorized :
          (f : Fields)
          → (policy_extension && is_string authz_name (get_field name_key f)) ≡ false
          → policy_extension ≡ true
          → is_string authz_name (get_field name_key f) ≡ true
          → true ≡ false
      unauthorized f e x k = ground arith
