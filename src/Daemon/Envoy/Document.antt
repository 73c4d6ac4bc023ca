-- ===== src/Daemon/Envoy/Document.antt =====
-- The document that prepareEnvoy writes.
use mathlib.Core.Path.{subst}
use egress_gateway.Prelude.{
  ◌≡◌, ◌≢◌, inl, inr, refl, ap, ◌∙◌, sym, Bool, true, false, ◌&&◌, not, some, Text, text,
  Text-discrete, arith,
}
use egress_gateway.Prelude.Results.{ok, >>=-ok, refuse_if-ok, or_fail-ok, ok-injective}
use egress_gateway.GoLib.FilePath.{text_eq, join}
use egress_gateway.Config.Laws.{ne_text}
use egress_gateway.Config.Validate.{Config, envoy_admin_path}
use egress_gateway.Daemon.Json.{
  Json, null, boolean, number, array, string, object, Fields, get_field, set_field, as_object,
  is_present, visit_array, visit_object,
}
use egress_gateway.Daemon.Json.Laws.{
  get_field-set_field, get_field-set_other, Each, Within, visit_array-Makes, visit_object-Makes,
  visit_object-Within, visit_array-get_field, visit_object-get_field,
}
use egress_gateway.Daemon.Json.Flags.{HasWithin, visit_object-HasWithin, visit_object-Keeps}
use egress_gateway.Daemon.Request.{Guard}
use egress_gateway.Daemon.Envoy.{
  Documents, Generated, pipe, or_new_object, with_admin, bootstrap, visit_listener, visit_cluster,
  rewrite, prepare_envoy,
}
use egress_gateway.Daemon.Envoy.Filters.{
  AreListenersGuarded, HasAuthorization, visit_listeners-Guarded, visit_listeners-HasAuthz,
}
use egress_gateway.Daemon.Envoy.Clusters.{IsPrivate, visit_cluster-IsPrivate}

abbrev static_key : Text
static_key = text "static_resources"

module _ (g : Guard) (c : Config) (policy_extension : Bool) where
  -- What has become of a document
  pub record IsPrepared (b d : Fields) : Type 0 where
    pub static : is_present (get_field (text "dynamic_resources") b) ≡ false
    pub admin : Fields
    pub has_admin : get_field (text "admin") d ≡ some (object admin)
    pub address : get_field (text "address") admin ≡ some (pipe (envoy_admin_path c))
    pub guarded : Within static_key (AreListenersGuarded g c policy_extension) d
    pub authorized :
        policy_extension ≡ true → HasWithin static_key (HasAuthorization g c policy_extension) d
    pub moved : Within static_key (Each (text "clusters") (IsPrivate c)) d
    pub kept :
        (key : Text) → key ≢ text "admin" → key ≢ static_key → get_field key d ≡ get_field key b

  -- Both passes, over the listeners and over the clusters
  module _ (b : Fields) (guarded moved : Fields × Bool)
      (loops : visit_object static_key
          (visit_array (text "listeners") (visit_listener g c policy_extension))
          false
          (with_admin c b)
        ≡ ok guarded)
      (moves : visit_object static_key
          (visit_array (text "clusters") (visit_cluster c))
          guarded.1
          guarded.0
        ≡ ok moved) where
    passes-get_field :
        (key : Text)
        → text_eq static_key key ≡ false
        → get_field key moved.0 ≡ get_field key (with_admin c b)
    passes-get_field key other =
        visit_object-get_field (visit_array (text "clusters") (visit_cluster c)) key static_key
          other guarded.1 guarded.0 moved moves
        ∙ visit_object-get_field
            (visit_array (text "listeners") (visit_listener g c policy_extension)) key static_key
            other false (with_admin c b) guarded loops

    clusters-get_field :
        (flag : Bool) (fs : Fields) (r : Fields × Bool)
        → visit_array (text "clusters") (visit_cluster c) flag fs ≡ ok r
        → get_field (text "listeners") r.0 ≡ get_field (text "listeners") fs
    unfolding text_eq Text-discrete
    clusters-get_field =
        visit_array-get_field (visit_cluster c) (text "listeners") (text "clusters") refl

    passes-Guarded : Within static_key (AreListenersGuarded g c policy_extension) moved.0
    passes-Guarded =
        visit_object-Within (visit_array (text "clusters") (visit_cluster c))
          (AreListenersGuarded g c policy_extension) (AreListenersGuarded g c policy_extension)
          (λ flag fs r h p. rw (clusters-get_field flag fs r h) p) static_key guarded.1 guarded.0
          moved moves
          (visit_object-Makes (visit_array (text "listeners") (visit_listener g c policy_extension))
            (AreListenersGuarded g c policy_extension)
            (visit_listeners-Guarded g c policy_extension) static_key false (with_admin c b) guarded
            loops)

    passes-HasAuthz :
        guarded.1 ≡ true → HasWithin static_key (HasAuthorization g c policy_extension) moved.0
    passes-HasAuthz raised =
        elim (visit_object-HasWithin
          (visit_array (text "listeners") (visit_listener g c policy_extension))
          (HasAuthorization g c policy_extension) (visit_listeners-HasAuthz g c policy_extension)
          static_key false (with_admin c b) guarded loops raised) [
            | inl e ↦ cc
            | inr has ↦
                visit_object-Keeps (visit_array (text "clusters") (visit_cluster c))
                  (HasAuthorization g c policy_extension) (HasAuthorization g c policy_extension)
                  (λ flag fs r h p. rw (clusters-get_field flag fs r h) p) static_key guarded.1
                  guarded.0 moved moves has
          ]

    passes-Moved : Within static_key (Each (text "clusters") (IsPrivate c)) moved.0
    passes-Moved =
        visit_object-Makes (visit_array (text "clusters") (visit_cluster c))
          (Each (text "clusters") (IsPrivate c))
          (visit_array-Makes (visit_cluster c) (IsPrivate c) (visit_cluster-IsPrivate c)
            (text "clusters"))
          static_key guarded.1 guarded.0 moved moves

    passes-IsPrepared :
        is_present (get_field (text "dynamic_resources") b) ≡ false
        → (policy_extension && not guarded.1) ≡ false
        → IsPrepared b moved.0
    unfolding with_admin text_eq Text-discrete
    passes-IsPrepared static shared =
        let given = or_new_object (as_object (get_field (text "admin") b)) in
        let admin = set_field (text "address") (pipe (envoy_admin_path c)) given in
        record {
          static = static;
          admin = admin;
          has_admin =
              passes-get_field (text "admin") refl
              ∙ get_field-set_field (text "admin") (object admin) b;
          address = get_field-set_field (text "address") (pipe (envoy_admin_path c)) given;
          guarded = passes-Guarded;
          authorized = λ e. passes-HasAuthz (ground arith);
          moved = passes-Moved;
          kept = λ key not_admin not_static.
              passes-get_field key (ne_text static_key key (λ e. not_static (sym e)))
              ∙ get_field-set_other key (text "admin") (object admin) b
                  (ne_text (text "admin") key (λ e. not_admin (sym e)));
        }

  rewrite-IsPrepared : (b d : Fields) → rewrite g c policy_extension b ≡ ok d → IsPrepared b d
  unfolding rewrite
  rewrite-IsPrepared b d h =
      let (static, h₁) = refuse_if-ok _ _ _ h in
      let (guarded, loops, h₂) = >>=-ok _ _ h₁ in
      let (shared, h₃) = refuse_if-ok _ _ _ h₂ in
      let (moved, moves, last) = >>=-ok _ _ h₃ in
      subst (IsPrepared b) (ok-injective last)
        (passes-IsPrepared b guarded moved loops moves static shared)

  -- What is written: the document, prepared, for the gateway's user only
  pub record IsWritten (io : Documents) (w : Generated) : Type 0 where
    pub raw : Text
    pub is_read : io.read_file c.envoy_config ≡ some raw
    pub json : Text
    pub converted : io.yaml_to_json raw ≡ some json
    pub given : Fields
    pub decoded : io.decode json ≡ some (object given)
    pub document : Fields
    pub prepared : IsPrepared given document
    pub encoded : io.encode (object document) ≡ some w.content
    pub path : w.path ≡ join c.runtime_dir (text "envoy.json")
    pub mode : w.mode ≡ 0o600

  bootstrap-ok : (j : Json) (b : Fields) → bootstrap j ≡ ok b → j ≡ object b
  unfolding bootstrap
  bootstrap-ok null b h = cc
  bootstrap-ok (boolean x) b h = cc
  bootstrap-ok (number n) b h = cc
  bootstrap-ok (string s) b h = cc
  bootstrap-ok (array is) b h = cc
  bootstrap-ok (object fs) b h = ap object (ok-injective h)

  -- If prepareEnvoy gets as far as writing, what it writes to envoy.json in the runtime directory, for
  -- its user only, is the decoded configuration, changed as follows: it had no dynamic resources; the
  -- administration is at its private socket; every HTTP filter of the gateway has its Lua source; with
  -- a policy extension there is an ext_authz filter, and every one refuses requests when the policy
  -- fails; the clusters of OPA and of the secret server are at their private sockets; and nothing but
  -- `admin` and `static_resources` is changed.
  pub prepare_envoy-IsWritten :
      (io : Documents) (w : Generated)
      → prepare_envoy g c policy_extension io ≡ ok w
      → IsWritten io w
  unfolding prepare_envoy
  prepare_envoy-IsWritten io w h =
      let (raw, reads, h₁) = >>=-ok _ _ h in
      let (json, converts, h₂) = >>=-ok _ _ h₁ in
      let (value, decodes, h₃) = >>=-ok _ _ h₂ in
      let (b, boots, h₄) = >>=-ok _ _ h₃ in
      let (d, rewrites, h₅) = >>=-ok _ _ h₄ in
      let (content, encodes, last) = >>=-ok _ _ h₅ in
      let same : ◌≡◌ {A = Generated}
          (record {
            path = join c.runtime_dir (text "envoy.json");
            content = content;
            mode = 0o600;
          })
          w =
        ok-injective last in
      record {
        raw = raw;
        is_read = or_fail-ok _ _ reads;
        json = json;
        converted = or_fail-ok _ _ converts;
        given = b;
        decoded = or_fail-ok _ _ decodes ∙ ap some (bootstrap-ok value b boots);
        document = d;
        prepared = rewrite-IsPrepared b d rewrites;
        encoded = or_fail-ok _ _ encodes ∙ ap (λ (w : Generated). some w.content) same;
        path = ap (λ (w : Generated). w.path) (sym same);
        mode = ap (λ (w : Generated). w.mode) (sym same);
      }
