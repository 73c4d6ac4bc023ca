-- ===== src/Daemon/Opa/Laws.antt =====
-- What prepareOPA writes.
use egress_gateway.Prelude.{
  ◌≡◌, ◌≢◌, ◌⊎◌, inl, inr, refl, sym, true, false, Bool-cases, List, Option, none, some,
  Option-cases, Text, text, Text-discrete, find, insert, find-insert, arith,
}
use egress_gateway.Prelude.Results.{ok, >>=-ok, or_fail-ok, ok-injective}
use egress_gateway.GoLib.FilePath.{join}
use egress_gateway.Config.Tracing.{Tracing}
use egress_gateway.Config.Validate.{Config}
use egress_gateway.Daemon.Json.{boolean, string, object, get_field, no_fields}
use egress_gateway.Daemon.Envoy.{Generated}
use egress_gateway.Daemon.Opa.{
  Formats, or_new, encryption, tracing_settings, with_tracing, prepare_from, prepare_opa,
}
use egress_gateway.GoLib.Strings.{is_set}

abbrev pub tracing_key : Text
tracing_key = text "distributed_tracing"

-- The encryption is what the environment asks for, and none only if it asks for none.
abbrev pub Encrypts : Tracing → Text → Type 0
Encrypts t e =
    ((is_set t.client_certificate ≡ true) × (e ≡ text "mtls"))
    ⊎ ((is_set t.client_certificate ≡ false) × (t.tls ≡ true) × (e ≡ text "tls"))
    ⊎ ((is_set t.client_certificate ≡ false) × (t.tls ≡ false) × (e ≡ text "off"))

-- The settings send nothing where tracing is off; otherwise they verify the collector.
abbrev pub AreSettings : Formats → Tracing → Type 0
AreSettings io t =
    ((t.disabled ≡ true) × (tracing_settings io t ≡ no_fields))
    ⊎ ((t.disabled ≡ false)
        × (get_field (text "address") (tracing_settings io t) ≡ some (string t.address))
        × (get_field (text "allow_insecure_tls") (tracing_settings io t) ≡ some (boolean false))
        × (e : Text) × (get_field (text "encryption") (tracing_settings io t) ≡ some (string e))
        × Encrypts t e)

encryption-Encrypts : (t : Tracing) → Encrypts t (encryption t)
unfolding encryption
encryption-Encrypts t = elim (Bool-cases (is_set t.client_certificate)) [
  | inl e ↦ inl (e, (rw e refl))
  | inr e ↦ elim (Bool-cases t.tls) [
    | inl e' ↦ inr (inl (e, e', (rw (e, e') refl)))
    | inr e' ↦ inr (inr (e, e', (rw (e, e') refl)))
  ]
]

tracing_settings-AreSettings : (io : Formats) (t : Tracing) → AreSettings io t
unfolding tracing_settings get_field Text-discrete
tracing_settings-AreSettings io t = elim (Bool-cases t.disabled) [
  | inl e ↦ inl (e, (rw e refl))
  | inr e ↦ inr (e, (rw e refl), (rw e refl), encryption t, (rw e refl), encryption-Encrypts t)
]

module _ (io : Formats) (c : Config) where
  -- Another configuration of OPA: that which was given, but for its tracing
  pub record IsTraced (t : Tracing) (w : Generated) : Type 0 where
    pub raw : Text
    pub is_read : io.read_file c.opa_config ≡ some raw
    pub given : Option (List (Text × Text))
    pub decoded : io.unmarshal raw ≡ some given
    pub native : List (Text × Text)
    pub encoded : io.marshal_map native ≡ some w.content
    pub settings : Text
    pub is_settings : io.marshal (object (tracing_settings io t)) ≡ some settings
    pub traced : find Text-discrete tracing_key native ≡ some settings
    pub kept :
        (key : Text)
        → key ≢ tracing_key
        → find Text-discrete key native ≡ find Text-discrete key (or_new given)
    pub are_settings : AreSettings io t
    pub path : w.path ≡ join c.runtime_dir (text "opa.json")
    pub mode : w.mode ≡ 0o600

  abbrev pub IsPreparedOpa : Text × Option Generated → Type 0
  IsPreparedOpa r =
      ((c.tracing ≡ none) × (r ≡ (c.opa_config, none)))
      ⊎ ((t : Tracing) × (c.tracing ≡ some t)
          × (w : Generated) × (r ≡ (w.path, some w))
          × IsTraced t w)

  with_tracing-IsTraced :
      (t : Tracing) (r : Text × Option Generated)
      → with_tracing io c t ≡ ok r
      → (w : Generated) × (r ≡ (w.path, some w)) × IsTraced t w
  unfolding with_tracing
  with_tracing-IsTraced t r h =
      let (raw, reads, h₁) = >>=-ok _ _ h in
      let (given, decodes, h₂) = >>=-ok _ _ h₁ in
      let (settings, settles, h₃) = >>=-ok _ _ h₂ in
      let (content, encodes, last) = >>=-ok _ _ h₃ in
      (
        record { path = join c.runtime_dir (text "opa.json"); content = content; mode = 0o600 },
        sym (ok-injective last),
        record {
          raw = raw;
          is_read = or_fail-ok _ _ reads;
          given = given;
          decoded = or_fail-ok _ _ decodes;
          native = insert Text-discrete tracing_key settings (or_new given);
          encoded = or_fail-ok _ _ encodes;
          settings = settings;
          is_settings = or_fail-ok _ _ settles;
          traced =
              ground
                (arith, find-insert Text-discrete tracing_key tracing_key settings (or_new given));
          kept = λ key other.
              ground (arith, find-insert Text-discrete key tracing_key settings (or_new given));
          are_settings = tracing_settings-AreSettings io t;
          path = refl;
          mode = refl;
        },
      )

  -- Without tracing inputs OPA reads the configuration that was given, and nothing is written. With
  -- them it reads the document that is written to opa.json in the runtime directory, for its user only:
  -- all that was given but `distributed_tracing`, which is empty if tracing is off; otherwise it has
  -- the collector's address, never allows insecure TLS, and encrypts unless neither TLS nor a client
  -- certificate is asked for.
  pub prepare_opa-IsPreparedOpa :
      (r : Text × Option Generated) → prepare_opa io c ≡ ok r → IsPreparedOpa r
  unfolding prepare_opa prepare_from with_tracing
  prepare_opa-IsPreparedOpa r h = elim (Option-cases c.tracing) [
    | inl e ↦ inl (e, sym (ok-injective (rw e at h)))
    | inr (t, e) ↦
        let (w, same, traced) = with_tracing-IsTraced t r (rw e at h) in inr (t, e, w, same, traced)
  ]
