-- ===== src/Daemon/Start.antt =====
-- What Run has established when OPA starts.
use mathlib.Core.Path.{subst}
use egress_gateway.Prelude.{
  ℕ, ◌≡◌, ◌≢◌, refl, ◌⊎◌, inl, inr, Bool, true, false, not, List, [], ◌∷◌, ◌++◌, Option, none, some,
  Text, text, arith, Bool-cases,
}
use egress_gateway.Prelude.Results.{
  Result, ok, err, refuse_if, ◌>>=◌, >>=-ok, >>-ok, refuse_if-ok, or_fail-ok, ok-injective,
}
use egress_gateway.GoLib.FilePath.{text_eq, join}
use egress_gateway.Config.Names.{workload, inspection_sds_file}
use egress_gateway.Config.Validate.{Config, inspection_sds_path, request_guard_path, opa_address}
use egress_gateway.Config.Laws.{IsValid, validate-IsValid, text_eq_iff, text_ne}
use egress_gateway.Inspection.Crypto.{Crypto}
use egress_gateway.Inspection.Leaf.{Authority}
use egress_gateway.Inspection.Ca.Directory.{forbidden}
use egress_gateway.Inspection.Ca.Write.{rename}
use egress_gateway.Inspection.Ca.Safety.{
  IsSafeDirectory, open_directory-IsSafeDirectory, IsWrittenFile,
}
use egress_gateway.Inspection.Ca.Open.{Codec, World}
use egress_gateway.Inspection.Ca.Origin.{IsOpened, open_authority-IsOpened}
use egress_gateway.Inspection.Server.State.{Server, new_server}
use egress_gateway.Daemon.Envoy.{Generated}
use egress_gateway.Daemon.Request.{Guard, source, https_source, http_source}
use egress_gateway.Daemon.Opa.{Formats}
use egress_gateway.Daemon.Opa.Laws.{IsPreparedOpa, prepare_opa-IsPreparedOpa}
use egress_gateway.Daemon.Policy.{Extension, Params}
use egress_gateway.Daemon.Policy.Laws.{IsConfigured, configure_policy_host-IsConfigured}
use egress_gateway.Daemon.Setup.{
  SetupError, Found, nothing, socket, something, unknown, Calls, SetUp, none_or, wrapped, writes,
  prepare_config, clear_socket, serve_secrets, serve_role, base_overrides, opa_params, set_up,
}
use egress_gateway.Daemon.Written.{
  writes-IsWrittenFile, IsWrittenOpa, write_opa-IsWrittenOpa, guard_text,
}

none_or-ok {ℓ} :
    {E : Type ℓ} (o : Option E) (wrap : E → SetupError) → none_or o wrap ≡ ok tt → o ≡ none
unfolding none_or
none_or-ok none wrap h = refl
none_or-ok (some e) wrap h = cc

wrapped-ok {ℓ} :
    {E : Type 0} {A : Type ℓ} {a : A} (r : Result E A) (wrap : E → SetupError)
    → wrapped r wrap ≡ ok a
    → r ≡ ok a
unfolding wrapped
wrapped-ok (err e) wrap h = cc
wrapped-ok (ok b) wrap h = ground arith

clear_socket-ok :
    (f : Found) (removes : Bool)
    → clear_socket f removes ≡ ok tt
    → (f ≡ nothing) ⊎ ((f ≡ socket) × (removes ≡ true))
unfolding clear_socket refuse_if
clear_socket-ok nothing removes h = inl refl
clear_socket-ok socket true h = inr (refl, refl)
clear_socket-ok socket false h = cc
clear_socket-ok something removes h = cc
clear_socket-ok unknown removes h = cc

kept : (b : Bool) → not b ≡ false → b ≡ true
kept b h = ground arith

-- OPA's parameters before the policy host is configured: a private socket for its API, and one for
-- Envoy's requests, which are enforced.
abbrev pub IsOpaParams : Config → List Text → Text → Params → Type 0
IsOpaParams c policies file p = p ≡ record {
  config_file = file;
  paths = policies;
  addrs = (text "unix://" ++ join c.runtime_dir (text "opa-api.sock")) ∷ [];
  addr_set_by_user = true;
  unix_socket_perm = text "0600";
  graceful_shutdown_period = 2;
  ready_timeout = 20;
  config_overrides =
      (text "plugins.envoy_ext_authz_grpc.addr=unix://" ++ join c.runtime_dir (text "opa.sock"))
      ∷ text "plugins.envoy_ext_authz_grpc.dry-run=false"
      ∷ text "plugins.envoy_ext_authz_grpc.enable-reflection=false"
      ∷ [];
}

opa_params-IsOpaParams :
    (c : Config) (policies : List Text) (file : Text)
    → IsOpaParams c policies file (opa_params c policies file)
unfolding opa_params base_overrides opa_address
opa_params-IsOpaParams c policies file = refl

module _ (crypto : Crypto) (codec : Codec) (g : Guard) (io : Formats) (extension : Extension)
    (world : World) (calls : Calls) (draw now : ℕ) where
  -- A workload's secrets are served from an opened authority, by a new server for 64 names, at a
  -- socket that was free or stale and is closed to others.
  pub record IsServing (c : Config) (served : Authority × Server) : Type 0 where
    pub opened : IsOpened crypto codec world c.state_dir c.public_dir draw now served.0
    pub server : new_server (some served.0) 64 ≡ some served.1
    pub path : Text
    pub is_path : path ≡ join c.runtime_dir inspection_sds_file
    pub free :
        (calls.found path ≡ nothing) ⊎ ((calls.found path ≡ socket) × (calls.removes path ≡ true))
    pub listens : calls.listens path ≡ true
    pub restricted : calls.restricts path 0o600 ≡ true

  pub record IsSetUp (c : Config) (policies : List Text) (u : SetUp) : Type 0 where
    pub valid : IsValid c
    pub runtime_dir : IsSafeDirectory c.runtime_dir 0o077 calls.runtime
    pub locked : calls.lock_taken ≡ true
    pub guard :
        IsWrittenFile calls.guard_calls rename
          (join c.runtime_dir (text "https-guard.lua"))
          (guard_text g c.role (text "https"))
          0o600
    pub http_guard :
        IsWrittenFile calls.http_guard_calls rename
          (join c.runtime_dir (text "http-guard.lua"))
          (guard_text g c.role (text "http"))
          0o600
    pub secrets :
        ((c.role ≡ workload)
          × (served : Authority × Server) × (u.served ≡ some served)
          × IsServing c served)
        ⊎ ((c.role ≢ workload) × (u.served ≡ none))
    pub file : Text
    pub generated : Option Generated
    pub prepared : IsPreparedOpa io c (file, generated)
    pub written : IsWrittenOpa calls.opa_calls generated
    pub given : Params
    pub is_given : IsOpaParams c policies file given
    pub policy : IsConfigured extension c given (calls.read_config file) u.policy_extension u.params

  serve_secrets-IsServing :
      (c : Config) {served : Authority × Server}
      → serve_secrets crypto codec g io extension world calls draw now c ≡ ok served
      → IsServing c served
  unfolding serve_secrets
  serve_secrets-IsServing c h =
      let (ca, opens, h₁) = >>=-ok _ _ h in
      let (server, is_new, h₂) = >>=-ok _ _ h₁ in
      let (cleared, h₃) = >>-ok _ _ h₂ in
      let (listens, h₄) = refuse_if-ok _ _ _ h₃ in
      let (restricted, h₅) = refuse_if-ok _ _ _ h₄ in
      subst (IsServing c) (ok-injective h₅) (record {
        opened =
            open_authority-IsOpened crypto codec world c.state_dir c.public_dir draw now
              (wrapped-ok _ _ opens);
        server = or_fail-ok _ _ is_new;
        path = inspection_sds_path c;
        is_path = unfold inspection_sds_path in refl;
        free = clear_socket-ok _ _ cleared;
        listens = kept _ listens;
        restricted = kept _ restricted;
      })

  abbrev Secrets : Config → Option (Authority × Server) → Type 0
  Secrets c o =
      ((c.role ≡ workload) × (served : Authority × Server) × (o ≡ some served) × IsServing c served)
      ⊎ ((c.role ≢ workload) × (o ≡ none))

  serve_role-Secrets :
      (c : Config) {o : Option (Authority × Server)}
      → serve_role crypto codec g io extension world calls draw now c ≡ ok o
      → Secrets c o
  unfolding serve_role
  serve_role-Secrets c {o} h = elim (Bool-cases (text_eq c.role workload)) [
    | inl e ↦ served e (rw e at h)
    | inr e ↦ inr (text_ne c.role workload e, unserved (rw e at h))
  ]
    where
      unserved :
          ◌≡◌ {A = Result SetupError (Option (Authority × Server))} (ok none) (ok o) → o ≡ none
      unserved k = ground arith

      served :
          text_eq c.role workload ≡ true
          → (serve_secrets crypto codec g io extension world calls draw now c
              >>= (λ s. ok (some s)))
            ≡ ok o
          → Secrets c o
      served e k =
          let (s, serves, last) =
            >>=-ok (serve_secrets crypto codec g io extension world calls draw now c) _ k in
          inl ((text_eq_iff c.role workload).0 e, s, ground arith, serve_secrets-IsServing c serves)

  prepare_config-prepared :
      (c : Config) {file : Text}
      → prepare_config crypto codec g io extension world calls draw now c ≡ ok file
      → (o : Option Generated) × IsPreparedOpa io c (file, o) × IsWrittenOpa calls.opa_calls o
  unfolding prepare_config
  prepare_config-prepared c h =
      let (r, prepares, h₁) = >>=-ok _ _ h in
      let (writes, last) = >>-ok _ _ h₁ in
      (
        r.1,
        subst (λ file. IsPreparedOpa io c (file, r.1)) (ok-injective last)
            (prepare_opa-IsPreparedOpa io c r (wrapped-ok _ _ prepares)),
        write_opa-IsWrittenOpa calls.opa_calls r.1 writes,
      )

  -- When Run starts OPA, the configuration is valid. The runtime directory is a clean absolute path
  -- without links and closed to all other users, and its lock is held. Both guards are durably written
  -- there for the user only, with the role and their scheme. OPA's configuration is the given one, or
  -- with tracing the durably written opa.json; its API has a private socket, it enforces its decisions
  -- for Envoy at another, and the policy host's settings are appended where it is enabled. A
  -- workload has an authority that was opened as it should, and a new server for 64 of its
  -- certificates that listens at a socket whose path was free or that of a removed socket, and whose
  -- mode is 0600; another role has neither.
  pub set_up-IsSetUp :
      (c : Config) (policies : List Text) {u : SetUp}
      → set_up crypto codec g io extension world calls draw now c policies ≡ ok u
      → IsSetUp c policies u
  unfolding set_up
  set_up-IsSetUp c policies h =
      let (valid, h₁) = >>-ok _ _ h in
      let (runtime_dir, h₂) = >>-ok _ _ h₁ in
      let (_, h₃) = refuse_if-ok _ _ _ h₂ in
      let (locked, h₄) = refuse_if-ok _ _ _ h₃ in
      let (guard, h₅) = refuse_if-ok _ _ _ h₄ in
      let (http_guard, h₆) = refuse_if-ok _ _ _ h₅ in
      let (served, serves, h₇) = >>=-ok _ _ h₆ in
      let (file, prepared, h₈) = >>=-ok _ _ h₇ in
      let (generated, is_prepared, written) = prepare_config-prepared c prepared in
      let (configured, configures, h₉) = >>=-ok _ _ h₈ in
      let (_, h₁₀) = refuse_if-ok _ _ _ h₉ in
      subst (IsSetUp c policies) (ok-injective h₁₀) (record {
        valid = validate-IsValid c (none_or-ok _ _ valid);
        runtime_dir =
            unfold forbidden in
            open_directory-IsSafeDirectory c.runtime_dir 0o700 calls.runtime
              (none_or-ok _ _ runtime_dir);
        locked = kept _ locked;
        guard =
            unfold request_guard_path https_source source in
            writes-IsWrittenFile calls.guard_calls (request_guard_path c) (https_source g c.role)
              0o600 guard;
        http_guard =
            unfold http_source source in
            writes-IsWrittenFile calls.http_guard_calls (join c.runtime_dir (text "http-guard.lua"))
              (http_source g c.role) 0o600 http_guard;
        secrets = serve_role-Secrets c serves;
        file = file;
        generated = generated;
        prepared = is_prepared;
        written = written;
        given = opa_params c policies file;
        is_given = opa_params-IsOpaParams c policies file;
        policy =
            configure_policy_host-IsConfigured extension c (opa_params c policies file)
              (calls.read_config file) (wrapped-ok _ _ configures);
      })
