-- ===== src/Daemon/Setup.antt =====
-- internal/daemon/daemon.go: Run up to the start of OPA.
use egress_gateway.Prelude.{
  ℕ, Bool, true, not, ◌++◌, List, [], ◌∷◌, Option, none, some, if◌then◌else◌, Text, text,
}
use egress_gateway.Prelude.Results.{Result, ok, err, ◌>>=◌, ◌>>◌, refuse_if, or_fail}
use egress_gateway.GoLib.FilePath.{text_eq, join}
use egress_gateway.Config.Names.{workload}
use egress_gateway.Config.Validate.{
  Config, ConfigError, validate, opa_address, inspection_sds_path, request_guard_path,
}
use egress_gateway.Inspection.Crypto.{Bytes, Crypto}
use egress_gateway.Inspection.Leaf.{Authority}
use egress_gateway.Inspection.Ca.Directory.{DirectoryError, DirectoryCalls, open_directory}
use egress_gateway.Inspection.Ca.Write.{Oracle, rename, write_atomic}
use egress_gateway.Inspection.Ca.Open.{Codec, World, OpenError, succeeded, open_authority}
use egress_gateway.Inspection.Server.State.{Server, new_server}
use egress_gateway.Daemon.Envoy.{Generated}
use egress_gateway.Daemon.Request.{Guard, https_source, http_source}
use egress_gateway.Daemon.Opa.{Formats, OpaError, prepare_opa}
use egress_gateway.Daemon.Policy.{Extension, Params, PolicyError, configure_policy_host}

pub data SetupError : Type 0 where
  invalid : ConfigError → SetupError
  bad_runtime_dir : DirectoryError → SetupError
  no_lock already_owned guard_not_written http_guard_not_written : SetupError
  no_authority : OpenError → SetupError
  no_server not_a_socket not_removed not_inspected not_listening not_restricted : SetupError
  opa_not_written no_runtime : SetupError
  opa_not_prepared : OpaError → SetupError
  no_policy : PolicyError → SetupError

-- What os.Lstat says of the path of the secret server's socket.
pub data Found : Type 0 where
  nothing socket something unknown : Found

-- What the calls of Run answer, in their order.
pub record Calls : Type 0 where
  pub runtime : DirectoryCalls
  -- os.OpenFile of a path, with a mode, and the lock of what it opened
  pub opens : Text → ℕ → Bool
  pub lock_taken : Bool
  -- the calls of the writes of the two guards and of OPA's configuration
  pub guard_calls : Oracle
  pub http_guard_calls : Oracle
  pub opa_calls : Oracle
  -- os.Lstat, os.Remove, net.Listen and os.Chmod, of a path
  pub found : Text → Found
  pub removes : Text → Bool
  pub listens : Text → Bool
  pub restricts : Text → ℕ → Bool
  -- os.ReadFile, once OPA's configuration is prepared
  pub read_config : Text → Option Bytes
  pub new_runtime : Bool

unfoldable pub none_or {ℓ} :
    {E : Type ℓ} → Option E → (E → SetupError) → Result SetupError (Unit {0})
none_or none wrap = ok tt
none_or (some e) wrap = err (wrap e)

unfoldable pub wrapped {ℓ} :
    {E : Type 0} {A : Type ℓ} → Result E A → (E → SetupError) → Result SetupError A
wrapped (err e) wrap = err (wrap e)
wrapped (ok a) wrap = ok a

-- A stale socket is removed, and nothing else.
unfoldable pub clear_socket : Found → Bool → Result SetupError (Unit {0})
unfolding refuse_if
clear_socket nothing removes = ok tt
clear_socket socket removes = refuse_if (not removes) not_removed
clear_socket something removes = err not_a_socket
clear_socket unknown removes = err not_inspected

unfoldable pub base_overrides : Config → List Text
base_overrides c =
    (text "plugins.envoy_ext_authz_grpc.addr=" ++ opa_address c)
    ∷ text "plugins.envoy_ext_authz_grpc.dry-run=false"
    ∷ text "plugins.envoy_ext_authz_grpc.enable-reflection=false"
    ∷ []

-- The parameters of OPA: its configuration, the policies of the command line, and the overrides.
unfoldable pub opa_params : Config → List Text → Text → Params
opa_params c policies file = record {
  config_file = file;
  paths = policies;
  addrs = (text "unix://" ++ join c.runtime_dir (text "opa-api.sock")) ∷ [];
  addr_set_by_user = true;
  unix_socket_perm = text "0600";
  graceful_shutdown_period = 2;
  ready_timeout = 20;
  config_overrides = base_overrides c;
}

-- What Run has set up: the authority and the server of a workload, and OPA's parameters.
pub record SetUp : Type 0 where
  pub served : Option (Authority × Server)
  pub policy_extension : Bool
  pub params : Params

-- WriteAtomic as the code tests it
unfoldable pub writes : Oracle → Text → Bytes → ℕ → Bool
unfolding write_atomic succeeded
writes oracle path content mode = succeeded (write_atomic oracle rename path content mode).result

-- The end of prepareOPA: what was generated is written.
unfoldable pub write_opa : Oracle → Option Generated → Result SetupError (Unit {0})
unfolding refuse_if writes
write_opa oracle none = ok tt
write_opa oracle (some w) = refuse_if (not (writes oracle w.path w.content w.mode)) opa_not_written

module _ (crypto : Crypto) (codec : Codec) (g : Guard) (io : Formats) (extension : Extension)
    (world : World) (calls : Calls) (draw now : ℕ) where
  -- The authority and the secret server of a workload, listening on its socket.
  unfoldable pub serve_secrets : Config → Result SetupError (Authority × Server)
  serve_secrets c = do
    ca ← wrapped (open_authority crypto codec world c.state_dir c.public_dir draw now) no_authority
    server ← or_fail (new_server (some ca) 64) no_server
    let path = inspection_sds_path c
    clear_socket (calls.found path) (calls.removes path)
    refuse_if (not (calls.listens path)) not_listening
    refuse_if (not (calls.restricts path 0o600)) not_restricted
    ok (ca, server)

  unfoldable pub serve_role : Config → Result SetupError (Option (Authority × Server))
  serve_role c =
      if text_eq c.role workload then (do served ← serve_secrets c; ok (some served)) else ok none

  -- prepareOPA: the path of OPA's configuration
  unfoldable pub prepare_config : Config → Result SetupError Text
  unfolding write_opa
  prepare_config c = do
    r ← wrapped (prepare_opa io c) opa_not_prepared
    write_opa calls.opa_calls r.1
    ok r.0

  -- Run up to the start of OPA: what is served, and the parameters of OPA.
  unfoldable pub set_up : Config → List Text → Result SetupError SetUp
  set_up c policies = do
    none_or (validate c) invalid
    none_or (open_directory c.runtime_dir 0o700 calls.runtime) bad_runtime_dir
    refuse_if (not (calls.opens (join c.runtime_dir (text ".daemon.lock")) 0o600)) no_lock
    refuse_if (not calls.lock_taken) already_owned
    refuse_if (not (writes calls.guard_calls (request_guard_path c) (https_source g c.role) 0o600))
        guard_not_written
    refuse_if
        (not (
          writes calls.http_guard_calls (join c.runtime_dir (text "http-guard.lua"))
            (http_source g c.role) 0o600))
        http_guard_not_written
    served ← serve_role c
    file ← prepare_config c
    configured ←
        wrapped
          (configure_policy_host extension c (opa_params c policies file) (calls.read_config file))
          no_policy
    refuse_if (not calls.new_runtime) no_runtime
    ok (record { served = served; policy_extension = configured.0; params = configured.1 })
