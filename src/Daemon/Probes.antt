-- ===== src/Daemon/Probes.antt =====
-- internal/daemon/daemon.go: Ready and the checks of the services.
use egress_gateway.Prelude.{ℕ, Bool, [], ◌∷◌, Option, none, some, ◌==◌, if◌then◌else◌, Text, text}
use egress_gateway.Prelude.Options.{first_of}
use egress_gateway.GoLib.FilePath.{text_eq, join}
use egress_gateway.Config.Names.{workload, istio}
use egress_gateway.Config.Validate.{Config, public_ca_path, envoy_admin_path, inspection_sds_path}
use egress_gateway.Inspection.Crypto.{Bytes}

-- What the network and the file system answer within the limits of the code: the status of a GET
-- (over a Unix socket, unless its path is empty), whether a Unix socket can be dialled and the
-- connection closed, and the content of a file.
pub record Host : Type 0 where
  pub http_status : Text → Text → Option ℕ
  pub dials : Text → Bool
  pub closes : Text → Bool
  pub read_file : Text → Option Bytes

pub data ProbeError : Type 0 where
  no_answer unreachable unreadable_ca unpublished_ca sds_not_ready : ProbeError
  bad_status : ℕ → ProbeError

unfoldable pub check_status : Option ℕ → Option ProbeError
check_status none = some no_answer
check_status (some code) = if code == 200 then none else some (bad_status code)

unfoldable pub is_published : Option Bytes → Option ProbeError
is_published none = some unreadable_ca
is_published (some []) = some unpublished_ca
is_published (some (b ∷ bs)) = none

unfoldable pub opa_socket : Config → Text
unfolding join
opa_socket c = join c.runtime_dir (text "opa.sock")

module _ (host : Host) where
  -- `get`
  unfoldable pub get_ok : Text → Text → Option ProbeError
  unfolding check_status
  get_ok socket url = check_status (host.http_status socket url)

  unfoldable pub check_listener : Config → Option ProbeError
  unfolding opa_socket
  check_listener c =
      if host.dials (opa_socket c)
      then (if host.closes (opa_socket c) then none else some unreachable)
      else some unreachable

  unfoldable pub check_opa_health : Config → Text → Option ProbeError
  unfolding first_of get_ok check_listener join
  check_opa_health c endpoint =
      first_of (get_ok (join c.runtime_dir (text "opa-api.sock")) endpoint) (check_listener c)

  unfoldable pub check_opa : Config → Option ProbeError
  unfolding check_opa_health
  check_opa c = check_opa_health c (text "http://localhost/health?plugins&bundles")

  unfoldable pub check_opa_liveness : Config → Option ProbeError
  unfolding check_opa_health
  check_opa_liveness c = check_opa_health c (text "http://localhost/health")

  unfoldable pub check_proxy : Config → Option ProbeError
  unfolding get_ok text_eq envoy_admin_path
  check_proxy c =
      if text_eq c.proxy_mode istio
      then get_ok [] (text "http://127.0.0.1:15021/healthz/ready")
      else get_ok (envoy_admin_path c) (text "http://localhost/ready")

  -- A workload's certificates are published and served.
  unfoldable pub check_inspection : Config → Option ProbeError
  unfolding first_of is_published public_ca_path inspection_sds_path
  check_inspection c =
      first_of (is_published (host.read_file (public_ca_path c)))
        (if host.dials (inspection_sds_path c) then none else some sds_not_ready)

  -- Ready
  unfoldable pub ready : Config → Option ProbeError
  unfolding first_of text_eq check_inspection check_opa check_proxy
  ready c =
      first_of (if text_eq c.role workload then check_inspection c else none)
        (first_of (check_opa c) (check_proxy c))
