-- ===== src/Enrollment/Compose.antt =====
-- ComposePod. The module egress-gateway-networking expands the Pod and the policy.
pub mod Mounts
pub mod Startup
pub mod Annotations
pub mod ProxyPart
pub mod Laws
use egress_gateway.Prelude.{
  ℕ, Bool, true, false, ◌&&◌, ◌||◌, not, List, [], ◌∷◌, ◌++◌, Option, none, some, if◌then◌else◌,
  Text, text, Text-discrete, insert, erase,
}
use egress_gateway.Prelude.Results.{Result, ok, err, ◌>>=◌, ◌>>◌, refuse_if, or_fail}
use egress_gateway.GoLib.Strings.{is_set, has_prefix}
use egress_gateway.GoLib.FilePath.{text_eq, clean}
use egress_gateway.Config.Names.{workload, egress, bundle_file}
use egress_gateway.Enrollment.Pod.{EnvVar, VolumeMount, Container, Volume, Pod, ManagedSpec}
use egress_gateway.Enrollment.Protect.{ProtectError, protect_business}
use egress_gateway.Enrollment.Proxy.{
  Options, ProxyError, full_env, with_policy, policy_volumes, with_origin, origin_volumes,
}

-- The panic is `c.Command[1]` of a container with a shorter command.
pub data ComposeError : Type 0 where
  no_pod bad_role missing_option missing_trust : ComposeError
  not_protected : ProtectError → ComposeError
  bad_env : ProxyError → ComposeError
  bad_trust_mount no_trust_container mount_collision : Text → ComposeError
  bad_network not_expanded panicked : ComposeError

-- networking.TrustedSpec
pub record Trusted : Type 0 where
  pub init_containers : List Container
  pub containers : List Container
  pub volumes : List Volume
  pub network_init : List Text

-- networking.ExpandPolicy and networking.ExpandPod
pub record Networking (Network Policy : Type 0) : Type 0 where
  pub expand_policy : Network → Option Policy
  pub expand_pod : Pod → Network → Trusted → Option Pod

abbrev pub istio_status : Text
istio_status =
    text
      "{\"initContainers\":[\"istio-proxy\"],\"containers\":[],\"volumes\":[],\"imagePullSecrets\":[],\"revision\":\"default\"}"

-- cleanPath
unfoldable pub clean_path : Text → Bool
unfolding has_prefix text_eq clean
clean_path p = has_prefix p (text "/") && not (text_eq p (text "/")) && text_eq (clean p) p

unfoldable pub or_protect : Option ProtectError → Result ComposeError (Unit {0})
or_protect none = ok tt
or_protect (some e) = err (not_protected e)

unfoldable pub or_env {ℓ} : {A : Type ℓ} → Result ProxyError A → Result ComposeError A
or_env (err e) = err (bad_env e)
or_env (ok a) = ok a

-- `c.Command[1] = path`
unfoldable pub set_second : Text → List Text → Option (List Text)
set_second path [] = none
set_second path (c ∷ []) = none
set_second path (c ∷ d ∷ cs) = some (c ∷ path ∷ cs)

-- slices.IndexFunc and the change at that index: the first container of the name, if its mounts
-- leave the path free.
unfoldable pub mounts_at : Text → List VolumeMount → Bool
unfolding text_eq
mounts_at path [] = false
mounts_at path (m ∷ ms) = text_eq m.mount_path path || mounts_at path ms

abbrev pub bundle_mount : Text → VolumeMount
bundle_mount path = record {
  name = text "bundle";
  mount_path = path;
  sub_path = bundle_file;
  read_only = true;
}

unfoldable pub add_trust_mount : Text → Text → List Container → Result ComposeError (List Container)
unfolding text_eq mounts_at
add_trust_mount name path [] = err (no_trust_container name)
add_trust_mount name path (c ∷ cs) =
    if text_eq c.name name
    then (if mounts_at path c.volume_mounts
        then err (mount_collision name)
        else ok (record c { volume_mounts = c.volume_mounts ++ (bundle_mount path ∷ []) } ∷ cs))
    else (do rest ← add_trust_mount name path cs; ok (c ∷ rest))

abbrev pub trusted_start : ManagedSpec → Trusted
trusted_start managed = record {
  init_containers = [];
  containers = [];
  volumes = managed.volumes;
  network_init = text "management-init" ∷ [];
}

module _ {Network : Type 0} (o : Options Network) where
  unfoldable pub check_inputs : Result ComposeError (Unit {0})
  check_inputs = do
    refuse_if (not (text_eq o.role workload) && not (text_eq o.role egress)) bad_role
    refuse_if
        (not (is_set o.image) || not (is_set o.discovery_address) || not (is_set o.proxy_config))
        missing_option
    refuse_if
        (text_eq o.role workload && (not (is_set o.trust_image) || not (clean_path o.trust_path)))
        missing_trust

  unfoldable pub annotate : List (Text × Text) → List (Text × Text)
  unfolding insert erase text_eq
  annotate a =
      let off = insert Text-discrete (text "sidecar.istio.io/inject") (text "false") a in
      if text_eq o.role workload
      then insert Text-discrete (text "traffic.sidecar.istio.io/includeOutboundIPRanges") (text "*")
          (insert Text-discrete (text "traffic.sidecar.istio.io/includeInboundPorts") [] (
            insert Text-discrete (text "sidecar.istio.io/status") istio_status
              (erase Text-discrete (text "sidecar.istio.io/inject") off)))
      else off

  -- The image of a managed container.
  unfoldable pub with_image : Container → Container
  unfolding is_set
  with_image c = record c {
    image = o.image;
    image_pull_policy =
        if is_set o.image_pull_policy then o.image_pull_policy else text "IfNotPresent";
  }

  unfoldable pub with_trust : Container → Result ComposeError Container
  unfolding text_eq or_fail set_second ◌>>=◌
  with_trust c =
      if text_eq c.name (text "base-trust")
      then (do
        command ← or_fail (set_second o.trust_path c.command) panicked
        ok (record c { image = o.trust_image; command = command }))
      else ok c

  unfoldable pub proxy_container : List EnvVar → Container → Container
  unfolding with_policy with_origin
  proxy_container env c = with_origin o (record (with_policy o c) { env = env })

  -- An egress gateway runs the proxy as a regular container.
  unfoldable pub place_proxy : Container → Trusted → Trusted
  unfolding text_eq
  place_proxy proxy t =
      if text_eq o.role egress
      then record t {
        containers =
            t.containers ++ (record proxy { restart_policy = none; startup_probe = false } ∷ []);
      }
      else record t { init_containers = t.init_containers ++ (proxy ∷ []) }

  unfoldable pub add_proxy : Container → Trusted → Result ComposeError Trusted
  add_proxy c t = do
    env ← or_env (full_env o)
    ok (
        place_proxy (proxy_container env c)
          (record t { volumes = (t.volumes ++ policy_volumes o) ++ origin_volumes o }))

  -- The body of the loop over the managed containers.
  unfoldable pub add_managed : Container → Trusted → Result ComposeError Trusted
  add_managed managed t = do
    c ← with_trust (with_image managed)
    if text_eq o.role egress
          && (text_eq c.name (text "base-trust") || text_eq c.name (text "trust-init"))
        then ok t
        else if text_eq c.name (text "istio-proxy")
        then add_proxy c t
        else ok (record t { init_containers = t.init_containers ++ (c ∷ []) })

  unfoldable pub add_all_managed : List Container → Trusted → Result ComposeError Trusted
  add_all_managed [] t = ok t
  add_all_managed (c ∷ cs) t = add_managed c t >>= add_all_managed cs

  -- The loop over the trust mounts.
  unfoldable pub add_trust_mounts :
      List (Text × Text) → List Container → Result ComposeError (List Container)
  add_trust_mounts [] containers = ok containers
  add_trust_mounts ((name, path) ∷ ms) containers = do
    refuse_if (not (text_eq o.role workload) || not (clean_path path)) (bad_trust_mount name)
    changed ← add_trust_mount name path containers
    add_trust_mounts ms changed

  -- The Pod before the network is expanded.
  unfoldable pub assemble : Pod → Trusted → List Container → Pod
  unfolding annotate
  assemble p t containers = record p {
    automount_token = some false;
    annotations = annotate p.annotations;
    init_containers = t.init_containers ++ p.init_containers;
    containers = containers ++ t.containers;
    volumes = p.volumes ++ t.volumes;
  }

  unfoldable pub compose_pod :
      {Policy : Type 0}
      → Networking Network Policy
      → ManagedSpec
      → Option Pod
      → Result ComposeError (Pod × Policy)
  compose_pod networking managed business = do
    p ← or_fail business no_pod
    check_inputs
    or_protect (protect_business managed p)
    t ← add_all_managed managed.init_containers (trusted_start managed)
    containers ← add_trust_mounts o.trust_mounts p.containers
    policy ← or_fail (networking.expand_policy o.network) bad_network
    pod ← or_fail (networking.expand_pod (assemble p t containers) o.network t) not_expanded
    ok (pod, policy)
