-- ===== src/Enrollment/Fixture.antt =====
-- cmd/gateway-e2e-compose: compose of main.go and attachShared of shared.go. The readers of YAML and
-- JSON, and the config map of sharedArtifacts, are parameters; what is marshalled is the list of values.
pub mod Attached
pub mod Laws
use egress_gateway.Prelude.{
  ℕ, Bool, true, false, ◌&&◌, ◌||◌, not, List, [], ◌∷◌, ◌++◌, map, Option, none, some,
  if◌then◌else◌, Text, text, Text-discrete, find, has, add,
}
use egress_gateway.Prelude.Results.{Result, ok, err, ◌>>=◌, ◌>>◌, refuse_if, or_fail}
use egress_gateway.GoLib.FilePath.{text_eq}
use egress_gateway.Config.Names.{workload, egress, env_opa_config}
use egress_gateway.Enrollment.Pod.{
  EnvVar, VolumeMount, Container, Volume, Pod, ManagedSpec, config_volume,
}
use egress_gateway.Enrollment.Proxy.{Options, valued}
use egress_gateway.Enrollment.Compose.{ComposeError, Networking, compose_pod}

pub record Identity : Type 0 where
  pub kind : Text
  pub name : Text
  pub namespace : Text

abbrev pub shared_directory : Text
shared_directory = text "/etc/gateway/shared"

abbrev pub shared_mount : VolumeMount
shared_mount = record {
  name = text "gateway-shared";
  mount_path = shared_directory;
  sub_path = [];
  read_only = true;
}

-- The body of the loops over the containers.
unfoldable pub attach_container : Container → Container
unfolding text_eq
attach_container c =
    if text_eq c.name (text "istio-proxy")
    then record c {
      args = [];
      env = c.env ++ (valued env_opa_config (shared_directory ++ text "/opa.json") ∷ []);
      volume_mounts = c.volume_mounts ++ (shared_mount ∷ []);
    }
    else c

-- attachShared, with the name of the config map
unfoldable pub attach_shared : Text → Pod → Pod
unfolding attach_container
attach_shared config_map p = record p {
  volumes = p.volumes ++ (config_volume (text "gateway-shared") config_map ∷ []);
  init_containers = map attach_container p.init_containers;
  containers = map attach_container p.containers;
}

-- An item of the list as it is read: its identity and the Pod of a Pod or of a deployment's template.
pub record Readers (Raw : Type 0) : Type 0 where
  pub identity : Raw → Option Identity
  pub pod : Raw → Option Pod
  pub template : Raw → Option Pod

-- What the list holds in the end: resources as they were, Pods and deployments with their Pod
-- composed, and before them a network policy, by its name and namespace, and a config map for each.
pub data Resource (Raw Policy ConfigMap : Type 0) : Type 0 where
  unchanged : Raw → Resource Raw Policy ConfigMap
  pod_resource : Pod → Resource Raw Policy ConfigMap
  deployment : Raw → Pod → Resource Raw Policy ConfigMap
  network_policy : Text → Text → Policy → Resource Raw Policy ConfigMap
  config_map : ConfigMap → Resource Raw Policy ConfigMap

pub data FixtureError : Type 0 where
  bad_identity bad_pod bad_deployment no_artifacts both_required : FixtureError
  missing_or_duplicate : Text → FixtureError
  not_composed : Text → ComposeError → FixtureError

unfoldable pub or_composed {ℓ} : {A : Type ℓ} → Text → Result ComposeError A → Result FixtureError A
or_composed name (err e) = err (not_composed name e)
or_composed name (ok a) = ok a

unfoldable pub is_pod : Identity → Bool
unfolding text_eq
is_pod i = text_eq i.kind (text "Pod") && text_eq i.name (text "workload")

unfoldable pub is_deployment : Identity → Bool
unfolding text_eq
is_deployment i = text_eq i.kind (text "Deployment") && text_eq i.name (text "egress")

-- The state of the loop: policies, resources, and the names that were seen.
pub record Composed (Raw Policy ConfigMap : Type 0) : Type 0 where
  pub policies : List (Resource Raw Policy ConfigMap)
  pub resources : List (Resource Raw Policy ConfigMap)
  pub seen : List Text

module _ {Raw Network Policy ConfigMap : Type 0} (readers : Readers Raw)
    (networking : Networking Network Policy) (managed : ManagedSpec)
    (artifacts : Text → Option ConfigMap) (config_map_name : ConfigMap → Text)
    (options : List (Text × Options Network)) where
  abbrev pub Items : Type 0
  Items = Composed Raw Policy ConfigMap

  -- From the business on: `place` makes the resource of the composed Pod.
  unfoldable pub compose_business :
      Pod → (Pod → Resource Raw Policy ConfigMap) → Items → Result FixtureError Items
  compose_business business place s = do
    o ← or_fail (find Text-discrete business.name options) (missing_or_duplicate business.name)
    refuse_if (has Text-discrete business.name s.seen) (missing_or_duplicate business.name)
    composed ← or_composed business.name (compose_pod o networking managed (some business))
    shared ← or_fail (artifacts o.role) no_artifacts
    ok (record {
      policies =
          s.policies
          ++ (network_policy (text "gateway-" ++ business.name) business.namespace composed.1
              ∷ config_map shared
              ∷ []);
      resources = s.resources ++ (place (attach_shared (config_map_name shared) composed.0) ∷ []);
      seen = add Text-discrete business.name s.seen;
    })

  unfoldable pub compose_item : Raw → Items → Result FixtureError Items
  compose_item raw s = do
    i ← or_fail (readers.identity raw) bad_identity
    if is_pod i
        then (do
          business ← or_fail (readers.pod raw) bad_pod
          compose_business business pod_resource s)
        else if is_deployment i
        then (do
          template ← or_fail (readers.template raw) bad_deployment
          compose_business (record template { name = i.name; namespace = i.namespace })
              (deployment raw) s)
        else ok (record s { resources = s.resources ++ (unchanged raw ∷ []) })

  unfoldable pub compose_items : List Raw → Items → Result FixtureError Items
  compose_items [] s = ok s
  compose_items (raw ∷ raws) s = compose_item raw s >>= compose_items raws

  unfoldable pub compose : List Raw → Result FixtureError (List (Resource Raw Policy ConfigMap))
  compose raws = do
    s ← compose_items raws (record { policies = []; resources = []; seen = [] })
    refuse_if (not (has Text-discrete workload s.seen) || not (has Text-discrete egress s.seen))
        both_required
    ok (s.policies ++ s.resources)
