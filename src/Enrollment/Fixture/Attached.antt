-- ===== src/Enrollment/Fixture/Attached.antt =====
-- attachShared of shared.go, and which items compose enrolls.
use egress_gateway.Prelude.{
  ◌≡◌, ◌≢◌, ◌⊎◌, refl, true, false, List, [], ◌∷◌, ◌++◌, map, none, some, Text, text, arith,
}
use egress_gateway.GoLib.FilePath.{text_eq}
use egress_gateway.Config.Names.{env_opa_config}
use egress_gateway.Enrollment.Pod.{Container, Pod}
use egress_gateway.Enrollment.Fixture.{
  Identity, attach_container, attach_shared, is_pod, is_deployment,
}

-- The proxy's container has the shared policy instead of its arguments, any other is as it was.
abbrev pub IsAttached : Container → Container → Type 0
IsAttached c d =
    ((c.name ≡ text "istio-proxy")
      × (d ≡ record c {
        args = [];
        env =
            c.env
            ++ (record {
              name = env_opa_config;
              value = text "/etc/gateway/shared/opa.json";
              field_path = none;
            }
                ∷ []);
        volume_mounts =
            c.volume_mounts
            ++ (record {
              name = text "gateway-shared";
              mount_path = text "/etc/gateway/shared";
              sub_path = [];
              read_only = true;
            }
                ∷ []);
      }))
    ⊎ ((c.name ≢ text "istio-proxy") × (d ≡ c))

abbrev pub AreAttached : List Container → List Container → Type 0
AreAttached [] ds = ds ≡ []
AreAttached (c ∷ cs) ds =
    (d : Container) × (rest : List Container) × (ds ≡ d ∷ rest)
    × IsAttached c d
    × AreAttached cs rest

-- A Pod and the same with the shared policy attached
pub record HasShared (config_map : Text) (p q : Pod) : Type 0 where
  pub init_containers : List Container
  pub containers : List Container
  pub inits_attached : AreAttached p.init_containers init_containers
  pub attached : AreAttached p.containers containers
  pub pod : q ≡ record p {
    init_containers = init_containers;
    containers = containers;
    volumes =
        p.volumes
        ++ (record { name = text "gateway-shared"; config_map = some config_map; projected = none }
            ∷ []);
  }

attach_container-IsAttached : (c : Container) → IsAttached c (attach_container c)
unfolding attach_container text_eq
attach_container-IsAttached c = ground arith

map-AreAttached : (cs : List Container) → AreAttached cs (map attach_container cs)
map-AreAttached [] = refl
map-AreAttached (c ∷ cs) = (
  attach_container c,
  map attach_container cs,
  refl,
  attach_container-IsAttached c,
  map-AreAttached cs,
)

pub attach_shared-HasShared : (name : Text) (p : Pod) → HasShared name p (attach_shared name p)
unfolding attach_shared
attach_shared-HasShared name p = record {
  init_containers = map attach_container p.init_containers;
  containers = map attach_container p.containers;
  inits_attached = map-AreAttached p.init_containers;
  attached = map-AreAttached p.containers;
  pod = refl;
}

-- The workload's Pod, the egress gateway's deployment, or neither
abbrev pub IsPod : Identity → Type 0
IsPod i = (i.kind ≡ text "Pod") × (i.name ≡ text "workload")

abbrev pub IsDeployment : Identity → Type 0
IsDeployment i = (i.kind ≡ text "Deployment") × (i.name ≡ text "egress")

abbrev pub IsOther : Identity → Type 0
IsOther i =
    ((i.kind ≢ text "Pod") ⊎ (i.name ≢ text "workload"))
    × ((i.kind ≢ text "Deployment") ⊎ (i.name ≢ text "egress"))

pub is_pod-IsPod : (i : Identity) → is_pod i ≡ true → IsPod i
unfolding is_pod text_eq
is_pod-IsPod i h = (ground arith, ground arith)

pub is_deployment-IsDeployment : (i : Identity) → is_deployment i ≡ true → IsDeployment i
unfolding is_deployment text_eq
is_deployment-IsDeployment i h = (ground arith, ground arith)

pub is_other : (i : Identity) → is_pod i ≡ false → is_deployment i ≡ false → IsOther i
unfolding is_pod is_deployment text_eq
is_other i h k = (ground arith, ground arith)
