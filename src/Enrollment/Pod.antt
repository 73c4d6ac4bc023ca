-- ===== src/Enrollment/Pod.antt =====
-- The parts of k8s.io/api/core/v1 that the code reads or writes. An identifier of a user or a group
-- is its 64-bit word. A nil map has no entries. Other fields are carried along as they are.
use egress_gateway.Prelude.{ℕ, Bool, List, Option, none, Text}

-- A variable has a value, or takes that of a field of the Pod.
pub record EnvVar : Type 0 where
  pub name : Text
  pub value : Text
  pub field_path : Option Text

pub record VolumeMount : Type 0 where
  pub name : Text
  pub mount_path : Text
  pub sub_path : Text
  pub read_only : Bool

pub record SecurityContext : Type 0 where
  pub run_as_user : Option ℕ
  pub run_as_group : Option ℕ

pub record Container : Type 0 where
  pub name : Text
  pub image : Text
  pub image_pull_policy : Text
  pub command : List Text
  pub args : List Text
  pub env : List EnvVar
  pub volume_mounts : List VolumeMount
  -- the names of the devices
  pub volume_devices : List Text
  pub security_context : Option SecurityContext
  pub restart_policy : Option Text
  -- whether it has a startup probe
  pub startup_probe : Bool

-- The sources of a projected volume: for each, whether it is a service account's token.
pub record Volume : Type 0 where
  pub name : Text
  pub config_map : Option Text
  pub projected : Option (List Bool)

pub record PodSecurity : Type 0 where
  pub run_as_user : Option ℕ
  pub run_as_group : Option ℕ
  pub fs_group : Option ℕ
  pub supplemental_groups : List ℕ

pub record Pod : Type 0 where
  pub name : Text
  pub namespace : Text
  pub labels : List (Text × Text)
  pub annotations : List (Text × Text)
  pub automount_token : Option Bool
  pub security_context : Option PodSecurity
  pub init_containers : List Container
  pub containers : List Container
  pub volumes : List Volume

-- What managed.json holds, of a PodSpec.
pub record ManagedSpec : Type 0 where
  pub init_containers : List Container
  pub volumes : List Volume

abbrev pub container_name : Container → Text
container_name c = c.name

abbrev pub volume_name : Volume → Text
volume_name v = v.name

abbrev pub env_name : EnvVar → Text
env_name e = e.name

abbrev pub mount_name : VolumeMount → Text
mount_name m = m.name

-- A volume of a config map
abbrev pub config_volume : Text → Text → Volume
config_volume name config_map = record {
  name = name;
  config_map = Option.some config_map;
  projected = none;
}
