-- ===== src/Enrollment/Protect.antt =====
-- protectBusiness: what a business Pod may not have.
pub mod Identity
pub mod Laws
use egress_gateway.Prelude.{
  ℕ, Bool, true, false, ◌&&◌, ◌||◌, List, [], ◌∷◌, ◌++◌, map, Option, none, some, ◌==◌,
  if◌then◌else◌, Text, text, Text-discrete, has, keys,
}
use egress_gateway.Prelude.Options.{first_of}
use egress_gateway.GoLib.Strings.{contains}
use egress_gateway.Enrollment.Pod.{
  VolumeMount, SecurityContext, Container, Volume, PodSecurity, Pod, ManagedSpec, container_name,
  volume_name,
}

pub data ProtectError : Type 0 where
  owned_label owned_annotation automount owned_volume token_projection pod_identity : ProtectError
  owned_container container_identity owned_mount owned_device : ProtectError

-- `istio.io/` in a key of a map
unfoldable pub owns_key : List Text → Bool
unfolding contains
owns_key [] = false
owns_key (k ∷ ks) = contains k (text "istio.io/") || owns_key ks

unfoldable pub asks_automount : Option Bool → Bool
asks_automount none = false
asks_automount (some b) = b

unfoldable pub reserved_id : Option ℕ → Bool
reserved_id none = false
reserved_id (some id) = id == 1337

unfoldable pub has_id : ℕ → List ℕ → Bool
has_id id [] = false
has_id id (i ∷ ids) = i == id || has_id id ids

unfoldable pub projects_token : Option (List Bool) → Bool
projects_token none = false
projects_token (some []) = false
projects_token (some (token ∷ sources)) = token || projects_token (some sources)

unfoldable pub is_reserved_pod : Option PodSecurity → Bool
unfolding reserved_id has_id
is_reserved_pod none = false
is_reserved_pod (some ps) =
    reserved_id ps.run_as_user
    || reserved_id ps.run_as_group
    || reserved_id ps.fs_group
    || has_id 1337 ps.supplemental_groups

unfoldable pub is_reserved_container : Option SecurityContext → Bool
unfolding reserved_id
is_reserved_container none = false
is_reserved_container (some sc) = reserved_id sc.run_as_user || reserved_id sc.run_as_group

-- The sets `reserved` and `names`.
unfoldable pub reserved_volumes : ManagedSpec → List Text
reserved_volumes managed =
    text "origin-trust" ∷ text "gateway-policy" ∷ map volume_name managed.volumes

unfoldable pub owned_names : ManagedSpec → List Text
owned_names managed = map container_name managed.init_containers

unfoldable pub check_volume : List Text → Volume → Option ProtectError
unfolding has projects_token
check_volume reserved v =
    if has Text-discrete v.name reserved
    then some owned_volume
    else if projects_token v.projected
    then some token_projection
    else none

unfoldable pub check_volumes : List Text → List Volume → Option ProtectError
unfolding first_of check_volume
check_volumes reserved [] = none
check_volumes reserved (v ∷ vs) = first_of (check_volume reserved v) (check_volumes reserved vs)

unfoldable pub check_mounts : List Text → List VolumeMount → Option ProtectError
unfolding has
check_mounts reserved [] = none
check_mounts reserved (m ∷ ms) =
    if has Text-discrete m.name reserved then some owned_mount else check_mounts reserved ms

unfoldable pub check_devices : List Text → List Text → Option ProtectError
unfolding has
check_devices reserved [] = none
check_devices reserved (d ∷ ds) =
    if has Text-discrete d reserved then some owned_device else check_devices reserved ds

unfoldable pub check_container : List Text → List Text → Container → Option ProtectError
unfolding has is_reserved_container first_of check_mounts check_devices
check_container names reserved c =
    if has Text-discrete c.name names
    then some owned_container
    else if is_reserved_container c.security_context
    then some container_identity
    else first_of (check_mounts reserved c.volume_mounts) (check_devices reserved c.volume_devices)

unfoldable pub check_containers : List Text → List Text → List Container → Option ProtectError
unfolding first_of check_container
check_containers names reserved [] = none
check_containers names reserved (c ∷ cs) =
    first_of (check_container names reserved c) (check_containers names reserved cs)

-- protectBusiness: the error, if any. Of several bad keys of a map the code names any one.
unfoldable pub protect_business : ManagedSpec → Pod → Option ProtectError
protect_business managed p =
    if owns_key (keys Text-discrete p.labels)
    then some owned_label
    else if owns_key (keys Text-discrete p.annotations)
    then some owned_annotation
    else if asks_automount p.automount_token
    then some automount
    else first_of (check_volumes (reserved_volumes managed) p.volumes) (
        if is_reserved_pod p.security_context
        then some pod_identity
        else check_containers (owned_names managed) (reserved_volumes managed)
            (p.init_containers ++ p.containers))
