-- ===== src/Enrollment/Protect/Laws.antt =====
-- What protectBusiness lets through.
use egress_gateway.Prelude.{
  ◌≡◌, ◌↔◌, refl, false, List, [], ◌∷◌, ◌++◌, none, Text, Text-discrete, keys, All, guard_iff,
}
use egress_gateway.Prelude.Options.{first_of-none_iff}
use egress_gateway.Enrollment.Pod.{VolumeMount, Container, Volume, Pod, ManagedSpec}
use egress_gateway.Enrollment.Protect.{
  asks_automount, reserved_volumes, owned_names, check_volume, check_volumes, check_mounts,
  check_devices, check_container, check_containers, protect_business,
}
use egress_gateway.Enrollment.Protect.Identity.{
  IsOrdinaryPod, IsFree, IsOwnKey, IsVolumeFree, IsContainerFree, owns_key_iff, is_reserved_pod_iff,
  is_reserved_container_iff, projects_token_iff,
}

-- The business stays out of what the gateway owns.
pub record IsBusiness (managed : ManagedSpec) (p : Pod) : Type 0 where
  pub labels : All IsOwnKey (keys Text-discrete p.labels)
  pub annotations : All IsOwnKey (keys Text-discrete p.annotations)
  pub automount : asks_automount p.automount_token ≡ false
  pub volumes : All (IsVolumeFree (reserved_volumes managed)) p.volumes
  pub identity : IsOrdinaryPod p.security_context
  pub containers :
      All
        (IsContainerFree (owned_names managed) (reserved_volumes managed))
        (p.init_containers ++ p.containers)

module _ (reserved : List Text) where
  check_volume_iff : (v : Volume) → (check_volume reserved v ≡ none) ↔ IsVolumeFree reserved v
  unfolding check_volume
  check_volume_iff v = (
    λ h.
        (let (free, h₁) = (guard_iff _ _ _).0 h in
          let (token, _) = (guard_iff _ _ _).0 h₁ in
          (free, (projects_token_iff v.projected).0 token)),
    λ k.
        (guard_iff _ _ _).1
          (k.0, (guard_iff _ _ _).1 ((projects_token_iff v.projected).1 k.1, refl)),
  )

  check_volumes_iff :
      (vs : List Volume) → (check_volumes reserved vs ≡ none) ↔ All (IsVolumeFree reserved) vs
  unfolding check_volumes
  check_volumes_iff [] = (λ h. tt, λ h. refl)
  check_volumes_iff (v ∷ vs) = (
    λ h.
        let (a, b) = (first_of-none_iff _ _).0 h in
        ((check_volume_iff v).0 a, (check_volumes_iff vs).0 b),
    λ h. (first_of-none_iff _ _).1 ((check_volume_iff v).1 h.0, (check_volumes_iff vs).1 h.1),
  )

  check_mounts_iff :
      (ms : List VolumeMount)
      → (check_mounts reserved ms ≡ none) ↔ All (λ m. IsFree reserved (VolumeMount.name m)) ms
  unfolding check_mounts
  check_mounts_iff [] = (λ h. tt, λ h. refl)
  check_mounts_iff (m ∷ ms) = (
    λ h. let (a, b) = (guard_iff _ _ _).0 h in (a, (check_mounts_iff ms).0 b),
    λ h. (guard_iff _ _ _).1 (h.0, (check_mounts_iff ms).1 h.1),
  )

  check_devices_iff :
      (ds : List Text) → (check_devices reserved ds ≡ none) ↔ All (IsFree reserved) ds
  unfolding check_devices
  check_devices_iff [] = (λ h. tt, λ h. refl)
  check_devices_iff (d ∷ ds) = (
    λ h. let (a, b) = (guard_iff _ _ _).0 h in (a, (check_devices_iff ds).0 b),
    λ h. (guard_iff _ _ _).1 (h.0, (check_devices_iff ds).1 h.1),
  )

  check_container_iff :
      (names : List Text) (c : Container)
      → (check_container names reserved c ≡ none) ↔ IsContainerFree names reserved c
  unfolding check_container
  check_container_iff names c = (
    λ h.
        (let (free, h₁) = (guard_iff _ _ _).0 h in
          let (identity, h₂) = (guard_iff _ _ _).0 h₁ in
          let (mounts, devices) = (first_of-none_iff _ _).0 h₂ in
          (
            free,
            (is_reserved_container_iff _).0 identity,
            (check_mounts_iff _).0 mounts,
            (check_devices_iff _).0 devices,
          )),
    λ k. (guard_iff _ _ _).1 (
      k.0,
      (guard_iff _ _ _).1 (
        (is_reserved_container_iff _).1 k.1,
        (first_of-none_iff _ _).1 ((check_mounts_iff _).1 k.2, (check_devices_iff _).1 k.3),
      ),
    ),
  )

  check_containers_iff :
      (names : List Text) (cs : List Container)
      → (check_containers names reserved cs ≡ none) ↔ All (IsContainerFree names reserved) cs
  unfolding check_containers
  check_containers_iff names [] = (λ h. tt, λ h. refl)
  check_containers_iff names (c ∷ cs) = (
    λ h.
        let (a, b) = (first_of-none_iff _ _).0 h in
        ((check_container_iff names c).0 a, (check_containers_iff names cs).0 b),
    λ h.
        (first_of-none_iff _ _).1
          ((check_container_iff names c).1 h.0, (check_containers_iff names cs).1 h.1),
  )

module _ (managed : ManagedSpec) (p : Pod) where
  protect_business-IsBusiness : protect_business managed p ≡ none → IsBusiness managed p
  unfolding protect_business
  protect_business-IsBusiness h =
      let (labels, h₁) = (guard_iff _ _ _).0 h in
      let (annotations, h₂) = (guard_iff _ _ _).0 h₁ in
      let (automount, h₃) = (guard_iff _ _ _).0 h₂ in
      let (volumes, h₄) = (first_of-none_iff _ _).0 h₃ in
      let (identity, containers) = (guard_iff _ _ _).0 h₄ in
      record {
        labels = (owns_key_iff _).0 labels;
        annotations = (owns_key_iff _).0 annotations;
        automount = automount;
        volumes = (check_volumes_iff (reserved_volumes managed) _).0 volumes;
        identity = (is_reserved_pod_iff _).0 identity;
        containers =
            (check_containers_iff (reserved_volumes managed) (owned_names managed) _).0 containers;
      }

  IsBusiness-protect_business : IsBusiness managed p → protect_business managed p ≡ none
  unfolding protect_business
  IsBusiness-protect_business b = (guard_iff _ _ _).1 (
    (owns_key_iff _).1 b.labels,
    (guard_iff _ _ _).1 (
      (owns_key_iff _).1 b.annotations,
      (guard_iff _ _ _).1 (
        b.automount,
        (first_of-none_iff _ _).1 (
          (check_volumes_iff (reserved_volumes managed) _).1 b.volumes,
          (guard_iff _ _ _).1 (
            (is_reserved_pod_iff _).1 b.identity,
            (check_containers_iff (reserved_volumes managed) (owned_names managed) _).1
                b.containers,
          ),
        ),
      ),
    ),
  )

  -- protectBusiness lets a Pod through exactly if none of its label and annotation keys has
  -- `istio.io/` in it, it does not ask for its service account's token, no volume has a name of the
  -- gateway or projects a token, no identity of the Pod or of a container is 1337, and no container
  -- has a name of the gateway or mounts one of its volumes, as a file system or as a device.
  pub protect_business-none_iff : (protect_business managed p ≡ none) ↔ IsBusiness managed p
  protect_business-none_iff = (protect_business-IsBusiness, IsBusiness-protect_business)
