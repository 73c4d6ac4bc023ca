-- ===== src/Enrollment/Protect/Identity.antt =====
-- Single tests of protectBusiness: keys, identities and projected tokens.
use egress_gateway.Prelude.{
  ℕ, ◌≡◌, ◌≢◌, ◌↔◌, refl, Bool, false, List, [], ◌∷◌, Option, none, some, ◌==◌, Text, text,
  Text-discrete, has, arith, All, neither_iff,
}
use egress_gateway.GoLib.Strings.{contains}
use egress_gateway.Enrollment.Pod.{VolumeMount, SecurityContext, Container, Volume, PodSecurity}
use egress_gateway.Enrollment.Protect.{
  owns_key, reserved_id, has_id, projects_token, is_reserved_pod, is_reserved_container,
}

-- An identity that is not the gateway's
abbrev pub IsOrdinary : Option ℕ → Type 0
IsOrdinary none = Unit
IsOrdinary (some id) = id ≢ 1337

abbrev pub IsOrdinaryPod : Option PodSecurity → Type 0
IsOrdinaryPod none = Unit
IsOrdinaryPod (some ps) =
    IsOrdinary ps.run_as_user
    × IsOrdinary ps.run_as_group
    × IsOrdinary ps.fs_group
    × All (λ id. id ≢ 1337) ps.supplemental_groups

abbrev pub IsOrdinaryContainer : Option SecurityContext → Type 0
IsOrdinaryContainer none = Unit
IsOrdinaryContainer (some sc) = IsOrdinary sc.run_as_user × IsOrdinary sc.run_as_group

abbrev pub HasNoToken : Option (List Bool) → Type 0
HasNoToken none = Unit
HasNoToken (some sources) = All (λ token. token ≡ false) sources

-- A name that is not among those of the gateway
abbrev pub IsFree : List Text → Text → Type 0
IsFree names name = has Text-discrete name names ≡ false

abbrev pub IsOwnKey : Text → Type 0
IsOwnKey key = contains key (text "istio.io/") ≡ false

abbrev pub IsVolumeFree : List Text → Volume → Type 0
IsVolumeFree reserved v = IsFree reserved v.name × HasNoToken v.projected

abbrev pub IsContainerFree : List Text → List Text → Container → Type 0
IsContainerFree names reserved c =
    IsFree names c.name
    × IsOrdinaryContainer c.security_context
    × All (λ m. IsFree reserved (VolumeMount.name m)) c.volume_mounts
    × All (IsFree reserved) c.volume_devices

pub owns_key_iff : (ks : List Text) → (owns_key ks ≡ false) ↔ All IsOwnKey ks
unfolding owns_key
owns_key_iff [] = (λ h. tt, λ h. refl)
owns_key_iff (k ∷ ks) = (
  λ h. let (a, b) = (neither_iff _ _).0 h in (a, (owns_key_iff ks).0 b),
  λ h. (neither_iff _ _).1 (h.0, (owns_key_iff ks).1 h.1),
)

pub reserved_id_iff : (o : Option ℕ) → (reserved_id o ≡ false) ↔ IsOrdinary o
unfolding reserved_id
reserved_id_iff none = (λ h. tt, λ h. refl)
reserved_id_iff (some id) = ground arith

pub has_id_iff : (id : ℕ) (ids : List ℕ) → (has_id id ids ≡ false) ↔ All (λ i. i ≢ id) ids
unfolding has_id
has_id_iff id [] = (λ h. tt, λ h. refl)
has_id_iff id (i ∷ ids) = (
  λ h.
      let (a, b) = (neither_iff (i == id) (has_id id ids)).0 h in
      (ground arith, (has_id_iff id ids).0 b),
  λ h. (neither_iff _ _).1 (ground arith, (has_id_iff id ids).1 h.1),
)

pub is_reserved_pod_iff : (o : Option PodSecurity) → (is_reserved_pod o ≡ false) ↔ IsOrdinaryPod o
unfolding is_reserved_pod
is_reserved_pod_iff none = (λ h. tt, λ h. refl)
is_reserved_pod_iff (some ps) = (
  λ h.
      (let (h₁, groups) = (neither_iff _ _).0 h in
        let (h₂, fs) = (neither_iff _ _).0 h₁ in
        let (user, group) = (neither_iff _ _).0 h₂ in
        (
          (reserved_id_iff _).0 user,
          (reserved_id_iff _).0 group,
          (reserved_id_iff _).0 fs,
          (has_id_iff _ _).0 groups,
        )),
  λ k. (neither_iff _ _).1 (
    (neither_iff _ _).1 (
      (neither_iff _ _).1 ((reserved_id_iff _).1 k.0, (reserved_id_iff _).1 k.1),
      (reserved_id_iff _).1 k.2,
    ),
    (has_id_iff _ _).1 k.3,
  ),
)

pub is_reserved_container_iff :
    (o : Option SecurityContext) → (is_reserved_container o ≡ false) ↔ IsOrdinaryContainer o
unfolding is_reserved_container
is_reserved_container_iff none = (λ h. tt, λ h. refl)
is_reserved_container_iff (some sc) = (
  λ h.
      let (user, group) = (neither_iff _ _).0 h in
      ((reserved_id_iff _).0 user, (reserved_id_iff _).0 group),
  λ k. (neither_iff _ _).1 ((reserved_id_iff _).1 k.0, (reserved_id_iff _).1 k.1),
)

pub sources_iff :
    (sources : List Bool)
    → (projects_token (some sources) ≡ false) ↔ All (λ token. token ≡ false) sources
unfolding projects_token
sources_iff [] = (λ h. tt, λ h. refl)
sources_iff (t ∷ ts) = (
  λ h. let (a, b) = (neither_iff _ _).0 h in (a, (sources_iff ts).0 b),
  λ h. (neither_iff _ _).1 (h.0, (sources_iff ts).1 h.1),
)

pub projects_token_iff : (o : Option (List Bool)) → (projects_token o ≡ false) ↔ HasNoToken o
projects_token_iff none = (λ h. tt, λ h. unfold projects_token in refl)
projects_token_iff (some sources) = sources_iff sources
