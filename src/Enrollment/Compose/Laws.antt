-- ===== src/Enrollment/Compose/Laws.antt =====
-- What ComposePod accepts, and the Pod that it hands to the networking module.
use egress_gateway.Prelude.{
  ◌≡◌, ◌≢◌, refl, ◌∙◌, ◌⊎◌, inl, inr, true, false, List, [], ◌++◌, Option, none, some, Text, text,
  Text-discrete, find, find-insert, find-erase, insert, erase, arith, All, Bool-cases,
}
use egress_gateway.GoLib.FilePath.{text_eq, clean}
use egress_gateway.Config.Names.{workload, egress}
use egress_gateway.Config.Laws.{text_eq_iff, text_ne}
use egress_gateway.Enrollment.Pod.{Pod, Container}
use egress_gateway.Enrollment.Managed.{managed_spec}
use egress_gateway.Enrollment.Protect.Laws.{IsBusiness}
use egress_gateway.Enrollment.Proxy.{Options}
use egress_gateway.Enrollment.Compose.{Trusted, Networking, annotate, istio_status}
use egress_gateway.Enrollment.Compose.Mounts.{AreMounted, HasMount}
use egress_gateway.Enrollment.Compose.Startup.{IsTrusted}
use egress_gateway.GoLib.Strings.{has_prefix}
use egress_gateway.Enrollment.Compose.Annotations.{
  inject, outbound, inbound, status, AreAnnotations,
}

-- A clean absolute path that is not the root
abbrev pub IsCleanMount : Text → Type 0
IsCleanMount p = (has_prefix p (text "/") ≡ true) × (p ≢ text "/") × (clean p ≡ p)

module _ {Network : Type 0} (o : Options Network) where
  -- The Pod before the network is expanded: the business, its containers with the trust mounts, and
  -- what the gateway owns.
  pub record IsAssembled (given : Pod) (t : Trusted) (containers : List Container) (p : Pod)
      : Type 0 where
    pub name : p.name ≡ given.name
    pub namespace : p.namespace ≡ given.namespace
    pub labels : p.labels ≡ given.labels
    pub security_context : p.security_context ≡ given.security_context
    pub automount_token : p.automount_token ≡ some false
    pub annotations : AreAnnotations o given.annotations p.annotations
    pub init_containers : p.init_containers ≡ t.init_containers ++ given.init_containers
    pub containers_eq : p.containers ≡ containers ++ t.containers
    pub volumes : p.volumes ≡ given.volumes ++ t.volumes

  pub record IsOptions : Type 0 where
    pub role : (o.role ≡ workload) ⊎ (o.role ≡ egress)
    pub image : o.image ≢ []
    pub discovery : o.discovery_address ≢ []
    pub proxy_config : o.proxy_config ≢ []
    pub trust : (o.role ≢ workload) ⊎ ((o.trust_image ≢ []) × IsCleanMount o.trust_path)

  module _ {Policy : Type 0} (networking : Networking Network Policy) where
    -- The Pod, its policy and the parts of which they are made.
    pub record IsComposed (business : Option Pod) (pod : Pod) (policy : Policy) : Type 0 where
      pub given : Pod
      pub is_given : business ≡ some given
      pub options : IsOptions
      pub protected : IsBusiness managed_spec given
      pub trusted : Trusted
      pub managed : IsTrusted o trusted
      pub containers : List Container
      pub mounted : AreMounted given.containers containers
      pub trust_mounts : All (λ m. HasMount m.0 m.1 containers) o.trust_mounts
      pub expands_policy : networking.expand_policy o.network ≡ some policy
      pub assembled : Pod
      pub is_assembled : IsAssembled given trusted containers assembled
      pub expanded : networking.expand_pod assembled o.network trusted ≡ some pod

-- What an annotation is, of one of the three forms: just set, just erased, or left by another.
set_here :
    (k v : Text) (m : List (Text × Text))
    → find Text-discrete k (insert Text-discrete k v m) ≡ some v
set_here k v m = ground (arith, find-insert Text-discrete k k v m)

erased_here :
    (k : Text) (m : List (Text × Text)) → find Text-discrete k (erase Text-discrete k m) ≡ none
erased_here k m = ground (arith, find-erase Text-discrete k k m)

left :
    (j k v : Text) (m : List (Text × Text))
    → text_eq k j ≡ false
    → find Text-discrete j (insert Text-discrete k v m) ≡ find Text-discrete j m
left j k v m h = ground (arith, find-insert Text-discrete j k v m, text_ne k j h)

not_injected :
    (u v w : Text) (m : List (Text × Text))
    → find Text-discrete inject (
        insert Text-discrete outbound u (
          insert Text-discrete inbound v
            (insert Text-discrete status w (erase Text-discrete inject m))))
      ≡ none
unfolding text_eq Text-discrete
not_injected u v w m =
    let erased = erase Text-discrete inject m in
    let known = insert Text-discrete status w erased in
    left inject outbound u (insert Text-discrete inbound v known) refl
    ∙ left inject inbound v known refl
    ∙ left inject status w erased refl
    ∙ erased_here inject m

-- Whatever the annotations of the business, a workload's proxy takes the traffic of all outbound
-- addresses and no annotation asks for a further one, and the Pod of an egress gateway refuses one.
pub annotate-role :
    {Network : Type 0} (o : Options Network) (a : List (Text × Text))
    → ((o.role ≢ workload) × (find Text-discrete inject (annotate o a) ≡ some (text "false")))
      ⊎ ((o.role ≡ workload)
          × (find Text-discrete inject (annotate o a) ≡ none)
          × (find Text-discrete outbound (annotate o a) ≡ some (text "*")))
unfolding annotate
annotate-role o a = elim (Bool-cases (text_eq o.role workload)) [
  | inl e ↦
      let off = insert Text-discrete inject (text "false") a in
      let known =
        insert Text-discrete inbound []
          (insert Text-discrete status istio_status (erase Text-discrete inject off)) in
      inr (
        (text_eq_iff o.role workload).0 e,
        (rw e (not_injected (text "*") [] istio_status off)),
        (rw e (set_here outbound (text "*") known)),
      )
  | inr e ↦ inl (text_ne o.role workload e, (rw e (set_here inject (text "false") a)))
]
