-- ===== src/Tests/Enrollment.antt =====
-- enrollment at work: the Pod of a business with one container, as a workload.
use egress_gateway.Prelude.{
  ◌≡◌, ◌≢◌, ◌↔◌, ◌⊎◌, refl, List, [], ◌∷◌, ◌++◌, none, some, text, Text-discrete, has, add, find,
  keys,
}
use egress_gateway.Prelude.Options.{first_of}
use egress_gateway.Prelude.Results.{ok}
use egress_gateway.GoLib.Strings.{has_prefix, contains}
use egress_gateway.GoLib.FilePath.{text_eq}
use egress_gateway.Config.Names.{workload}
use egress_gateway.Enrollment.Pod.{EnvVar, Container, Pod}
use egress_gateway.Enrollment.Managed.{
  managed_spec, managed_volumes, prepare_volumes, management_init, istio_proxy, base_trust,
  trust_init_container,
}
use egress_gateway.Enrollment.Protect.{
  owned_container, owns_key, asks_automount, is_reserved_pod, reserved_volumes, owned_names,
  check_volumes, check_container, check_containers, protect_business,
}
use egress_gateway.Enrollment.Protect.Laws.{IsBusiness, protect_business-none_iff}
use egress_gateway.Enrollment.Proxy.{
  Options, is_prohibited, add_env, valued, proxy_env, full_env, policy_volumes, origin_volumes,
}
use egress_gateway.Enrollment.Proxy.Laws.{IsComplete, full_env-IsComplete}
use egress_gateway.Enrollment.Compose.{
  Networking, Trusted, bundle_mount, annotate, with_image, proxy_container,
}
use egress_gateway.Enrollment.Compose.Laws.{annotate-role}
use egress_gateway.Enrollment.Compose.Annotations.{inject, outbound}

abbrev pub networking : Networking Unit Unit
networking = record {
  expand_policy = λ network. some tt;
  expand_pod = λ pod network trusted. some pod;
}

abbrev pub options : Options Unit
options = record {
  role = workload;
  image = text "gateway:1";
  image_pull_policy = [];
  trust_image = text "app:1";
  trust_path = text "/etc/ssl/ca.pem";
  trust_mounts = (text "app", text "/etc/ssl/ca.pem") ∷ [];
  discovery_address = text "istiod:15012";
  proxy_config = text "{}";
  proxy_env = valued (text "OTEL_SERVICE_NAME") (text "app") ∷ [];
  origin_trust_config_map = [];
  policy_config_map = text "policy";
  network = tt;
}

abbrev app : Container
app = record prepare_volumes {
  name = text "app";
  command = [];
  volume_mounts = [];
  security_context = none;
}

abbrev pub business : Pod
business = record {
  name = text "business";
  namespace = text "default";
  labels = (text "app", text "business") ∷ [];
  annotations = [];
  automount_token = none;
  security_context = none;
  init_containers = [];
  containers = app ∷ [];
  volumes = [];
}

protect_business-none_iff_example :
    (protect_business managed_spec business ≡ none) ↔ IsBusiness managed_spec business
protect_business-none_iff_example = protect_business-none_iff managed_spec business

-- A business that brings its own proxy
protect_business-proxy :
    protect_business managed_spec
      (record business { containers = record app { name = text "istio-proxy" } ∷ [] })
    ≡ some owned_container
unfolding protect_business check_containers owned_names check_container has owns_key keys contains
    asks_automount check_volumes is_reserved_pod first_of reserved_volumes Text-discrete
protect_business-proxy = refl

abbrev composed_env : List EnvVar
composed_env = proxy_env options ++ options.proxy_env

full : full_env options ≡ ok composed_env
unfolding full_env add_env is_prohibited proxy_env has add has_prefix text_eq Text-discrete
full = refl

full_env-IsComplete_example : IsComplete options composed_env
full_env-IsComplete_example = full_env-IsComplete options full

annotate-role_example :
    ((workload ≢ workload)
      × (find Text-discrete inject (annotate options []) ≡ some (text "false")))
    ⊎ ((workload ≡ workload)
        × (find Text-discrete inject (annotate options []) ≡ none)
        × (find Text-discrete outbound (annotate options []) ≡ some (text "*")))
annotate-role_example = annotate-role options []

-- What compose_pod returns for it
abbrev mounted : List Container
mounted = record app { volume_mounts = bundle_mount (text "/etc/ssl/ca.pem") ∷ [] } ∷ []

abbrev trusted : Trusted
trusted = record {
  init_containers =
      with_image options prepare_volumes
      ∷ with_image options management_init
      ∷ proxy_container options composed_env (with_image options istio_proxy)
      ∷ record (with_image options base_trust) {
        image = text "app:1";
        command = text "/bin/cp" ∷ text "/etc/ssl/ca.pem" ∷ text "/bundle/base.pem" ∷ [];
      }
      ∷ with_image options trust_init_container
      ∷ [];
  containers = [];
  volumes = (managed_volumes ++ policy_volumes options) ++ origin_volumes options;
  network_init = text "management-init" ∷ [];
}
