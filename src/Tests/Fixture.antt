-- ===== src/Tests/Fixture.antt =====
-- The fixture with a service, the workload's Pod and the egress gateway's deployment, by number.
use egress_gateway.Prelude.{
  ℕ, zero, suc, ◌≡◌, refl, List, [], ◌∷◌, Option, some, Text, text, Text-discrete, find, has, add,
  keys,
}
use egress_gateway.Prelude.Options.{first_of}
use egress_gateway.Prelude.Results.{Result, ok, err, ◌>>=◌, ◌>>◌, refuse_if, or_fail}
use egress_gateway.GoLib.Strings.{is_set, has_prefix, contains}
use egress_gateway.GoLib.FilePath.{text_eq, clean}
use egress_gateway.Config.Names.{workload, egress}
use egress_gateway.Enrollment.Managed.{managed_spec}
use egress_gateway.Enrollment.Protect.{
  owns_key, asks_automount, is_reserved_pod, is_reserved_container, reserved_volumes, owned_names,
  check_volumes, check_mounts, check_devices, check_container, check_containers, protect_business,
}
use egress_gateway.Enrollment.Proxy.{Options, is_prohibited, add_env, proxy_env, full_env}
use egress_gateway.Enrollment.Compose.{
  clean_path, or_protect, or_env, set_second, mounts_at, add_trust_mount, check_inputs, with_image,
  with_trust, proxy_container, place_proxy, add_proxy, add_managed, add_all_managed,
  add_trust_mounts, compose_pod,
}
use egress_gateway.Enrollment.Fixture.{
  Identity, Readers, Resource, FixtureError, or_composed, is_pod, is_deployment, compose_business,
  compose_item, compose_items, compose,
}
use egress_gateway.Enrollment.Fixture.Laws.{IsFixture, compose-IsFixture}
use egress_gateway.Tests.Enrollment.{networking, options, business}

abbrev identity_of : ℕ → Option Identity
identity_of zero =
    some (record { kind = text "Service"; name = text "workload"; namespace = text "default" })
identity_of (suc zero) =
    some (record { kind = text "Pod"; name = text "workload"; namespace = text "default" })
identity_of (suc (suc n)) =
    some (record { kind = text "Deployment"; name = text "egress"; namespace = text "default" })

abbrev readers : Readers ℕ
readers = record {
  identity = identity_of;
  pod = λ n. some (record business { name = workload });
  template = λ n. some business;
}

abbrev egress_options : Options Unit
egress_options = record options { role = egress; trust_mounts = [] }

abbrev all_options : List (Text × Options Unit)
all_options = (workload, options) ∷ (egress, egress_options) ∷ []

abbrev artifacts : Text → Option Text
artifacts role = some role

abbrev config_map_name : Text → Text
config_map_name role = role

-- The list of a result
abbrev list_of : Result FixtureError (List (Resource ℕ Unit Text)) → List (Resource ℕ Unit Text)
list_of (err e) = []
list_of (ok rs) = rs

abbrev fixture : Result FixtureError (List (Resource ℕ Unit Text))
fixture =
    compose readers networking managed_spec artifacts config_map_name all_options (0 ∷ 1 ∷ 2 ∷ [])

is_composed : fixture ≡ ok (list_of fixture)
unfolding compose compose_items compose_item compose_business or_composed is_pod is_deployment find
    compose_pod or_fail ◌>>=◌ ◌>>◌ refuse_if check_inputs or_protect protect_business
    check_containers check_container owned_names has owns_key keys contains asks_automount
    check_volumes is_reserved_pod is_reserved_container check_mounts check_devices first_of
    reserved_volumes Text-discrete add_all_managed add_managed with_trust with_image is_set text_eq
    add_proxy or_env full_env add_env is_prohibited has_prefix add proxy_env place_proxy
    proxy_container set_second add_trust_mounts add_trust_mount mounts_at clean_path clean
is_composed = refl

compose-IsFixture_example :
    IsFixture readers networking managed_spec artifacts config_map_name all_options
      (0 ∷ 1 ∷ 2 ∷ [])
      (list_of fixture)
compose-IsFixture_example =
    compose-IsFixture readers networking managed_spec artifacts config_map_name all_options
      (0 ∷ 1 ∷ 2 ∷ []) is_composed
