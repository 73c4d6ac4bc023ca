-- ===== src/Enrollment/Managed.antt =====
-- enrollment/managed.json: the containers and volumes that the gateway owns, in the fields of the model.
use egress_gateway.Prelude.{Bool, true, false, List, [], ◌∷◌, none, some, Text, text}
use egress_gateway.Enrollment.Pod.{VolumeMount, Container, Volume, ManagedSpec, config_volume}

abbrev mount : Text → Text → Bool → VolumeMount
mount name path read_only = record {
  name = name;
  mount_path = path;
  sub_path = [];
  read_only = read_only;
}

abbrev plain : Text → Volume
plain name = record { name = name; config_map = none; projected = none }

-- A container with the settings that all of them share
abbrev base : Container
base = record {
  name = [];
  image = [];
  image_pull_policy = [];
  command = [];
  args = [];
  env = [];
  volume_mounts = [];
  volume_devices = [];
  security_context = none;
  restart_policy = none;
  startup_probe = false;
}

abbrev pub prepare_volumes : Container
prepare_volumes = record base {
  name = text "prepare-volumes";
  security_context = some (record { run_as_user = some 0; run_as_group = some 0 });
  command =
      text "/bin/bash"
      ∷ text "-ec"
      ∷ text
          "chown 1337:1337 /state /runtime /public /bundle /istio /workload-socket /credential-socket /workload-certs; chmod 0700 /state /runtime /workload-socket /credential-socket /workload-certs; chmod 0755 /public /bundle /istio"
      ∷ [];
  volume_mounts =
      mount (text "state") (text "/state") false
      ∷ mount (text "runtime") (text "/runtime") false
      ∷ mount (text "public") (text "/public") false
      ∷ mount (text "bundle") (text "/bundle") false
      ∷ mount (text "istio-data") (text "/istio") false
      ∷ mount (text "workload-socket") (text "/workload-socket") false
      ∷ mount (text "credential-socket") (text "/credential-socket") false
      ∷ mount (text "workload-certs") (text "/workload-certs") false
      ∷ [];
}

abbrev pub management_init : Container
management_init = record base {
  name = text "management-init";
  security_context = some (record { run_as_user = some 0; run_as_group = some 0 });
  command = text "/usr/local/bin/gateway-management-init" ∷ [];
}

abbrev pub istio_proxy : Container
istio_proxy = record base {
  name = text "istio-proxy";
  security_context = some (record { run_as_user = some 1337; run_as_group = some 1337 });
  volume_mounts =
      mount (text "state") (text "/var/lib/gateway/private") false
      ∷ mount (text "runtime") (text "/run/gateway/private") false
      ∷ mount (text "public") (text "/run/gateway/trust") false
      ∷ mount (text "istio-data") (text "/etc/istio/proxy") false
      ∷ mount (text "workload-socket") (text "/var/run/secrets/workload-spiffe-uds") false
      ∷ mount (text "credential-socket") (text "/var/run/secrets/credential-uds") false
      ∷ mount (text "workload-certs") (text "/var/run/secrets/workload-spiffe-credentials") false
      ∷ mount (text "istio-token") (text "/var/run/secrets/tokens") true
      ∷ mount (text "istio-ca") (text "/var/run/secrets/istio") true
      ∷ [];
  restart_policy = some (text "Always");
  startup_probe = true;
}

abbrev pub base_trust : Container
base_trust = record base {
  name = text "base-trust";
  security_context = some (record { run_as_user = some 1337; run_as_group = some 1337 });
  command = text "/bin/cp" ∷ text "/cacert.pem" ∷ text "/bundle/base.pem" ∷ [];
  volume_mounts = mount (text "bundle") (text "/bundle") false ∷ [];
}

abbrev pub trust_init_container : Container
trust_init_container = record base {
  name = text "trust-init";
  security_context = some (record { run_as_user = some 1337; run_as_group = some 1337 });
  command =
      text "/usr/local/bin/gateway-daemon"
      ∷ text "trust-init"
      ∷ text "--base"
      ∷ text "/bundle/base.pem"
      ∷ text "--ca"
      ∷ text "/public/inspection-ca.pem"
      ∷ text "--output"
      ∷ text "/bundle/ca-bundle.pem"
      ∷ [];
  volume_mounts =
      mount (text "bundle") (text "/bundle") false
      ∷ mount (text "public") (text "/public") true
      ∷ [];
}

abbrev pub managed_volumes : List Volume
managed_volumes =
    plain (text "state")
    ∷ plain (text "runtime")
    ∷ plain (text "public")
    ∷ plain (text "bundle")
    ∷ plain (text "istio-data")
    ∷ plain (text "workload-socket")
    ∷ plain (text "credential-socket")
    ∷ plain (text "workload-certs")
    ∷ config_volume (text "istio-ca") (text "istio-ca-root-cert")
    ∷ record { name = text "istio-token"; config_map = none; projected = some (true ∷ []) }
    ∷ []

abbrev pub managed_spec : ManagedSpec
managed_spec = record {
  init_containers =
      prepare_volumes ∷ management_init ∷ istio_proxy ∷ base_trust ∷ trust_init_container ∷ [];
  volumes = managed_volumes;
}
