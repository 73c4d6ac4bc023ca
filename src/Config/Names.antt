-- ===== src/Config/Names.antt =====
-- The constants of config/config.go. A role or a mode is any text, as in the source.
use egress_gateway.Prelude.{Text, text}

abbrev pub workload : Text
workload = text "workload"

abbrev pub egress : Text
egress = text "egress"

abbrev pub standalone : Text
standalone = text "standalone"

abbrev pub istio : Text
istio = text "istio"

abbrev pub istio_mtls : Text
istio_mtls = text "istio-mtls"

abbrev pub env_identity_provider : Text
env_identity_provider = text "GATEWAY_IDENTITY_PROVIDER"

abbrev pub env_role : Text
env_role = text "GATEWAY_ROLE"

abbrev pub env_proxy_mode : Text
env_proxy_mode = text "GATEWAY_PROXY_MODE"

abbrev pub env_opa_config : Text
env_opa_config = text "OPA_CONFIG"

abbrev pub env_envoy_config : Text
env_envoy_config = text "ENVOY_CONFIG"

abbrev pub env_state_dir : Text
env_state_dir = text "GATEWAY_STATE_DIR"

abbrev pub env_public_dir : Text
env_public_dir = text "GATEWAY_PUBLIC_DIR"

abbrev pub env_runtime_dir : Text
env_runtime_dir = text "GATEWAY_RUNTIME_DIR"

abbrev pub ca_certificate_file : Text
ca_certificate_file = text "inspection-ca.pem"

abbrev pub ca_state_file : Text
ca_state_file = text "inspection-ca.json"

abbrev pub bundle_file : Text
bundle_file = text "ca-bundle.pem"

abbrev pub inspection_sds_file : Text
inspection_sds_file = text "inspection-sds.sock"
