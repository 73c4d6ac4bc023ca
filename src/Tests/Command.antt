-- ===== src/Tests/Command.antt =====
-- Command lines of gateway-daemon.
use egress_gateway.Prelude.{◌≡◌, ◌↔◌, refl, List, [], ◌∷◌, Option, some, Text, text, Text-discrete}
use egress_gateway.Prelude.Results.{ok, err, ◌>>=◌, ◌>>◌, refuse_if, or_fail}
use egress_gateway.GoLib.Strings.{is_set, has_prefix}
use egress_gateway.GoLib.FilePath.{text_eq}
use egress_gateway.Config.Load.{defaults}
use egress_gateway.Config.Validate.{bad_role}
use egress_gateway.Inspection.Crypto.{Bytes}
use egress_gateway.Inspection.Ca.Bundle.{
  from_begin, is_certificate, read_block, read_from, read_blocks, read_input, bundle,
}
use egress_gateway.Daemon.Envoy.{Generated}
use egress_gateway.Command.{
  TrustFlags, writes, runs, checks_ready, or_bundle, or_config, asks_ready, run_daemon, trust_init,
  run,
}
use egress_gateway.Command.Laws.{policy_args, IsTrustFile, run-runs_iff, run-IsTrustFile}
use egress_gateway.Tests.Bundle.{pem, base_store}

abbrev parse : List Text → Option TrustFlags
parse args =
    some (record { base = text "/base"; ca = text "/ca"; output = text "/out"; left_over = 0 })

abbrev read_file : Text → Option Bytes
read_file path = some base_store

abbrev two_policies : List Text
two_policies = text "--policy" ∷ text "/a.rego" ∷ text "--policy" ∷ text "/b.rego" ∷ []

run-runs_iff_example :
    (run pem 100 parse read_file (ok defaults) two_policies
      ≡ ok (runs defaults (text "/a.rego" ∷ text "/b.rego" ∷ [])))
    ↔ (two_policies ≡ policy_args (text "/a.rego" ∷ text "/b.rego" ∷ []))
run-runs_iff_example =
    run-runs_iff pem 100 parse read_file defaults two_policies
      (text "/a.rego" ∷ text "/b.rego" ∷ [])

asks_ready_run :
    run pem 100 parse read_file (ok defaults) (text "ready" ∷ []) ≡ ok (checks_ready defaults)
unfolding run run_daemon or_config asks_ready text_eq Text-discrete ◌>>=◌
asks_ready_run = refl

abbrev trust_file : Generated
trust_file = record { path = text "/out"; content = 7 ∷ 7 ∷ []; mode = 0o644 }

written_trust :
    run pem 100 parse read_file (err bad_role) (text "trust-init" ∷ text "--base" ∷ [])
    ≡ ok (writes trust_file)
unfolding run trust_init or_bundle is_set text_eq Text-discrete ◌>>=◌ ◌>>◌ refuse_if or_fail bundle
    read_input read_blocks read_from read_block from_begin has_prefix is_certificate
written_trust = refl

run-IsTrustFile_example :
    (w : Generated) × (writes trust_file ≡ writes w)
    × IsTrustFile pem 100 parse read_file (text "--base" ∷ []) w
run-IsTrustFile_example =
    run-IsTrustFile pem 100 parse read_file (err bad_role) (text "--base" ∷ []) written_trust
