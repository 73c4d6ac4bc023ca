-- ===== src/Command.antt =====
-- cmd/gateway-daemon/main.go: the command line. The flag package, the files and the calls of the daemon
-- are parameters; what run and trustInit end in is a value.
pub mod Laws
use egress_gateway.Prelude.{
  ℕ, Bool, true, false, ◌||◌, not, ◌==◌, List, [], ◌∷◌, Option, none, some, if◌then◌else◌, Text,
  text,
}
use egress_gateway.Prelude.Results.{Result, ok, err, ◌>>=◌, ◌>>◌, refuse_if, or_fail}
use egress_gateway.GoLib.Strings.{is_set}
use egress_gateway.GoLib.FilePath.{text_eq}
use egress_gateway.Config.Validate.{Config, ConfigError}
use egress_gateway.Inspection.Crypto.{Bytes}
use egress_gateway.Inspection.Ca.Bundle.{Pem, BundleError, bundle}
use egress_gateway.Daemon.Envoy.{Generated}

pub data CommandError : Type 0 where
  bad_config : ConfigError → CommandError
  bad_arguments bad_flags missing_flags base_unread ca_unread : CommandError
  no_bundle : BundleError → CommandError

-- What flag.Parse leaves: the three flags and how many arguments follow them.
pub record TrustFlags : Type 0 where
  pub base : Text
  pub ca : Text
  pub output : Text
  pub left_over : ℕ

-- What run ends in: trustInit's file, the readiness check, or the daemon with its policies.
pub data CommandEnd : Type 0 where
  writes : Generated → CommandEnd
  checks_ready : Config → CommandEnd
  runs : Config → List Text → CommandEnd

unfoldable pub or_config : Result ConfigError Config → Result CommandError Config
or_config (err e) = err (bad_config e)
or_config (ok c) = ok c

unfoldable pub or_bundle : Result BundleError Bytes → Result CommandError Bytes
or_bundle (err e) = err (no_bundle e)
or_bundle (ok b) = ok b

-- The loop over the startup arguments, two at a time
unfoldable pub parse_policies : List Text → Result CommandError (List Text)
unfolding text_eq
parse_policies [] = ok []
parse_policies (a ∷ []) = err bad_arguments
parse_policies (a ∷ path ∷ args) =
    let rest = parse_policies args in
    if text_eq a (text "--policy") then (do paths ← rest; ok (path ∷ paths)) else err bad_arguments

-- `len(args) == 1 && args[0] == "ready"`
unfoldable pub asks_ready : List Text → Bool
unfolding text_eq
asks_ready [] = false
asks_ready (a ∷ []) = text_eq a (text "ready")
asks_ready (a ∷ b ∷ args) = false

-- run without trust-init: what config.Load returns, and the arguments.
unfoldable pub run_daemon : Result ConfigError Config → List Text → Result CommandError CommandEnd
run_daemon loaded args = do
  c ← or_config loaded
  if asks_ready args
      then ok (checks_ready c)
      else (do policies ← parse_policies args; ok (runs c policies))

module _ (pem : Pem) (fuel : ℕ) (parse : List Text → Option TrustFlags)
    (read_file : Text → Option Bytes) where
  unfoldable pub trust_init : List Text → Result CommandError CommandEnd
  unfolding is_set
  trust_init args = do
    f ← or_fail (parse args) bad_flags
    refuse_if
        (not (f.left_over == 0)
          || not (is_set f.base)
          || not (is_set f.ca)
          || not (is_set f.output))
        missing_flags
    base_pem ← or_fail (read_file f.base) base_unread
    ca_pem ← or_fail (read_file f.ca) ca_unread
    content ← or_bundle (bundle pem fuel base_pem ca_pem)
    ok (writes (record { path = f.output; content = content; mode = 0o644 }))

  unfoldable pub run : Result ConfigError Config → List Text → Result CommandError CommandEnd
  unfolding text_eq trust_init run_daemon
  run loaded [] = run_daemon loaded []
  run loaded (a ∷ args) =
      if text_eq a (text "trust-init") then trust_init args else run_daemon loaded (a ∷ args)
