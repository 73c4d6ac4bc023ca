-- ===== src/Tests/Daemon.antt =====
-- internal/daemon at work: a probe of a host that answers, and short runs.
use egress_gateway.Prelude.{
  ◌++◌, ◌≡◌, ◌↔◌, refl, true, false, List, [], ◌∷◌, none, some, text, Text-discrete,
}
use egress_gateway.Prelude.Results.{◌>>=◌, ◌>>◌, refuse_if, or_fail}
use egress_gateway.GoLib.FilePath.{text_eq, join}
use egress_gateway.Config.Load.{defaults}
use egress_gateway.Config.Validate.{validate}
use egress_gateway.Inspection.Crypto.{minute}
use egress_gateway.Inspection.Leaf.{Authority}
use egress_gateway.Inspection.Ca.Write.{
  publish_certificate, write_atomic, before, deferred, fill, sync_directory,
}
use egress_gateway.Inspection.Ca.Open.{
  World, open_authority, open_locked, load_state, create_state, generate, use_state, is_usable,
  only_leftovers, succeeded, is_some,
}
use egress_gateway.Inspection.Server.State.{new_server, empty_server}
use egress_gateway.Daemon.Setup.{
  Found, Calls, SetUp, set_up, serve_role, serve_secrets, none_or, wrapped, clear_socket,
  opa_params, base_overrides, writes, write_opa, prepare_config,
}
use egress_gateway.Daemon.Start.{IsSetUp, set_up-IsSetUp}
use egress_gateway.Tests.Secrets.{marking}
use egress_gateway.Tests.Ca.{fine, safe, certificate, codec, empty_volume}
use egress_gateway.Tests.Documents.{formats}
use egress_gateway.Daemon.Request.{Guard}
use egress_gateway.Daemon.Opa.{prepare_opa, prepare_from}
use egress_gateway.Inspection.Ca.Directory.{open_directory, check_directory, read_private}
use egress_gateway.Daemon.Probes.{Host, no_answer, ready}
use egress_gateway.Daemon.Readiness.{IsReady, ready-none_iff}
use egress_gateway.Daemon.Policy.{Extension, Params, configure_policy_host, overrides}
use egress_gateway.Daemon.Policy.Laws.{IsConfigured, configure_policy_host-IsConfigured}
use egress_gateway.Daemon.Supervision.{
  healthy_opa, failing, paused, started, start_up, Event, cancelled, tick, running, supervise,
  lost_readiness,
}
use egress_gateway.Daemon.Startup.{BecomesHealthy, start_up-started_iff}
use egress_gateway.Daemon.Steady.{IsSteady, supervise-running_iff}
use egress_gateway.Daemon.Ends.{IsEnd, supervise-IsEnd}
use egress_gateway.Daemon.Services.{
  Outside, Report, run_services, terminate_group, kill_group, proxy_gone, cancel_opa, opa_gone,
}
use egress_gateway.Daemon.Reports.{IsReport, run_services-IsReport}

abbrev answering : Host
answering = record {
  http_status = λ socket url. some 200;
  dials = λ socket. true;
  closes = λ socket. true;
  read_file = λ path. some (1 ∷ []);
}

ready-none_iff_example : (ready answering defaults ≡ none) ↔ IsReady answering defaults
ready-none_iff_example = ready-none_iff answering defaults

abbrev policy : Extension
policy = record {
  plugin_name = text "egress_policy";
  decision_path = text "gateway/decision";
  plugins_of = λ raw. some (text "egress_policy" ∷ []);
}

abbrev params : Params
params = record {
  config_file = text "/etc/gateway/opa/workload.yaml";
  paths = [];
  addrs = (text "unix://" ++ join defaults.runtime_dir (text "opa-api.sock")) ∷ [];
  addr_set_by_user = true;
  unix_socket_perm = text "0600";
  graceful_shutdown_period = 2;
  ready_timeout = 20;
  config_overrides = [];
}

configure_policy_host-IsConfigured_example :
    IsConfigured policy defaults params
      (some [])
      true
      (record params { config_overrides = overrides policy defaults params })
unfolding configure_policy_host Text-discrete
configure_policy_host-IsConfigured_example =
    configure_policy_host-IsConfigured policy defaults params (some []) refl

-- A proxy that becomes ready late and then is lost.
abbrev lost : List Event
lost =
    tick none (some no_answer) false ∷ tick none none false ∷ tick none (some no_answer) true ∷ []

supervise-running_iff_example :
    (supervise false (tick none none true ∷ []) ≡ running true)
    ↔ (IsSteady false (tick none none true ∷ []) × (true ≡ true))
supervise-running_iff_example = supervise-running_iff false (tick none none true ∷ []) true

supervise-IsEnd_example :
    IsEnd false lost
      (record { failure = some (lost_readiness no_answer); opa_exited = false; exited = false })
unfolding supervise
supervise-IsEnd_example = supervise-IsEnd false lost refl

abbrev outside : Outside
outside = record {
  prepared = none;
  starts = true;
  is_cancelled = true;
  proxy_in_time = false;
  opa_in_time = true;
}

abbrev report : Report
report = record {
  failure = none;
  command = some (text "/usr/local/bin/pilot-agent" ∷ text "proxy" ∷ text "sidecar" ∷ []);
  actions = terminate_group ∷ kill_group ∷ proxy_gone ∷ cancel_opa ∷ opa_gone ∷ [];
}

run_services-IsReport_example : IsReport outside (tick none none false ∷ cancelled ∷ []) report
unfolding run_services defaults
run_services-IsReport_example =
    run_services-IsReport outside defaults (failing no_answer paused ∷ healthy_opa ∷ [])
      (tick none none false ∷ cancelled ∷ []) (tt, (refl, tt)) refl

-- The volumes of a workload's Pod, the private one empty
abbrev volume : World
volume = record empty_volume {
  private_calls = safe defaults.state_dir 0o700;
  public_calls = safe defaults.public_dir 0o755;
}

abbrev guard : Guard
guard = record { guard = text "return"; quote = λ t. t }

abbrev calls : Calls
calls = record {
  runtime = safe defaults.runtime_dir 0o700;
  opens = λ path mode. true;
  lock_taken = true;
  guard_calls = fine;
  http_guard_calls = fine;
  opa_calls = fine;
  found = λ path. Found.socket;
  removes = λ path. true;
  listens = λ path. true;
  restricts = λ path mode. true;
  read_config = λ path. some [];
  new_runtime = true;
}

abbrev authority : Authority
authority = record { certificate = certificate; key = 3 ∷ [] }

abbrev base : Params
base = record {
  config_file = defaults.opa_config;
  paths = [];
  addrs = (text "unix://" ++ join defaults.runtime_dir (text "opa-api.sock")) ∷ [];
  addr_set_by_user = true;
  unix_socket_perm = text "0600";
  graceful_shutdown_period = 2;
  ready_timeout = 20;
  config_overrides = base_overrides defaults;
}

abbrev workload_setup : SetUp
workload_setup = record {
  served = some (authority, empty_server authority 64);
  policy_extension = true;
  params = record base {
    config_overrides = base_overrides defaults ++ overrides policy defaults base;
  };
}

set_up-IsSetUp_example :
    IsSetUp marking codec guard formats policy volume calls 3 minute defaults [] workload_setup
unfolding set_up serve_role serve_secrets none_or wrapped clear_socket opa_params new_server
    configure_policy_host Text-discrete validate defaults open_authority open_locked load_state
    create_state generate use_state is_usable only_leftovers succeeded ◌>>=◌ ◌>>◌ refuse_if or_fail
    is_some text_eq publish_certificate write_atomic before deferred fill sync_directory writes
    prepare_config prepare_opa prepare_from write_opa open_directory check_directory read_private
set_up-IsSetUp_example =
    set_up-IsSetUp marking codec guard formats policy volume calls 3 minute defaults [] refl

start_up-started_iff_example :
    (start_up (failing no_answer paused ∷ healthy_opa ∷ []) ≡ started)
    ↔ BecomesHealthy (failing no_answer paused ∷ healthy_opa ∷ [])
start_up-started_iff_example = start_up-started_iff (failing no_answer paused ∷ healthy_opa ∷ [])
