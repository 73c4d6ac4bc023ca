-- ===== src/Daemon/Services.antt =====
-- internal/daemon/daemon.go: Run from the moment when OPA serves, with what it leaves to its end.
use egress_gateway.Prelude.{
  Bool, false, List, [], ◌∷◌, ◌++◌, Option, none, some, if◌then◌else◌, Text, text,
}
use egress_gateway.GoLib.FilePath.{text_eq}
use egress_gateway.Config.Names.{egress, standalone}
use egress_gateway.Config.Validate.{Config}
use egress_gateway.Daemon.Supervision.{
  Failure, not_prepared, not_started, Round, Startup, starting, started, aborted, start_up, Event,
  Supervised, running, ended, supervise,
}

-- The deferred calls, in the order in which they run.
pub data Action : Type 0 where
  terminate_group kill_group proxy_gone cancel_opa opa_gone opa_given_up : Action

-- What prepareEnvoy returns, whether the proxy starts, whether the context is cancelled when the
-- result is settled, and whether the proxy and OPA stop within five seconds.
pub record Outside : Type 0 where
  pub prepared : Option Text
  pub starts : Bool
  pub is_cancelled : Bool
  pub proxy_in_time : Bool
  pub opa_in_time : Bool

pub record Report : Type 0 where
  pub failure : Option Failure
  pub command : Option (List Text)
  pub actions : List Action

pub data Phase : Type 0 where
  waiting : Phase
  serving : List Text → Bool → Phase
  stopped : Report → Phase

-- The command of the proxy, if its configuration could be prepared.
unfoldable pub envoy_command : Option Text → Option (List Text)
envoy_command none = none
envoy_command (some generated) =
    some
      (text "/usr/local/bin/envoy" ∷ text "-c" ∷ generated ∷ text "--concurrency" ∷ text "1" ∷ [])

unfoldable pub proxy_command : Config → Option Text → Option (List Text)
unfolding text_eq envoy_command
proxy_command c generated =
    if text_eq c.proxy_mode standalone
    then envoy_command generated
    else some (
        text "/usr/local/bin/pilot-agent"
        ∷ text "proxy"
        ∷ (if text_eq c.role egress then text "router" else text "sidecar")
        ∷ [])

module _ (outside : Outside) where
  unfoldable pub stop_opa : Bool → List Action
  stop_opa exited =
      cancel_opa
      ∷ (if exited then [] else if outside.opa_in_time then opa_gone ∷ [] else opa_given_up ∷ [])

  unfoldable pub stop_proxy : Bool → List Action
  stop_proxy exited =
      terminate_group
      ∷ (if exited
          then []
          else if outside.proxy_in_time
          then proxy_gone ∷ []
          else kill_group ∷ proxy_gone ∷ [])

  -- The return behind a started proxy: a cancelled context makes any result nil.
  unfoldable pub conclude : List Text → Supervised → Phase
  unfolding stop_proxy stop_opa
  conclude command (running healthy) = serving command healthy
  conclude command (ended x) = stopped (record {
    failure = if outside.is_cancelled then none else x.failure;
    command = some command;
    actions = stop_proxy x.exited ++ stop_opa x.opa_exited;
  })

  unfoldable pub abort : Failure → Bool → Phase
  unfolding stop_opa
  abort f opa_exited =
      stopped (record { failure = some f; command = none; actions = stop_opa opa_exited })

  unfoldable pub launch : Option (List Text) → List Event → Phase
  unfolding abort conclude supervise
  launch none events = abort not_prepared false
  launch (some command) events =
      if outside.starts then conclude command (supervise false events) else abort not_started false

  unfoldable pub proceed : Config → Startup → List Event → Phase
  unfolding launch abort proxy_command
  proceed c starting events = waiting
  proceed c (aborted f opa_exited) events = abort f opa_exited
  proceed c started events = launch (proxy_command c outside.prepared) events

  -- Run, from the start of OPA.
  unfoldable pub run_services : Config → List Round → List Event → Phase
  unfolding proceed start_up
  run_services c rounds events = proceed c (start_up rounds) events
