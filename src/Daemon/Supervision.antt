-- ===== src/Daemon/Supervision.antt =====
-- internal/daemon/daemon.go: the loops of Run, before and after the proxy is started.
use egress_gateway.Prelude.{Bool, true, false, List, [], ◌∷◌, Option, none, some, if◌then◌else◌}
use egress_gateway.Daemon.Probes.{ProbeError}

pub data Failure : Type 0 where
  startup_expired opa_stopped_early sds_stopped_early : Failure
  not_prepared not_started : Failure
  opa_stopped proxy_stopped sds_stopped : Failure
  opa_failed lost_readiness proxy_timed_out : ProbeError → Failure

-- A select of the startup loop, behind a check of OPA that failed.
pub data Wait : Type 0 where
  expired opa_exit sds_exit paused : Wait

-- A round of the startup loop: checkOPA without an error, or an error and the select that follows.
pub data Round : Type 0 where
  healthy_opa : Round
  failing : ProbeError → Wait → Round

pub data Startup : Type 0 where
  starting : Startup
  started : Startup
  aborted : Failure → Bool → Startup

-- The flag is opaExited.
unfoldable pub start_up : List Round → Startup
start_up [] = starting
start_up (healthy_opa ∷ rs) = started
start_up (failing e expired ∷ rs) = aborted startup_expired false
start_up (failing e opa_exit ∷ rs) = aborted opa_stopped_early true
start_up (failing e sds_exit ∷ rs) = aborted sds_stopped_early false
start_up (failing e paused ∷ rs) = start_up rs

-- A select of the loop over the running proxy. A tick carries the errors of checkOPALiveness and
-- checkProxy, and whether the time of the startup is over.
pub data Event : Type 0 where
  cancelled opa_done proxy_done sds_done : Event
  tick : Option ProbeError → Option ProbeError → Bool → Event

-- The result, and the flags opaExited and exited.
pub record Ending : Type 0 where
  pub failure : Option Failure
  pub opa_exited : Bool
  pub exited : Bool

-- The flag is `healthy`.
pub data Supervised : Type 0 where
  running : Bool → Supervised
  ended : Ending → Supervised

abbrev pub fails : Failure → Supervised
fails f = ended (record { failure = some f; opa_exited = false; exited = false })

unfoldable pub check_ready : Bool → Option ProbeError → Bool → Supervised
check_ready healthy none late = running true
check_ready healthy (some e) late =
    if healthy
    then fails (lost_readiness e)
    else if late
    then fails (proxy_timed_out e)
    else running false

unfoldable pub react : Bool → Event → Supervised
unfolding check_ready
react healthy cancelled = ended (record { failure = none; opa_exited = false; exited = false })
react healthy opa_done =
    ended (record { failure = some opa_stopped; opa_exited = true; exited = false })
react healthy proxy_done =
    ended (record { failure = some proxy_stopped; opa_exited = false; exited = true })
react healthy sds_done = fails sds_stopped
react healthy (tick (some e) proxy late) = fails (opa_failed e)
react healthy (tick none proxy late) = check_ready healthy proxy late

unfoldable pub supervise : Bool → List Event → Supervised
unfolding react
supervise healthy [] = running healthy
supervise healthy (e ∷ es) = elim (react healthy e) [
  | running h ↦ supervise h es
  | ended x ↦ ended x
]
