-- ===== src/Daemon/Reports.antt =====
-- What Run returns and leaves behind, once OPA was started.
use mathlib.Core.Path.{subst}
use egress_gateway.Prelude.{
  ◌≡◌, ◌≢◌, refl, sym, ◌⊎◌, inl, inr, ◌↔◌, Bool, true, false, List, [], ◌∷◌, ◌++◌, Option, none,
  some, Text, All, arith, Bool-cases, if◌then◌else◌,
}
use egress_gateway.Config.Validate.{Config}
use egress_gateway.Daemon.Supervision.{
  Failure, not_prepared, not_started, Round, Startup, starting, started, aborted, start_up, Event,
  cancelled, opa_done, proxy_done, sds_done, tick, Ending, Supervised, running, ended, supervise,
}
use egress_gateway.Daemon.Services.{
  Action, terminate_group, kill_group, proxy_gone, cancel_opa, Outside, Report, stopped,
  proxy_command, stop_opa, stop_proxy, conclude, abort, launch, proceed, run_services,
}
use egress_gateway.Daemon.Ends.{IsEnd, supervise-IsEnd, Says-failure, Says-exited}

-- The select sees a cancellation only of a context that is cancelled, and stays so.
abbrev pub Agrees : Outside → Event → Type 0
Agrees o cancelled = o.is_cancelled ≡ true
Agrees o opa_done = Unit
Agrees o proxy_done = Unit
Agrees o sds_done = Unit
Agrees o (tick live proxy late) = Unit

abbrev pub IsAction : Action → List Action → Type 0
IsAction x [] = ⊥
IsAction x (y ∷ ys) = (x ≡ y) ⊎ IsAction x ys

abbrev pub HasExited : List Event → Type 0
HasExited [] = ⊥
HasExited (e ∷ es) = (e ≡ proxy_done) ⊎ HasExited es

All-at :
    (P : Event → Type 0) (before : List Event) (e : Event) (after : List Event)
    → All P (before ++ (e ∷ after))
    → P e
All-at P [] e after h = h.0
All-at P (b ∷ before) e after h = All-at P before e after h.1

HasExited-at : (before after : List Event) → HasExited (before ++ (proxy_done ∷ after))
HasExited-at [] after = inl refl
HasExited-at (b ∷ before) after = inr (HasExited-at before after)

IsAction-append : (x : Action) (xs ys : List Action) → IsAction x ys → IsAction x (xs ++ ys)
IsAction-append x [] ys h = h
IsAction-append x (y ∷ xs) ys h = inr (IsAction-append x xs ys h)

IsAction-front : (x : Action) (xs ys : List Action) → IsAction x xs → IsAction x (xs ++ ys)
IsAction-front x [] ys h = absurd h
IsAction-front x (y ∷ xs) ys (inl e) = inl e
IsAction-front x (y ∷ xs) ys (inr h) = inr (IsAction-front x xs ys h)

-- The facts of a run that has stopped: its result, and what it has done about the proxy and OPA.
pub record IsReport (o : Outside) (events : List Event) (r : Report) : Type 0 where
  pub result : (r.failure ≡ none) ↔ ((r.command ≢ none) × (o.is_cancelled ≡ true))
  pub proxy :
      (r.command ≡ none)
      ⊎ (IsAction terminate_group r.actions × (IsAction proxy_gone r.actions ⊎ HasExited events))
  pub opa : IsAction cancel_opa r.actions

module _ (o : Outside) where
  stop_proxy-gone : (exited : Bool) → exited ≡ false → IsAction proxy_gone (stop_proxy o exited)
  unfolding stop_proxy
  stop_proxy-gone true h = cc
  stop_proxy-gone false h = go o.proxy_in_time
    where
      go :
          (b : Bool)
          → IsAction proxy_gone
              (terminate_group ∷ (if b then proxy_gone ∷ [] else kill_group ∷ proxy_gone ∷ []))
      go true = inr (inl refl)
      go false = inr (inr (inl refl))

  failure_iff :
      (f : Option Failure) (command : List Text)
      → (f ≡ none → o.is_cancelled ≡ true)
      → ((if o.is_cancelled then none else f) ≡ none)
        ↔ ((some command ≢ none) × (o.is_cancelled ≡ true))
  failure_iff f command agrees = go (Bool-cases o.is_cancelled)
    where
      go :
          (o.is_cancelled ≡ true) ⊎ (o.is_cancelled ≡ false)
          → ((if o.is_cancelled then none else f) ≡ none)
            ↔ ((some command ≢ none) × (o.is_cancelled ≡ true))
      go (inl e) = (λ h. ((λ q. cc), e), λ h. rw e refl)
      go (inr e) = (λ h. ((λ q. cc), agrees (rw e at h)), λ h. absurd (cc))

  abort-IsReport :
      (events : List Event) (f : Failure) (exited : Bool) {r : Report}
      → abort o f exited ≡ stopped r
      → IsReport o events r
  unfolding abort stop_opa
  abort-IsReport events f exited {r} h =
      let same : record { failure = some f; command = none; actions = stop_opa o exited } ≡ r =
        ground arith in
      subst (IsReport o events) same
        (record { result = (λ q. cc, λ q. absurd (q.0 refl)); proxy = inl refl; opa = inl refl })

  conclude-IsReport :
      (command : List Text) (events : List Event) {x : Ending} {r : Report}
      → All (Agrees o) events
      → supervise false events ≡ ended x
      → conclude o command (ended x) ≡ stopped r
      → IsReport o events r
  unfolding conclude
  conclude-IsReport command events {x} {r} agree runs h =
      let end = supervise-IsEnd false events runs in
      let same : record {
        failure = if o.is_cancelled then none else x.failure;
        command = some command;
        actions = stop_proxy o x.exited ++ stop_opa o x.opa_exited;
      }
          ≡ r =
        ground arith in
      subst (IsReport o events) same (record {
        result = failure_iff x.failure command (settled end (Says-failure _ end.last x end.says));
        proxy = inr (unfold stop_proxy in inl refl, gone end (Says-exited _ end.last x end.says));
        opa =
            IsAction-append cancel_opa (stop_proxy o x.exited) (stop_opa o x.opa_exited)
              (unfold stop_opa in inl refl);
      })
    where
      settled :
          (end : IsEnd false events x)
          → (end.last ≡ cancelled) ⊎ (x.failure ≢ none)
          → x.failure ≡ none
          → o.is_cancelled ≡ true
      settled end (inl e) n =
          subst (Agrees o) e (
            All-at (Agrees o) end.before end.last end.after
              (subst (All (Agrees o)) end.split agree))
      settled end (inr k) n = absurd (k n)

      gone :
          (end : IsEnd false events x)
          → (end.last ≡ proxy_done) ⊎ (x.exited ≡ false)
          → IsAction proxy_gone (stop_proxy o x.exited ++ stop_opa o x.opa_exited)
            ⊎ HasExited events
      gone end (inl e) = inr (
          subst HasExited (sym end.split) (
            subst (λ l. HasExited (end.before ++ (l ∷ end.after))) (sym e)
              (HasExited-at end.before end.after)))
      gone end (inr k) = inl (
          IsAction-front proxy_gone (stop_proxy o x.exited) (stop_opa o x.opa_exited)
            (stop_proxy-gone x.exited k))

  launch-IsReport :
      (command : Option (List Text)) (events : List Event) {r : Report}
      → All (Agrees o) events
      → launch o command events ≡ stopped r
      → IsReport o events r
  unfolding launch
  launch-IsReport none events agree h = abort-IsReport events not_prepared false h
  launch-IsReport (some command) events {r} agree h = elim (Bool-cases o.starts) [
    | inl e ↦ go (supervise false events) refl (rw e at h)
    | inr e ↦ abort-IsReport events not_started false (rw e at h)
  ]
    where
      go :
          (s : Supervised)
          → supervise false events ≡ s
          → conclude o command s ≡ stopped r
          → IsReport o events r
      go (running b) e k = absurd (unfold conclude in cc)
      go (ended x) e k = conclude-IsReport command events agree e k

  -- A run that has stopped returns nil exactly if the proxy was started and the context is
  -- cancelled. A proxy that was started has been told to stop, and has exited. OPA is told to stop.
  -- (A cancellation that the loop sees is one of the context.)
  pub run_services-IsReport :
      (c : Config) (rounds : List Round) (events : List Event) {r : Report}
      → All (Agrees o) events
      → run_services o c rounds events ≡ stopped r
      → IsReport o events r
  unfolding run_services proceed
  run_services-IsReport c rounds events {r} agree h = go (start_up rounds) h
    where
      go : (s : Startup) → proceed o c s events ≡ stopped r → IsReport o events r
      go starting k = cc
      go (aborted f exited) k = abort-IsReport events f exited k
      go started k = launch-IsReport (proxy_command c o.prepared) events agree k
