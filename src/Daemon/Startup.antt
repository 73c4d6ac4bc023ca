-- ===== src/Daemon/Startup.antt =====
-- When the startup loop of Run ends with OPA healthy.
use egress_gateway.Prelude.{◌≡◌, refl, ap, ◌∙◌, ◌↔◌, List, [], ◌∷◌, ◌++◌, All}
use egress_gateway.Daemon.Supervision.{
  Round, healthy_opa, failing, expired, opa_exit, sds_exit, paused, started, start_up,
}

-- A round that failed, after which the loop waits and asks again.
abbrev pub IsPause : Round → Type 0
IsPause healthy_opa = ⊥
IsPause (failing e expired) = ⊥
IsPause (failing e opa_exit) = ⊥
IsPause (failing e sds_exit) = ⊥
IsPause (failing e paused) = Unit

abbrev pub BecomesHealthy : List Round → Type 0
BecomesHealthy rs =
    (before after : List Round) × (rs ≡ before ++ (healthy_opa ∷ after)) × All IsPause before

start_up-healthy : (rs : List Round) → start_up rs ≡ started → BecomesHealthy rs
unfolding start_up
start_up-healthy [] h = cc
start_up-healthy (healthy_opa ∷ rs) h = ([], rs, refl, tt)
start_up-healthy (failing e expired ∷ rs) h = cc
start_up-healthy (failing e opa_exit ∷ rs) h = cc
start_up-healthy (failing e sds_exit ∷ rs) h = cc
start_up-healthy (failing e paused ∷ rs) h =
    let (before, after, same, pauses) = start_up-healthy rs h in
    (failing e paused ∷ before, after, ap (λ l. failing e paused ∷ l) same, (tt, pauses))

start_up-pauses :
    (before after : List Round)
    → All IsPause before
    → start_up (before ++ (healthy_opa ∷ after)) ≡ started
unfolding start_up
start_up-pauses [] after p = refl
start_up-pauses (healthy_opa ∷ before) after p = absurd p.0
start_up-pauses (failing e expired ∷ before) after p = absurd p.0
start_up-pauses (failing e opa_exit ∷ before) after p = absurd p.0
start_up-pauses (failing e sds_exit ∷ before) after p = absurd p.0
start_up-pauses (failing e paused ∷ before) after p = start_up-pauses before after p.1

-- The startup succeeds exactly if OPA becomes healthy before anything ends the wait for it: however
-- often it has failed before, as long as the time lasts and neither OPA nor the secret server exits.
pub start_up-started_iff : (rs : List Round) → (start_up rs ≡ started) ↔ BecomesHealthy rs
start_up-started_iff rs = (start_up-healthy rs, λ h. ap start_up h.2 ∙ start_up-pauses h.0 h.1 h.3)
