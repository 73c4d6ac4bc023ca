-- ===== src/Daemon/Ends.antt =====
-- How the supervision of the proxy ends.
use egress_gateway.Prelude.{
  ◌≡◌, ◌≢◌, refl, sym, ◌∙◌, ap, ◌⊎◌, inl, inr, Bool, true, false, ◌||◌, List, [], ◌∷◌, ◌++◌, none,
  some, arith,
}
use egress_gateway.Daemon.Supervision.{
  Failure, opa_stopped, proxy_stopped, sds_stopped, opa_failed, lost_readiness, proxy_timed_out,
  Event, cancelled, opa_done, proxy_done, sds_done, tick, Ending, running, ended, react, supervise,
  check_ready,
}
use egress_gateway.Daemon.Steady.{
  IsSteady, is_ready, any_ready, react-cases, regroup, supervise-running_iff,
}

abbrev failing_with : Failure → Ending
failing_with f = record { failure = some f; opa_exited = false; exited = false }

-- What the last event says: only the cancellation is no failure; an exit of OPA or of the proxy is
-- noted; a tick fails with the first error that counts.
abbrev pub Says : Bool → Event → Ending → Type 0
Says seen cancelled x = x ≡ record { failure = none; opa_exited = false; exited = false }
Says seen opa_done x =
    x ≡ record { failure = some (opa_stopped); opa_exited = true; exited = false }
Says seen proxy_done x =
    x ≡ record { failure = some (proxy_stopped); opa_exited = false; exited = true }
Says seen sds_done x =
    x ≡ record { failure = some (sds_stopped); opa_exited = false; exited = false }
Says seen (tick (some e) proxy late) x =
    x ≡ record { failure = some (opa_failed e); opa_exited = false; exited = false }
Says seen (tick none none late) x = ⊥
Says seen (tick none (some e) late) x =
    ((seen ≡ true)
      × (x ≡ record { failure = some (lost_readiness e); opa_exited = false; exited = false }))
    ⊎ ((seen ≡ false)
        × (late ≡ true)
        × (x ≡ record { failure = some (proxy_timed_out e); opa_exited = false; exited = false }))

ended_injective : {x y : Ending} → ended x ≡ ended y → y ≡ x
ended_injective h = ground arith

react-Says : (seen : Bool) (e : Event) {x : Ending} → react seen e ≡ ended x → Says seen e x
unfolding react check_ready
react-Says seen cancelled h = ended_injective h
react-Says seen opa_done h = ended_injective h
react-Says seen proxy_done h = ended_injective h
react-Says seen sds_done h = ended_injective h
react-Says seen (tick (some e) proxy late) h = ended_injective h
react-Says seen (tick none none late) h = cc
react-Says true (tick none (some e) late) h = inl (refl, ended_injective h)
react-Says false (tick none (some e) true) h = inr (refl, refl, ended_injective h)
react-Says false (tick none (some e) false) h = cc

-- The events up to the end: those before it keep the supervision going, and the last one ends it.
pub record IsEnd (healthy : Bool) (es : List Event) (x : Ending) : Type 0 where
  pub before : List Event
  pub last : Event
  pub after : List Event
  pub split : es ≡ before ++ (last ∷ after)
  pub steady : IsSteady healthy before
  pub says : Says (any_ready before || healthy) last x

-- The list before the end, by its run.
supervise-split :
    (healthy : Bool) (es : List Event) {x : Ending}
    → supervise healthy es ≡ ended x
    → (before : List Event) × (last : Event) × (after : List Event) × (es
        ≡ before ++ (last ∷ after))
      × (supervise healthy before ≡ running (any_ready before || healthy))
      × (react (any_ready before || healthy) last ≡ ended x)
unfolding supervise
supervise-split healthy [] h = cc
supervise-split healthy (e ∷ es) {x} h = elim (react-cases healthy e) [
  | inl q ↦
      let (before, last, after, split, runs, reaction) =
        supervise-split (is_ready e || healthy) es (rw (q.1, supervise) at h) in
      let same = regroup (is_ready e) (any_ready before) healthy in
      (
        e ∷ before,
        last,
        after,
        ap (◌∷◌ e) split,
        rw (q.1, supervise) (runs ∙ ap running same),
        ap (λ b. react b last) (sym same) ∙ reaction,
      )
  | inr (y, q, _) ↦ ([], e, es, refl, refl, q ∙ (rw (q, supervise) at h))
]

-- The supervision ends at the first event that is not quiet: without a failure where that is the
-- cancellation; with OPA's, the proxy's or the secret server's exit, of which the first two are
-- noted; or at a tick with OPA's error, with that of a proxy that was ready before, or with that of a
-- proxy that was never ready when the time of the startup is over.
pub supervise-IsEnd :
    (healthy : Bool) (es : List Event) {x : Ending}
    → supervise healthy es ≡ ended x
    → IsEnd healthy es x
supervise-IsEnd healthy es h =
    let (before, last, after, split, runs, reaction) = supervise-split healthy es h in
    record {
      before = before;
      last = last;
      after = after;
      split = split;
      steady = ((supervise-running_iff healthy before (any_ready before || healthy)).0 runs).0;
      says = react-Says _ last reaction;
    }

-- An end without a failure is the cancellation, and one that counts the proxy as exited its exit.
pub Says-failure :
    (seen : Bool) (e : Event) (x : Ending) → Says seen e x → (e ≡ cancelled) ⊎ (x.failure ≢ none)
Says-failure seen cancelled x h = inl refl
Says-failure seen opa_done x h = inr (ground (arith, h))
Says-failure seen proxy_done x h = inr (ground (arith, h))
Says-failure seen sds_done x h = inr (ground (arith, h))
Says-failure seen (tick (some e) proxy late) x h = inr (ground (arith, h))
Says-failure seen (tick none none late) x h = absurd h
Says-failure seen (tick none (some e) late) x (inl h) = inr (ground (arith, h.1))
Says-failure seen (tick none (some e) late) x (inr h) = inr (ground (arith, h.2))

pub Says-exited :
    (seen : Bool) (e : Event) (x : Ending) → Says seen e x → (e ≡ proxy_done) ⊎ (x.exited ≡ false)
Says-exited seen cancelled x h = inr (ground (arith, h))
Says-exited seen opa_done x h = inr (ground (arith, h))
Says-exited seen proxy_done x h = inl refl
Says-exited seen sds_done x h = inr (ground (arith, h))
Says-exited seen (tick (some e) proxy late) x h = inr (ground (arith, h))
Says-exited seen (tick none none late) x h = absurd h
Says-exited seen (tick none (some e) late) x (inl h) = inr (ground (arith, h.1))
Says-exited seen (tick none (some e) late) x (inr h) = inr (ground (arith, h.2))
