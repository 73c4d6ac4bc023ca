-- ===== src/Daemon/Steady.antt =====
-- When the supervision of the proxy goes on.
use mathlib.Core.Path.{subst}
use egress_gateway.Prelude.{
  ◌≡◌, refl, sym, ◌∙◌, ap, ◌⊎◌, inl, inr, ◌↔◌, Bool, true, false, ◌||◌, List, [], ◌∷◌, ◌++◌, none,
  some, arith,
}
use egress_gateway.Daemon.Supervision.{
  Event, cancelled, opa_done, proxy_done, sds_done, tick, Ending, running, ended, react, supervise,
  check_ready,
}

-- A round that does not end the supervision: OPA lives, and the proxy is ready, or has never been
-- and still has time. The flag says whether it has been ready.
abbrev pub IsQuiet : Bool → Event → Type 0
IsQuiet seen cancelled = ⊥
IsQuiet seen opa_done = ⊥
IsQuiet seen proxy_done = ⊥
IsQuiet seen sds_done = ⊥
IsQuiet seen (tick (some e) proxy late) = ⊥
IsQuiet seen (tick none none late) = Unit
IsQuiet seen (tick none (some e) late) = (seen ≡ false) × (late ≡ false)

abbrev pub is_ready : Event → Bool
is_ready cancelled = false
is_ready opa_done = false
is_ready proxy_done = false
is_ready sds_done = false
is_ready (tick (some e) proxy late) = false
is_ready (tick none none late) = true
is_ready (tick none (some e) late) = false

abbrev pub any_ready : List Event → Bool
any_ready [] = false
any_ready (e ∷ es) = is_ready e || any_ready es

-- Each event is quiet, seen from what came before it.
abbrev pub IsSteady : Bool → List Event → Type 0
IsSteady seen es =
    (before : List Event) (e : Event) (after : List Event)
    → es ≡ before ++ (e ∷ after)
    → IsQuiet (any_ready before || seen) e

pub react-cases :
    (seen : Bool) (e : Event)
    → (IsQuiet seen e × (react seen e ≡ running (is_ready e || seen)))
      ⊎ ((x : Ending) × (react seen e ≡ ended x) × (IsQuiet seen e → ⊥))
unfolding react check_ready
react-cases seen cancelled = inr (_, refl, λ q. q)
react-cases seen opa_done = inr (_, refl, λ q. q)
react-cases seen proxy_done = inr (_, refl, λ q. q)
react-cases seen sds_done = inr (_, refl, λ q. q)
react-cases seen (tick (some e) proxy late) = inr (_, refl, λ q. q)
react-cases seen (tick none none late) = inl (tt, refl)
react-cases true (tick none (some e) late) = inr (_, refl, λ q. cc)
react-cases false (tick none (some e) true) = inr (_, refl, λ q. cc)
react-cases false (tick none (some e) false) = inl ((refl, refl), refl)

pub regroup : (a b c : Bool) → (b || (a || c)) ≡ ((a || b) || c)
regroup a b c = ground arith

IsSteady-cons :
    (seen : Bool) (e : Event) (es : List Event)
    → IsQuiet seen e
    → IsSteady (is_ready e || seen) es
    → IsSteady seen (e ∷ es)
IsSteady-cons seen e es q s [] f after h = subst (IsQuiet seen) (ground arith) q
IsSteady-cons seen e es q s (g ∷ before) f after h =
    let same : e ≡ g = ground arith in
    subst (λ b. IsQuiet b f)
      (regroup (is_ready e) (any_ready before) seen
        ∙ ap (λ x. (is_ready x || any_ready before) || seen) same)
      (s before f after (ground arith))

IsSteady-rest :
    (seen : Bool) (e : Event) (es : List Event)
    → IsSteady seen (e ∷ es)
    → IsSteady (is_ready e || seen) es
IsSteady-rest seen e es s before f after h =
    subst (λ b. IsQuiet b f) (sym (regroup (is_ready e) (any_ready before) seen))
      (s (e ∷ before) f after (ap (◌∷◌ e) h))

IsSteady-empty : (seen : Bool) → IsSteady seen []
IsSteady-empty seen [] f after h = cc
IsSteady-empty seen (g ∷ before) f after h = cc

supervise-IsSteady :
    (healthy : Bool) (es : List Event) {h : Bool}
    → supervise healthy es ≡ running h
    → IsSteady healthy es × (h ≡ (any_ready es || healthy))
unfolding supervise
supervise-IsSteady healthy [] k = (IsSteady-empty healthy, ground arith)
supervise-IsSteady healthy (e ∷ es) {h} k = elim (react-cases healthy e) [
  | inl q ↦
      let (steady, same) =
        supervise-IsSteady (is_ready e || healthy) es (rw (q.1, supervise) at k) in
      (IsSteady-cons healthy e es q.0 steady, same ∙ regroup (is_ready e) (any_ready es) healthy)
  | inr (x, q, _) ↦ absurd (stopped x (rw (q, supervise) at k))
]
  where
    stopped : (x : Ending) → ended x ≡ running h → ⊥
    stopped x p = cc

steady_running :
    (healthy : Bool) (es : List Event)
    → IsSteady healthy es
    → supervise healthy es ≡ running (any_ready es || healthy)
unfolding supervise
steady_running healthy [] s = refl
steady_running healthy (e ∷ es) s = elim (react-cases healthy e) [
  | inl q ↦
      rw (q.1, supervise)
        (steady_running (is_ready e || healthy) es (IsSteady-rest healthy e es s)
          ∙ ap running (regroup (is_ready e) (any_ready es) healthy))
  | inr (x, q, loud) ↦ absurd (loud (s [] e es refl))
]

-- The supervision goes on exactly while OPA lives at each tick, nothing exits or is cancelled, and
-- the proxy is ready at each tick, or has not been ready before and the startup still has time.
-- It then knows whether the proxy has been ready.
pub supervise-running_iff :
    (healthy : Bool) (es : List Event) (h : Bool)
    → (supervise healthy es ≡ running h) ↔ (IsSteady healthy es × (h ≡ (any_ready es || healthy)))
supervise-running_iff healthy es h =
    (supervise-IsSteady healthy es, λ s. steady_running healthy es s.0 ∙ ap running (sym s.1))
