-- ===== src/Inspection/Server/Refinement.antt =====
-- The cache of the secret server as a list of names in the order of their use.
use mathlib.Core.Path.{subst}
use egress_gateway.Prelude.{
  ℕ, ◌≡◌, refl, sym, ap, ◌∙◌, inl, inr, Bool, true, false, Bool-cases, List, [], ◌∷◌, Text,
  Text-discrete, delete, arith, if◌then◌else◌,
}
use egress_gateway.Prelude.Results.{Result, ok, err}
use egress_gateway.Inspection.Crypto.{Crypto}
use egress_gateway.Inspection.Names.{NameError, canonical_name}
use egress_gateway.Inspection.Server.State.{Server, Watch, Request, Response, remove}
use egress_gateway.Inspection.Server.Consistency.{
  IsConsistent, remove-IsConsistent, remove_frame, unsubscribe_all-IsConsistent,
}
use egress_gateway.Inspection.Server.Update.{
  Progress, Loop, going, failed, panicked, answered, is_interested, unsubscribe_all, sorted,
  requested, serve, serve_all, answer, update_locked,
}
use egress_gateway.Inspection.Server.Answers.{IsSound, Ends, IsNext}
use egress_gateway.Inspection.Server.Serving.{serve-IsNext}
use egress_gateway.Inspection.Server.Recency.{order_of, use_name, order-remove}
use egress_gateway.Inspection.Server.Uses.{going_injective, serve_valid-Uses}

-- The abstract cache: what unsubscribing and using names make of it.
unfoldable pub release : List (ℕ × Watch) → List Text → List Text → List Text
unfolding is_interested delete
release watches [] names = names
release watches (n ∷ ns) names =
    release watches ns (if is_interested n watches then names else delete Text-discrete n names)

unfoldable pub is_name : (ℕ → ℕ) → (Text → Bool) → Text → Bool
unfolding canonical_name
is_name lower parse_ipv6 name = elim (canonical_name lower parse_ipv6 name) [
  | err e ↦ false
  | ok c ↦ true
]

unfoldable pub use_names : (Text → Bool) → ℕ → List Text → List Text → List Text
unfolding use_name
use_names valid capacity [] names = names
use_names valid capacity (n ∷ ns) names =
    use_names valid capacity ns (if valid n then use_name capacity n names else names)

module _ (crypto : Crypto) (lower : ℕ → ℕ) (parse_ipv6 : Text → Bool) (now : ℕ) where
  -- What the loop has used
  record HasUsed (names : List Text) (p q : Progress) : Type 0 where
    order :
        order_of q.server
        ≡ use_names (is_name lower parse_ipv6) p.server.capacity names (order_of p.server)
    capacity : q.server.capacity ≡ p.server.capacity

  serve-Uses :
      (name : Text) (p : Progress) {q : Progress}
      → IsConsistent p.server
      → serve crypto lower parse_ipv6 now name p ≡ going q
      → (order_of q.server ≡ (
          if is_name lower parse_ipv6 name
          then use_name p.server.capacity name (order_of p.server)
          else order_of p.server))
        × (q.server.capacity ≡ p.server.capacity)
  unfolding serve is_name
  serve-Uses name p {q} c h = by_name (canonical_name lower parse_ipv6 name) refl
    where
      by_name :
          (r : Result NameError Text)
          → canonical_name lower parse_ipv6 name ≡ r
          → (order_of q.server ≡ (
              if is_name lower parse_ipv6 name
              then use_name p.server.capacity name (order_of p.server)
              else order_of p.server))
            × (q.server.capacity ≡ p.server.capacity)
      by_name (err x) e =
          let same = going_injective (rw (e, serve) at h) in
          (
            rw (e, is_name) (ap (λ (q : Progress). order_of q.server) (sym same)),
            ap (λ (q : Progress). q.server.capacity) (sym same),
          )
      by_name (ok canonical) e =
          let used = serve_valid-Uses crypto now name canonical p c (rw (e, serve) at h) in
          (rw (e, is_name) used.order, used.capacity)

  not_going_failed :
      (names : List Text) (t : Server) {q : Progress}
      → serve_all crypto lower parse_ipv6 now names (failed t) ≡ going q
      → ⊥
  unfolding serve_all
  not_going_failed [] t h = cc
  not_going_failed (n ∷ ns) t h = cc

  not_going_panicked :
      (names : List Text) {q : Progress}
      → serve_all crypto lower parse_ipv6 now names panicked ≡ going q
      → ⊥
  unfolding serve_all
  not_going_panicked [] h = cc
  not_going_panicked (n ∷ ns) h = cc

  serve_all-HasUsed :
      (names : List Text) (p : Progress) {q : Progress}
      → IsSound now p
      → serve_all crypto lower parse_ipv6 now names (going p) ≡ going q
      → HasUsed names p q
  unfolding serve_all use_names
  serve_all-HasUsed [] p s h =
      let same = going_injective h in
      record {
        order = ap (λ (q : Progress). order_of q.server) (sym same);
        capacity = ap (λ (q : Progress). q.server.capacity) (sym same);
      }
  serve_all-HasUsed (n ∷ ns) p {q} s h =
      after (serve crypto lower parse_ipv6 now n p) (λ m sound k. serve_all-HasUsed ns m sound k)
        refl h
    where
      after :
          (l : Loop)
          → ((m : Progress)
              → IsSound now m
              → serve_all crypto lower parse_ipv6 now ns (going m) ≡ going q
              → HasUsed ns m q)
          → serve crypto lower parse_ipv6 now n p ≡ l
          → serve_all crypto lower parse_ipv6 now ns l ≡ going q
          → HasUsed (n ∷ ns) p q
      after (going m) more e k =
          let next : IsNext now n p m =
            subst (Ends (IsNext now n p)) e (serve-IsNext crypto lower parse_ipv6 now n p s) in
          let (order, capacity) = serve-Uses n p s.consistent e in
          let rest = more m next.sound k in
          record {
            order =
                rest.order
                ∙ ap (λ c. use_names (is_name lower parse_ipv6) c ns (order_of m.server)) capacity
                ∙ ap (λ l. use_names (is_name lower parse_ipv6) p.server.capacity ns l) order;
            capacity = rest.capacity ∙ capacity;
          }
      after (failed t) more e k = absurd (not_going_failed ns t k)
      after panicked more e k = absurd (not_going_panicked ns k)

order-unsubscribe_all :
    (names : List Text) (s : Server)
    → IsConsistent s
    → (order_of (unsubscribe_all names s) ≡ release s.watches names (order_of s))
      × ((unsubscribe_all names s).capacity ≡ s.capacity)
unfolding unsubscribe_all release
order-unsubscribe_all [] s c = (refl, refl)
order-unsubscribe_all (n ∷ ns) s c = elim (Bool-cases (is_interested n s.watches)) [
  | inl e ↦ rw (e, unsubscribe_all, release) (order-unsubscribe_all ns s c)
  | inr e ↦
      let (order, capacity) = order-unsubscribe_all ns (remove n s) (remove-IsConsistent s n c) in
      let (kept, version, watches, nonce, authority) = remove_frame n s in
      rw (e, unsubscribe_all, release)
        (
          order
              ∙ ap (λ w. release w ns (order_of (remove n s))) watches
              ∙ ap (λ l. release s.watches ns l) (order-remove s n c),
          capacity ∙ kept,
        )
]

server_of : {s t : Server} {q r : Response} → answered s q ≡ answered t r → s ≡ t
server_of h = ground arith

answer-going :
    (l : Loop) {t : Server} {r : Response}
    → answer l ≡ answered t r
    → (q : Progress) × (l ≡ going q) × (order_of t ≡ order_of q.server)
unfolding answer
answer-going (going q) h = (q, refl, ap (λ (s : Server). order_of s) (sym (server_of h)))
answer-going (failed s) h = cc
answer-going panicked h = cc

-- A consistent server is a cache of the names that were used last. An answered request first
-- releases the names that no watch has any more, then uses the names that it asks for, in order,
-- those that are no names of hosts excepted: each goes to the front, and beyond the capacity the
-- name whose use is the longest ago is given up.
pub update_locked-use_names :
    (crypto : Crypto) (lower : ℕ → ℕ) (parse_ipv6 : Text → Bool) (req : Request) (now : ℕ)
    (s : Server) {t : Server} {r : Response}
    → IsConsistent s
    → update_locked crypto lower parse_ipv6 req now s ≡ answered t r
    → order_of t
      ≡ use_names
          (is_name lower parse_ipv6)
          s.capacity
          (sorted (requested req))
          (release s.watches req.unsubscribe (order_of s))
unfolding update_locked
update_locked-use_names crypto lower parse_ipv6 req now s {t} {r} c h =
    let start : Progress = record {
      server = unsubscribe_all req.unsubscribe s;
      resources = [];
      removed = [];
    } in
    let sound : IsSound now start = record {
      consistent = unsubscribe_all-IsConsistent req.unsubscribe s c;
      cached = λ m r found. cc;
    } in
    let (released, capacity) = order-unsubscribe_all req.unsubscribe s c in
    let (q, e, same) =
      answer-going (serve_all crypto lower parse_ipv6 now (sorted (requested req)) (going start))
        h in
    let used =
      serve_all-HasUsed crypto lower parse_ipv6 now (sorted (requested req)) start sound e in
    same
    ∙ used.order
    ∙ ap
        (λ n.
          use_names (is_name lower parse_ipv6) n (sorted (requested req)) (order_of start.server))
        capacity
    ∙ ap (λ l. use_names (is_name lower parse_ipv6) s.capacity (sorted (requested req)) l) released
