-- ===== src/Inspection/Server/Watches/Limits.antt =====
-- How many names a stream watches.
use mathlib.Core.Path.{subst}
use egress_gateway.Prelude.{
  ℕ, ◌≤◌, ◌≡◌, sym, ap, ◌∙◌, inl, inr, Bool, false, Bool-cases, List, [], ◌∷◌, some, Option-cases,
  if◌then◌else◌, Text, Text-discrete, ℕ_discrete, length, length-delete-le, has, delete, find,
  insert, find-insert, ltb, arith,
}
use egress_gateway.Inspection.Crypto.{Crypto}
use egress_gateway.Inspection.Server.State.{Server, Watch, Response, Request, max_request_names}
use egress_gateway.Inspection.Server.Update.{Updated, answered, update_locked}
use egress_gateway.Inspection.Server.Frame.{KeepsAll, update_locked-KeepsAll}
use egress_gateway.Inspection.Server.Watches.{
  fail, enqueue, notify, notify_all, watched, drop_removed, Processed, done, deliver, process_watch,
  process,
}

length-drop_removed : (gone names : List Text) → length (drop_removed gone names).1 ≤ length names
unfolding drop_removed
length-drop_removed [] names = omega arith
length-drop_removed (n ∷ gone) names = ground (
  arith,
  length-drop_removed gone
      (if has Text-discrete n names then delete Text-discrete n names else names),
  length-delete-le Text-discrete n names,
)

enqueue-names : (r : Response) (w : Watch) → (enqueue r w).names ≡ w.names
unfolding enqueue fail
enqueue-names r w = ground arith

length-notify : (r : Response) (w : Watch) → length (notify r w).names ≤ length w.names
unfolding notify
length-notify r w = rw (enqueue-names _ _) (length-drop_removed r.removed w.names)

find-notify_all :
    (i : ℕ) (r : Response) (ws : List (ℕ × Watch)) {w v : Watch}
    → find ℕ_discrete i ws ≡ some v
    → find ℕ_discrete i (notify_all r ws) ≡ some w
    → w ≡ notify r v
unfolding find notify_all
find-notify_all i r [] h k = cc
find-notify_all i r ((j, x) ∷ ws) {w} {v} h k =
    ground (arith, find-notify_all i r ws {w = w} {v = v})

deliver-watches :
    (u : Updated) (s : Server) {t : Server}
    → KeepsAll s u
    → deliver u ≡ done t
    → (r : Response) × (t.watches ≡ notify_all r s.watches)
unfolding deliver
deliver-watches (answered a r) s {t} kept h =
    (r, ap (λ (s : Server). s.watches) (sym (server_of h)) ∙ ap (notify_all r) kept.watches)
  where
    server_of : {b c : Server} → done b ≡ done c → b ≡ c
    server_of e = ground arith
deliver-watches (Updated.failed a) s kept h = cc
deliver-watches Updated.panicked s kept h = cc

not_above : (n : ℕ) → ltb 128 n ≡ false → n ≤ 128
not_above n h = ground arith

module _ (crypto : Crypto) (lower : ℕ → ℕ) (parse_ipv6 : Text → Bool) where
  process_watch-names :
      (i : ℕ) (v : Watch) (req : Request) (now : ℕ) (s : Server) {t : Server} {w : Watch}
      → process_watch crypto lower parse_ipv6 i v req now s ≡ done t
      → find ℕ_discrete i t.watches ≡ some w
      → length w.names ≤ max_request_names
  unfolding process_watch
  process_watch-names i v req now s {t} {w} h k =
      let names = watched req v.names in
      let v' : Watch = record v { names = names } in
      let s' : Server = record s { watches = insert ℕ_discrete i v' s.watches } in
      elim (Bool-cases (ltb max_request_names (length names))) [
        | inl e ↦ absurd (not_done (rw e at h))
        | inr e ↦
            let (r, watches) =
              deliver-watches (update_locked crypto lower parse_ipv6 req now s') s'
                (update_locked-KeepsAll crypto lower parse_ipv6 req now s') (rw e at h) in
            let here : find ℕ_discrete i s'.watches ≡ some v' =
              ground (arith, find-insert ℕ_discrete i i v' s.watches) in
            let same : w ≡ notify r v' =
              find-notify_all i r s'.watches here (ap (find ℕ_discrete i) (sym watches) ∙ k) in
            small w (notify r v') names same (length-notify r v') e
      ]
    where
      not_done : {x : _} {y : Server} → Processed.refused x y ≡ done t → ⊥
      not_done q = cc

      small :
          (a b : Watch) (names : List Text)
          → a ≡ b
          → length b.names ≤ length names
          → ltb 128 (length names) ≡ false
          → length a.names ≤ 128
      small a b names same l e =
          let limit = not_above (length names) e in
          subst (λ (x : Watch). length x.names ≤ 128) (sym same) (omega arith)

  -- A stream whose request was processed without an error watches at most 128 names.
  pub process-names :
      (i : ℕ) (req : Request) (now : ℕ) (s : Server) {t : Server} {w : Watch}
      → process crypto lower parse_ipv6 i req now s ≡ done t
      → find ℕ_discrete i t.watches ≡ some w
      → length w.names ≤ max_request_names
  unfolding process
  process-names i req now s h k = elim (Option-cases (find ℕ_discrete i s.watches)) [
    | inl e ↦ cc (rw (e, process) at h)
    | inr (v, e) ↦ process_watch-names i v req now s (rw (e, process) at h) k
  ]
