-- ===== src/Inspection/Server/Watches/Bounds.antt =====
-- The channels of a watch stay within their sizes, and requests keep every server serving.
use egress_gateway.Prelude.{
  if_both, ℕ, suc, ◌*◌, ◌<◌, ◌≤◌, ◌≡◌, refl, sym, ap, inl, inr, Bool, List, [], ◌∷◌, Option, none,
  some, Text, ℕ_discrete, length, length-append, arith, All, Bool-cases, Option-cases, ltb, find,
  insert, erase,
}
use mathlib.Core.Path.{subst}
use egress_gateway.Inspection.Crypto.{Crypto}
use egress_gateway.Inspection.Leaf.{Authority}
use egress_gateway.Inspection.Server.State.{
  Server, Watch, Response, Request, StatusError, failed_precondition, invalid_argument,
  max_request_names, new_server, empty_server,
}
use egress_gateway.Inspection.Server.Consistency.{
  empty_server-IsConsistent, new_server-empty_server, IsConsistent, counters-IsConsistent,
}
use egress_gateway.Inspection.Server.Update.{Updated, answered, update_locked}
use egress_gateway.Inspection.Server.Responses.{IsOutcome, update_locked-IsOutcome}
use egress_gateway.Inspection.Server.Frame.{IsKept, KeepsAll, update_locked-KeepsAll}
use egress_gateway.Inspection.Server.Watches.{
  fail, enqueue, notify, notify_all, watched, Processed, done, refused, crashed, deliver,
  process_watch, process, fail_at, after_process, is_unsupported, receive, open_stream,
  close_stream, take_update,
}

pub record IsBounded (w : Watch) : Type 0 where
  pub updates : length w.updates ≤ 4
  pub errors : length w.errors ≤ 1

fail-IsBounded : (e : StatusError) (w : Watch) → IsBounded w → IsBounded (fail e w)
unfolding fail
fail-IsBounded e w b = ground (arith, length-append {0} w.errors (e ∷ []))

enqueue-IsBounded : (r : Response) (w : Watch) → IsBounded w → IsBounded (enqueue r w)
unfolding enqueue
enqueue-IsBounded r w b =
    ground (
      arith,
      length-append {0} w.updates (r ∷ []),
      fail-IsBounded StatusError.resource_exhausted w b,
    )

abbrev pub AllBounded : List (ℕ × Watch) → Type 0
AllBounded = All (λ e. IsBounded e.1)

notify_all-AllBounded :
    (resp : Response) (ws : List (ℕ × Watch)) → AllBounded ws → AllBounded (notify_all resp ws)
unfolding notify_all notify
notify_all-AllBounded resp [] b = tt
notify_all-AllBounded resp ((i, w) ∷ ws) b = (
  enqueue-IsBounded _ _ (record { updates = b.0.updates; errors = b.0.errors }),
  notify_all-AllBounded resp ws b.1,
)

length-notify_all :
    (resp : Response) (ws : List (ℕ × Watch)) → length (notify_all resp ws) ≡ length ws
unfolding notify_all
length-notify_all resp [] = refl
length-notify_all resp (e ∷ ws) = ap suc (length-notify_all resp ws)

fail_at-AllBounded :
    (i : ℕ) (e : StatusError) (ws : List (ℕ × Watch))
    → AllBounded ws
    → AllBounded (fail_at i e ws) × (length (fail_at i e ws) ≡ length ws)
unfolding fail_at
fail_at-AllBounded i e [] b = (tt, refl)
fail_at-AllBounded i e ((j, w) ∷ ws) b =
    ground (arith, fail-IsBounded e w b.0, fail_at-AllBounded i e ws b.1)

insert-AllBounded :
    (i : ℕ) (w v : Watch) (ws : List (ℕ × Watch))
    → find ℕ_discrete i ws ≡ some v
    → IsBounded w
    → AllBounded ws
    → AllBounded (insert ℕ_discrete i w ws) × (length (insert ℕ_discrete i w ws) ≡ length ws)
unfolding find insert
insert-AllBounded i w v [] h k b = cc
insert-AllBounded i w v ((j, x) ∷ ws) h k b = ground (arith, insert-AllBounded i w v ws, k)

find-IsBounded :
    (i : ℕ) (ws : List (ℕ × Watch)) {w : Watch}
    → AllBounded ws
    → find ℕ_discrete i ws ≡ some w
    → IsBounded w
unfolding find
find-IsBounded i [] b h = cc
find-IsBounded i ((j, x) ∷ ws) {w} b h = ground (arith, find-IsBounded i ws {w = w} b.1)

erase-AllBounded :
    (i : ℕ) (ws : List (ℕ × Watch))
    → AllBounded ws
    → AllBounded (erase ℕ_discrete i ws) × (length (erase ℕ_discrete i ws) ≤ length ws)
unfolding erase
erase-AllBounded i [] b = (tt, omega arith)
erase-AllBounded i ((j, x) ∷ ws) b = ground (arith, erase-AllBounded i ws b.1)

-- A server that is consistent, with watches within their limits.
pub record IsServing (s : Server) : Type 0 where
  pub consistent : IsConsistent s
  pub bounded : AllBounded s.watches
  pub few : length s.watches ≤ 2 * s.capacity

-- What may come of a request: a serving server, perhaps with a status error; never a panic.
abbrev pub Serves : Processed → Type 0
Serves (done s) = IsServing s
Serves (refused e s) = IsServing s
Serves crashed = ⊥

watches-IsServing :
    (s : Server) (ws : List (ℕ × Watch))
    → IsServing s
    → AllBounded ws
    → length ws ≤ length s.watches
    → IsServing (record s { watches = ws })
watches-IsServing s ws v b h = record {
  consistent = counters-IsConsistent s s.version s.draws s.nonce ws v.consistent;
  bounded = b;
  few = omega (arith, v.few);
}

kept-IsServing : (s t : Server) → IsServing s → IsConsistent t → IsKept s t → IsServing t
kept-IsServing s t v c k = record {
  consistent = c;
  bounded = subst AllBounded (sym k.watches) v.bounded;
  few = rw (k.watches, k.capacity) v.few;
}

deliver-Serves :
    (req : Request) (now : ℕ) (s : Server) (u : Updated)
    → IsServing s
    → IsOutcome req now u
    → KeepsAll s u
    → Serves (deliver u)
unfolding deliver
deliver-Serves req now s (answered t resp) v o k =
    let v' = kept-IsServing s t v o.0 k in
    watches-IsServing t (notify_all resp t.watches) v'
      (notify_all-AllBounded resp t.watches v'.bounded)
      (omega (arith, length-notify_all resp t.watches))
deliver-Serves req now s (Updated.failed t) v o k = kept-IsServing s t v o k
deliver-Serves req now s Updated.panicked v o k = o

module _ (crypto : Crypto) (lower : ℕ → ℕ) (parse_ipv6 : Text → Bool) (i : ℕ) (req : Request)
    (now : ℕ) (s : Server) (v : IsServing s) where
  process_watch-Serves :
      (w : Watch)
      → find ℕ_discrete i s.watches ≡ some w
      → Serves (process_watch crypto lower parse_ipv6 i w req now s)
  unfolding process_watch
  process_watch-Serves w h =
      let w' : Watch = record w { names = watched req w.names } in
      let ws = insert ℕ_discrete i w' s.watches in
      let s' : Server = record s { watches = ws } in
      let b = find-IsBounded i s.watches v.bounded h in
      let kept =
        insert-AllBounded i w' w s.watches h (record { updates = b.updates; errors = b.errors })
          v.bounded in
      let v' = watches-IsServing s ws v kept.0 (omega (arith, kept.1)) in
      elim (Bool-cases (ltb max_request_names (length (watched req w.names)))) [
        | inl many ↦ rw (many, process_watch) v'
        | inr few ↦
            rw (few, process_watch)
              (deliver-Serves req now s' (update_locked crypto lower parse_ipv6 req now s') v'
                (update_locked-IsOutcome crypto lower parse_ipv6 req now s' v'.consistent)
                (update_locked-KeepsAll crypto lower parse_ipv6 req now s'))
      ]

  -- A request never makes a serving server panic, and leaves a serving server.
  pub process-Serves : Serves (process crypto lower parse_ipv6 i req now s)
  unfolding process
  process-Serves = elim (Option-cases (find ℕ_discrete i s.watches)) [
    | inl h ↦ rw (h, process) v
    | inr (w, h) ↦ rw (h, process) (process_watch-Serves w h)
  ]

-- The result of a round of a goroutine, which must not be a panic.
abbrev pub Survives : Option Server → Type 0
Survives none = ⊥
Survives (some s) = IsServing s

failed_at-IsServing :
    (i : ℕ) (e : StatusError) (s : Server)
    → IsServing s
    → IsServing (record s { watches = fail_at i e s.watches })
failed_at-IsServing i e s v =
    let b = fail_at-AllBounded i e s.watches v.bounded in
    watches-IsServing s (fail_at i e s.watches) v b.0 (omega (arith, b.1))

after_process-Survives : (i : ℕ) (p : Processed) → Serves p → Survives (after_process i p)
unfolding after_process
after_process-Survives i (done s) v = v
after_process-Survives i (refused e s) v = failed_at-IsServing i e s v
after_process-Survives i crashed v = v

-- Whatever request comes in on whatever stream, a serving server survives and keeps serving.
pub receive-Survives :
    (crypto : Crypto) (lower : ℕ → ℕ) (parse_ipv6 : Text → Bool) (i : ℕ) (req : Request) (now : ℕ)
    (s : Server)
    → IsServing s
    → Survives (receive crypto lower parse_ipv6 i req now s)
unfolding receive
receive-Survives crypto lower parse_ipv6 i req now s v =
    if_both Survives req.error_detail (failed_at-IsServing i failed_precondition s v) (
      if_both Survives (is_unsupported req) (failed_at-IsServing i invalid_argument s v) (
        after_process-Survives i (process crypto lower parse_ipv6 i req now s)
          (process-Serves crypto lower parse_ipv6 i req now s v)))

pub open-Survives :
    (i : ℕ) (s : Server) {t : Server} → IsServing s → open_stream i s ≡ some t → IsServing t
unfolding open_stream
open-Survives i s {t} v h = subst IsServing opened (record {
  consistent = counters-IsConsistent s s.version s.draws s.nonce _ v.consistent;
  bounded = (omega arith, v.bounded);
  few = room;
})
  where
    opened :
        record s { watches = (i, record { names = []; updates = []; errors = [] }) ∷ s.watches } ≡ t
    opened = ground arith

    room : suc (length s.watches) ≤ 2 * s.capacity
    room = ground arith

pub close-IsServing : (i : ℕ) (s : Server) → IsServing s → IsServing (close_stream i s)
unfolding close_stream
close-IsServing i s v =
    let b = erase-AllBounded i s.watches v.bounded in
    watches-IsServing s (erase ℕ_discrete i s.watches) v b.0 b.1

sent-IsBounded :
    (w : Watch) {r : Response} {w' : Watch}
    → IsBounded w
    → take_update w ≡ some (r, w')
    → IsBounded w'
unfolding take_update
sent-IsBounded w {r} {w'} b h = ground arith

pub send-IsServing :
    (i : ℕ) (s : Server) {w w' : Watch} {r : Response}
    → IsServing s
    → find ℕ_discrete i s.watches ≡ some w
    → take_update w ≡ some (r, w')
    → IsServing (record s { watches = insert ℕ_discrete i w' s.watches })
send-IsServing i s {w} {w'} {r} v h k =
    let kept =
      insert-AllBounded i w' w s.watches h
        (sent-IsBounded w (find-IsBounded i s.watches v.bounded h) k) v.bounded in
    watches-IsServing s (insert ℕ_discrete i w' s.watches) v kept.0 (omega (arith, kept.1))

pub fail_at-IsServing :
    (i : ℕ) (e : StatusError) (s : Server)
    → IsServing s
    → IsServing (record s { watches = fail_at i e s.watches })
fail_at-IsServing i e s v =
    let kept = fail_at-AllBounded i e s.watches v.bounded in
    watches-IsServing s (fail_at i e s.watches) v kept.0 (omega (arith, kept.1))

empty_server-IsServing :
    (a : Authority) (capacity : ℕ)
    → 0 < capacity
    → capacity ≤ 128
    → IsServing (empty_server a capacity)
unfolding empty_server
empty_server-IsServing a capacity p l = record {
  consistent = empty_server-IsConsistent a capacity p l;
  bounded = tt;
  few = omega arith;
}

pub new_server-IsServing :
    (a : Option Authority) (capacity : ℕ) {s : Server}
    → new_server a capacity ≡ some s
    → IsServing s
new_server-IsServing a capacity {s} h =
    let (b, e, p, l) = new_server-empty_server a capacity h in
    subst IsServing e (empty_server-IsServing b capacity p l)
