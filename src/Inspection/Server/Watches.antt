-- ===== src/Inspection/Server/Watches.antt =====
-- The streams of the secret server: DeltaSecrets, process, enqueue and fail. A channel is the list
-- of what waits in it.
pub mod Bounds
pub mod Limits
pub mod Delivery
pub mod Steps
use egress_gateway.Prelude.{
  ℕ, suc, ◌+◌, ◌*◌, ◌≡◌, Bool, true, false, ◌||◌, not, List, [], ◌∷◌, ◌++◌, Option, none, some, ite,
  leb, ltb, ◌==◌, if◌then◌else◌, Text, Text-discrete, ℕ_discrete, length, has, add, delete, find,
  insert, erase,
}
use egress_gateway.Inspection.Crypto.{Crypto}
use egress_gateway.Inspection.Server.State.{
  Server, Watch, Resource, Request, Response, StatusError, resource_exhausted, failed_precondition,
  invalid_argument, canceled, internal, secret_type, max_request_names,
}
use egress_gateway.Inspection.Server.Update.{Updated, answered, add_all, update_locked}

-- The errors channel holds one error; a later one is dropped.
unfoldable pub fail : StatusError → Watch → Watch
fail e w = if ltb (length w.errors) 1 then record w { errors = w.errors ++ (e ∷ []) } else w

-- The updates channel holds four responses. An empty response is not sent.
unfoldable pub enqueue : Response → Watch → Watch
unfolding fail
enqueue r w =
    if length r.resources + length r.removed == 0
    then w
    else if ltb (length w.updates) 4
    then record w { updates = w.updates ++ (r ∷ []) }
    else fail resource_exhausted w

unfoldable pub delete_all : List Text → List Text → List Text
unfolding delete
delete_all [] names = names
delete_all (n ∷ ns) names = delete_all ns (delete Text-discrete n names)

-- The names of a watch after a request.
unfoldable pub watched : Request → List Text → List Text
unfolding delete_all add_all
watched req names =
    add_all req.initial_versions (add_all req.subscribe (delete_all req.unsubscribe names))

unfoldable pub interesting : List Text → List Resource → List Resource
unfolding has
interesting names [] = []
interesting names (r ∷ rs) =
    let rest = interesting names rs in if has Text-discrete r.name names then r ∷ rest else rest

-- The loop over the removed names: those that the watch has, and its names without them.
unfoldable pub drop_removed : List Text → List Text → List Text × List Text
unfolding has delete
drop_removed [] names = ([], names)
drop_removed (n ∷ ns) names =
    let (gone, left) =
      drop_removed ns (if has Text-discrete n names then delete Text-discrete n names else names) in
    (if has Text-discrete n names then n ∷ gone else gone, left)

-- The part of a response that concerns a watch.
unfoldable pub event_for : Response → Watch → Response
unfolding interesting drop_removed
event_for resp w = record resp {
  resources = interesting w.names resp.resources;
  removed = (drop_removed resp.removed w.names).0;
}

unfoldable pub notify : Response → Watch → Watch
unfolding event_for enqueue
notify resp w =
    enqueue (event_for resp w) (record w { names = (drop_removed resp.removed w.names).1 })

unfoldable pub notify_all : Response → List (ℕ × Watch) → List (ℕ × Watch)
unfolding notify
notify_all resp [] = []
notify_all resp ((i, w) ∷ ws) = (i, notify resp w) ∷ notify_all resp ws

-- What process returns: no error, a status error, or the panic of updateLocked.
pub data Processed : Type 0 where
  done : Server → Processed
  refused : StatusError → Server → Processed
  crashed : Processed

unfoldable pub deliver : Updated → Processed
unfolding notify_all
deliver (answered s resp) = done (record s { watches = notify_all resp s.watches })
deliver (Updated.failed s) = refused internal s
deliver Updated.panicked = crashed

module _ (crypto : Crypto) (lower : ℕ → ℕ) (parse_ipv6 : Text → Bool) where
  unfoldable pub process_watch : ℕ → Watch → Request → ℕ → Server → Processed
  unfolding watched deliver insert
  process_watch i w req now s =
      let names = watched req w.names in
      let s' : Server = record s {
        watches = insert ℕ_discrete i (record w { names = names }) s.watches;
      } in
      if ltb max_request_names (length names)
      then refused resource_exhausted s'
      else deliver (update_locked crypto lower parse_ipv6 req now s')

  unfoldable pub process : ℕ → Request → ℕ → Server → Processed
  unfolding process_watch find
  process i req now s = elim (find ℕ_discrete i s.watches) [
    | none ↦ refused canceled s
    | some w ↦ process_watch i w req now s
  ]

-- `w.fail(err)` of the watch behind a pointer
unfoldable pub fail_at : ℕ → StatusError → List (ℕ × Watch) → List (ℕ × Watch)
unfolding fail
fail_at i e [] = []
fail_at i e ((j, w) ∷ ws) = ite (ℕ_discrete j i) ((j, fail e w) ∷ ws) ((j, w) ∷ fail_at i e ws)

unfoldable pub is_unsupported : Request → Bool
is_unsupported req =
    not (text_eq req.type_url secret_type)
    || ltb max_request_names (length req.subscribe + length req.initial_versions)
    || ltb max_request_names (length req.unsubscribe)
  where
    text_eq : Text → Text → Bool
    text_eq a b = ite (Text-discrete a b) true false

unfoldable pub after_process : ℕ → Processed → Option Server
unfolding fail_at
after_process i (done s) = some s
after_process i (refused e s) = some (record s { watches = fail_at i e s.watches })
after_process i crashed = none

module _ (crypto : Crypto) (lower : ℕ → ℕ) (parse_ipv6 : Text → Bool) where
  -- One round of the receiving goroutine, on a request. `none` is a panic.
  unfoldable pub receive : ℕ → Request → ℕ → Server → Option Server
  unfolding is_unsupported after_process process fail_at
  receive i req now s =
      if req.error_detail
      then some (record s { watches = fail_at i failed_precondition s.watches })
      else if is_unsupported req
      then some (record s { watches = fail_at i invalid_argument s.watches })
      else after_process i (process crypto lower parse_ipv6 i req now s)

-- The start of DeltaSecrets: a new watch, under a pointer that is not in use, unless there are
-- too many.
unfoldable pub open_stream : ℕ → Server → Option Server
open_stream i s =
    if leb (2 * s.capacity) (length s.watches)
    then none
    else some
        (record s { watches = (i, record { names = []; updates = []; errors = [] }) ∷ s.watches })

-- The deferred `delete(s.watches, w)`
unfoldable pub close_stream : ℕ → Server → Server
unfolding erase
close_stream i s = record s { watches = erase ℕ_discrete i s.watches }

-- `response := <-w.updates` of the sending loop
unfoldable pub take_update : Watch → Option (Response × Watch)
take_update w = elim w.updates [ [] ↦ none | r ∷ rs ↦ some (r, record w { updates = rs }) ]
