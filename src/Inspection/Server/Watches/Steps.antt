-- ===== src/Inspection/Server/Watches/Steps.antt =====
-- The goroutines of all streams as steps of one server: streams open and close, receive requests
-- and take responses from their queues, in any order.
use egress_gateway.Prelude.{ℕ, Bool, ◌≡◌, ◌⊎◌, Option, none, some, Text, ℕ_discrete, find, insert}
use mathlib.Core.Path.{subst}
use egress_gateway.Inspection.Crypto.{Crypto}
use egress_gateway.Inspection.Leaf.{Authority}
use egress_gateway.Inspection.Server.State.{
  Server, Watch, Request, Response, StatusError, new_server,
}
use egress_gateway.Inspection.Server.Watches.{
  receive, fail_at, open_stream, close_stream, take_update,
}
use egress_gateway.Inspection.Server.Watches.Bounds.{
  IsServing, Survives, receive-Survives, open-Survives, close-IsServing, send-IsServing,
  fail_at-IsServing, new_server-IsServing,
}

module _ (crypto : Crypto) (lower : ℕ → ℕ) (parse_ipv6 : Text → Bool) where
  pub data Step : Server → Server → Type 0 where
    opens :
        {s t : Server} (i : ℕ)
        → find ℕ_discrete i s.watches ≡ none
        → open_stream i s ≡ some t
        → Step s t
    receives :
        {s t : Server} (i : ℕ) (req : Request) (now : ℕ)
        → receive crypto lower parse_ipv6 i req now s ≡ some t
        → Step s t
    -- stream.Recv fails, with io.EOF at the end of the stream
    receive_fails :
        {s : Server} (i : ℕ) (e : StatusError)
        → (e ≡ StatusError.receive_error) ⊎ (e ≡ StatusError.end_of_stream)
        → Step s (record s { watches = fail_at i e s.watches })
    sends :
        {s : Server} (i : ℕ) (w w' : Watch) (r : Response)
        → find ℕ_discrete i s.watches ≡ some w
        → take_update w ≡ some (r, w')
        → Step s (record s { watches = insert ℕ_discrete i w' s.watches })
    closes : {s : Server} (i : ℕ) → Step s (close_stream i s)

  pub data Reach (s : Server) : Server → Type 0 where
    here : Reach s s
    next : {t u : Server} → Reach s t → Step t u → Reach s u

  Step-IsServing : {s t : Server} → Step s t → IsServing s → IsServing t
  Step-IsServing (opens i new e) v = open-Survives i _ v e
  Step-IsServing (receives i req now e) v =
      subst Survives e (receive-Survives crypto lower parse_ipv6 i req now _ v)
  Step-IsServing (receive_fails i e h) v = fail_at-IsServing i e _ v
  Step-IsServing (sends i w w' r h k) v = send-IsServing i _ v h k
  Step-IsServing (closes i) v = close-IsServing i _ v

  Reach-IsServing : {s t : Server} → IsServing s → Reach s t → IsServing t
  Reach-IsServing v here = v
  Reach-IsServing v (next r st) = Step-IsServing st (Reach-IsServing v r)

  -- However the streams of a new server interleave, its cache stays consistent and within its
  -- capacity, at most twice as many streams are open as the capacity, and each queue holds four
  -- responses and one error at most; and no request that comes in next makes it panic.
  pub Reach-new_server :
      (a : Option Authority) (capacity : ℕ) {s t : Server} (i : ℕ) (req : Request) (now : ℕ)
      → new_server a capacity ≡ some s
      → Reach s t
      → IsServing t × Survives (receive crypto lower parse_ipv6 i req now t)
  Reach-new_server a capacity i req now h r =
      let v = Reach-IsServing (new_server-IsServing a capacity h) r in
      (v, receive-Survives crypto lower parse_ipv6 i req now _ v)
