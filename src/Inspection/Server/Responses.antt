-- ===== src/Inspection/Server/Responses.antt =====
-- The answer of updateLocked as a whole.
use egress_gateway.Prelude.{
  ℕ, ◌≡◌, refl, sym, ap, ◌∙◌, ◌⊎◌, inl, inr, Bool, true, List, [], ◌∷◌, some, ite, Text,
  Text-discrete, arith, Option-cases, has, add, find, has-add, All, All-has, has-All, keys,
  has-keys, map, ◌||◌,
}
use mathlib.Core.Path.{subst}
use egress_gateway.Inspection.Crypto.{Crypto}
use egress_gateway.Inspection.Server.State.{Server, Resource, Request, Response}
use egress_gateway.Inspection.Server.Elements.{find_name, find_name-secret, find_name-named}
use egress_gateway.Inspection.Server.Consistency.{
  IsConsistent, counters-IsConsistent, unsubscribe_all-IsConsistent,
}
use egress_gateway.Inspection.Server.Update.{
  Progress, Loop, going, Updated, answered, insert_sorted, sorted, add_all, requested, collect,
  answer, unsubscribe_all, update_locked, respond,
}
use egress_gateway.Inspection.Server.Answers.{Holds, IsAnswered, IsSound, Ends}
use egress_gateway.Inspection.Server.Serving.{IsRun, serve_all-IsRun}

has-insert_sorted :
    (m n : Text) (ns : List Text)
    → has Text-discrete m (insert_sorted n ns)
      ≡ ite (Text-discrete n m) true (has Text-discrete m ns)
unfolding has insert_sorted
has-insert_sorted m n [] = refl
has-insert_sorted m n (k ∷ ns) = ground (arith, has-insert_sorted m n ns)

-- Sorting keeps the names.
pub has-sorted :
    (m : Text) (ns : List Text) → has Text-discrete m (sorted ns) ≡ has Text-discrete m ns
unfolding has sorted
has-sorted m [] = refl
has-sorted m (n ∷ ns) = ground (arith, has-insert_sorted m n (sorted ns), has-sorted m ns)

has-add_all :
    (m : Text) (ns set : List Text)
    → has Text-discrete m (add_all ns set) ≡ (has Text-discrete m ns || has Text-discrete m set)
unfolding has add_all
has-add_all m [] set = refl
has-add_all m (n ∷ ns) set =
    ground (arith, has-add_all m ns (add Text-discrete n set), has-add Text-discrete m n set)

pub has-requested :
    (m : Text) (req : Request)
    → has Text-discrete m (requested req)
      ≡ (has Text-discrete m req.initial_versions || has Text-discrete m req.subscribe)
unfolding requested has
has-requested m req = ground (
  arith,
  has-add_all m req.initial_versions (add_all req.subscribe []),
  has-add_all m req.subscribe [],
)

abbrev pub names_of : List Resource → List Text
names_of = map (λ r. r.name)

collect-All :
    (P : Resource → Type 0) (ns : List Text) (m : List (Text × Resource))
    → ((n : Text) (r : Resource) → find Text-discrete n m ≡ some r → P r)
    → All P (collect ns m)
unfolding collect
collect-All P [] m f = tt
collect-All P (n ∷ ns) m f = elim (Option-cases (find Text-discrete n m)) [
  | inl h ↦ rw (h, collect) (collect-All P ns m f)
  | inr (r, h) ↦ rw (h, collect) (f n r h, collect-All P ns m f)
]

has-names_of-collect :
    (n : Text) (ns : List Text) (m : List (Text × Resource)) {r : Resource}
    → find Text-discrete n m ≡ some r
    → r.name ≡ n
    → has Text-discrete n ns ≡ true
    → has Text-discrete n (names_of (collect ns m)) ≡ true
unfolding has collect
has-names_of-collect n [] m f e h = cc
has-names_of-collect n (k ∷ ns) m {r} f e h =
    ground (arith, has-names_of-collect n ns m {r = r} f e)

-- A held resource has the name that it is held under.
pub Holds-name :
    (now : ℕ) (s : Server) (n : Text) (r : Resource)
    → IsConsistent s
    → Holds now s.entries n r
    → r.name ≡ n
Holds-name now s n r c h =
    let found : find_name n s.lru ≡ some h.element = sym (c.synced n) ∙ h.entry in
    ap (λ (t : Resource). t.name) (sym h.same)
    ∙ find_name-named s.next_address n s.lru c.well found
    ∙ (find_name-secret n s.lru found).0

-- The answer speaks of the name: as removed, or by a resource.
abbrev pub Covers : Response → Text → Type 0
Covers resp n =
    (has Text-discrete n resp.removed ≡ true)
    ⊎ (has Text-discrete n (names_of resp.resources) ≡ true)

-- The outcome of a request at a time: a consistent server with an answer whose resources it
-- holds and which covers every name asked for, or a failure that leaves a consistent server.
abbrev pub IsOutcome : Request → ℕ → Updated → Type 0
IsOutcome req now (answered s resp) =
    IsConsistent s
    × All (λ r. Holds now s.entries r.name r) resp.resources
    × All (Covers resp) req.subscribe
    × All (Covers resp) req.initial_versions
IsOutcome req now (Updated.failed s) = IsConsistent s
IsOutcome req now Updated.panicked = ⊥

module _ (now : ℕ) (req : Request) (q : Progress) (s : IsSound now q)
    (all : All (IsAnswered q) (sorted (requested req))) where
  covered : (n : Text) → has Text-discrete n (requested req) ≡ true → Covers (respond q) n
  unfolding respond
  covered n h = go (
      All-has Text-discrete (IsAnswered q) n (sorted (requested req)) all
        (has-sorted n (requested req) ∙ h))
    where
      go : IsAnswered q n → Covers (respond q) n
      go (inl gone) = inl (has-sorted n q.removed ∙ gone)
      go (inr (r, found)) = inr (
          has-names_of-collect n (sorted (keys Text-discrete q.resources)) q.resources found
            (Holds-name now q.server n r s.consistent (s.cached n r found))
            (has-sorted n (keys Text-discrete q.resources)
              ∙ has-keys Text-discrete n q.resources found))

  held : All (λ r. Holds now q.server.entries r.name r) (respond q).resources
  unfolding respond
  held =
      collect-All (λ r. Holds now q.server.entries r.name r)
        (sorted (keys Text-discrete q.resources)) q.resources
        (λ n r h.
          let cached = s.cached n r h in
          subst (λ t. Holds now q.server.entries t r)
            (sym (Holds-name now q.server n r s.consistent cached)) cached)

  answer-IsOutcome : IsOutcome req now (answer (going q))
  unfolding answer
  answer-IsOutcome = (
    counters-IsConsistent q.server q.server.version q.server.draws _ q.server.watches s.consistent,
    held,
    has-All Text-discrete (Covers (respond q)) req.subscribe
        (λ n h. covered n (ground (arith, has-requested n req))),
    has-All Text-discrete (Covers (respond q)) req.initial_versions
        (λ n h. covered n (ground (arith, has-requested n req))),
  )

module _ (crypto : Crypto) (lower : ℕ → ℕ) (parse_ipv6 : Text → Bool) (req : Request) (now : ℕ)
    (s : Server) where
  -- From a consistent server a request never panics. Its answer holds only resources that stand,
  -- unexpired, in the cache of the server after it, and it covers every name subscribed to or
  -- known before, with a resource or as removed; the server stays consistent, also where the
  -- request fails in the middle.
  pub update_locked-IsOutcome :
      IsConsistent s → IsOutcome req now (update_locked crypto lower parse_ipv6 req now s)
  unfolding update_locked
  update_locked-IsOutcome c =
      go _ (serve_all-IsRun crypto lower parse_ipv6 now (sorted (requested req)) start start_sound)
    where
      start : Progress
      start = record { server = unsubscribe_all req.unsubscribe s; resources = []; removed = [] }

      start_sound : IsSound now start
      start_sound = record {
        consistent = unsubscribe_all-IsConsistent req.unsubscribe s c;
        cached = λ m r h. none_found m r h;
      }
        where
          none_found :
              (m : Text) (r : Resource)
              → find Text-discrete m [] ≡ some r
              → Holds now start.server.entries m r
          none_found m r h = absurd (unfold find in cc)

      go :
          (l : Loop)
          → Ends (IsRun crypto lower parse_ipv6 now (sorted (requested req)) start) l
          → IsOutcome req now (answer l)
      go (going q) run = answer-IsOutcome now req q run.sound run.answered
      go (Loop.failed t) h = unfold answer in h
      go Loop.panicked h = absurd h
