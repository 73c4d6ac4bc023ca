-- ===== src/Inspection/Server/Answers.antt =====
-- What the loop of updateLocked keeps: the entries of the answer stand in the cache, and no name
-- that it has seen is left without an answer.
use egress_gateway.Prelude.{
  ℕ, ◌+◌, ◌<◌, ◌≡◌, ◌≢◌, refl, sym, ◌⊎◌, inl, inr, true, Option, none, some, Text, Text-discrete,
  length, arith, has, add, insert, find, has-add, find-insert, find-erase,
}
use mathlib.Core.Path.{subst}
use egress_gateway.Inspection.Crypto.{Bytes}
use egress_gateway.Inspection.Server.State.{CachedSecret, Element, Resource, secret_ttl}
use egress_gateway.Inspection.Server.Consistency.{
  IsConsistent, counters-IsConsistent, HasRoom, make_room-HasRoom, push-IsConsistent,
  entries-remove,
}
use egress_gateway.Inspection.Server.Update.{
  Progress, Loop, going, failed, panicked, evict, push_front, store, add_resource, next_version,
}

-- The cache holds the resource for the name, unexpired.
pub record Holds (now : ℕ) (entries : Text → Option Element) (name : Text) (r : Resource)
    : Type 0 where
  pub element : Element
  pub entry : entries name ≡ some element
  pub same : element.secret.resource ≡ r
  pub unexpired : now < element.secret.expires

-- The name has an answer so far: it is reported as removed, or has a resource.
abbrev pub IsAnswered : Progress → Text → Type 0
IsAnswered p m =
    (has Text-discrete m p.removed ≡ true)
    ⊎ ((r : Resource) × (find Text-discrete m p.resources ≡ some r))

-- Every resource of the answer stands in the cache, but perhaps that of one name.
pub record IsSoundBut (now : ℕ) (name : Text) (p : Progress) : Type 0 where
  pub consistent : IsConsistent p.server
  pub cached :
      (m : Text) (r : Resource)
      → name ≢ m
      → find Text-discrete m p.resources ≡ some r
      → Holds now p.server.entries m r

pub record IsSound (now : ℕ) (p : Progress) : Type 0 where
  pub consistent : IsConsistent p.server
  pub cached :
      (m : Text) (r : Resource)
      → find Text-discrete m p.resources ≡ some r
      → Holds now p.server.entries m r

-- A step ends in a progress with the property, or fails with a consistent server.
abbrev pub Ends : (Progress → Type 0) → Loop → Type 0
Ends P (going p) = P p
Ends P (failed s) = IsConsistent s
Ends P panicked = ⊥

-- What a step for a name makes of the progress before it.
pub record IsNext (now : ℕ) (name : Text) (p q : Progress) : Type 0 where
  pub sound : IsSound now q
  pub answered : IsAnswered q name
  pub kept : (m : Text) → IsAnswered p m → IsAnswered q m

module _ (now : ℕ) (name : Text) where
  evict-cached :
      (e : Element) (p : Progress) (s : IsSoundBut now name p) (m : Text) (r : Resource)
      → name ≢ m
      → find Text-discrete m (evict e p).resources ≡ some r
      → Holds now (evict e p).server.entries m r
  unfolding evict
  evict-cached e p s m r ne h = elim (Text-discrete e.secret.name m) [
    | yes same ↦ absurd (ground (arith, find-erase Text-discrete m e.secret.name p.resources))
    | no other ↦
        let held =
          s.cached m r ne (ground (arith, find-erase Text-discrete m e.secret.name p.resources)) in
        record {
          element = held.element;
          entry = ground (arith, entries-remove p.server e.secret.name s.consistent m, held.entry);
          same = held.same;
          unexpired = held.unexpired;
        }
  ]

  evict-kept : (e : Element) (p : Progress) (m : Text) → IsAnswered p m → IsAnswered (evict e p) m
  unfolding evict
  evict-kept e p m (inl h) = inl (ground (arith, has-add Text-discrete m e.secret.name p.removed))
  evict-kept e p m (inr (r, h)) = elim (Text-discrete e.secret.name m) [
    | yes same ↦ inl (ground (arith, has-add Text-discrete m e.secret.name p.removed))
    | no other ↦ inr (r, ground (arith, find-erase Text-discrete m e.secret.name p.resources))
  ]

  -- Making room keeps what the answer has, and leaves the name's place free.
  make_room-IsSoundBut :
      (p q : Progress)
      → IsSoundBut now name p
      → HasRoom p q
      → IsSoundBut now name q × ((m : Text) → IsAnswered p m → IsAnswered q m)
  make_room-IsSoundBut p q s h = go h.how
    where
      go :
          (q ≡ p) ⊎ ((e : Element) × (q ≡ evict e p))
          → IsSoundBut now name q × ((m : Text) → IsAnswered p m → IsAnswered q m)
      go (inl same) = (
        record {
          consistent = h.consistent;
          cached =
              subst
                (λ t.
                  (m : Text) (r : Resource)
                  → name ≢ m
                  → find Text-discrete m t.resources ≡ some r
                  → Holds now t.server.entries m r)
                (sym same) s.cached;
        },
        subst (λ t. (m : Text) → IsAnswered p m → IsAnswered t m) (sym same) (λ m a. a),
      )
      go (inr (e, same)) = (
        record {
          consistent = h.consistent;
          cached =
              subst
                (λ t.
                  (m : Text) (r : Resource)
                  → name ≢ m
                  → find Text-discrete m t.resources ≡ some r
                  → Holds now t.server.entries m r)
                (sym same) (evict-cached e p s);
        },
        subst (λ t. (m : Text) → IsAnswered p m → IsAnswered t m) (sym same) (evict-kept e p),
      )

-- The answer only grows by a resource, or by a removed name.
pub insert_kept :
    (name : Text) (r : Resource) (p : Progress) (m : Text)
    → IsAnswered p m
    → IsAnswered (record p { resources = insert Text-discrete name r p.resources }) m
insert_kept name r p m (inl h) = inl h
insert_kept name r p m (inr (r', h)) = elim (Text-discrete name m) [
  | yes same ↦ inr (r, ground (arith, find-insert Text-discrete m name r p.resources))
  | no other ↦ inr (r', ground (arith, find-insert Text-discrete m name r p.resources))
]

pub removed_kept :
    (name : Text) (p : Progress) (m : Text)
    → IsAnswered p m
    → IsAnswered (record p { removed = add Text-discrete name p.removed }) m
removed_kept name p m (inl h) = inl (ground (arith, has-add Text-discrete m name p.removed))
removed_kept name p m (inr h) = inr h

-- The new entry, and its resource in the answer.
module _ (now : ℕ) (r : Resource) (p : Progress) (s : IsSoundBut now r.name p) where
  abbrev stored_secret : CachedSecret
  stored_secret = record { name = r.name; resource = r; expires = now + secret_ttl }

  stored_cached :
      (m : Text) (r' : Resource)
      → find Text-discrete m (insert Text-discrete r.name r p.resources) ≡ some r'
      → Holds now (push_front stored_secret p.server).entries m r'
  unfolding push_front
  stored_cached m r' h = elim (Text-discrete r.name m) [
    | yes same ↦ record {
      element = record { address = p.server.next_address; secret = stored_secret };
      entry = ground arith;
      same = ground (arith, find-insert Text-discrete m r.name r p.resources);
      unexpired = omega arith;
    }
    | no other ↦
        let held =
          s.cached m r' other (ground (arith, find-insert Text-discrete m r.name r p.resources)) in
        record {
          element = held.element;
          entry = ground (arith, held.entry);
          same = held.same;
          unexpired = held.unexpired;
        }
  ]

  store-IsNext :
      p.server.entries r.name ≡ none
      → length p.server.lru < p.server.capacity
      → Ends (IsNext now r.name p) (store r now (some p))
  unfolding store
  store-IsNext absent room = record {
    sound = record {
      consistent = push-IsConsistent p.server stored_secret s.consistent absent refl room;
      cached = stored_cached;
    };
    answered = inr (r, ground (arith, find-insert Text-discrete r.name r.name r p.resources));
    kept = insert_kept r.name r p;
  }

-- A weaker property of the end.
pub Ends-map :
    {P Q : Progress → Type 0} (l : Loop) → ((q : Progress) → P q → Q q) → Ends P l → Ends Q l
Ends-map (going q) f h = f q h
Ends-map (failed s) f h = h
Ends-map panicked f h = h

-- The answers of an earlier progress are kept too.
pub Ends-from :
    (now : ℕ) (name : Text) (p p' : Progress) (l : Loop)
    → ((m : Text) → IsAnswered p m → IsAnswered p' m)
    → Ends (IsNext now name p') l
    → Ends (IsNext now name p) l
Ends-from now name p p' l f =
    Ends-map {P = IsNext now name p'} {Q = IsNext now name p} l
      (λ t n. record { sound = n.sound; answered = n.answered; kept = λ m a. n.kept m (f m a) })

module _ (now : ℕ) (name : Text) where
  pub add_resource-IsNext :
      (value : Bytes) (p : Progress)
      → IsSoundBut now name p
      → p.server.entries name ≡ none
      → Ends (IsNext now name p) (add_resource name value now p)
  unfolding add_resource
  add_resource-IsNext value p s absent =
      let p' : Progress = record p {
        server = record p.server { version = next_version p.server };
      } in
      let r : Resource = record {
        name = name;
        version = next_version p.server;
        value = value;
        ttl = secret_ttl;
      } in
      let s' : IsSoundBut now name p' = record {
        consistent =
            counters-IsConsistent p.server _ p.server.draws p.server.nonce p.server.watches
              s.consistent;
        cached = s.cached;
      } in
      let (q, made, has_room) = make_room-HasRoom p' s'.consistent in
      let (sound, kept) = make_room-IsSoundBut now name p' q s' has_room in
      rw made (
        Ends-from now name p q (store r now (some q)) kept
          (store-IsNext now r q sound (has_room.absent name absent) has_room.room))
