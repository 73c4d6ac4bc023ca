-- ===== src/Inspection/Server/Frame.antt =====
-- What updateLocked leaves alone: the watches, the capacity and the authority.
use egress_gateway.Prelude.{
  ℕ, ◌+◌, ◌≡◌, refl, ◌∙◌, inl, inr, Bool, List, [], ◌∷◌, Option, none, some, Text, length, arith,
  Option-cases, Bool-cases, ltb, ◌==◌,
}
use egress_gateway.Prelude.Results.{Result, ok, err}
use egress_gateway.Inspection.Crypto.{Bytes, Crypto}
use egress_gateway.Inspection.Leaf.{issue}
use egress_gateway.Inspection.Names.{canonical_name}
use egress_gateway.Inspection.Names
use egress_gateway.Inspection.Server.State.{
  Server, Element, Resource, Request, remove, back, secret_ttl,
}
use egress_gateway.Inspection.Server.Consistency.{remove_frame}
use egress_gateway.Inspection.Server.Update.{
  Progress, Loop, going, failed, panicked, evict, make_room, push_front, store, add_resource, pack,
  fresh, serve_entry, serve_valid, serve, serve_all, Updated, answered, answer, is_interested,
  sorted, requested, unsubscribe_all, update_locked, next_version,
}

-- The second server differs from the first in its cache and its counters alone.
pub record IsKept (s t : Server) : Type 0 where
  pub watches : t.watches ≡ s.watches
  pub capacity : t.capacity ≡ s.capacity
  pub authority : t.authority ≡ s.authority

IsKept-trans : {s t u : Server} → IsKept s t → IsKept t u → IsKept s u
IsKept-trans h k = record {
  watches = k.watches ∙ h.watches;
  capacity = k.capacity ∙ h.capacity;
  authority = k.authority ∙ h.authority;
}

IsKept-remove : (name : Text) (s : Server) → IsKept s (remove name s)
IsKept-remove name s = ground (arith, remove_frame name s)

abbrev Keeps : Server → Loop → Type 0
Keeps s (going q) = IsKept s q.server
Keeps s (failed t) = IsKept s t
Keeps s panicked = Unit {0}

Keeps-trans : (s t : Server) (l : Loop) → IsKept s t → Keeps t l → Keeps s l
Keeps-trans s t (going q) h k = IsKept-trans h k
Keeps-trans s t (failed u) h k = IsKept-trans h k
Keeps-trans s t panicked h k = tt

module _ (now : ℕ) where
  store-Keeps : (r : Resource) (p : Progress) → Keeps p.server (store r now (some p))
  unfolding store push_front
  store-Keeps r p = record { watches = refl; capacity = refl; authority = refl }

  store_room-Keeps : (r : Resource) (p : Progress) → Keeps p.server (store r now (make_room p))
  unfolding make_room
  store_room-Keeps r p = elim (Bool-cases (length p.server.lru == p.server.capacity)) [
    | inl full ↦ elim (Option-cases (back p.server.lru)) [
      | inl h ↦ rw (full, h) (unfold store in tt)
      | inr (e, h) ↦
          rw (full, h)
            (Keeps-trans p.server (evict e p).server _ (evict-Kept e) (store-Keeps r (evict e p)))
    ]
    | inr free ↦ rw free (store-Keeps r p)
  ]
    where
      evict-Kept : (e : Element) → IsKept p.server (evict e p).server
      evict-Kept e = unfold evict in IsKept-remove e.secret.name p.server

  add_resource-Keeps :
      (name : Text) (value : Bytes) (p : Progress) → Keeps p.server (add_resource name value now p)
  unfolding add_resource
  add_resource-Keeps name value p =
      let p' : Progress = record p {
        server = record p.server { version = next_version p.server };
      } in
      let r : Resource = record {
        name = name;
        version = next_version p.server;
        value = value;
        ttl = secret_ttl;
      } in
      Keeps-trans p.server p'.server (store r now (make_room p'))
        (record { watches = refl; capacity = refl; authority = refl }) (store_room-Keeps r p')

module _ (crypto : Crypto) (now : ℕ) where
  pack-Keeps :
      (name : Text) (pair : Option (Bytes × Bytes)) (p : Progress)
      → Keeps p.server (pack crypto now name p pair)
  unfolding pack
  pack-Keeps name none p = record { watches = refl; capacity = refl; authority = refl }
  pack-Keeps name (some (c, k)) p =
      elim (Option-cases
        (crypto.any_new (record { name = name; certificate_chain = c; private_key = k }))) [
          | inl h ↦ rw (h, pack) (record { watches = refl; capacity = refl; authority = refl })
          | inr (value, h) ↦ rw (h, pack) (add_resource-Keeps now name value p)
        ]

  fresh-Keeps :
      (name canonical : Text) (p : Progress) → Keeps p.server (fresh crypto now name canonical p)
  unfolding fresh
  fresh-Keeps name canonical p =
      let p' : Progress = record p { server = record p.server { draws = p.server.draws + 1 } } in
      let pair = issue crypto p.server.authority canonical p.server.draws now in
      Keeps-trans p.server p'.server (pack crypto now name p' pair)
        (record { watches = refl; capacity = refl; authority = refl }) (pack-Keeps name pair p')

  serve_valid-Keeps :
      (name canonical : Text) (p : Progress)
      → Keeps p.server (serve_valid crypto now name canonical p)
  unfolding serve_valid serve_entry
  serve_valid-Keeps name canonical p = elim (Option-cases (p.server.entries name)) [
    | inl h ↦ rw (h, serve_valid) (fresh-Keeps name canonical p)
    | inr (e, h) ↦ elim (Bool-cases (ltb now e.secret.expires)) [
      | inl live ↦
          rw (h, serve_valid, live) (record { watches = refl; capacity = refl; authority = refl })
      | inr stale ↦
          rw (h, serve_valid, stale)
            (let p' : Progress = record p { server = remove name p.server } in
              Keeps-trans p.server p'.server (fresh crypto now name canonical p')
                (IsKept-remove name p.server) (fresh-Keeps name canonical p'))
    ]
  ]

module _ (crypto : Crypto) (lower : ℕ → ℕ) (parse_ipv6 : Text → Bool) (now : ℕ) where
  serve-Keeps :
      (name : Text) (p : Progress) → Keeps p.server (serve crypto lower parse_ipv6 now name p)
  unfolding serve
  serve-Keeps name p = go (canonical_name lower parse_ipv6 name) refl
    where
      go :
          (r : Result Names.NameError Text)
          → canonical_name lower parse_ipv6 name ≡ r
          → Keeps p.server (serve crypto lower parse_ipv6 now name p)
      go (err e) h = rw (h, serve) (record { watches = refl; capacity = refl; authority = refl })
      go (ok c) h = rw (h, serve) (serve_valid-Keeps crypto now name c p)

  serve_all-Keeps :
      (names : List Text) (s : Server) (l : Loop)
      → Keeps s l
      → Keeps s (serve_all crypto lower parse_ipv6 now names l)
  unfolding serve_all
  serve_all-Keeps [] s l h = h
  serve_all-Keeps (n ∷ ns) s (going p) h =
      serve_all-Keeps ns s (serve crypto lower parse_ipv6 now n p)
        (Keeps-trans s p.server _ h (serve-Keeps n p))
  serve_all-Keeps (n ∷ ns) s (failed t) h = h
  serve_all-Keeps (n ∷ ns) s panicked h = h

unsubscribe_all-Kept : (names : List Text) (s : Server) → IsKept s (unsubscribe_all names s)
unfolding unsubscribe_all
unsubscribe_all-Kept [] s = record { watches = refl; capacity = refl; authority = refl }
unsubscribe_all-Kept (n ∷ ns) s = elim (Bool-cases (is_interested n s.watches)) [
  | inl h ↦ rw h (unsubscribe_all-Kept ns s)
  | inr h ↦ rw h (IsKept-trans (IsKept-remove n s) (unsubscribe_all-Kept ns (remove n s)))
]

-- The server of an outcome, against the server before.
abbrev pub KeepsAll : Server → Updated → Type 0
KeepsAll s (answered t resp) = IsKept s t
KeepsAll s (Updated.failed t) = IsKept s t
KeepsAll s Updated.panicked = Unit {0}

pub update_locked-KeepsAll :
    (crypto : Crypto) (lower : ℕ → ℕ) (parse_ipv6 : Text → Bool) (req : Request) (now : ℕ)
    (s : Server)
    → KeepsAll s (update_locked crypto lower parse_ipv6 req now s)
unfolding update_locked
update_locked-KeepsAll crypto lower parse_ipv6 req now s = go _ (
    serve_all-Keeps crypto lower parse_ipv6 now (sorted (requested req)) s
      (going (record { server = unsubscribe_all req.unsubscribe s; resources = []; removed = [] }))
      (unsubscribe_all-Kept req.unsubscribe s))
  where
    go : (l : Loop) → Keeps s l → KeepsAll s (answer l)
    go (going q) h =
        unfold answer in
        record { watches = h.watches; capacity = h.capacity; authority = h.authority }
    go (failed t) h = unfold answer in h
    go panicked h = unfold answer in h
