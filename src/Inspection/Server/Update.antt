-- ===== src/Inspection/Server/Update.antt =====
-- SecretServer.updateLocked: the answer to a request, from the cache or freshly issued.
use egress_gateway.Prelude.{
  ℕ, ◌+◌, ◌%◌, Bool, false, ◌||◌, List, [], ◌∷◌, Option, none, some, ltb, ◌==◌, if◌then◌else◌, Text,
  text, Text-discrete, text_ltb, update, length, has, add, insert, erase, find, keys,
}
use egress_gateway.Prelude.Results.{ok, err}
use egress_gateway.Inspection.Crypto.{Bytes, Crypto}
use egress_gateway.Inspection.Leaf.{issue}
use egress_gateway.Inspection.Names.{canonical_name}
use egress_gateway.Inspection.Server.State.{
  Server, Watch, Element, CachedSecret, Resource, Request, Response, secret_type, secret_ttl,
  uint64_mod, remove, move_to_front, back,
}

-- The loop over the subscribed names: the maps that it fills, and the server that it changes.
pub record Progress : Type 0 where
  pub server : Server
  pub resources : List (Text × Resource)
  pub removed : List Text

-- A step of the loop, or the loop: an error keeps the changes made so far, and a panic is the
-- dereference of the back of an empty list.
pub data Loop : Type 0 where
  going : Progress → Loop
  failed : Server → Loop
  panicked : Loop

unfoldable pub is_interested : Text → List (ℕ × Watch) → Bool
is_interested name [] = false
is_interested name ((i, w) ∷ ws) = has Text-discrete name w.names || is_interested name ws

-- The loop over the unsubscribed names.
unfoldable pub unsubscribe_all : List Text → Server → Server
unfolding is_interested has remove
unsubscribe_all [] s = s
unsubscribe_all (name ∷ names) s =
    unsubscribe_all names (if is_interested name s.watches then s else remove name s)

-- slices.Sorted over the keys of a set
unfoldable pub insert_sorted : Text → List Text → List Text
unfolding text_ltb
insert_sorted name [] = name ∷ []
insert_sorted name (n ∷ ns) = if text_ltb n name then n ∷ insert_sorted name ns else name ∷ n ∷ ns

unfoldable pub sorted : List Text → List Text
unfolding insert_sorted
sorted [] = []
sorted (n ∷ ns) = insert_sorted n (sorted ns)

unfoldable pub add_all : List Text → List Text → List Text
unfolding add
add_all [] set = set
add_all (n ∷ ns) set = add_all ns (add Text-discrete n set)

-- The set `requested`.
unfoldable pub requested : Request → List Text
unfolding add_all
requested req = add_all req.initial_versions (add_all req.subscribe [])

-- Gives up an entry, which the answer reports as removed.
unfoldable pub evict : Element → Progress → Progress
unfolding remove add erase
evict e p = record {
  server = remove e.secret.name p.server;
  resources = erase Text-discrete e.secret.name p.resources;
  removed = add Text-discrete e.secret.name p.removed;
}

-- A full cache gives up its back. `none` is the panic.
unfoldable pub make_room : Progress → Option Progress
unfolding back evict
make_room p =
    if length p.server.lru == p.server.capacity
    then elim (back p.server.lru) [ none ↦ none | some e ↦ some (evict e p) ]
    else some p

-- The new entry goes to the front of the list, and into the map.
unfoldable pub push_front : CachedSecret → Server → Server
push_front c s =
    let e : Element = record { address = s.next_address; secret = c } in
    record s {
      lru = e ∷ s.lru;
      entries = update Text-discrete c.name e s.entries;
      next_address = s.next_address + 1;
    }

-- Both maps get the issued resource.
unfoldable pub store : Resource → ℕ → Option Progress → Loop
unfolding push_front insert
store r now none = panicked
store r now (some p) = going (record p {
  server = push_front (record { name = r.name; resource = r; expires = now + secret_ttl }) p.server;
  resources = insert Text-discrete r.name r p.resources;
})

unfoldable pub next_version : Server → ℕ
next_version s = (s.version + 1) % uint64_mod

-- `s.version++`, and the new resource
unfoldable pub add_resource : Text → Bytes → ℕ → Progress → Loop
unfolding make_room store next_version
add_resource name value now p =
    store (record { name = name; version = next_version p.server; value = value; ttl = secret_ttl })
      now (make_room (record p { server = record p.server { version = next_version p.server } }))

module _ (crypto : Crypto) (now : ℕ) where
  unfoldable pub pack : Text → Progress → Option (Bytes × Bytes) → Loop
  unfolding add_resource
  pack name p none = failed p.server
  pack name p (some (certificate, key)) =
      elim (crypto.any_new
        (record { name = name; certificate_chain = certificate; private_key = key })) [
          | none ↦ failed p.server
          | some value ↦ add_resource name value now p
        ]

  -- Issues a certificate; the draw moves the random stream on.
  unfoldable pub fresh : Text → Text → Progress → Loop
  unfolding pack issue
  fresh name canonical p =
      pack name (record p { server = record p.server { draws = p.server.draws + 1 } })
        (issue crypto p.server.authority canonical p.server.draws now)

  -- A name with an entry in the map.
  unfoldable pub serve_entry : Text → Text → Element → Progress → Loop
  unfolding fresh remove move_to_front insert
  serve_entry name canonical e p =
      if ltb now e.secret.expires
      then going (record p {
        server = record p.server { lru = move_to_front e p.server.lru };
        resources = insert Text-discrete name e.secret.resource p.resources;
      })
      else fresh name canonical (record p { server = remove name p.server })

  unfoldable pub serve_valid : Text → Text → Progress → Loop
  unfolding serve_entry fresh
  serve_valid name canonical p = elim (p.server.entries name) [
    | none ↦ fresh name canonical p
    | some e ↦ serve_entry name canonical e p
  ]

-- `lower` is unicode.ToLower beyond ASCII, `parse_ipv6` netip's reader of IPv6 texts.
module _ (crypto : Crypto) (lower : ℕ → ℕ) (parse_ipv6 : Text → Bool) (now : ℕ) where
  -- The body of the loop over the requested names.
  unfoldable pub serve : Text → Progress → Loop
  unfolding serve_valid canonical_name add
  serve name p = elim (canonical_name lower parse_ipv6 name) [
    | err e ↦ going (record p { removed = add Text-discrete name p.removed })
    | ok canonical ↦ serve_valid crypto now name canonical p
  ]

  unfoldable pub serve_all : List Text → Loop → Loop
  unfolding serve
  serve_all [] l = l
  serve_all (n ∷ ns) (going p) = serve_all ns (serve n p)
  serve_all (n ∷ ns) (failed s) = failed s
  serve_all (n ∷ ns) panicked = panicked

unfoldable pub collect : List Text → List (Text × Resource) → List Resource
unfolding find
collect [] m = []
collect (n ∷ ns) m = elim (find Text-discrete n m) [
  | none ↦ collect ns m
  | some r ↦ r ∷ collect ns m
]

pub data Updated : Type 0 where
  answered : Server → Response → Updated
  failed : Server → Updated
  panicked : Updated

unfoldable pub next_nonce : Server → ℕ
next_nonce s = (s.nonce + 1) % uint64_mod

-- The response, under the nonce that `s.nonce++` gives.
unfoldable pub respond : Progress → Response
unfolding next_nonce collect sorted keys
respond p = record {
  type_url = secret_type;
  nonce = next_nonce p.server;
  system_version_info = text "inspection";
  resources = collect (sorted (keys Text-discrete p.resources)) p.resources;
  removed = sorted p.removed;
}

unfoldable pub answer : Loop → Updated
unfolding respond next_nonce
answer (going p) = answered (record p.server { nonce = next_nonce p.server }) (respond p)
answer (failed s) = failed s
answer panicked = panicked

unfoldable pub update_locked : Crypto → (ℕ → ℕ) → (Text → Bool) → Request → ℕ → Server → Updated
unfolding answer serve_all sorted requested unsubscribe_all
update_locked crypto lower parse_ipv6 req now s = answer (
    serve_all crypto lower parse_ipv6 now (sorted (requested req))
      (going (record { server = unsubscribe_all req.unsubscribe s; resources = []; removed = [] })))
