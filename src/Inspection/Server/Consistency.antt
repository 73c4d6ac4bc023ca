-- ===== src/Inspection/Server/Consistency.antt =====
-- The invariant of the secret server: the map and the list hold the same entries, and there are at
-- most `capacity` of them.
use egress_gateway.Prelude.{
  ℕ, ◌+◌, ◌<◌, ◌≤◌, ◌≡◌, refl, sym, ◌∙◌, ◌⊎◌, inl, inr, List, [], ◌∷◌, Option, none, some, ite,
  Text, Text-discrete, length, arith, Option-cases, Bool-cases, ◌==◌, forget, ==_iff,
}
use egress_gateway.Inspection.Leaf.{Authority}
use egress_gateway.Inspection.Server.State.{
  Server, Watch, CachedSecret, Element, drop_address, move_to_front, remove, new_server,
  empty_server,
}
use egress_gateway.Inspection.Server.Elements.{
  find_name, IsWell, find_name-drop, drop-IsWell, length-drop, push-IsWell, move-IsWell,
  length-move, find_name-move, back-find_name,
}
use egress_gateway.Inspection.Server.Update.{
  Progress, evict, make_room, push_front, unsubscribe_all, is_interested,
}

pub record IsConsistent (s : Server) : Type 0 where
  pub positive : 0 < s.capacity
  pub limited : s.capacity ≤ 128
  pub bounded : length s.lru ≤ s.capacity
  pub well : IsWell s.next_address s.lru
  pub synced : (name : Text) → s.entries name ≡ find_name name s.lru

-- The counters and the watches do not matter.
pub counters-IsConsistent :
    (s : Server) (version draws nonce : ℕ) (watches : List (ℕ × Watch))
    → IsConsistent s
    → IsConsistent (record s { version = version; draws = draws; nonce = nonce; watches = watches })
counters-IsConsistent s _ _ _ _ c = record {
  positive = c.positive;
  limited = c.limited;
  bounded = c.bounded;
  well = c.well;
  synced = c.synced;
}

pub empty_server-IsConsistent :
    (a : Authority) (capacity : ℕ)
    → 0 < capacity
    → capacity ≤ 128
    → IsConsistent (empty_server a capacity)
unfolding empty_server find_name
empty_server-IsConsistent a capacity p l = record {
  positive = p;
  limited = l;
  bounded = omega arith;
  well = tt;
  synced = λ name. refl;
}

-- A server is made of an authority, with a capacity of 1 to 128, and is empty.
pub new_server-empty_server :
    (a : Option Authority) (capacity : ℕ) {s : Server}
    → new_server a capacity ≡ some s
    → (b : Authority) × (empty_server b capacity ≡ s) × (0 < capacity) × (capacity ≤ 128)
unfolding new_server
new_server-empty_server none capacity h = cc
new_server-empty_server (some a) capacity {s} h = (a, ground arith, ground arith, ground arith)

module _ (s : Server) (name : Text) (c : IsConsistent s) where
  remove_present :
      {e : Element}
      → s.entries name ≡ some e
      → IsConsistent (record s {
        lru = drop_address e.address s.lru;
        entries = forget Text-discrete name s.entries;
      })
  remove_present {e} h =
      let found : find_name name s.lru ≡ some e = sym (c.synced name) ∙ h in
      record {
        positive = c.positive;
        limited = c.limited;
        bounded = omega (arith, length-drop s.next_address name s.lru c.well found);
        well = drop-IsWell s.next_address e.address s.lru c.well;
        synced = λ m.
            ground (arith, c.synced m, find_name-drop s.next_address m name s.lru c.well found);
      }

  pub remove-IsConsistent : IsConsistent (remove name s)
  unfolding remove
  remove-IsConsistent = elim (Option-cases (s.entries name)) [
    | inl h ↦ rw (h, remove) c
    | inr (e, h) ↦ rw (h, remove) (remove_present h)
  ]

  -- A removal forgets the name, and changes no other.
  pub entries-remove :
      (m : Text) → (remove name s).entries m ≡ ite (Text-discrete name m) none (s.entries m)
  unfolding remove
  entries-remove m = ground arith

  pub length-remove :
      {e : Element} → s.entries name ≡ some e → length (remove name s).lru + 1 ≡ length s.lru
  unfolding remove
  length-remove {e} h =
      rw (h, remove) (length-drop s.next_address name s.lru c.well (sym (c.synced name) ∙ h))

  -- Moving an entry to the front changes only the order.
  pub move-IsConsistent :
      {e : Element}
      → s.entries name ≡ some e
      → IsConsistent (record s { lru = move_to_front e s.lru })
  move-IsConsistent {e} h =
      let found : find_name name s.lru ≡ some e = sym (c.synced name) ∙ h in
      record {
        positive = c.positive;
        limited = c.limited;
        bounded = omega (arith, length-move s.next_address name s.lru c.well found);
        well = move-IsWell s.next_address name s.lru c.well found;
        synced = λ m. c.synced m ∙ sym (find_name-move s.next_address name s.lru c.well found m);
      }

-- A removal touches the entries alone.
pub remove_frame :
    (name : Text) (s : Server)
    → ((remove name s).capacity ≡ s.capacity)
      × ((remove name s).version ≡ s.version)
      × ((remove name s).watches ≡ s.watches)
      × ((remove name s).nonce ≡ s.nonce)
      × ((remove name s).authority ≡ s.authority)
unfolding remove
remove_frame name s = ground arith

pub push-IsConsistent :
    (s : Server) (v : CachedSecret)
    → IsConsistent s
    → s.entries v.name ≡ none
    → v.resource.name ≡ v.name
    → length s.lru < s.capacity
    → IsConsistent (push_front v s)
unfolding push_front find_name
push-IsConsistent s v c h named room = record {
  positive = c.positive;
  limited = c.limited;
  bounded = omega arith;
  well = push-IsWell s.next_address v s.lru c.well (sym (c.synced v.name) ∙ h) named;
  synced = λ m. ground (arith, c.synced m);
}

pub unsubscribe_all-IsConsistent :
    (names : List Text) (s : Server) → IsConsistent s → IsConsistent (unsubscribe_all names s)
unfolding unsubscribe_all
unsubscribe_all-IsConsistent [] s c = c
unsubscribe_all-IsConsistent (n ∷ ns) s c = elim (Bool-cases (is_interested n s.watches)) [
  | inl h ↦ rw h (unsubscribe_all-IsConsistent ns s c)
  | inr h ↦ rw h (unsubscribe_all-IsConsistent ns (remove n s) (remove-IsConsistent s n c))
]

-- What making room leaves: a consistent server with a free place, the same but for the entry
-- given up.
pub record HasRoom (p q : Progress) : Type 0 where
  pub consistent : IsConsistent q.server
  pub room : length q.server.lru < q.server.capacity
  pub absent : (m : Text) → p.server.entries m ≡ none → q.server.entries m ≡ none
  pub version : q.server.version ≡ p.server.version
  pub how : (q ≡ p) ⊎ ((e : Element) × (q ≡ evict e p))

evict-HasRoom :
    (p : Progress) {e : Element}
    → IsConsistent p.server
    → p.server.entries e.secret.name ≡ some e
    → HasRoom p (evict e p)
evict-HasRoom p {e} c h = record {
  consistent = unfold evict in remove-IsConsistent p.server e.secret.name c;
  room =
      unfold evict in
      omega (
        arith,
        length-remove p.server e.secret.name c h,
        c.bounded,
        (remove_frame e.secret.name p.server).0,
      );
  absent = λ m k. unfold evict in ground (arith, entries-remove p.server e.secret.name c m);
  version = unfold evict in (remove_frame e.secret.name p.server).1;
  how = inr (e, refl);
}

-- Room is always found: the back that is given up exists.
pub make_room-HasRoom :
    (p : Progress) → IsConsistent p.server → (q : Progress) × (make_room p ≡ some q) × HasRoom p q
unfolding make_room
make_room-HasRoom p c = elim (Bool-cases (length p.server.lru == p.server.capacity)) [
  | inl full ↦
      let same = (==_iff (length p.server.lru) p.server.capacity).0 full in
      let (e, last, found) =
        back-find_name p.server.next_address p.server.lru c.well (omega (arith, c.positive)) in
      (evict e p, rw (full, last) refl, evict-HasRoom p c (c.synced e.secret.name ∙ found))
  | inr free ↦ (
    p,
    rw free refl,
    record {
      consistent = c;
      room = ground (arith, c.bounded);
      absent = λ m h. h;
      version = refl;
      how = inl refl;
    },
  )
]
