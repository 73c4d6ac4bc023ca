-- ===== src/Inspection/Server/Recency.antt =====
-- The order of use: the cache as a list of names, the latest first.
use egress_gateway.Prelude.{
  ℕ, ◌-◌, ◌≤◌, ◌≡◌, refl, sym, ap, ◌∙◌, inl, inr, true, false, Bool-cases, List, [], ◌∷◌, map, none,
  some, Option-cases, Text, Text-discrete, length, delete, take, take_all, arith, ◌==◌, ==_iff,
}
use egress_gateway.Inspection.Server.State.{
  Server, Element, has_address, drop_address, move_to_front, back, remove,
}
use egress_gateway.Inspection.Server.Elements.{
  find_name, IsWell, find_name-secret, drop_absent, back-find_name, length-move,
}
use egress_gateway.Inspection.Server.Consistency.{IsConsistent, remove_frame}
use egress_gateway.Inspection.Server.Update.{Progress, evict, make_room}

abbrev pub element_name : Element → Text
element_name e = e.secret.name

abbrev pub order_of : Server → List Text
order_of s = map element_name s.lru

-- What a cache of this capacity holds behind a use of a name, the latest first.
unfoldable pub use_name : ℕ → Text → List Text → List Text
unfolding delete take
use_name capacity name names = take capacity (name ∷ delete Text-discrete name names)

length-order : (l : List Element) → length (map element_name l) ≡ length l
length-order [] = refl
length-order (e ∷ l) = omega (arith, length-order l)

pub delete_absent :
    (n : Text) (l : List Element)
    → find_name n l ≡ none
    → delete Text-discrete n (map element_name l) ≡ map element_name l
unfolding find_name delete
delete_absent n [] h = refl
delete_absent n (x ∷ l) h = ground (arith, delete_absent n l)

order-drop :
    (next : ℕ) (n : Text) (l : List Element) {e : Element}
    → IsWell next l
    → find_name n l ≡ some e
    → map element_name (drop_address e.address l) ≡ delete Text-discrete n (map element_name l)
unfolding find_name drop_address delete
order-drop next n [] w h = cc
order-drop next n (x ∷ l) {e} w h = ground (
  arith,
  order-drop next n l {e = e} w.4,
  find_name-secret n l {e = e},
  drop_absent x.address l,
  delete_absent n l,
)

back-has_address :
    (l : List Element) {e : Element} → back l ≡ some e → has_address e.address l ≡ true
unfolding back has_address
back-has_address [] h = cc
back-has_address (x ∷ []) h = ground arith
back-has_address (x ∷ y ∷ l) {e} h = ground (arith, back-has_address (y ∷ l) {e = e})

order-drop_back :
    (next : ℕ) (l : List Element) {e : Element}
    → IsWell next l
    → back l ≡ some e
    → map element_name (drop_address e.address l) ≡ take (length l - 1) (map element_name l)
unfolding back drop_address take has_address
order-drop_back next [] w h = cc
order-drop_back next (x ∷ []) w h = ground arith
order-drop_back next (x ∷ y ∷ l) {e} w h =
    ground (arith, order-drop_back next (y ∷ l) {e = e} w.4, back-has_address (y ∷ l) {e = e})

-- Removing a name, moving it to the front, and making room.
module _ (s : Server) (name : Text) (c : IsConsistent s) where
  pub order-remove : order_of (remove name s) ≡ delete Text-discrete name (order_of s)
  unfolding remove
  order-remove = elim (Option-cases (s.entries name)) [
    | inl h ↦ rw (h, remove) (sym (delete_absent name s.lru (sym (c.synced name) ∙ h)))
    | inr (e, h) ↦
        rw (h, remove) (order-drop s.next_address name s.lru c.well (sym (c.synced name) ∙ h))
  ]

  pub order-move :
      {e : Element}
      → s.entries name ≡ some e
      → map element_name (move_to_front e s.lru) ≡ use_name s.capacity name (order_of s)
  unfolding move_to_front use_name
  order-move {e} h =
      let found : find_name name s.lru ≡ some e = sym (c.synced name) ∙ h in
      let (named, present) = find_name-secret name s.lru found in
      let moved : map element_name (move_to_front e s.lru)
          ≡ name ∷ delete Text-discrete name (order_of s) =
        rw present (
          ap (λ n. n ∷ map element_name (drop_address e.address s.lru)) named
          ∙ ap (λ l. name ∷ l) (order-drop s.next_address name s.lru c.well found)) in
      let short : length (name ∷ delete Text-discrete name (order_of s)) ≤ s.capacity = omega (
        arith,
        ap (λ (l : List Text). length l) moved,
        length-order (move_to_front e s.lru),
        length-move s.next_address name s.lru c.well found,
        c.bounded,
      ) in
      moved ∙ sym (take_all s.capacity (name ∷ delete Text-discrete name (order_of s)) short)

pub order-make_room :
    (p : Progress) {q : Progress}
    → IsConsistent p.server
    → make_room p ≡ some q
    → (order_of q.server ≡ take (p.server.capacity - 1) (order_of p.server))
      × (q.server.capacity ≡ p.server.capacity)
unfolding make_room evict
order-make_room p {q} c h = elim (Bool-cases (length p.server.lru == p.server.capacity)) [
  | inl full ↦
      let same = (==_iff (length p.server.lru) p.server.capacity).0 full in
      let (e, last, found) =
        back-find_name p.server.next_address p.server.lru c.well (omega (arith, c.positive)) in
      let removed : order_of (remove e.secret.name p.server)
          ≡ take (length p.server.lru - 1) (order_of p.server) =
        order-remove p.server e.secret.name c
        ∙ sym (order-drop p.server.next_address e.secret.name p.server.lru c.well found)
        ∙ order-drop_back p.server.next_address p.server.lru c.well last in
      let k : evict e p ≡ q = some_injective (rw (full, last) at h) in
      (
        ap (λ (q : Progress). order_of q.server) (sym k)
            ∙ removed
            ∙ ap (λ n. take (n - 1) (order_of p.server)) same,
        ap (λ (q : Progress). q.server.capacity) (sym k) ∙ (remove_frame e.secret.name p.server).0,
      )
  | inr free ↦
      let k : p ≡ q = some_injective (rw free at h) in
      let short : length (order_of p.server) ≤ p.server.capacity - 1 = room p c free in
      (
        ap (λ (q : Progress). order_of q.server) (sym k)
            ∙ sym (take_all (p.server.capacity - 1) (order_of p.server) short),
        ap (λ (q : Progress). q.server.capacity) (sym k),
      )
]
  where
    some_injective : {a b : Progress} → some a ≡ some b → a ≡ b
    some_injective e = ground arith

    room :
        (p : Progress)
        → IsConsistent p.server
        → (length p.server.lru == p.server.capacity) ≡ false
        → length (order_of p.server) ≤ p.server.capacity - 1
    room p c free = ground (arith, c.bounded, c.positive, length-order p.server.lru)
