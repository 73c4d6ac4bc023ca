-- ===== src/Inspection/Server/Elements.antt =====
-- The list of a secret server as a list of entries: each name and each address once.
use egress_gateway.Prelude.{
  ℕ, ◌+◌, ◌<◌, ◌≡◌, refl, true, false, List, [], ◌∷◌, Option, none, some, ite, Text, Text-discrete,
  length, arith,
}
use egress_gateway.Inspection.Server.State.{
  CachedSecret, Element, has_address, drop_address, move_to_front, back,
}

-- The element of a name.
unfoldable pub find_name : Text → List Element → Option Element
find_name n [] = none
find_name n (e ∷ l) = ite (Text-discrete e.secret.name n) (some e) (find_name n l)

-- Addresses below the next one; no address and no name twice; the resource
-- of an entry has its name.
abbrev pub IsWell : ℕ → List Element → Type 0
IsWell next [] = Unit
IsWell next (e ∷ l) =
    (e.address < next)
    × (has_address e.address l ≡ false)
    × (find_name e.secret.name l ≡ none)
    × (e.secret.resource.name ≡ e.secret.name)
    × IsWell next l

pub find_name-secret :
    (n : Text) (l : List Element) {e : Element}
    → find_name n l ≡ some e
    → (e.secret.name ≡ n) × (has_address e.address l ≡ true)
unfolding find_name has_address
find_name-secret n [] h = cc
find_name-secret n (x ∷ l) {e} h = ground (arith, find_name-secret n l {e = e})

pub drop_absent : (a : ℕ) (l : List Element) → has_address a l ≡ false → drop_address a l ≡ l
unfolding has_address drop_address
drop_absent a [] h = refl
drop_absent a (x ∷ l) h = ground (arith, drop_absent a l)

has_address-drop :
    (a b : ℕ) (l : List Element)
    → has_address a l ≡ false
    → has_address a (drop_address b l) ≡ false
unfolding has_address drop_address
has_address-drop a b [] h = refl
has_address-drop a b (x ∷ l) h = ground (arith, has_address-drop a b l)

has_address-drop_self : (a : ℕ) (l : List Element) → has_address a (drop_address a l) ≡ false
unfolding has_address drop_address
has_address-drop_self a [] = refl
has_address-drop_self a (x ∷ l) = ground (arith, has_address-drop_self a l)

find_name-drop_none :
    (n : Text) (a : ℕ) (l : List Element)
    → find_name n l ≡ none
    → find_name n (drop_address a l) ≡ none
unfolding find_name drop_address
find_name-drop_none n a [] h = refl
find_name-drop_none n a (x ∷ l) h = ground (arith, find_name-drop_none n a l)

-- To drop the element of a name is to forget the name.
pub find_name-drop :
    (next : ℕ) (m n : Text) (l : List Element) {e : Element}
    → IsWell next l
    → find_name n l ≡ some e
    → find_name m (drop_address e.address l) ≡ ite (Text-discrete n m) none (find_name m l)
unfolding find_name drop_address
find_name-drop next m n [] w h = cc
find_name-drop next m n (x ∷ l) {e} w h = ground (
  arith,
  find_name-drop next m n l {e = e} w.4,
  find_name-secret n l {e = e},
  drop_absent x.address l,
  drop_absent e.address l,
)

pub drop-IsWell : (next a : ℕ) (l : List Element) → IsWell next l → IsWell next (drop_address a l)
unfolding drop_address
drop-IsWell next a [] w = tt
drop-IsWell next a (x ∷ l) w = ground (
  arith,
  drop-IsWell next a l w.4,
  has_address-drop x.address a l,
  find_name-drop_none x.secret.name a l,
)

pub length-drop :
    (next : ℕ) (n : Text) (l : List Element) {e : Element}
    → IsWell next l
    → find_name n l ≡ some e
    → length (drop_address e.address l) + 1 ≡ length l
unfolding find_name drop_address
length-drop next n [] w h = cc
length-drop next n (x ∷ l) {e} w h =
    ground (
      arith,
      length-drop next n l {e = e} w.4,
      find_name-secret n l {e = e},
      drop_absent x.address l,
    )

has_address-next : (next : ℕ) (l : List Element) → IsWell next l → has_address next l ≡ false
unfolding has_address
has_address-next next [] w = refl
has_address-next next (x ∷ l) w = ground (arith, has_address-next next l w.4)

IsWell-suc : (next : ℕ) (l : List Element) → IsWell next l → IsWell (next + 1) l
IsWell-suc next [] w = tt
IsWell-suc next (x ∷ l) w = (omega arith, w.1, w.2, w.3, IsWell-suc next l w.4)

pub push-IsWell :
    (next : ℕ) (c : CachedSecret) (l : List Element)
    → IsWell next l
    → find_name c.name l ≡ none
    → c.resource.name ≡ c.name
    → IsWell (next + 1) (record { address = next; secret = c } ∷ l)
push-IsWell next c l w h named =
    (omega arith, has_address-next next l w, h, named, IsWell-suc next l w)

address_lt : (next a : ℕ) (l : List Element) → IsWell next l → has_address a l ≡ true → a < next
unfolding has_address
address_lt next a [] w h = absurd (ground arith)
address_lt next a (x ∷ l) w h = ground (arith, address_lt next a l w.4)

pub find_name-named :
    (next : ℕ) (n : Text) (l : List Element) {e : Element}
    → IsWell next l
    → find_name n l ≡ some e
    → e.secret.resource.name ≡ e.secret.name
unfolding find_name
find_name-named next n [] w h = cc
find_name-named next n (x ∷ l) {e} w h = ground (arith, find_name-named next n l {e = e} w.4)

-- Moving the element of a name to the front keeps the list well formed, its length and the
-- element of each name.
module _ (next : ℕ) (n : Text) (l : List Element) {e : Element} (w : IsWell next l)
    (found : find_name n l ≡ some e) where
  pub move-IsWell : IsWell next (move_to_front e l)
  unfolding move_to_front
  move-IsWell = ground (
    arith,
    find_name-secret n l found,
    address_lt next e.address l w,
    has_address-drop_self e.address l,
    find_name-named next n l w found,
    find_name-drop next n n l w found,
    drop-IsWell next e.address l w,
  )

  pub length-move : length (move_to_front e l) ≡ length l
  unfolding move_to_front
  length-move = ground (arith, length-drop next n l w found)

  pub find_name-move : (m : Text) → find_name m (move_to_front e l) ≡ find_name m l
  unfolding move_to_front find_name
  find_name-move m = ground (arith, find_name-secret n l found, find_name-drop next m n l w found)

find_name-skip :
    (x e : Element) (l : List Element)
    → find_name x.secret.name l ≡ none
    → find_name e.secret.name l ≡ some e
    → find_name e.secret.name (x ∷ l) ≡ some e
unfolding find_name
find_name-skip x e l h k = ground arith

-- The back of a nonempty list is the element of its name.
pub back-find_name :
    (next : ℕ) (l : List Element)
    → IsWell next l
    → 0 < length l
    → (e : Element) × (back l ≡ some e) × (find_name e.secret.name l ≡ some e)
unfolding back find_name
back-find_name next [] w h = absurd (omega arith)
back-find_name next (x ∷ []) w h = (x, refl, ground arith)
back-find_name next (x ∷ y ∷ l) w h =
    let (e, last, found) = back-find_name next (y ∷ l) w.4 (omega arith) in
    (e, last, find_name-skip x e (y ∷ l) w.2 found)
