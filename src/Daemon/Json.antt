-- ===== src/Daemon/Json.antt =====
-- Values of encoding/json as the code holds them in an `any`, and what it does with them. A map of Go
-- is its members, of which the first of a key counts; a number keeps its text, as UseNumber asks.
pub mod Laws
pub mod Flags
use egress_gateway.Prelude.{Bool, true, false, Option, none, some, if◌then◌else◌, Text, text}
use egress_gateway.Prelude.Results.{Result, ok, err, ◌>>=◌}
use egress_gateway.GoLib.FilePath.{text_eq}

mutual
  pub data Json : Type 0 where
    null : Json
    boolean : Bool → Json
    number : Text → Json
    string : Text → Json
    array : Items → Json
    object : Fields → Json

  pub data Items : Type 0 where
    no_items : Items
    item : Json → Items → Items

  pub data Fields : Type 0 where
    no_fields : Fields
    field : Text → Json → Fields → Fields

-- `m[key]`
unfoldable pub get_field : Text → Fields → Option Json
unfolding text_eq
get_field key no_fields = none
get_field key (field k j fs) = if text_eq k key then some j else get_field key fs

-- `m[key] = j`
unfoldable pub set_field : Text → Json → Fields → Fields
unfolding text_eq
set_field key j no_fields = field key j no_fields
set_field key j (field k i fs) =
    if text_eq k key then field k j fs else field k i (set_field key j fs)

-- `m, ok := v.(map[string]any)`
unfoldable pub as_object : Option Json → Option Fields
as_object none = none
as_object (some null) = none
as_object (some (boolean b)) = none
as_object (some (number n)) = none
as_object (some (string s)) = none
as_object (some (array is)) = none
as_object (some (object fs)) = some fs

-- `v, _ := v.([]any)`
unfoldable pub as_array : Option Json → Option Items
as_array none = none
as_array (some null) = none
as_array (some (boolean b)) = none
as_array (some (number n)) = none
as_array (some (string s)) = none
as_array (some (array is)) = some is
as_array (some (object fs)) = none

-- `v != nil`
unfoldable pub is_present : Option Json → Bool
is_present none = false
is_present (some null) = false
is_present (some (boolean b)) = true
is_present (some (number n)) = true
is_present (some (string s)) = true
is_present (some (array is)) = true
is_present (some (object fs)) = true

-- `v == text`
unfoldable pub is_string : Text → Option Json → Bool
unfolding text_eq
is_string t none = false
is_string t (some null) = false
is_string t (some (boolean b)) = false
is_string t (some (number n)) = false
is_string t (some (string s)) = text_eq s t
is_string t (some (array is)) = false
is_string t (some (object fs)) = false

-- Loops that change a value in place and carry a flag. What is not an object is read as nil, which
-- has no members.
module _ {E : Type 0} where
  unfoldable pub visit_as :
      (Bool → Fields → Result E (Fields × Bool))
      → Bool
      → Json
      → Option Fields
      → Result E (Json × Bool)
  visit_as visit flag j none = ok (j, flag)
  visit_as visit flag j (some fs) = visit flag fs >>= (λ r. ok (object r.0, r.1))

  unfoldable pub visit_items :
      (Bool → Fields → Result E (Fields × Bool)) → Bool → Items → Result E (Items × Bool)
  visit_items visit flag no_items = ok (no_items, flag)
  visit_items visit flag (item j is) = do
    r ← visit_as visit flag j (as_object (some j))
    q ← visit_items visit r.1 is
    ok (item r.0 q.0, q.1)

  -- The same for the array at a key
  unfoldable pub visit_found :
      Text
      → (Bool → Fields → Result E (Fields × Bool))
      → Bool
      → Fields
      → Option Items
      → Result E (Fields × Bool)
  visit_found key visit flag fs none = ok (fs, flag)
  visit_found key visit flag fs (some is) =
      visit_items visit flag is >>= (λ r. ok (set_field key (array r.0) fs, r.1))

  unfoldable pub visit_array :
      Text → (Bool → Fields → Result E (Fields × Bool)) → Bool → Fields → Result E (Fields × Bool)
  visit_array key visit flag fs = visit_found key visit flag fs (as_array (get_field key fs))

  -- The object at a key
  unfoldable pub visit_member :
      Text
      → (Bool → Fields → Result E (Fields × Bool))
      → Bool
      → Fields
      → Option Fields
      → Result E (Fields × Bool)
  visit_member key visit flag fs none = ok (fs, flag)
  visit_member key visit flag fs (some gs) =
      visit flag gs >>= (λ r. ok (set_field key (object r.0) fs, r.1))

  unfoldable pub visit_object :
      Text → (Bool → Fields → Result E (Fields × Bool)) → Bool → Fields → Result E (Fields × Bool)
  visit_object key visit flag fs = visit_member key visit flag fs (as_object (get_field key fs))
