-- ===== src/Daemon/Json/Laws.antt =====
-- What holds of the members of an object behind a change, and behind a loop over its arrays.
use mathlib.Core.Path.{subst}
use egress_gateway.Prelude.{
  ◌≡◌, inl, inr, ap, ◌∙◌, sym, Bool, true, false, Option, none, some, Option-cases, Text, arith,
}
use egress_gateway.Prelude.Results.{Result, ok, >>=-ok, ok-injective}
use egress_gateway.GoLib.FilePath.{text_eq}
use egress_gateway.Config.Laws.{text_eq_iff}
use egress_gateway.Daemon.Json.{
  Json, null, boolean, number, string, array, object, Items, no_items, item, Fields, no_fields,
  field, get_field, set_field, is_string, as_object, as_array, visit_as, visit_items, visit_found,
  visit_array, visit_member, visit_object,
}

pub get_field-set_field :
    (k : Text) (v : Json) (fs : Fields) → get_field k (set_field k v fs) ≡ some v
unfolding get_field set_field
get_field-set_field k v no_fields = ground (arith, text_eq_iff k k)
get_field-set_field k v (field i w fs) = ground (arith, get_field-set_field k v fs)

pub get_field-set_other :
    (j k : Text) (v : Json) (fs : Fields)
    → text_eq k j ≡ false
    → get_field j (set_field k v fs) ≡ get_field j fs
unfolding get_field set_field
get_field-set_other j k v no_fields h = ground arith
get_field-set_other j k v (field i w fs) h =
    ground (arith, get_field-set_other j k v fs h, text_eq_iff i k)

-- A predicate on an object that is there, on the objects of an array, and on those at a key
abbrev pub On : (Fields → Type 0) → Option Fields → Type 0
On P none = Unit
On P (some fs) = P fs

abbrev pub Every : (Fields → Type 0) → Items → Type 0
Every P no_items = Unit
Every P (item j is) = On P (as_object (some j)) × Every P is

abbrev pub EveryOf : (Fields → Type 0) → Option Items → Type 0
EveryOf P none = Unit
EveryOf P (some is) = Every P is

abbrev pub Each : Text → (Fields → Type 0) → Fields → Type 0
Each key P fs = EveryOf P (as_array (get_field key fs))

abbrev pub Within : Text → (Fields → Type 0) → Fields → Type 0
Within key P fs = On P (as_object (get_field key fs))

-- A step that takes what satisfies P to what satisfies Q
abbrev pub Takes :
    {E : Type 0}
    → (Bool → Fields → Result E (Fields × Bool))
    → (Fields → Type 0)
    → (Fields → Type 0)
    → Type 0
Takes {E} visit P Q =
    (flag : Bool) (fs : Fields) (r : Fields × Bool) → visit flag fs ≡ ok r → P fs → Q r.0

module _ {E : Type 0} (visit : Bool → Fields → Result E (Fields × Bool)) (P Q : Fields → Type 0)
    (takes : Takes visit P Q) where
  visit_as-On :
      (flag : Bool) (j : Json) (r : Json × Bool)
      → visit_as visit flag j (as_object (some j)) ≡ ok r
      → On P (as_object (some j))
      → On Q (as_object (some r.0))
  unfolding visit_as as_object
  visit_as-On flag j r h p = elim (Option-cases (as_object (some j))) [
    | inl e ↦
        subst (λ (r : Json × Bool). On Q (as_object (some r.0))) (ok-injective (rw e at h))
          (rw e tt)
    | inr (fs, e) ↦
        let (q, first, last) = >>=-ok _ _ (rw e at h) in
        subst (λ (r : Json × Bool). On Q (as_object (some r.0))) (ok-injective last)
          (takes flag fs q first (subst (On P) e p))
  ]

  visit_items-Every :
      (flag : Bool) (is : Items) (r : Items × Bool)
      → visit_items visit flag is ≡ ok r
      → Every P is
      → Every Q r.0
  unfolding visit_items
  visit_items-Every flag no_items r h p =
      subst (λ (r : Items × Bool). Every Q r.0) (ok-injective h) tt
  visit_items-Every flag (item j is) r h p =
      let (q, first, more) = >>=-ok _ _ h in
      let (l, rest, last) = >>=-ok _ _ more in
      subst (λ (r : Items × Bool). Every Q r.0) (ok-injective last)
        (visit_as-On flag j q first p.0, visit_items-Every q.1 is l rest p.1)

  pub visit_array-Each : (key : Text) → Takes (visit_array key visit) (Each key P) (Each key Q)
  unfolding visit_array visit_found as_array
  visit_array-Each key flag fs r h p = elim (Option-cases (as_array (get_field key fs))) [
    | inl e ↦ subst (λ (r : Fields × Bool). Each key Q r.0) (ok-injective (rw e at h)) (rw e tt)
    | inr (is, e) ↦
        let (q, first, last) = >>=-ok _ _ (rw e at h) in
        subst (λ (r : Fields × Bool). Each key Q r.0) (ok-injective last)
          (rw (get_field-set_field key (array q.0) fs)
            (visit_items-Every flag is q first (subst (EveryOf P) e p)))
  ]

  pub visit_object-Within :
      (key : Text) → Takes (visit_object key visit) (Within key P) (Within key Q)
  unfolding visit_object visit_member as_object
  visit_object-Within key flag fs r h p = elim (Option-cases (as_object (get_field key fs))) [
    | inl e ↦ subst (λ (r : Fields × Bool). Within key Q r.0) (ok-injective (rw e at h)) (rw e tt)
    | inr (gs, e) ↦
        let (q, first, last) = >>=-ok _ _ (rw e at h) in
        subst (λ (r : Fields × Bool). Within key Q r.0) (ok-injective last)
          (rw (get_field-set_field key (object q.0) fs) (takes flag gs q first (subst (On P) e p)))
  ]

-- Nothing but the member at the key is changed.
module _ {E : Type 0} (visit : Bool → Fields → Result E (Fields × Bool)) (j key : Text)
    (other : text_eq key j ≡ false) where
  pub visit_array-get_field :
      (flag : Bool) (fs : Fields) (r : Fields × Bool)
      → visit_array key visit flag fs ≡ ok r
      → get_field j r.0 ≡ get_field j fs
  unfolding visit_array visit_found
  visit_array-get_field flag fs r h = elim (Option-cases (as_array (get_field key fs))) [
    | inl e ↦ ap (λ (r : Fields × Bool). get_field j r.0) (sym (ok-injective (rw e at h)))
    | inr (is, e) ↦
        let (q, first, last) = >>=-ok _ _ (rw e at h) in
        ap (λ (r : Fields × Bool). get_field j r.0) (sym (ok-injective last))
        ∙ get_field-set_other j key (array q.0) fs other
  ]

  pub visit_object-get_field :
      (flag : Bool) (fs : Fields) (r : Fields × Bool)
      → visit_object key visit flag fs ≡ ok r
      → get_field j r.0 ≡ get_field j fs
  unfolding visit_object visit_member
  visit_object-get_field flag fs r h = elim (Option-cases (as_object (get_field key fs))) [
    | inl e ↦ ap (λ (r : Fields × Bool). get_field j r.0) (sym (ok-injective (rw e at h)))
    | inr (gs, e) ↦
        let (q, first, last) = >>=-ok _ _ (rw e at h) in
        ap (λ (r : Fields × Bool). get_field j r.0) (sym (ok-injective last))
        ∙ get_field-set_other j key (object q.0) fs other
  ]

On-any : (P : Fields → Type 0) → ((fs : Fields) → P fs) → (o : Option Fields) → On P o
On-any P any none = tt
On-any P any (some fs) = any fs

Every-any : (P : Fields → Type 0) → ((fs : Fields) → P fs) → (is : Items) → Every P is
Every-any P any no_items = tt
Every-any P any (item j is) = (On-any P any (as_object (some j)), Every-any P any is)

pub Each-any :
    (key : Text) (P : Fields → Type 0) → ((fs : Fields) → P fs) → (fs : Fields) → Each key P fs
Each-any key P any fs = EveryOf-any (as_array (get_field key fs))
  where
    EveryOf-any : (o : Option Items) → EveryOf P o
    EveryOf-any none = tt
    EveryOf-any (some is) = Every-any P any is

pub Within-any :
    (key : Text) (P : Fields → Type 0) → ((fs : Fields) → P fs) → (fs : Fields) → Within key P fs
Within-any key P any fs = On-any P any (as_object (get_field key fs))

pub is_string-eq : (t : Text) (o : Option Json) → is_string t o ≡ true → o ≡ some (string t)
unfolding is_string
is_string-eq t none h = cc
is_string-eq t (some null) h = cc
is_string-eq t (some (boolean b)) h = cc
is_string-eq t (some (number n)) h = cc
is_string-eq t (some (string s)) h = ap (λ s. some (string s)) ((text_eq_iff s t).0 h)
is_string-eq t (some (array is)) h = cc
is_string-eq t (some (object fs)) h = cc

-- A step that makes Q hold, whatever it is given
abbrev pub Makes :
    {E : Type 0} → (Bool → Fields → Result E (Fields × Bool)) → (Fields → Type 0) → Type 0
Makes {E} visit Q = (flag : Bool) (fs : Fields) (r : Fields × Bool) → visit flag fs ≡ ok r → Q r.0

module _ {E : Type 0} (visit : Bool → Fields → Result E (Fields × Bool)) (Q : Fields → Type 0)
    (makes : Makes visit Q) where
  abbrev Anything : Fields → Type 0
  Anything fs = Unit

  pub visit_array-Makes : (key : Text) → Makes (visit_array key visit) (Each key Q)
  visit_array-Makes key flag fs r h =
      visit_array-Each visit Anything Q (λ flag fs r h any. makes flag fs r h) key flag fs r h
        (Each-any key Anything (λ fs. tt) fs)

  pub visit_object-Makes : (key : Text) → Makes (visit_object key visit) (Within key Q)
  visit_object-Makes key flag fs r h =
      visit_object-Within visit Anything Q (λ flag fs r h any. makes flag fs r h) key flag fs r h
        (Within-any key Anything (λ fs. tt) fs)
