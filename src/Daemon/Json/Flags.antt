-- ===== src/Daemon/Json/Flags.antt =====
-- A loop that raises its flag has met an object for which a step raises it.
use mathlib.Core.Path.{subst}
use egress_gateway.Prelude.{
  ◌≡◌, ◌⊎◌, inl, inr, ap, ◌∙◌, Bool, true, Option, none, some, Option-cases, Text,
}
use egress_gateway.Prelude.Results.{Result, ok, >>=-ok, ok-injective}
use egress_gateway.Daemon.Json.{
  Json, array, object, Items, no_items, item, Fields, get_field, set_field, as_object, as_array,
  visit_as, visit_items, visit_found, visit_array, visit_member, visit_object,
}
use egress_gateway.Daemon.Json.Laws.{get_field-set_field, Takes}

-- An object is there and has the property.
abbrev pub OnSome : (Fields → Type 0) → Option Fields → Type 0
OnSome P none = ⊥
OnSome P (some fs) = P fs

abbrev pub Any : (Fields → Type 0) → Items → Type 0
Any P no_items = ⊥
Any P (item j is) = OnSome P (as_object (some j)) ⊎ Any P is

abbrev pub AnyOf : (Fields → Type 0) → Option Items → Type 0
AnyOf P none = ⊥
AnyOf P (some is) = Any P is

abbrev pub Has : Text → (Fields → Type 0) → Fields → Type 0
Has key P fs = AnyOf P (as_array (get_field key fs))

abbrev pub HasWithin : Text → (Fields → Type 0) → Fields → Type 0
HasWithin key P fs = OnSome P (as_object (get_field key fs))

abbrev pub Raises :
    {E : Type 0} → (Bool → Fields → Result E (Fields × Bool)) → (Fields → Type 0) → Type 0
Raises {E} visit P =
    (flag : Bool) (fs : Fields) (r : Fields × Bool)
    → visit flag fs ≡ ok r
    → r.1 ≡ true
    → (flag ≡ true) ⊎ P r.0

module _ {E : Type 0} (visit : Bool → Fields → Result E (Fields × Bool)) (P : Fields → Type 0)
    (raises : Raises visit P) where
  visit_as-OnSome :
      (flag : Bool) (j : Json) (r : Json × Bool)
      → visit_as visit flag j (as_object (some j)) ≡ ok r
      → r.1 ≡ true
      → (flag ≡ true) ⊎ OnSome P (as_object (some r.0))
  unfolding visit_as as_object
  visit_as-OnSome flag j r h raised = elim (Option-cases (as_object (some j))) [
    | inl e ↦ inl (ap (λ (r : Json × Bool). r.1) (ok-injective (rw e at h)) ∙ raised)
    | inr (fs, e) ↦
        let (q, first, last) = >>=-ok _ _ (rw e at h) in
        let same : (object q.0, q.1) ≡ r = ok-injective last in
        subst (λ (r : Json × Bool). (flag ≡ true) ⊎ OnSome P (as_object (some r.0))) same
          (raises flag fs q first (ap (λ (r : Json × Bool). r.1) same ∙ raised))
  ]

  visit_items-Any :
      (flag : Bool) (is : Items) (r : Items × Bool)
      → visit_items visit flag is ≡ ok r
      → r.1 ≡ true
      → (flag ≡ true) ⊎ Any P r.0
  unfolding visit_items
  visit_items-Any flag no_items r h raised =
      inl (ap (λ (r : Items × Bool). r.1) (ok-injective h) ∙ raised)
  visit_items-Any flag (item j is) r h raised =
      let (q, first, more) = >>=-ok _ _ h in
      let (l, rest, last) = >>=-ok _ _ more in
      let same : (item q.0 l.0, l.1) ≡ r = ok-injective last in
      subst (λ (r : Items × Bool). (flag ≡ true) ⊎ Any P r.0) same
        (elim (visit_items-Any q.1 is l rest (ap (λ (r : Items × Bool). r.1) same ∙ raised)) [
          | inr later ↦ inr (inr later)
          | inl here ↦ elim (visit_as-OnSome flag j q first here) [
            | inl before ↦ inl before
            | inr now ↦ inr (inl now)
          ]
        ])

  pub visit_array-Has : (key : Text) → Raises (visit_array key visit) (Has key P)
  unfolding visit_array visit_found as_array
  visit_array-Has key flag fs r h raised = elim (Option-cases (as_array (get_field key fs))) [
    | inl e ↦ inl (ap (λ (r : Fields × Bool). r.1) (ok-injective (rw e at h)) ∙ raised)
    | inr (is, e) ↦
        let (q, first, last) = >>=-ok _ _ (rw e at h) in
        let same : (set_field key (array q.0) fs, q.1) ≡ r = ok-injective last in
        subst (λ (r : Fields × Bool). (flag ≡ true) ⊎ Has key P r.0) same
          (rw (get_field-set_field key (array q.0) fs)
            (visit_items-Any flag is q first (ap (λ (r : Fields × Bool). r.1) same ∙ raised)))
  ]

  pub visit_object-HasWithin : (key : Text) → Raises (visit_object key visit) (HasWithin key P)
  unfolding visit_object visit_member as_object
  visit_object-HasWithin key flag fs r h raised =
      elim (Option-cases (as_object (get_field key fs))) [
        | inl e ↦ inl (ap (λ (r : Fields × Bool). r.1) (ok-injective (rw e at h)) ∙ raised)
        | inr (gs, e) ↦
            let (q, first, last) = >>=-ok _ _ (rw e at h) in
            let same : (set_field key (object q.0) fs, q.1) ≡ r = ok-injective last in
            subst (λ (r : Fields × Bool). (flag ≡ true) ⊎ HasWithin key P r.0) same
              (rw (get_field-set_field key (object q.0) fs)
                (raises flag gs q first (ap (λ (r : Fields × Bool). r.1) same ∙ raised)))
      ]

module _ {E : Type 0} (visit : Bool → Fields → Result E (Fields × Bool)) (P Q : Fields → Type 0)
    (takes : Takes visit P Q) where
  pub visit_object-Keeps :
      (key : Text) (flag : Bool) (fs : Fields) (r : Fields × Bool)
      → visit_object key visit flag fs ≡ ok r
      → HasWithin key P fs
      → HasWithin key Q r.0
  unfolding visit_object visit_member as_object
  visit_object-Keeps key flag fs r h p = elim (Option-cases (as_object (get_field key fs))) [
    | inl e ↦ absurd (subst (OnSome P) e p)
    | inr (gs, e) ↦
        let (q, first, last) = >>=-ok _ _ (rw e at h) in
        subst (λ (r : Fields × Bool). HasWithin key Q r.0) (ok-injective last)
          (rw (get_field-set_field key (object q.0) fs)
            (takes flag gs q first (subst (OnSome P) e p)))
  ]
