-- ===== src/Enrollment/Fixture/Laws.antt =====
-- What compose of gateway-e2e-compose gives.
use mathlib.Core.Path.{subst}
use mathlib.Core.List.{append_assoc, append-nil}
use egress_gateway.Prelude.{
  ◌≡◌, ◌⊎◌, ◌||◌, ◌∙◌, refl, sym, ap, inl, inr, Bool, true, false, not, Bool-cases, List, [], ◌∷◌,
  ◌++◌, Option, some, Text, text, Text-discrete, find, has, add_new, add-IsDistinct, IsDistinct,
  arith,
}
use egress_gateway.Prelude.Results.{Result, ok, err, >>=-ok, refuse_if-ok, or_fail-ok, ok-injective}
use egress_gateway.Config.Names.{workload, egress}
use egress_gateway.Enrollment.Pod.{Pod, ManagedSpec}
use egress_gateway.Enrollment.Proxy.{Options}
use egress_gateway.Enrollment.Compose.{ComposeError, Networking, compose_pod}
use egress_gateway.Enrollment.Fixture.{
  Identity, Readers, Resource, unchanged, pod_resource, deployment, network_policy, config_map,
  Composed, attach_shared, or_composed, is_pod, is_deployment, compose_business, compose_item,
  compose_items, compose,
}
use egress_gateway.Enrollment.Fixture.Attached.{
  HasShared, attach_shared-HasShared, IsPod, IsDeployment, IsOther, is_pod-IsPod,
  is_deployment-IsDeployment, is_other,
}

or_composed-ok {ℓ} :
    {A : Type ℓ} (name : Text) (r : Result ComposeError A) {a : A}
    → or_composed name r ≡ ok a
    → r ≡ ok a
unfolding or_composed
or_composed-ok name (err e) h = cc
or_composed-ok name (ok a) h = ap ok (ok-injective h)

module _ {Raw Network Policy ConfigMap : Type 0} (readers : Readers Raw)
    (networking : Networking Network Policy) (managed : ManagedSpec)
    (artifacts : Text → Option ConfigMap) (config_map_name : ConfigMap → Text)
    (options : List (Text × Options Network)) where
  abbrev pub Resources : Type 0
  Resources = List (Resource Raw Policy ConfigMap)

  -- The Pod that ComposePod makes of a business with the options of its name, with the policy that
  -- is shared for its role attached; the network policy and the config map that go with it.
  pub record IsEnrolled (business p : Pod) (made : Resources) : Type 0 where
    pub given : Options Network
    pub is_given : find Text-discrete business.name options ≡ some given
    pub final : Pod
    pub policy : Policy
    pub composed : compose_pod given networking managed (some business) ≡ ok (final, policy)
    pub shared : ConfigMap
    pub is_shared : artifacts given.role ≡ some shared
    pub attached : HasShared (config_map_name shared) final p
    pub policies :
        made
        ≡ network_policy (text "gateway-" ++ business.name) business.namespace policy
          ∷ config_map shared
          ∷ []

  -- What an item becomes: the resource, what goes before the list for it, and the names enrolled.
  abbrev pub IsMade :
      Raw → Identity → Resource Raw Policy ConfigMap → Resources → List Text → Type 0
  IsMade raw i r made named =
      (IsOther i × (r ≡ unchanged raw) × (made ≡ []) × (named ≡ []))
      ⊎ ((IsPod i
            × (business : Pod) × (p : Pod) × (readers.pod raw ≡ some business)
            × IsEnrolled business p made
            × (r ≡ pod_resource p)
            × (named ≡ business.name ∷ []))
          ⊎ (IsDeployment i
              × (template : Pod) × (p : Pod) × (readers.template raw ≡ some template)
              × IsEnrolled (record template { name = i.name; namespace = i.namespace }) p made
              × (r ≡ deployment raw p)
              × (named ≡ i.name ∷ [])))

  -- The same of a list of items, one after the other.
  abbrev pub AreMade : List Raw → Resources → Resources → List Text → Type 0
  AreMade [] resources policies names = (resources ≡ []) × (policies ≡ []) × (names ≡ [])
  AreMade (raw ∷ raws) resources policies names =
      (i : Identity) × (r : Resource Raw Policy ConfigMap) × (made : Resources) × (named : List
        Text)
      × (resources' : Resources) × (policies' : Resources) × (names' : List Text)
      × (readers.identity raw ≡ some i)
      × IsMade raw i r made named
      × AreMade raws resources' policies' names'
      × (resources ≡ r ∷ resources')
      × (policies ≡ made ++ policies')
      × (names ≡ named ++ names')

  pub record IsFixture (raws : List Raw) (out : Resources) : Type 0 where
    pub resources : Resources
    pub policies : Resources
    pub names : List Text
    pub made : AreMade raws resources policies names
    pub first : out ≡ policies ++ resources
    pub distinct : IsDistinct Text-discrete names
    pub has_workload : has Text-discrete workload names ≡ true
    pub has_egress : has Text-discrete egress names ≡ true

  -- How the state of the loop grows.
  record Grows (s t : Composed Raw Policy ConfigMap) (rs ps : Resources) (ns : List Text)
      : Type 0 where
    resources : t.resources ≡ s.resources ++ rs
    policies : t.policies ≡ s.policies ++ ps
    seen : t.seen ≡ s.seen ++ ns
    distinct : IsDistinct Text-discrete t.seen

  compose_business-Grows :
      (business : Pod) (place : Pod → Resource Raw Policy ConfigMap)
      (s : Composed Raw Policy ConfigMap) {t : Composed Raw Policy ConfigMap}
      → IsDistinct Text-discrete s.seen
      → compose_business readers networking managed artifacts config_map_name options business place
          s
        ≡ ok t
      → (p : Pod) × (made : Resources) × IsEnrolled business p made
        × Grows s t (place p ∷ []) made (business.name ∷ [])
  unfolding compose_business
  compose_business-Grows business place s {t} d h =
      let (o, given, h₁) = >>=-ok _ _ h in
      let (unseen, h₂) = refuse_if-ok _ _ _ h₁ in
      let (composed, composes, h₃) = >>=-ok _ _ h₂ in
      let (shared, shares, last) = >>=-ok _ _ h₃ in
      let p = attach_shared (config_map_name shared) composed.0 in
      let made : Resources =
        network_policy (text "gateway-" ++ business.name) business.namespace composed.1
        ∷ config_map shared
        ∷ [] in
      (
        p,
        made,
        record {
          given = o;
          is_given = or_fail-ok _ _ given;
          final = composed.0;
          policy = composed.1;
          composed = or_composed-ok business.name _ composes;
          shared = shared;
          is_shared = or_fail-ok _ _ shares;
          attached = attach_shared-HasShared (config_map_name shared) composed.0;
          policies = refl;
        },
        subst
            (λ (t : Composed Raw Policy ConfigMap).
              Grows s t (place p ∷ []) made (business.name ∷ []))
            (ok-injective last)
            (record {
              resources = refl;
              policies = refl;
              seen = add_new Text-discrete business.name s.seen unseen;
              distinct = add-IsDistinct Text-discrete business.name s.seen d;
            }),
      )

  compose_item-Grows :
      (raw : Raw) (s : Composed Raw Policy ConfigMap) {t : Composed Raw Policy ConfigMap}
      → IsDistinct Text-discrete s.seen
      → compose_item readers networking managed artifacts config_map_name options raw s ≡ ok t
      → (i : Identity) × (r : Resource Raw Policy ConfigMap) × (made : Resources) × (named : List
          Text)
        × (readers.identity raw ≡ some i)
        × IsMade raw i r made named
        × Grows s t (r ∷ []) made named
  unfolding compose_item
  compose_item-Grows raw s {t} d h =
      let (i, identified, h₁) = >>=-ok _ _ h in
      let is_i = or_fail-ok _ _ identified in
      elim (Bool-cases (is_pod i)) [
        | inl e ↦
            let (business, reads, composes) = >>=-ok _ _ (rw e at h₁) in
            let (p, made, enrolled, grows) =
              compose_business-Grows business pod_resource s d composes in
            (
              i,
              pod_resource p,
              made,
              business.name ∷ [],
              is_i,
              inr (inl (is_pod-IsPod i e, business, p, or_fail-ok _ _ reads, enrolled, refl, refl)),
              grows,
            )
        | inr e ↦ elim (Bool-cases (is_deployment i)) [
          | inl e' ↦
              let (template, reads, composes) = >>=-ok _ _ (rw (e, e') at h₁) in
              let (p, made, enrolled, grows) =
                compose_business-Grows (record template { name = i.name; namespace = i.namespace })
                  (deployment raw) s d composes in
              (
                i,
                deployment raw p,
                made,
                i.name ∷ [],
                is_i,
                inr (
                    inr (
                      is_deployment-IsDeployment i e',
                      template,
                      p,
                      or_fail-ok _ _ reads,
                      enrolled,
                      refl,
                      refl,
                    )),
                grows,
              )
          | inr e' ↦ (
            i,
            unchanged raw,
            [],
            [],
            is_i,
            inl (is_other i e e', refl, refl, refl),
            subst (λ (t : Composed Raw Policy ConfigMap). Grows s t (unchanged raw ∷ []) [] [])
                (ok-injective (rw (e, e') at h₁))
                (record {
                  resources = refl;
                  policies = sym (append-nil s.policies);
                  seen = sym (append-nil s.seen);
                  distinct = d;
                }),
          )
        ]
      ]

  compose_items-Grows :
      (raws : List Raw) (s : Composed Raw Policy ConfigMap) {t : Composed Raw Policy ConfigMap}
      → IsDistinct Text-discrete s.seen
      → compose_items readers networking managed artifacts config_map_name options raws s ≡ ok t
      → (rs : Resources) × (ps : Resources) × (ns : List Text) × AreMade raws rs ps ns
        × Grows s t rs ps ns
  unfolding compose_items
  compose_items-Grows [] s d h = (
    [],
    [],
    [],
    (refl, refl, refl),
    subst (λ (t : Composed Raw Policy ConfigMap). Grows s t [] [] []) (ok-injective h)
        (record {
          resources = sym (append-nil s.resources);
          policies = sym (append-nil s.policies);
          seen = sym (append-nil s.seen);
          distinct = d;
        }),
  )
  compose_items-Grows (raw ∷ raws) s d h =
      let (m, one, more) = >>=-ok _ _ h in
      let (i, r, made, named, is_i, is_made, grows) = compose_item-Grows raw s d one in
      let (rs, ps, ns, are_made, grows') = compose_items-Grows raws m grows.distinct more in
      (
        r ∷ rs,
        made ++ ps,
        named ++ ns,
        (i, r, made, named, rs, ps, ns, is_i, is_made, are_made, refl, refl, refl),
        record {
          resources =
              grows'.resources
              ∙ ap (λ l. l ++ rs) grows.resources
              ∙ append_assoc s.resources (r ∷ []) rs;
          policies =
              grows'.policies ∙ ap (λ l. l ++ ps) grows.policies ∙ append_assoc s.policies made ps;
          seen = grows'.seen ∙ ap (λ l. l ++ ns) grows.seen ∙ append_assoc s.seen named ns;
          distinct = grows'.distinct;
        },
      )

  both : (a b : Bool) → (not a || not b) ≡ false → (a ≡ true) × (b ≡ true)
  both a b h = (ground arith, ground arith)

  -- The list that compose gives is, in the order of the items, a network policy and a config map for
  -- each enrolled business, and behind all of these a resource for each item. The workload's Pod and
  -- the egress gateway's deployment are replaced by what ComposePod makes of them with the options of
  -- their name, with the shared policy attached to the proxy's container; any other item is as it was.
  -- No name is enrolled twice, and both roles' names are.
  pub compose-IsFixture :
      (raws : List Raw) {out : Resources}
      → compose readers networking managed artifacts config_map_name options raws ≡ ok out
      → IsFixture raws out
  unfolding compose
  compose-IsFixture raws h =
      let (s, composes, h₁) = >>=-ok _ _ h in
      let (found, last) = refuse_if-ok _ _ _ h₁ in
      let (rs, ps, ns, are_made, grows) =
        compose_items-Grows raws (record { policies = []; resources = []; seen = [] }) tt
          composes in
      let (has_workload, has_egress) = both _ _ found in
      record {
        resources = rs;
        policies = ps;
        names = ns;
        made = are_made;
        first =
            sym (ok-injective last)
            ∙ ap (λ l. l ++ s.resources) grows.policies
            ∙ ap (λ l. ps ++ l) grows.resources;
        distinct = subst (IsDistinct Text-discrete) grows.seen grows.distinct;
        has_workload = rw grows.seen at has_workload;
        has_egress = rw grows.seen at has_egress;
      }
