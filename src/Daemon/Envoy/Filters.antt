-- ===== src/Daemon/Envoy/Filters.antt =====
-- What the loops over the filters leave, the inner one first.
use mathlib.Core.Path.{subst}
use egress_gateway.Prelude.{
  ◌≡◌, inl, inr, refl, ap, ◌∙◌, Bool, true, Bool-cases, ◌&&◌, text, Text-discrete, arith,
}
use egress_gateway.Prelude.Results.{>>=-ok, ok-injective}
use egress_gateway.GoLib.FilePath.{text_eq}
use egress_gateway.Config.Validate.{Config}
use egress_gateway.Daemon.Json.{object, Fields, get_field, set_field, is_string, visit_array}
use egress_gateway.Daemon.Json.Laws.{
  get_field-set_other, Each, Within, Makes, visit_array-Makes, visit_object-Makes,
  visit_object-get_field,
}
use egress_gateway.Daemon.Json.Flags.{
  Has, HasWithin, Raises, visit_array-Has, visit_object-HasWithin,
}
use egress_gateway.Daemon.Request.{Guard}
use egress_gateway.Daemon.Envoy.{
  strict, authz_name, manager_name, with_guard, authorize, visit_http, visit_filter, visit_chain,
  visit_listener,
}
use egress_gateway.Daemon.Envoy.Laws.{
  name_key, config_key, IsGuarded, visit_http-IsGuarded, with_guard-name,
}

-- A filter of the policy
abbrev pub IsAuthz : Fields → Type 0
IsAuthz f = is_string authz_name (get_field name_key f) ≡ true

-- A network filter that manages HTTP connections, with such an HTTP filter
abbrev pub HasAuthz : Fields → Type 0
HasAuthz f =
    (is_string manager_name (get_field name_key f) ≡ true)
    × HasWithin config_key (Has (text "http_filters") IsAuthz) f

module _ (g : Guard) (c : Config) (policy_extension : Bool) where
  abbrev pub IsManaged : Fields → Type 0
  IsManaged f =
      is_string manager_name (get_field name_key f) ≡ true
      → Within config_key (Each (text "http_filters") (IsGuarded g c policy_extension)) f

  abbrev pub AreListenersGuarded : Fields → Type 0
  AreListenersGuarded =
      Each (text "listeners") (Each (text "filter_chains") (Each (text "filters") IsManaged))

  visit_filter-IsManaged : Makes (visit_filter g c policy_extension) IsManaged
  unfolding visit_filter
  visit_filter-IsManaged shared f r h =
      elim (Bool-cases (is_string manager_name (get_field name_key f))) [
        | inl e ↦ λ managed.
            visit_object-Makes (visit_array (text "http_filters") (visit_http g c policy_extension))
              (Each (text "http_filters") (IsGuarded g c policy_extension))
              (visit_array-Makes (visit_http g c policy_extension) (IsGuarded g c policy_extension)
                (visit_http-IsGuarded g c policy_extension) (text "http_filters"))
              config_key shared f r (rw e at h)
        | inr e ↦ subst (λ (r : Fields × Bool). IsManaged r.0) (ok-injective (rw e at h)) (λ k. cc)
      ]

  visit_chain-Managed : Makes (visit_chain g c policy_extension) (Each (text "filters") IsManaged)
  unfolding visit_chain
  visit_chain-Managed =
      visit_array-Makes (visit_filter g c policy_extension) IsManaged visit_filter-IsManaged
        (text "filters")

  visit_listener-Managed :
      Makes
        (visit_listener g c policy_extension)
        (Each (text "filter_chains") (Each (text "filters") IsManaged))
  unfolding visit_listener
  visit_listener-Managed =
      visit_array-Makes (visit_chain g c policy_extension) (Each (text "filters") IsManaged)
        visit_chain-Managed (text "filter_chains")

  pub visit_listeners-Guarded :
      Makes
        (visit_array (text "listeners") (visit_listener g c policy_extension))
        AreListenersGuarded
  visit_listeners-Guarded =
      visit_array-Makes (visit_listener g c policy_extension)
        (Each (text "filter_chains") (Each (text "filters") IsManaged)) visit_listener-Managed
        (text "listeners")

  -- The flag is raised by a filter of the policy only.
  visit_http-IsAuthz : Raises (visit_http g c policy_extension) IsAuthz
  unfolding visit_http authorize text_eq Text-discrete
  visit_http-IsAuthz shared f r h raised =
      elim (Bool-cases (policy_extension && is_string authz_name (get_field name_key f))) [
        | inl e ↦
            let (cfg, given, last) = >>=-ok _ _ (rw e at h) in
            let changed = set_field config_key (object (strict cfg)) f in
            let same : get_field name_key (with_guard g c changed) ≡ get_field name_key f =
              with_guard-name g c policy_extension changed
              ∙ get_field-set_other name_key config_key (object (strict cfg)) f refl in
            inr (
              subst (λ (r : Fields × Bool). IsAuthz r.0) (ok-injective last)
                (ap (is_string authz_name) same ∙ ground arith))
        | inr e ↦ inl (ap (λ (r : Fields × Bool). r.1) (ok-injective (rw e at h)) ∙ raised)
      ]

  visit_filter-HasAuthz : Raises (visit_filter g c policy_extension) HasAuthz
  unfolding visit_filter text_eq Text-discrete
  visit_filter-HasAuthz shared f r h raised =
      elim (Bool-cases (is_string manager_name (get_field name_key f))) [
        | inl e ↦
            let visit = visit_array (text "http_filters") (visit_http g c policy_extension) in
            elim (visit_object-HasWithin visit (Has (text "http_filters") IsAuthz)
              (visit_array-Has (visit_http g c policy_extension) IsAuthz visit_http-IsAuthz
                (text "http_filters"))
              config_key shared f r (rw e at h) raised) [
                | inl before ↦ inl before
                | inr now ↦ inr (
                  ap (is_string manager_name) (
                        visit_object-get_field visit name_key config_key refl shared f r
                          (rw e at h))
                      ∙ e,
                  now,
                )
              ]
        | inr e ↦ inl (ap (λ (r : Fields × Bool). r.1) (ok-injective (rw e at h)) ∙ raised)
      ]

  visit_chain-HasAuthz : Raises (visit_chain g c policy_extension) (Has (text "filters") HasAuthz)
  unfolding visit_chain
  visit_chain-HasAuthz =
      visit_array-Has (visit_filter g c policy_extension) HasAuthz visit_filter-HasAuthz
        (text "filters")

  visit_listener-HasAuthz :
      Raises
        (visit_listener g c policy_extension)
        (Has (text "filter_chains") (Has (text "filters") HasAuthz))
  unfolding visit_listener
  visit_listener-HasAuthz =
      visit_array-Has (visit_chain g c policy_extension) (Has (text "filters") HasAuthz)
        visit_chain-HasAuthz (text "filter_chains")

  abbrev pub HasAuthorization : Fields → Type 0
  HasAuthorization =
      Has (text "listeners") (Has (text "filter_chains") (Has (text "filters") HasAuthz))

  pub visit_listeners-HasAuthz :
      Raises (visit_array (text "listeners") (visit_listener g c policy_extension)) HasAuthorization
  visit_listeners-HasAuthz =
      visit_array-Has (visit_listener g c policy_extension)
        (Has (text "filter_chains") (Has (text "filters") HasAuthz)) visit_listener-HasAuthz
        (text "listeners")
