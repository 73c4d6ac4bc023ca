-- ===== src/Inspection/Server/Watches/Delivery.antt =====
-- What a watch is told of a response.
use egress_gateway.Prelude.{
  ◌+◌, ◌<◌, ◌≤◌, ◌≡◌, refl, ap, ◌⊎◌, inl, inr, true, false, Bool-cases, IsDistinct, ◌&&◌, not, List,
  [], ◌∷◌, ◌++◌, ite, if◌then◌else◌, Text, Text-discrete, length, length-append, arith, has, delete,
  has-delete,
}
use egress_gateway.Inspection.Server.State.{
  Watch, Resource, Response, StatusError, resource_exhausted,
}
use egress_gateway.Inspection.Server.Responses.{names_of}
use egress_gateway.Inspection.Server.Watches.{
  interesting, drop_removed, event_for, enqueue, fail, notify,
}

interesting-names :
    (names : List Text) (n : Text) (rs : List Resource)
    → has Text-discrete n (names_of (interesting names rs))
      ≡ (has Text-discrete n names && has Text-discrete n (names_of rs))
unfolding interesting has
interesting-names names n [] = ground arith
interesting-names names n (r ∷ rs) = ground (arith, interesting-names names n rs, congruent)
  where
    congruent : (m : Text) → m ≡ n → has Text-discrete m names ≡ has Text-discrete n names
    congruent m e = ap (λ t. has Text-discrete t names) e

-- The names of the watch after one removed name.
abbrev without : Text → List Text → List Text
without g names = if has Text-discrete g names then delete Text-discrete g names else names

has-without :
    (n g : Text) (names : List Text)
    → has Text-discrete n (without g names)
      ≡ ite (Text-discrete g n) false (has Text-discrete n names)
has-without n g names = elim (Text-discrete g n) [
  | yes same ↦
      ground (arith, has-delete Text-discrete n g names, ap (λ t. has Text-discrete t names) same)
  | no other ↦ ground (arith, has-delete Text-discrete n g names)
]

drop_removed-left :
    (n : Text) (gone names : List Text)
    → has Text-discrete n (drop_removed gone names).1
      ≡ (has Text-discrete n names && not (has Text-discrete n gone))
unfolding drop_removed has
drop_removed-left n [] names = ground arith
drop_removed-left n (g ∷ gone) names =
    ground (arith, drop_removed-left n gone (without g names), has-without n g names)

drop_removed-gone :
    (n : Text) (gone names : List Text)
    → has Text-discrete n (drop_removed gone names).0
      ≡ (has Text-discrete n names && has Text-discrete n gone)
unfolding drop_removed has
drop_removed-gone n [] names = ground arith
drop_removed-gone n (g ∷ gone) names = ground (
  arith,
  drop_removed-gone n gone (without g names),
  has-without n g names,
  ap (λ t. has Text-discrete t names) {x = g} {y = n},
)

fail-updates : (e : StatusError) (w : Watch) → (fail e w).updates ≡ w.updates
unfolding fail
fail-updates e w = ground arith

enqueue-names : (r : Response) (w : Watch) → (enqueue r w).names ≡ w.names
unfolding enqueue fail
enqueue-names r w = ground arith

-- The resources of the given names, as they are and in their order
abbrev pub AreChosen : List Text → List Resource → List Resource → Type 0
AreChosen names [] out = out ≡ []
AreChosen names (r ∷ rs) out =
    ((has Text-discrete r.name names ≡ true)
      × (rest : List Resource) × (out ≡ r ∷ rest)
      × AreChosen names rs rest)
    ⊎ ((has Text-discrete r.name names ≡ false) × AreChosen names rs out)

interesting-AreChosen :
    (names : List Text) (rs : List Resource) → AreChosen names rs (interesting names rs)
unfolding interesting
interesting-AreChosen names [] = refl
interesting-AreChosen names (r ∷ rs) = elim (Bool-cases (has Text-discrete r.name names)) [
  | inl e ↦ inl (e, interesting names rs, rw (e, interesting) refl, interesting-AreChosen names rs)
  | inr e ↦ inr (e, rw (e, interesting) (interesting-AreChosen names rs))
]

drop_removed-IsDistinct :
    (gone names : List Text) → IsDistinct Text-discrete (drop_removed gone names).0
unfolding drop_removed
drop_removed-IsDistinct [] names = tt
drop_removed-IsDistinct (g ∷ gone) names = elim (Bool-cases (has Text-discrete g names)) [
  | inl e ↦
      rw (e, drop_removed)
        (
          ground (
            arith,
            drop_removed-gone g gone (delete Text-discrete g names),
            has-delete Text-discrete g g names,
          ),
          drop_removed-IsDistinct gone (delete Text-discrete g names),
        )
  | inr e ↦ rw (e, drop_removed) (drop_removed-IsDistinct gone names)
]

-- Of a response a watch gets exactly the resources of the names that it has, unchanged and in their
-- order, and, each once, exactly the removed names that it has; type, nonce and version are those of
-- the response. Afterwards the watch has its names but the removed ones.
pub notify-names :
    (resp : Response) (w : Watch) (n : Text)
    → AreChosen w.names resp.resources (event_for resp w).resources
      × IsDistinct Text-discrete (event_for resp w).removed
      × ((event_for resp w).type_url ≡ resp.type_url)
      × ((event_for resp w).nonce ≡ resp.nonce)
      × ((event_for resp w).system_version_info ≡ resp.system_version_info)
      × (has Text-discrete n (names_of (event_for resp w).resources)
          ≡ (has Text-discrete n w.names && has Text-discrete n (names_of resp.resources)))
      × (has Text-discrete n (event_for resp w).removed
          ≡ (has Text-discrete n w.names && has Text-discrete n resp.removed))
      × (has Text-discrete n (notify resp w).names
          ≡ (has Text-discrete n w.names && not (has Text-discrete n resp.removed)))
unfolding event_for notify
notify-names resp w n = (
  interesting-AreChosen w.names resp.resources,
  drop_removed-IsDistinct resp.removed w.names,
  refl,
  refl,
  refl,
  interesting-names w.names n resp.resources,
  drop_removed-gone n resp.removed w.names,
  rw enqueue-names (drop_removed-left n resp.removed w.names),
)

-- What became of a response that was to be queued: nothing to send, queued, or no room and an
-- error left behind.
abbrev pub Queued : Response → Watch → Watch → Type 0
Queued event w w' =
    ((length event.resources + length event.removed ≡ 0)
      × (w'.updates ≡ w.updates)
      × (w'.errors ≡ w.errors))
    ⊎ (((length w.updates < 4) × (w'.updates ≡ w.updates ++ (event ∷ [])) × (w'.errors ≡ w.errors))
        ⊎ ((4 ≤ length w.updates) × (w'.updates ≡ w.updates) × (0 < length w'.errors)))

fail-nonempty : (e : StatusError) (w : Watch) → 0 < length (fail e w).errors
unfolding fail
fail-nonempty e w = ground (arith, length-append {0} w.errors (e ∷ []))

enqueue-Queued : (r : Response) (w : Watch) → Queued r w (enqueue r w)
unfolding enqueue
enqueue-Queued r w =
    ground (arith, fail-nonempty resource_exhausted w, fail-updates resource_exhausted w)

-- A response with nothing for the watch changes none of its channels. Any other is queued behind
-- those that wait, or, when four wait, leaves an error behind: it is never lost in silence.
pub notify-Queued : (resp : Response) (w : Watch) → Queued (event_for resp w) w (notify resp w)
unfolding notify
notify-Queued resp w =
    enqueue-Queued (event_for resp w) (record w { names = (drop_removed resp.removed w.names).1 })
