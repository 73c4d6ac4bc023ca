-- ===== src/Daemon/Envoy/Clusters.antt =====
-- What the loop over the clusters leaves.
use mathlib.Core.Path.{subst}
use egress_gateway.Prelude.{
  ◌≡◌, inl, inr, refl, ◌∙◌, Bool, true, false, Bool-cases, Option, some, Text, text, Text-discrete,
}
use egress_gateway.Prelude.Results.{ok-injective}
use egress_gateway.GoLib.FilePath.{text_eq}
use egress_gateway.Config.Validate.{Config, inspection_sds_path}
use egress_gateway.Daemon.Json.{Json, string, Fields, get_field, set_field, is_string}
use egress_gateway.Daemon.Json.Laws.{get_field-set_field, get_field-set_other, Makes, is_string-eq}
use egress_gateway.Daemon.Envoy.{assignment, move_cluster, visit_cluster}
use egress_gateway.Daemon.Envoy.Laws.{name_key}
use egress_gateway.Daemon.Probes.{opa_socket}

-- A cluster of the gateway is at its private socket.
pub record IsPrivate (c : Config) (f : Fields) : Type 0 where
  pub opa :
      is_string (text "opa") (get_field name_key f) ≡ true
      → (get_field (text "type") f ≡ some (string (text "STATIC")))
        × (get_field (text "load_assignment") f ≡ some (assignment (text "opa") (opa_socket c)))
  pub secrets :
      is_string (text "inspection_sds") (get_field name_key f) ≡ true
      → (get_field (text "type") f ≡ some (string (text "STATIC")))
        × (get_field (text "load_assignment") f
            ≡ some (assignment (text "inspection_sds") (inspection_sds_path c)))

IsMoved : (c : Config) → Text → Text → Fields → Type 0
IsMoved c name socket f =
    (get_field (text "type") f ≡ some (string (text "STATIC")))
    × (get_field (text "load_assignment") f ≡ some (assignment name socket))

move_cluster-moved :
    (name socket : Text) (f : Fields)
    → (get_field (text "type") (move_cluster name socket f) ≡ some (string (text "STATIC")))
      × (get_field (text "load_assignment") (move_cluster name socket f)
          ≡ some (assignment name socket))
unfolding move_cluster text_eq Text-discrete
move_cluster-moved name socket f =
    let static = set_field (text "type") (string (text "STATIC")) f in
    (
      get_field-set_other (text "type") (text "load_assignment") (assignment name socket) static
            refl
          ∙ get_field-set_field (text "type") (string (text "STATIC")) f,
      get_field-set_field (text "load_assignment") (assignment name socket) static,
    )

move_cluster-name :
    (name socket : Text) (f : Fields)
    → get_field name_key (move_cluster name socket f) ≡ get_field name_key f
unfolding move_cluster text_eq Text-discrete
move_cluster-name name socket f =
    let static = set_field (text "type") (string (text "STATIC")) f in
    get_field-set_other name_key (text "load_assignment") (assignment name socket) static refl
    ∙ get_field-set_other name_key (text "type") (string (text "STATIC")) f refl

not_secrets :
    (n : Option Json)
    → is_string (text "opa") n ≡ true
    → is_string (text "inspection_sds") n ≡ false
unfolding is_string text_eq Text-discrete
not_secrets n h = rw (is_string-eq (text "opa") n h) refl

pub visit_cluster-IsPrivate : (c : Config) → Makes (visit_cluster c) (IsPrivate c)
unfolding visit_cluster
visit_cluster-IsPrivate c shared f r h =
    elim (Bool-cases (is_string (text "opa") (get_field name_key f))) [
      | inl e ↦
          subst (λ (r : Fields × Bool). IsPrivate c r.0) (ok-injective (rw e at h))
            (record {
              opa = λ k. move_cluster-moved (text "opa") (opa_socket c) f;
              secrets = λ k. cc (
                move_cluster-name (text "opa") (opa_socket c) f,
                not_secrets (get_field name_key f) e,
              );
            })
      | inr e ↦ elim (Bool-cases (is_string (text "inspection_sds") (get_field name_key f))) [
        | inl e' ↦
            subst (λ (r : Fields × Bool). IsPrivate c r.0) (ok-injective (rw (e, e') at h))
              (record {
                opa = λ k. cc (move_cluster-name (text "inspection_sds") (inspection_sds_path c) f);
                secrets = λ k. move_cluster-moved (text "inspection_sds") (inspection_sds_path c) f;
              })
        | inr e' ↦
            subst (λ (r : Fields × Bool). IsPrivate c r.0) (ok-injective (rw (e, e') at h))
              (record { opa = λ k. cc; secrets = λ k. cc })
      ]
    ]
