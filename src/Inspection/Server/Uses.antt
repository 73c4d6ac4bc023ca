-- ===== src/Inspection/Server/Uses.antt =====
-- A request for a name that is one, as a use of the cache.
use egress_gateway.Prelude.{
  ℕ, ◌+◌, ◌≡◌, sym, ap, ◌∙◌, inl, inr, Bool-cases, ◌∷◌, Option, none, some, Option-cases, Text,
  take, take-cons, arith, ltb,
}
use egress_gateway.Inspection.Crypto.{Bytes, Crypto}
use egress_gateway.Inspection.Leaf.{issue}
use egress_gateway.Inspection.Server.State.{Element, remove}
use egress_gateway.Inspection.Server.Consistency.{
  IsConsistent, counters-IsConsistent, remove-IsConsistent, remove_frame,
}
use egress_gateway.Inspection.Server.Update.{
  Progress, going, make_room, push_front, store, next_version, add_resource, pack, fresh,
  serve_entry, serve_valid,
}
use egress_gateway.Inspection.Server.Recency.{
  order_of, use_name, delete_absent, order-remove, order-move, order-make_room,
}

-- A step that uses a name
pub record Uses (name : Text) (p q : Progress) : Type 0 where
  pub order : order_of q.server ≡ use_name p.server.capacity name (order_of p.server)
  pub capacity : q.server.capacity ≡ p.server.capacity

-- A step that puts a new name first
record Puts (name : Text) (p q : Progress) : Type 0 where
  order : order_of q.server ≡ take p.server.capacity (name ∷ order_of p.server)
  capacity : q.server.capacity ≡ p.server.capacity

pub going_injective : {p q : Progress} → going p ≡ going q → p ≡ q
going_injective h = ground arith

add_resource-Puts :
    (name : Text) (value : Bytes) (now : ℕ) (p : Progress) {q : Progress}
    → IsConsistent p.server
    → add_resource name value now p ≡ going q
    → Puts name p q
unfolding add_resource store
add_resource-Puts name value now p {q} c h =
    let version = next_version p.server in
    let p' : Progress = record p { server = record p.server { version = version } } in
    let c' : IsConsistent p'.server =
      counters-IsConsistent p.server version p.server.draws p.server.nonce p.server.watches c in
    elim (Option-cases (make_room p')) [
      | inl e ↦ cc (rw e at h)
      | inr (m, e) ↦
          let (order, capacity) = order-make_room p' c' e in
          let same = going_injective (rw e at h) in
          record {
            order =
                ap (λ (q : Progress). order_of q.server) (sym same)
                ∙ (unfold push_front in ap (λ l. name ∷ l) order)
                ∙ sym (take-cons p.server.capacity name (order_of p.server) c.positive);
            capacity =
                ap (λ (q : Progress). q.server.capacity) (sym same)
                ∙ (unfold push_front in capacity);
          }
    ]

module _ (crypto : Crypto) (now : ℕ) where
  pack-Puts :
      (name : Text) (pair : Option (Bytes × Bytes)) (p : Progress) {q : Progress}
      → IsConsistent p.server
      → pack crypto now name p pair ≡ going q
      → Puts name p q
  unfolding pack
  pack-Puts name none p c h = cc
  pack-Puts name (some (certificate, key)) p c h =
      elim (Option-cases (
        crypto.any_new
          (record { name = name; certificate_chain = certificate; private_key = key }))) [
            | inl e ↦ cc (rw (e, pack) at h)
            | inr (value, e) ↦ add_resource-Puts name value now p c (rw (e, pack) at h)
          ]

  fresh-Puts :
      (name canonical : Text) (p : Progress) {q : Progress}
      → IsConsistent p.server
      → fresh crypto now name canonical p ≡ going q
      → Puts name p q
  unfolding fresh
  fresh-Puts name canonical p c h =
      let p' : Progress = record p { server = record p.server { draws = p.server.draws + 1 } } in
      let c' : IsConsistent p'.server =
        counters-IsConsistent p.server p.server.version (p.server.draws + 1) p.server.nonce
          p.server.watches c in
      let puts =
        pack-Puts name (issue crypto p.server.authority canonical p.server.draws now) p' c' h in
      record { order = puts.order; capacity = puts.capacity }

  serve_entry-Uses :
      (name canonical : Text) (e : Element) (p : Progress) {q : Progress}
      → IsConsistent p.server
      → p.server.entries name ≡ some e
      → serve_entry crypto now name canonical e p ≡ going q
      → Uses name p q
  unfolding serve_entry
  serve_entry-Uses name canonical e p {q} c present h =
      elim (Bool-cases (ltb now e.secret.expires)) [
        | inl valid ↦
            let same = going_injective (rw valid at h) in
            record {
              order =
                  ap (λ (q : Progress). order_of q.server) (sym same)
                  ∙ order-move p.server name c present;
              capacity = ap (λ (q : Progress). q.server.capacity) (sym same);
            }
        | inr expired ↦
            let p' : Progress = record p { server = remove name p.server } in
            let puts =
              fresh-Puts name canonical p' (remove-IsConsistent p.server name c)
                (rw expired at h) in
            let kept : p'.server.capacity ≡ p.server.capacity = (remove_frame name p.server).0 in
            record {
              order =
                  puts.order
                  ∙ ap (λ n. take n (name ∷ order_of p'.server)) kept
                  ∙ (unfold use_name in
                      ap (λ l. take p.server.capacity (name ∷ l)) (order-remove p.server name c));
              capacity = puts.capacity ∙ kept;
            }
      ]

  pub serve_valid-Uses :
      (name canonical : Text) (p : Progress) {q : Progress}
      → IsConsistent p.server
      → serve_valid crypto now name canonical p ≡ going q
      → Uses name p q
  unfolding serve_valid
  serve_valid-Uses name canonical p c h = elim (Option-cases (p.server.entries name)) [
    | inl e ↦
        let puts = fresh-Puts name canonical p c (rw (e, serve_valid) at h) in
        record {
          order =
              puts.order
              ∙ (unfold use_name in
                  ap (λ l. take p.server.capacity (name ∷ l))
                    (sym (delete_absent name p.server.lru (sym (c.synced name) ∙ e))));
          capacity = puts.capacity;
        }
    | inr (x, e) ↦ serve_entry-Uses name canonical x p c e (rw (e, serve_valid) at h)
  ]
