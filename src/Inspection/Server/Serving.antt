-- ===== src/Inspection/Server/Serving.antt =====
-- The loop of updateLocked over the requested names.
use egress_gateway.Prelude.{
  All, ℕ, ◌+◌, ◌<◌, ◌≡◌, refl, ◌⊎◌, inl, inr, Bool, List, [], ◌∷◌, Option, none, some, Text,
  Text-discrete, arith, Option-cases, Bool-cases, ltb, ltb→lt, insert, find, has-add, find-insert,
}
use egress_gateway.Prelude.Results.{Result, ok, err}
use egress_gateway.Inspection.Crypto.{Bytes, Crypto}
use egress_gateway.Inspection.Leaf.{issue}
use egress_gateway.Inspection.Names
use egress_gateway.Inspection.Names.{canonical_name}
use egress_gateway.Inspection.Server.State.{Server, Element, Resource, remove}
use egress_gateway.Inspection.Server.Consistency.{
  counters-IsConsistent, move-IsConsistent, remove-IsConsistent, entries-remove,
}
use egress_gateway.Inspection.Server.Update.{
  Progress, Loop, going, failed, panicked, pack, fresh, serve_entry, serve_valid, serve, serve_all,
}
use egress_gateway.Inspection.Server.Answers.{
  Holds, IsAnswered, IsSoundBut, IsSound, Ends, IsNext, Ends-map, Ends-from, add_resource-IsNext,
  insert_kept, removed_kept,
}

module _ (crypto : Crypto) (now : ℕ) where
  pack-IsNext :
      (name : Text) (pair : Option (Bytes × Bytes)) (p : Progress)
      → IsSoundBut now name p
      → p.server.entries name ≡ none
      → Ends (IsNext now name p) (pack crypto now name p pair)
  unfolding pack
  pack-IsNext name none p s absent = s.consistent
  pack-IsNext name (some (c, k)) p s absent =
      elim (Option-cases
        (crypto.any_new (record { name = name; certificate_chain = c; private_key = k }))) [
          | inl h ↦ rw (h, pack) s.consistent
          | inr (value, h) ↦ rw (h, pack) (add_resource-IsNext now name value p s absent)
        ]

  fresh-IsNext :
      (name canonical : Text) (p : Progress)
      → IsSoundBut now name p
      → p.server.entries name ≡ none
      → Ends (IsNext now name p) (fresh crypto now name canonical p)
  unfolding fresh
  fresh-IsNext name canonical p s absent =
      let p' : Progress = record p { server = record p.server { draws = p.server.draws + 1 } } in
      let s' : IsSoundBut now name p' = record {
        consistent =
            counters-IsConsistent p.server p.server.version _ p.server.nonce p.server.watches
              s.consistent;
        cached = s.cached;
      } in
      let pair = issue crypto p.server.authority canonical p.server.draws now in
      Ends-from now name p p' (pack crypto now name p' pair) (λ m a. a)
        (pack-IsNext name pair p' s' absent)

  -- A cached name: its entry moves to the front, and the answer gets its resource.
  hit_cached :
      (name : Text) (e : Element) (p : Progress)
      → IsSound now p
      → p.server.entries name ≡ some e
      → now < e.secret.expires
      → (m : Text) (r : Resource)
      → find Text-discrete m (insert Text-discrete name e.secret.resource p.resources) ≡ some r
      → Holds now p.server.entries m r
  hit_cached name e p s entry live m r h = elim (Text-discrete name m) [
    | yes same ↦ record {
      element = e;
      entry = ground arith;
      same = ground (arith, find-insert Text-discrete m name e.secret.resource p.resources);
      unexpired = live;
    }
    | no other ↦
        s.cached m r
          (ground (arith, find-insert Text-discrete m name e.secret.resource p.resources))
  ]

  stale-IsSoundBut :
      (name : Text) (p : Progress)
      → IsSound now p
      → IsSoundBut now name (record p { server = remove name p.server })
  stale-IsSoundBut name p s = record {
    consistent = remove-IsConsistent p.server name s.consistent;
    cached = λ m r other h.
        let held = s.cached m r h in
        record {
          element = held.element;
          entry = ground (arith, entries-remove p.server name s.consistent m, held.entry);
          same = held.same;
          unexpired = held.unexpired;
        };
  }

  serve_entry-IsNext :
      (name canonical : Text) (e : Element) (p : Progress)
      → IsSound now p
      → p.server.entries name ≡ some e
      → Ends (IsNext now name p) (serve_entry crypto now name canonical e p)
  unfolding serve_entry
  serve_entry-IsNext name canonical e p s entry = elim (Bool-cases (ltb now e.secret.expires)) [
    | inl h ↦
        rw (h, serve_entry)
          (record {
            sound = record {
              consistent = move-IsConsistent p.server name s.consistent entry;
              cached = hit_cached name e p s entry (ltb→lt now e.secret.expires h);
            };
            answered = inr (
              e.secret.resource,
              ground (arith, find-insert Text-discrete name name e.secret.resource p.resources),
            );
            kept = insert_kept name e.secret.resource p;
          })
    | inr h ↦
        let p' : Progress = record p { server = remove name p.server } in
        rw (h, serve_entry)
          (Ends-from now name p p' (fresh crypto now name canonical p') (λ m a. a)
            (fresh-IsNext name canonical p' (stale-IsSoundBut name p s)
              (ground (arith, entries-remove p.server name s.consistent name))))
  ]

  serve_valid-IsNext :
      (name canonical : Text) (p : Progress)
      → IsSound now p
      → Ends (IsNext now name p) (serve_valid crypto now name canonical p)
  unfolding serve_valid
  serve_valid-IsNext name canonical p s = elim (Option-cases (p.server.entries name)) [
    | inl h ↦
        rw (h, serve_valid)
          (fresh-IsNext name canonical p
            (record { consistent = s.consistent; cached = λ m r other k. s.cached m r k }) h)
    | inr (e, h) ↦ rw (h, serve_valid) (serve_entry-IsNext name canonical e p s h)
  ]

module _ (crypto : Crypto) (lower : ℕ → ℕ) (parse_ipv6 : Text → Bool) (now : ℕ) where
  Name-cases :
      (r : Result Names.NameError Text)
      → ((e : Names.NameError) × (r ≡ err e)) ⊎ ((c : Text) × (r ≡ ok c))
  Name-cases (ok c) = inr (c, refl)
  Name-cases (err e) = inl (e, refl)

  pub serve-IsNext :
      (name : Text) (p : Progress)
      → IsSound now p
      → Ends (IsNext now name p) (serve crypto lower parse_ipv6 now name p)
  unfolding serve
  serve-IsNext name p s = elim (Name-cases (canonical_name lower parse_ipv6 name)) [
    | inl (e, h) ↦
        rw (h, serve)
          (record {
            sound = record { consistent = s.consistent; cached = s.cached };
            answered = inl (ground (arith, has-add Text-discrete name name p.removed));
            kept = removed_kept name p;
          })
    | inr (c, h) ↦ rw (h, serve) (serve_valid-IsNext crypto now name c p s)
  ]

  -- What the loop makes of the progress before it.
  pub record IsRun (names : List Text) (p q : Progress) : Type 0 where
    pub sound : IsSound now q
    pub answered : All (IsAnswered q) names
    pub kept : (m : Text) → IsAnswered p m → IsAnswered q m

  serve_all-failed :
      (names : List Text) (t : Server)
      → serve_all crypto lower parse_ipv6 now names (failed t) ≡ failed t
  unfolding serve_all
  serve_all-failed [] t = refl
  serve_all-failed (n ∷ ns) t = refl

  -- The loop never panics: it ends in a sound progress that answers every name, or fails with a
  -- consistent server.
  pub serve_all-IsRun :
      (names : List Text) (p : Progress)
      → IsSound now p
      → Ends (IsRun names p) (serve_all crypto lower parse_ipv6 now names (going p))
  unfolding serve_all
  serve_all-IsRun [] p s = record { sound = s; answered = tt; kept = λ m a. a }
  serve_all-IsRun (n ∷ ns) p s =
      go (serve crypto lower parse_ipv6 now n p) (serve-IsNext n p s) (serve_all-IsRun ns)
    where
      go :
          (l : Loop)
          → Ends (IsNext now n p) l
          → ((q : Progress)
              → IsSound now q
              → Ends (IsRun ns q) (serve_all crypto lower parse_ipv6 now ns (going q)))
          → Ends (IsRun (n ∷ ns) p) (serve_all crypto lower parse_ipv6 now ns l)
      go (going q) next rest =
          Ends-map {P = IsRun ns q} {Q = IsRun (n ∷ ns) p} _
            (λ t r. record {
              sound = r.sound;
              answered = (r.kept n next.answered, r.answered);
              kept = λ m a. r.kept m (next.kept m a);
            })
            (rest q next.sound)
      go (failed t) next rest = rw serve_all-failed next
      go panicked next rest = absurd next
