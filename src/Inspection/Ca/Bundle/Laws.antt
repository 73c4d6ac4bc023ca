-- ===== src/Inspection/Ca/Bundle/Laws.antt =====
-- What a bundle is made of, and that the loop ends.
use mathlib.Core.Path.{subst}
use mathlib.Core.List.{append_assoc, append-nil}
use native.Mathlib.Omega.{arith}
use egress_gateway.Prelude.{
  ℕ, zero, suc, ◌+◌, ◌≤◌, ◌≡◌, ◌⊎◌, sym, ap, ◌∙◌, inl, inr, Bool, true, false, not, ◌==◌, List, [],
  Bool-cases, ◌∷◌, ◌++◌, length, Option, none, some, Option-cases, if◌then◌else◌, text,
}
use egress_gateway.Prelude.Results.{ok, >>=-ok, refuse_if-ok, or_fail-ok, ok-injective}
use egress_gateway.GoLib.Strings.{has_prefix}
use egress_gateway.GoLib.FilePath.{text_eq}
use egress_gateway.Inspection.Crypto.{Bytes}
use egress_gateway.Inspection.Ca.Bundle.{
  Block, Pem, from_begin, is_certificate, Counted, read_block, read_from, read_blocks, read_input,
  bundle,
}

one_of :
    (b : Bool) {u v : Option Bytes} {t : Bytes}
    → (if b then u else v) ≡ some t
    → (u ≡ some t) ⊎ (v ≡ some t)
one_of true h = inl h
one_of false h = inr h

no_longer : {s t : Bytes} → some s ≡ some t → length t ≤ length s
no_longer h = ground arith

pub from_begin-le : (s : Bytes) {t : Bytes} → from_begin s ≡ some t → length t ≤ length s
unfolding from_begin
from_begin-le [] h = cc
from_begin-le (c ∷ s) {t} h =
    elim (one_of (has_prefix (c ∷ s) (text "-----BEGIN ")) {u = some (c ∷ s)} {v = from_begin s}
      h) [
        | inl here ↦ no_longer {s = c ∷ s} here
        | inr later ↦ omega (arith, from_begin-le s later)
      ]

module _ (pem : Pem) where
  -- A certificate that was read, and what stands for it in the bundle
  pub record IsEntry (e : Block × Bytes) : Type 0 where
    pub block_type : (e.0).block_type ≡ text "CERTIFICATE"
    pub no_headers : (e.0).headers ≡ 0
    pub parsed : pem.parses (e.0).content ≡ true
    pub encoded : pem.encode e.0 ≡ some e.1

  -- The entries, one behind the other
  abbrev pub written : List (Block × Bytes) → Bytes
  written [] = []
  written (e ∷ es) = e.1 ++ written es

  -- Where a block begins: at the first mark, if there is one
  abbrev pub NoBegin : Bytes → Type 0
  NoBegin [] = Unit
  NoBegin (c ∷ s) = (has_prefix (c ∷ s) (text "-----BEGIN ") ≡ false) × NoBegin s

  abbrev pub Begins : Bytes → Bytes → Type 0
  Begins [] start = ⊥
  Begins (c ∷ s) start =
      ((has_prefix (c ∷ s) (text "-----BEGIN ") ≡ true) × (start ≡ c ∷ s))
      ⊎ ((has_prefix (c ∷ s) (text "-----BEGIN ") ≡ false) × Begins s start)

  from_begin-NoBegin : (s : Bytes) → from_begin s ≡ none → NoBegin s
  unfolding from_begin
  from_begin-NoBegin [] h = tt
  from_begin-NoBegin (c ∷ s) h = elim (Bool-cases (has_prefix (c ∷ s) (text "-----BEGIN "))) [
    | inl e ↦ absurd (begun (rw (e, from_begin) at h))
    | inr e ↦ (e, from_begin-NoBegin s (rw (e, from_begin) at h))
  ]
    where
      begun : some (c ∷ s) ≡ none → ⊥
      begun k = cc

  from_begin-Begins : (s : Bytes) {start : Bytes} → from_begin s ≡ some start → Begins s start
  unfolding from_begin
  from_begin-Begins [] h = cc
  from_begin-Begins (c ∷ s) {start} h =
      elim (Bool-cases (has_prefix (c ∷ s) (text "-----BEGIN "))) [
        | inl e ↦ inl (e, same (rw (e, from_begin) at h))
        | inr e ↦ inr (e, from_begin-Begins s (rw (e, from_begin) at h))
      ]
    where
      same : some (c ∷ s) ≡ some start → start ≡ c ∷ s
      same k = ground arith

  -- The blocks of an input, in their order: each begins at the first mark behind the one before, and
  -- no mark is left
  abbrev pub Reads : Bytes → List (Block × Bytes) → Type 0
  Reads remaining [] = NoBegin remaining
  Reads remaining (e ∷ es) =
      (start : Bytes) × Begins remaining start
      × (has_prefix start (text "-----BEGIN CERTIFICATE-----") ≡ true)
      × ((pem.decode start).0 ≡ some e.0)
      × IsEntry e
      × Reads (pem.trim (pem.decode start).1) es

  certificate_iff :
      (b : Block) → is_certificate b ≡ true → (b.block_type ≡ text "CERTIFICATE") × (b.headers ≡ 0)
  unfolding is_certificate text_eq
  certificate_iff b h = (ground arith, ground arith)

  kept : (b : Bool) → not b ≡ false → b ≡ true
  kept b h = ground arith

  pub read_block-IsEntry :
      (start buffer : Bytes) {r : Bytes × Bytes}
      → read_block pem start buffer ≡ ok r
      → (e : Block × Bytes) × IsEntry e
        × (r.1 ≡ buffer ++ e.1)
        × ((pem.decode start).0 ≡ some e.0)
        × (r.0 ≡ pem.trim (pem.decode start).1)
        × (has_prefix start (text "-----BEGIN CERTIFICATE-----") ≡ true)
  unfolding read_block
  read_block-IsEntry start buffer {r} h =
      let (prefix, h₁) = refuse_if-ok _ _ _ h in
      let (block, decodes, h₂) = >>=-ok _ _ h₁ in
      let (certificate, h₃) = refuse_if-ok _ _ _ h₂ in
      let (parsed, h₄) = refuse_if-ok _ _ _ h₃ in
      let (content, encodes, last) = >>=-ok _ _ h₄ in
      let same : (pem.trim (pem.decode start).1, buffer ++ content) ≡ r = ok-injective last in
      (
        (block, content),
        record {
          block_type = (certificate_iff block (kept _ certificate)).0;
          no_headers = (certificate_iff block (kept _ certificate)).1;
          parsed = kept _ parsed;
          encoded = or_fail-ok _ _ encodes;
        },
        ap (λ (r : Bytes × Bytes). r.1) (sym same),
        or_fail-ok _ _ decodes,
        ap (λ (r : Bytes × Bytes). r.0) (sym same),
        kept _ prefix,
      )

  -- Blocks that were read, appended to the buffer
  pub record AreAppended (input buffer : Bytes) (es : List (Block × Bytes)) (result : Bytes)
      : Type 0 where
    pub reads : Reads input es
    pub appended : result ≡ buffer ++ written es

  read_blocks-AreAppended :
      (fuel : ℕ) (remaining : Bytes) (p : Counted) {q : Counted}
      → read_blocks pem fuel remaining p ≡ ok q
      → (es : List (Block × Bytes)) × AreAppended remaining p.1 es q.1 × (q.0 ≡ p.0 + length es)
  unfolding read_blocks read_from
  read_blocks-AreAppended zero remaining p h = cc
  read_blocks-AreAppended (suc fuel) remaining p {q} h =
      elim (Option-cases (from_begin remaining)) [
        | inl e ↦
            let same : p ≡ q = ok-injective (rw e at h) in
            (
              [],
              record {
                reads = from_begin-NoBegin remaining e;
                appended = ap (λ (q : Counted). q.1) (sym same) ∙ sym (append-nil p.1);
              },
              ground (arith, same),
            )
        | inr (start, e) ↦
            let (r, reads, rest) = >>=-ok _ _ (rw e at h) in
            let (entry, is_entry, grown, decoded, left, certified) =
              read_block-IsEntry start p.1 reads in
            let (es, more, counted) = read_blocks-AreAppended fuel r.0 (p.0 + 1, r.1) rest in
            (
              entry ∷ es,
              record {
                reads = (
                  start,
                  from_begin-Begins remaining e,
                  certified,
                  decoded,
                  is_entry,
                  subst (λ l. Reads l es) left more.reads,
                );
                appended =
                    more.appended
                    ∙ ap (λ b. b ++ written es) grown
                    ∙ append_assoc p.1 entry.1 (written es);
              },
              omega (arith, counted),
            )
      ]

  -- A certificate at least
  abbrev pub NonEmpty : List (Block × Bytes) → Type 0
  NonEmpty [] = ⊥
  NonEmpty (e ∷ es) = Unit

  read_input-AreAppended :
      (fuel : ℕ) (input buffer : Bytes) {out : Bytes}
      → read_input pem fuel input buffer ≡ ok out
      → (es : List (Block × Bytes)) × AreAppended (pem.trim input) buffer es out × NonEmpty es
  unfolding read_input
  read_input-AreAppended fuel input buffer {out} h =
      let (p, reads, h₁) = >>=-ok _ _ h in
      let (counted, last) = refuse_if-ok _ _ _ h₁ in
      let (es, appended, count) = read_blocks-AreAppended fuel (pem.trim input) (0, buffer) reads in
      (
        es,
        subst (AreAppended (pem.trim input) buffer es) (ok-injective last) appended,
        some_read es p.0 count counted,
      )
    where
      some_read :
          (es : List (Block × Bytes)) (n : ℕ) → n ≡ 0 + length es → (n == 0) ≡ false → NonEmpty es
      some_read [] n e k = absurd (ground arith)
      some_read (x ∷ es) n e k = tt

  -- The certificates of the base, then those of the authority
  pub record IsBundle (base authority out : Bytes) : Type 0 where
    pub from_base : List (Block × Bytes)
    pub from_authority : List (Block × Bytes)
    pub has_base : NonEmpty from_base
    pub has_authority : NonEmpty from_authority
    pub base_read : Reads (pem.trim base) from_base
    pub authority_read : Reads (pem.trim authority) from_authority
    pub content : out ≡ written from_base ++ written from_authority

  -- A bundle that is returned is the encodings of all blocks of the base, at least one, followed by
  -- those of all blocks of the authority, at least one, in the order in which they are found: each
  -- begins at the first mark behind the one before, and no mark is left. Each is marked as a
  -- certificate, decodes to a block of a certificate without headers, and parses.
  pub bundle-IsBundle :
      (fuel : ℕ) (base inspection_ca : Bytes) {out : Bytes}
      → bundle pem fuel base inspection_ca ≡ ok out
      → IsBundle base inspection_ca out
  unfolding bundle
  bundle-IsBundle fuel base inspection_ca h =
      let (buffer, first, second) = >>=-ok _ _ h in
      let (bs, before, b) = read_input-AreAppended fuel base [] first in
      let (cs, after, c) = read_input-AreAppended fuel inspection_ca buffer second in
      record {
        from_base = bs;
        from_authority = cs;
        has_base = b;
        has_authority = c;
        base_read = before.reads;
        authority_read = after.reads;
        content = after.appended ∙ ap (λ l. l ++ written cs) before.appended;
      }
