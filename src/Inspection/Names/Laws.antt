-- ===== src/Inspection/Names/Laws.antt =====
-- What canonicalName accepts, against a description of DNS names.
use egress_gateway.Prelude.{
  ℕ, ◌≤◌, ◌<◌, ◌≡◌, refl, ◌⊎◌, ◌↔◌, Bool, false, List, [], ◌∷◌, Text, byte_length, arith, All, sym,
  ap, ◌∙◌,
}
use egress_gateway.Prelude.Results.{ok}
use egress_gateway.GoLib.Strings.{to_lower, split_on, ends_with}
use egress_gateway.GoLib.Addr.{is_addr}
use egress_gateway.Inspection.Names.{
  has_bad_character, starts_with_hyphen, is_bad_label, check_labels, check_lowered, canonical_name,
}

-- A letter of a host name: a-z, 0-9 or the hyphen.
abbrev pub IsLdh : ℕ → Type 0
IsLdh c = ((b'a' ≤ c) × (c ≤ b'z')) ⊎ (((b'0' ≤ c) × (c ≤ b'9')) ⊎ (c ≡ b'-'))

pub record IsLabel (l : Text) : Type 0 where
  pub nonempty : 0 < byte_length l
  pub short : byte_length l ≤ 63
  pub head_ok : starts_with_hyphen l ≡ false
  pub last_ok : ends_with b'-' l ≡ false
  pub letters : All IsLdh l

good_letters : (l : Text) → has_bad_character l ≡ false → All IsLdh l
unfolding has_bad_character
good_letters [] h = tt
good_letters (c ∷ l) h = (ground arith, good_letters l (ground arith))

letters_good : (l : Text) → All IsLdh l → has_bad_character l ≡ false
unfolding has_bad_character
letters_good [] h = refl
letters_good (c ∷ l) h = ground (arith, letters_good l h.1)

IsLabel-good : (l : Text) → is_bad_label l ≡ false → has_bad_character l ≡ false → IsLabel l
unfolding is_bad_label
IsLabel-good l b c = record {
  nonempty = ground arith;
  short = ground arith;
  head_ok = ground arith;
  last_ok = ground arith;
  letters = good_letters l c;
}

good_label : (l : Text) → IsLabel l → (is_bad_label l ≡ false) × (has_bad_character l ≡ false)
unfolding is_bad_label
good_label l g = ground (arith, letters_good l g.letters)

-- The loop accepts exactly the lists of host name labels.
check_labels-ok :
    (n : Text) (ls : List Text) {c : Text} → check_labels n ls ≡ ok c → (c ≡ n) × All IsLabel ls
unfolding check_labels
check_labels-ok n [] h = (ground arith, tt)
check_labels-ok n (l ∷ ls) {c} h = ground (arith, check_labels-ok n ls {c = c}, IsLabel-good l)

ok-check_labels : (n : Text) (ls : List Text) → All IsLabel ls → check_labels n ls ≡ ok n
unfolding check_labels
ok-check_labels n [] h = refl
ok-check_labels n (l ∷ ls) h = ground (arith, ok-check_labels n ls h.1, good_label l h.0)

-- What the code accepts: a text whose lower-case form is a host name that is no address.
pub record IsServerName (lower : ℕ → ℕ) (parse_ipv6 : Text → Bool) (name : Text) : Type 0 where
  pub nonempty : 0 < byte_length name
  pub short : byte_length name ≤ 253
  pub no_final_dot : ends_with b'.' name ≡ false
  pub no_address : is_addr parse_ipv6 (to_lower lower name) ≡ false
  pub labels : All IsLabel (split_on b'.' (to_lower lower name))

module _ (lower : ℕ → ℕ) (parse_ipv6 : Text → Bool) (name : Text) where
  accepted :
      {c : Text}
      → canonical_name lower parse_ipv6 name ≡ ok c
      → (c ≡ to_lower lower name) × IsServerName lower parse_ipv6 name
  unfolding canonical_name check_lowered
  accepted {c} h =
      let lowered = to_lower lower name in
      let found = check_labels-ok lowered (split_on b'.' lowered) {c = c} in
      (
        ground (arith, found),
        record {
          nonempty = ground arith;
          short = ground arith;
          no_final_dot = ground arith;
          no_address = ground arith;
          labels = ground (arith, found);
        },
      )

  accepts :
      IsServerName lower parse_ipv6 name
      → canonical_name lower parse_ipv6 name ≡ ok (to_lower lower name)
  unfolding canonical_name check_lowered
  accepts g = ground (
    arith,
    ok-check_labels (to_lower lower name) (split_on b'.' (to_lower lower name)) g.labels,
    g,
  )

  -- A name is accepted exactly when it has 1 to 253 bytes, does not end in a dot, and its
  -- lower-case form is no IP address and consists of host name labels; the result is then the
  -- lower-case form.
  pub canonical_name-ok_iff :
      (c : Text)
      → (canonical_name lower parse_ipv6 name ≡ ok c)
        ↔ ((c ≡ to_lower lower name) × IsServerName lower parse_ipv6 name)
  canonical_name-ok_iff c = (accepted, λ g. accepts g.1 ∙ ap ok (sym g.0))
