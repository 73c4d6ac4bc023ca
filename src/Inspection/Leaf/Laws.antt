-- ===== src/Inspection/Leaf/Laws.antt =====
-- When a leaf is issued, and what it is valid for.
use egress_gateway.Prelude.{
  ℕ, ◌+◌, ◌-◌, refl, true, false, [], ◌∷◌, ◌≤◌, ◌<◌, ◌≡◌, some, Text, arith,
}
use egress_gateway.Prelude.Options.{>>=-eq-some}
use egress_gateway.Inspection.Crypto.{
  Bytes, Crypto, Certificate, digital_signature, server_auth, minute, hour,
}
use egress_gateway.Inspection.Leaf.{Authority, leaf_expiry, leaf_template, issue, sign_leaf}

-- A certificate for one name, valid from a minute ago, for at least a minute more and for at most an
-- hour, within the authority's own validity; it is for servers and is no authority.
pub record IsLeaf (a : Authority) (name : Text) (now : ℕ) (template : Certificate) : Type 0 where
  pub name_only : template.dns_names ≡ name ∷ []
  pub common_name : template.common_name ≡ name
  pub no_authority : template.is_ca ≡ false
  pub constrained : template.basic_constraints_valid ≡ true
  pub usage : template.key_usage ≡ digital_signature ∷ []
  pub for_servers : template.ext_key_usage ≡ server_auth ∷ []
  pub from : template.not_before ≡ now - minute
  pub long_enough : now + minute < template.not_after
  pub within : template.not_after ≤ a.certificate.not_after
  pub an_hour : template.not_after ≤ now + hour

-- What an issued pair is: PEM forms of a certificate for the template, signed with the authority's
-- key, and of the fresh key that the certificate is for.
pub record IsIssued (crypto : Crypto) (a : Authority) (name : Text) (draw now : ℕ)
    (pair : Bytes × Bytes) : Type 0 where
  pub key : Bytes
  pub template : Certificate
  pub der : Bytes
  pub encoded : Bytes
  pub key_new : crypto.generate_key draw ≡ some key
  pub serial : crypto.random_serial draw ≡ some template.serial_number
  pub leaf : IsLeaf a name now template
  pub signed :
      crypto.create_certificate draw template a.certificate (crypto.public_key key) a.key ≡ some der
  pub marshalled : crypto.marshal_key key ≡ some encoded
  pub pair_eq : pair ≡ (crypto.pem_certificate der, crypto.pem_private_key encoded)

module _ (crypto : Crypto) (a : Authority) (name : Text) (draw now : ℕ) where
  leaf_template-IsLeaf :
      (serial : ℕ)
      → now + minute < a.certificate.not_after
      → IsLeaf a name now (leaf_template a name serial now)
  unfolding leaf_template leaf_expiry
  leaf_template-IsLeaf serial late = record {
    name_only = refl;
    common_name = refl;
    no_authority = refl;
    constrained = refl;
    usage = refl;
    for_servers = refl;
    from = refl;
    long_enough = ground arith;
    within = ground arith;
    an_hour = ground arith;
  }

  sign_leaf-IsIssued :
      {pair : Bytes × Bytes}
      → now + minute < a.certificate.not_after
      → sign_leaf crypto a name draw now ≡ some pair
      → IsIssued crypto a name draw now pair
  unfolding sign_leaf
  sign_leaf-IsIssued {pair} late h =
      let (key, key_new, h₁) = >>=-eq-some (crypto.generate_key draw) _ h in
      let (serial, numbered, h₂) = >>=-eq-some (crypto.random_serial draw) _ h₁ in
      let (der, signed, h₃) = >>=-eq-some _ _ h₂ in
      let (encoded, marshalled, h₄) = >>=-eq-some _ _ h₃ in
      record {
        key = key;
        template = leaf_template a name serial now;
        der = der;
        encoded = encoded;
        key_new = key_new;
        serial = unfold leaf_template in numbered;
        leaf = leaf_template-IsLeaf serial late;
        signed = signed;
        marshalled = marshalled;
        pair_eq = ground arith;
      }

  -- A leaf is issued only for a time inside the validity of the authority's certificate, more
  -- than a minute before its end. The certificate that is signed, with the authority's key and for a
  -- fresh key, is for exactly the name asked, is no authority itself, is for servers, is valid from a
  -- minute ago, for at least a minute more and for at most an hour, and never beyond the authority's
  -- certificate.
  pub issue-IsIssued :
      {pair : Bytes × Bytes}
      → issue crypto a name draw now ≡ some pair
      → IsIssued crypto a name draw now pair
        × (a.certificate.not_before ≤ now)
        × (now + minute < a.certificate.not_after)
  unfolding issue
  issue-IsIssued {pair} h =
      let signed : sign_leaf crypto a name draw now ≡ some pair = ground arith in
      let late : now + minute < a.certificate.not_after = ground arith in
      (sign_leaf-IsIssued late signed, ground arith, late)
