-- ===== src/Inspection/Leaf.antt =====
-- internal/inspection/leaf.go: Authority.issue, the leaf certificates.
pub mod Laws
use egress_gateway.Prelude.{
  ℕ, ◌+◌, ◌-◌, Bool, true, false, ◌||◌, not, List, [], ◌∷◌, Option, none, some, ltb, if◌then◌else◌,
  Text,
}
use egress_gateway.Prelude.Options.{◌>>=◌}
use egress_gateway.Inspection.Crypto.{
  Bytes, Crypto, Certificate, digital_signature, server_auth, minute, hour,
}

-- Authority, without the lock file that it holds
pub record Authority : Type 0 where
  pub certificate : Certificate
  pub key : Bytes

-- `expiry`: an hour from now, or the end of the authority's own certificate
unfoldable pub leaf_expiry : Authority → ℕ → ℕ
leaf_expiry a now =
    if ltb a.certificate.not_after (now + hour) then a.certificate.not_after else now + hour

-- The template of the leaf. Times stay above the first minute of the count.
unfoldable pub leaf_template : Authority → Text → ℕ → ℕ → Certificate
unfolding leaf_expiry
leaf_template a name serial now = record {
  raw = [];
  serial_number = serial;
  common_name = name;
  dns_names = name ∷ [];
  not_before = now - minute;
  not_after = leaf_expiry a now;
  is_ca = false;
  basic_constraints_valid = true;
  max_path_len_zero = false;
  key_usage = digital_signature ∷ [];
  ext_key_usage = server_auth ∷ [];
}

module _ (crypto : Crypto) where
  open crypto use {
    generate_key, random_serial, public_key, create_certificate, marshal_key, pem_certificate,
    pem_private_key,
  }

  -- `draw` is the position in the random stream. `none` is any of the errors.
  unfoldable pub sign_leaf : Authority → Text → ℕ → ℕ → Option (Bytes × Bytes)
  unfolding leaf_template
  sign_leaf a name draw now = do
    key ← generate_key draw
    serial ← random_serial draw
    der ←
        create_certificate draw (leaf_template a name serial now) a.certificate (public_key key)
          a.key
    encoded ← marshal_key key
    some (pem_certificate der, pem_private_key encoded)

  unfoldable pub issue : Authority → Text → ℕ → ℕ → Option (Bytes × Bytes)
  unfolding sign_leaf
  issue a name draw now =
      if ltb now a.certificate.not_before || not (ltb (now + minute) a.certificate.not_after)
      then none
      else sign_leaf a name draw now
