-- ===== src/Inspection/Ca/Open.antt =====
-- Open and generate: the authority is read, or made once, and published.
use egress_gateway.Prelude.{
  ℕ, ◌+◌, ◌-◌, Bool, true, false, ◌&&◌, ◌||◌, not, List, [], ◌∷◌, Option, none, some, ltb, Text,
  text,
}
use egress_gateway.Prelude.Results.{Result, ok, err, ◌>>=◌, ◌>>◌, refuse_if, or_fail}
use egress_gateway.GoLib.Strings.{has_prefix}
use egress_gateway.GoLib.FilePath.{text_eq, join}
use egress_gateway.Config.Names.{ca_certificate_file, ca_state_file}
use egress_gateway.Inspection.Crypto.{
  Bytes, Crypto, Certificate, KeyUsage, cert_sign, crl_sign, digital_signature, minute, hour,
}
use egress_gateway.Inspection.Leaf.{Authority}
use egress_gateway.Inspection.Ca.Bundle.{Pem}
use egress_gateway.Inspection.Ca.Directory.{
  FileKind, is_regular, DirectoryCalls, open_directory, Opened, read_private, ReadState, missing,
  failed, bytes,
}
use egress_gateway.Inspection.Ca.Write.{
  Answer, success, exists_error, other_error, Oracle, rename, write_atomic, publish_certificate,
}

-- `state`: the certificate and the key, both in PEM
pub record State : Type 0 where
  pub certificate : Bytes
  pub private_key : Bytes

-- tls.X509KeyPair: the leaf, and its key if that is an ECDSA key
pub record Pair : Type 0 where
  pub leaf : Option Certificate
  pub ecdsa_key : Option Bytes

-- encoding/json, encoding/pem, crypto/tls, x509.CheckSignatureFrom and time.AddDate(10, 0, 0)
pub record Codec : Type 0 where
  pub encode_state : State → Option Bytes
  pub decode_state : Bytes → Option State
  pub key_pair : State → Option Pair
  pub is_signed_by : Certificate → Certificate → Bool
  pub ten_years_after : ℕ → ℕ
  pub pem : Pem

pub record Entry : Type 0 where
  pub name : Text
  pub kind : FileKind

-- What the operating system answers to Open.
pub record World : Type 0 where
  pub private_calls : DirectoryCalls
  pub public_calls : DirectoryCalls
  -- opening the lock file, at a path and with a mode
  pub lock_opens : Text → ℕ → Bool
  pub lock_taken : Bool
  pub state_opened : Opened
  -- `os.Lstat` of the published certificate says that it does not exist
  pub trust_absent : Bool
  pub entries : Option (List Entry)
  -- the calls of the two writes
  pub state_calls : Oracle
  pub publish_calls : Oracle
  -- os.ReadFile of the published certificate
  pub published : Option Bytes

pub data OpenError : Type 0 where
  bad_private bad_public same_directory no_lock already_owned : OpenError
  trust_without_state unreadable_directory state_missing not_generated not_encoded not_written :
      OpenError
  unreadable_state invalid_state mismatched_material not_usable not_self_signed unsupported_key
        not_published :
      OpenError

unfoldable pub is_some {ℓ} : {A : Type ℓ} → Option A → Bool
is_some none = false
is_some (some a) = true

unfoldable pub succeeded : Answer → Bool
succeeded success = true
succeeded exists_error = false
succeeded other_error = false

-- The lock and what a killed WriteAtomic leaves behind.
unfoldable pub is_leftover : Entry → Bool
unfolding text_eq has_prefix is_regular
is_leftover e =
    text_eq e.name (text ".lock") || has_prefix e.name (text ".gateway-") && is_regular e.kind

unfoldable pub only_leftovers : List Entry → Bool
unfolding is_leftover
only_leftovers [] = true
only_leftovers (e ∷ es) = is_leftover e && only_leftovers es

unfoldable pub has_cert_sign : List KeyUsage → Bool
has_cert_sign [] = false
has_cert_sign (cert_sign ∷ us) = true
has_cert_sign (crl_sign ∷ us) = has_cert_sign us
has_cert_sign (digital_signature ∷ us) = has_cert_sign us

unfoldable pub is_usable : Certificate → ℕ → Bool
unfolding has_cert_sign
is_usable cert now =
    cert.is_ca
    && cert.basic_constraints_valid
    && has_cert_sign cert.key_usage
    && not (ltb now cert.not_before)
    && ltb (now + hour) cert.not_after

module _ (crypto : Crypto) (codec : Codec) where
  open crypto use {
    generate_key, random_serial, public_key, create_certificate, marshal_key, pem_certificate,
    pem_private_key,
  }

  unfoldable pub root_template : ℕ → ℕ → Certificate
  root_template serial now = record {
    raw = [];
    serial_number = serial;
    common_name = text "Gateway Pod inspection CA";
    dns_names = [];
    not_before = now - minute;
    not_after = codec.ten_years_after now;
    is_ca = true;
    basic_constraints_valid = true;
    max_path_len_zero = true;
    key_usage = cert_sign ∷ crl_sign ∷ [];
    ext_key_usage = [];
  }

  -- generate, at a position of the random stream
  unfoldable pub generate : ℕ → ℕ → Result OpenError State
  unfolding root_template
  generate draw now = do
    key ← or_fail (generate_key draw) not_generated
    serial ← or_fail (random_serial draw) not_generated
    let template = root_template serial now
    der ← or_fail (create_certificate draw template template (public_key key) key) not_generated
    private ← or_fail (marshal_key key) not_generated
    ok (record { certificate = pem_certificate der; private_key = pem_private_key private })

  -- No state file: a new authority, unless anything shows that there was one.
  unfoldable pub create_state : World → Text → ℕ → ℕ → Result OpenError State
  create_state w path draw now = do
    refuse_if (not w.trust_absent) trust_without_state
    entries ← or_fail w.entries unreadable_directory
    refuse_if (not (only_leftovers entries)) state_missing
    s ← generate draw now
    raw ← or_fail (codec.encode_state s) not_encoded
    refuse_if (not (succeeded (write_atomic w.state_calls rename path raw 0o600).result))
        not_written
    ok s

  unfoldable pub load_state : World → Text → ℕ → ℕ → ReadState → Result OpenError State
  unfolding create_state
  load_state w path draw now missing = create_state w path draw now
  load_state w path draw now failed = err unreadable_state
  load_state w path draw now (bytes raw) = or_fail (codec.decode_state raw) invalid_state

  -- The checks behind the key pair, and the publication.
  unfoldable pub use_state : World → Text → ℕ → State → Result OpenError Authority
  use_state w public_dir now s = do
    pair ← or_fail (codec.key_pair s) mismatched_material
    cert ← or_fail pair.leaf not_usable
    refuse_if (not (is_usable cert now)) not_usable
    refuse_if (not (codec.is_signed_by cert cert)) not_self_signed
    key ← or_fail pair.ecdsa_key unsupported_key
    refuse_if
        (not (
          succeeded
            (publish_certificate codec.pem w.publish_calls (join public_dir ca_certificate_file)
              s.certificate cert w.published).result))
        not_published
    ok (record { certificate = cert; key = key })

  -- Open, from the point where it holds the lock.
  unfoldable pub open_locked : World → Text → Text → ℕ → ℕ → Result OpenError Authority
  open_locked w private_dir public_dir draw now = do
    s ← load_state w (join private_dir ca_state_file) draw now (read_private w.state_opened)
    use_state w public_dir now s

  unfoldable pub open_authority : World → Text → Text → ℕ → ℕ → Result OpenError Authority
  open_authority w private_dir public_dir draw now = do
    refuse_if (is_some (open_directory private_dir 0o700 w.private_calls)) bad_private
    refuse_if (is_some (open_directory public_dir 0o755 w.public_calls)) bad_public
    refuse_if (text_eq private_dir public_dir) same_directory
    refuse_if (not (w.lock_opens (join private_dir (text ".lock")) 0o600)) no_lock
    refuse_if (not w.lock_taken) already_owned
    open_locked w private_dir public_dir draw now
