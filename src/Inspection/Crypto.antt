-- ===== src/Inspection/Crypto.antt =====
-- The certificates and keys of internal/inspection, and the cryptography that it calls: crypto/ecdsa,
-- crypto/rand, crypto/x509, encoding/pem and Envoy's message types are parameters.
use egress_gateway.Prelude.{ℕ, Bool, List, Option, Text}

abbrev pub Bytes : Type 0
Bytes = List ℕ

pub data KeyUsage : Type 0 where
  cert_sign crl_sign digital_signature : KeyUsage

pub data ExtKeyUsage : Type 0 where
  server_auth : ExtKeyUsage

-- x509.Certificate: the fields that the code writes or reads. Times count nanoseconds.
pub record Certificate : Type 0 where
  pub raw : Bytes
  pub serial_number : ℕ
  pub common_name : Text
  pub dns_names : List Text
  pub not_before : ℕ
  pub not_after : ℕ
  pub is_ca : Bool
  pub basic_constraints_valid : Bool
  pub max_path_len_zero : Bool
  pub key_usage : List KeyUsage
  pub ext_key_usage : List ExtKeyUsage

-- tlsv3.Secret with its TLS certificate, in memory
pub record TlsSecret : Type 0 where
  pub name : Text
  pub certificate_chain : Bytes
  pub private_key : Bytes

-- What is called and not defined here. A number argument of `generate_key`, `random_serial` and
-- `create_certificate` is the position in the stream of crypto/rand that the call reads at.
pub record Crypto : Type 0 where
  pub generate_key : ℕ → Option Bytes
  pub random_serial : ℕ → Option ℕ
  pub public_key : Bytes → Bytes
  pub create_certificate : ℕ → Certificate → Certificate → Bytes → Bytes → Option Bytes
  pub marshal_key : Bytes → Option Bytes
  pub pem_certificate : Bytes → Bytes
  pub pem_private_key : Bytes → Bytes
  pub any_new : TlsSecret → Option Bytes

abbrev pub second : ℕ
second = 1_000_000_000

abbrev pub minute : ℕ
minute = 60_000_000_000

abbrev pub hour : ℕ
hour = 3_600_000_000_000
