-- ===== src/Inspection/Ca/Bundle.antt =====
-- Bundle of internal/inspection/ca.go. bytes.TrimSpace, encoding/pem and x509.ParseCertificate are
-- parameters.
pub mod Laws
pub mod Termination
use egress_gateway.Prelude.{
  ℕ, zero, suc, ◌+◌, Bool, true, false, ◌&&◌, ◌||◌, not, ◌==◌, List, [], ◌∷◌, ◌++◌, Option, none,
  some, if◌then◌else◌, Text, text,
}
use egress_gateway.Prelude.Results.{Result, ok, err, ◌>>=◌, ◌>>◌, refuse_if, or_fail}
use egress_gateway.GoLib.Strings.{has_prefix}
use egress_gateway.GoLib.FilePath.{text_eq}
use egress_gateway.Inspection.Crypto.{Bytes}

pub record Block : Type 0 where
  pub block_type : Text
  -- how many headers it has
  pub headers : ℕ
  pub content : Bytes

pub record Pem : Type 0 where
  pub trim : Bytes → Bytes
  pub decode : Bytes → Option Block × Bytes
  pub parses : Bytes → Bool
  pub encode : Block → Option Bytes

-- out_of_fuel is of the model.
pub data BundleError : Type 0 where
  not_certificates invalid_pem not_parsed not_encoded no_certificates out_of_fuel : BundleError

-- bytes.Index(remaining, "-----BEGIN ") and the slice from there on
unfoldable pub from_begin : Bytes → Option Bytes
unfolding has_prefix
from_begin [] = none
from_begin (c ∷ s) = if has_prefix (c ∷ s) (text "-----BEGIN ") then some (c ∷ s) else from_begin s

unfoldable pub is_certificate : Block → Bool
unfolding text_eq
is_certificate b = text_eq b.block_type (text "CERTIFICATE") && b.headers == 0

-- `count++` and the buffer
abbrev pub Counted : Type 0
Counted = ℕ × Bytes

module _ (pem : Pem) where
  -- The body of the loop behind the search for a block: what remains, and what is in the buffer.
  unfoldable pub read_block : Bytes → Bytes → Result BundleError (Bytes × Bytes)
  read_block start buffer = do
    refuse_if (not (has_prefix start (text "-----BEGIN CERTIFICATE-----"))) not_certificates
    block ← or_fail (pem.decode start).0 invalid_pem
    refuse_if (not (is_certificate block)) invalid_pem
    refuse_if (not (pem.parses block.content)) not_parsed
    encoded ← or_fail (pem.encode block) not_encoded
    ok (pem.trim (pem.decode start).1, buffer ++ encoded)

  -- Where no block begins, what remains is ignored.
  unfoldable pub read_from :
      Option Bytes
      → (Bytes → Counted → Result BundleError Counted)
      → Counted
      → Result BundleError Counted
  read_from none next p = ok p
  read_from (some start) next p = read_block start p.1 >>= (λ r. next r.0 (p.0 + 1, r.1))

  -- The loop over one input, on fuel.
  unfoldable pub read_blocks : ℕ → Bytes → Counted → Result BundleError Counted
  read_blocks zero remaining p = err out_of_fuel
  read_blocks (suc fuel) remaining p =
      read_from (from_begin remaining) (λ r q. read_blocks fuel r q) p

  unfoldable pub read_input : ℕ → Bytes → Bytes → Result BundleError Bytes
  read_input fuel input buffer = do
    p ← read_blocks fuel (pem.trim input) (0, buffer)
    refuse_if (p.0 == 0) no_certificates
    ok p.1

  unfoldable pub bundle : ℕ → Bytes → Bytes → Result BundleError Bytes
  bundle fuel base inspection_ca = do
    buffer ← read_input fuel base []
    read_input fuel inspection_ca buffer
