-- ===== src/Tests/Bundle.antt =====
-- Bundle on two inputs, with a decoder that takes all that remains as one certificate.
use egress_gateway.Prelude.{
  ◌<◌, ◌≡◌, ◌≢◌, refl, arith, true, [], ◌∷◌, length, Option, none, some, text, Text-discrete,
}
use egress_gateway.Prelude.Results.{ok, err, ◌>>=◌, ◌>>◌, refuse_if, or_fail}
use egress_gateway.GoLib.Strings.{has_prefix}
use egress_gateway.GoLib.FilePath.{text_eq}
use egress_gateway.Inspection.Crypto.{Bytes}
use egress_gateway.Inspection.Ca.Bundle.{
  Block, Pem, no_certificates, out_of_fuel, from_begin, is_certificate, read_block, read_from,
  read_blocks, read_input, bundle,
}
use egress_gateway.Inspection.Ca.Bundle.Laws.{IsBundle, bundle-IsBundle}
use egress_gateway.Inspection.Ca.Bundle.Termination.{bundle-ends}

abbrev certificate_block : Block
certificate_block = record { block_type = text "CERTIFICATE"; headers = 0; content = 1 ∷ [] }

abbrev decode_all : Bytes → Option Block × Bytes
decode_all [] = (none, [])
decode_all (c ∷ s) = (some certificate_block, [])

abbrev pub pem : Pem
pem = record { trim = λ s. s; decode = decode_all; parses = λ s. true; encode = λ b. some (7 ∷ []) }

shortens : (s : Bytes) (b : Block) → (pem.decode s).0 ≡ some b → length (pem.decode s).1 < length s
shortens [] b h = cc
shortens (c ∷ s) b h = omega arith

abbrev pub base_store : Bytes
base_store = text "# a root\n-----BEGIN CERTIFICATE-----"

bundled : bundle pem 100 base_store (text "-----BEGIN CERTIFICATE-----") ≡ ok (7 ∷ 7 ∷ [])
unfolding bundle read_input read_blocks read_from read_block from_begin has_prefix is_certificate
    text_eq Text-discrete ◌>>=◌ ◌>>◌ refuse_if or_fail
bundled = refl

bundle-IsBundle_example : IsBundle pem base_store (text "-----BEGIN CERTIFICATE-----") (7 ∷ 7 ∷ [])
bundle-IsBundle_example =
    bundle-IsBundle pem 100 base_store (text "-----BEGIN CERTIFICATE-----") bundled

bundle-ends_example :
    bundle pem 100 base_store (text "-----BEGIN CERTIFICATE-----") ≢ err out_of_fuel
bundle-ends_example =
    bundle-ends pem (λ s. omega arith) shortens 100 base_store (text "-----BEGIN CERTIFICATE-----")
      (omega arith) (omega arith)

-- An input without a block
unbundled : bundle pem 100 (text "# none") [] ≡ err no_certificates
unfolding bundle read_input read_blocks read_from read_block from_begin has_prefix is_certificate
    text_eq Text-discrete ◌>>=◌ ◌>>◌ refuse_if or_fail
unbundled = refl
