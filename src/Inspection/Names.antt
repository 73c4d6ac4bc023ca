-- ===== src/Inspection/Names.antt =====
-- internal/inspection/leaf.go: canonicalName, the check of a server name (SNI).
pub mod Laws
use egress_gateway.Prelude.{
  ℕ, ◌+◌, Bool, true, false, ◌&&◌, ◌||◌, not, List, [], ◌∷◌, leb, ltb, ◌==◌, if◌then◌else◌, Text,
  byte_length,
}
use egress_gateway.Prelude.Results.{
  Result, ok, err, ◌>>=◌, ◌>>◌, refuse_if, or_fail, >>=-ok, >>-ok, refuse_if-ok, or_fail-ok,
  ok-injective,
}
use egress_gateway.GoLib.Strings.{to_lower, split_on, ends_with}
use egress_gateway.GoLib.Addr.{is_addr}

pub data NameError : Type 0 where
  invalid_name needs_dns_name invalid_label invalid_character : NameError

-- The test of a character, `(c < 'a' || c > 'z') && (c < '0' || c > '9') && c != '-'`.
unfoldable pub is_bad_character : ℕ → Bool
is_bad_character c = (ltb c b'a' || ltb b'z' c) && (ltb c b'0' || ltb b'9' c) && not (c == b'-')

unfoldable pub has_bad_character : Text → Bool
unfolding is_bad_character
has_bad_character [] = false
has_bad_character (c ∷ s) = is_bad_character c || has_bad_character s

unfoldable pub starts_with_hyphen : Text → Bool
starts_with_hyphen [] = false
starts_with_hyphen (c ∷ s) = c == b'-'

-- `len(label) == 0 || len(label) > 63 || label[0] == '-' || label[len(label)-1] == '-'`
unfoldable pub is_bad_label : Text → Bool
unfolding byte_length starts_with_hyphen ends_with
is_bad_label l =
    byte_length l == 0 || ltb 63 (byte_length l) || starts_with_hyphen l || ends_with b'-' l

-- The loop over the labels. The result is the name that the loop checks.
unfoldable pub check_labels : Text → List Text → Result NameError Text
unfolding is_bad_label has_bad_character
check_labels name [] = ok name
check_labels name (l ∷ ls) =
    let rest = check_labels name ls in
    if is_bad_label l
    then err invalid_label
    else if has_bad_character l
    then err invalid_character
    else rest

-- `lower` is unicode.ToLower beyond ASCII, `parse_ipv6` netip's reader of IPv6 texts.
module _ (lower : ℕ → ℕ) (parse_ipv6 : Text → Bool) where
  unfoldable pub check_lowered : Text → Result NameError Text
  unfolding is_addr check_labels split_on
  check_lowered name =
      if is_addr parse_ipv6 name then err needs_dns_name else check_labels name (split_on b'.' name)

  unfoldable pub canonical_name : Text → Result NameError Text
  unfolding check_lowered to_lower byte_length ends_with
  canonical_name name =
      if byte_length name == 0 || ltb 253 (byte_length name) || ends_with b'.' name
      then err invalid_name
      else check_lowered (to_lower lower name)
