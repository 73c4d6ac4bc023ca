-- ===== src/GoLib/Addr.antt =====
-- netip.ParseAddr, as a test.
use egress_gateway.Prelude.{
  ℕ, ◌+◌, ◌-◌, ◌*◌, Bool, true, false, ◌&&◌, not, List, [], ◌∷◌, leb, ◌==◌, if◌then◌else◌, Text,
  length,
}
use egress_gateway.GoLib.Strings.{split_on}

unfoldable pub is_digit : ℕ → Bool
is_digit c = leb b'0' c && leb c b'9'

unfoldable pub decimal : ℕ → Text → ℕ
decimal acc [] = acc
decimal acc (c ∷ s) = decimal (acc * 10 + (c - b'0')) s

unfoldable pub all_digits : Text → Bool
unfolding is_digit
all_digits [] = true
all_digits (c ∷ s) = is_digit c && all_digits s

-- A field of a dotted address: digits with no leading zero, at most 255.
unfoldable pub is_octet : Text → Bool
unfolding all_digits decimal
is_octet [] = false
is_octet (c ∷ []) = all_digits (c ∷ [])
is_octet (c ∷ d ∷ s) = not (c == b'0') && all_digits (c ∷ d ∷ s) && leb (decimal 0 (c ∷ d ∷ s)) 255

unfoldable pub all_octets : List Text → Bool
unfolding is_octet
all_octets [] = true
all_octets (p ∷ ps) = is_octet p && all_octets ps

unfoldable pub is_ipv4 : Text → Bool
unfolding all_octets split_on
is_ipv4 s = length (split_on b'.' s) == 4 && all_octets (split_on b'.' s)

-- The first of `.`, `:` and `%` decides how the text is read. `parse_ipv6` is netip's reader of
-- IPv6 texts.
unfoldable pub is_addr_from : (Text → Bool) → Text → Text → Bool
unfolding is_ipv4
is_addr_from parse_ipv6 whole [] = false
is_addr_from parse_ipv6 whole (c ∷ s) =
    let rest = is_addr_from parse_ipv6 whole s in
    if c == b'.'
    then is_ipv4 whole
    else if c == b':'
    then parse_ipv6 whole
    else if c == b'%'
    then false
    else rest

unfoldable pub is_addr : (Text → Bool) → Text → Bool
unfolding is_addr_from
is_addr parse_ipv6 s = is_addr_from parse_ipv6 s s
