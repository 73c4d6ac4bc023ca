-- ===== src/Config/Tracing/Headers.antt =====
-- validHeaders.
use egress_gateway.Prelude.{
  ℕ, Bool, true, false, ◌&&◌, ◌||◌, not, List, [], ◌∷◌, Option, none, some, ltb, leb, ◌==◌, Text,
  text,
}
use egress_gateway.GoLib.Strings.{split_on, cut, trim_space, has_rune}
use egress_gateway.Config.Tracing.{Platform, is_empty}

unfoldable pub is_token : ℕ → Bool
unfolding has_rune
is_token c =
    leb b'a' c && leb c b'z'
    || leb b'A' c && leb c b'Z'
    || leb b'0' c && leb c b'9'
    || has_rune c (text "!#$%&'*+-.^_`|~")

unfoldable pub all_tokens : Text → Bool
unfolding is_token
all_tokens [] = true
all_tokens (c ∷ s) = is_token c && all_tokens s

unfoldable pub is_control : ℕ → Bool
is_control c = ltb c 0x20 && not (c == 9) || c == 0x7F

unfoldable pub no_control : Text → Bool
unfolding is_control
no_control [] = true
no_control (c ∷ s) = not (is_control c) && no_control s

unfoldable pub is_value : Option Text → Bool
unfolding no_control
is_value none = false
is_value (some decoded) = no_control decoded

module _ (platform : Platform) where
  unfoldable pub is_header : Text × Text × Bool → Bool
  unfolding trim_space is_empty all_tokens is_value
  is_header (key, val, found) =
      found
      && not (is_empty (trim_space key))
      && all_tokens (trim_space key)
      && is_value (platform.path_unescape val)

  unfoldable pub all_headers : List Text → Bool
  unfolding cut is_header
  all_headers [] = true
  all_headers (item ∷ items) = is_header (cut b'=' item) && all_headers items

  unfoldable pub valid_headers : Text → Bool
  unfolding all_headers split_on
  valid_headers value = all_headers (split_on b',' value)
