-- ===== src/GoLib/Numbers.antt =====
-- strconv.Atoi, for a 64-bit int: the sign and the size of the number, if the text is one.
use egress_gateway.Prelude.{
  ℕ, ◌+◌, Bool, true, false, ◌&&◌, [], ◌∷◌, Option, none, some, ltb, ◌==◌, if◌then◌else◌, Text,
}
use egress_gateway.GoLib.Addr.{all_digits, decimal}

abbrev pub int_limit : ℕ
int_limit = 9_223_372_036_854_775_808

unfoldable pub sized : Bool → Text → Option (Bool × ℕ)
unfolding all_digits decimal
sized negative [] = none
sized negative (c ∷ s) =
    if all_digits (c ∷ s) && ltb (decimal 0 (c ∷ s)) (if negative then int_limit + 1 else int_limit)
    then some (negative, decimal 0 (c ∷ s))
    else none

unfoldable pub atoi : Text → Option (Bool × ℕ)
unfolding sized
atoi [] = none
atoi (c ∷ s) =
    if c == b'-' then sized true s else if c == b'+' then sized false s else sized false (c ∷ s)
