-- ===== src/GoLib/FilePath.antt =====
-- The package path/filepath on Unix: IsAbs, Clean, Rel, IsLocal and Join.
use egress_gateway.Prelude.{
  Bool, true, false, ◌&&◌, ◌||◌, not, List, [], ◌∷◌, ◌++◌, Option, none, some, ite, ◌==◌,
  if◌then◌else◌, Text, text, Text-discrete,
}
use mathlib.Core.List.{reverse}
use egress_gateway.GoLib.Strings.{split_on, join_with, has_prefix}

unfoldable pub text_eq : Text → Text → Bool
unfolding Text-discrete
text_eq s t = ite (Text-discrete s t) true false

unfoldable pub is_abs : Text → Bool
is_abs [] = false
is_abs (c ∷ s) = c == b'/'

-- One element of a path; the stack holds the elements kept so far, the last one first.
unfoldable pub go_up : Bool → List Text → List Text
unfolding text_eq
go_up rooted [] = if rooted then [] else text ".." ∷ []
go_up rooted (p ∷ ps) = if text_eq p (text "..") then text ".." ∷ p ∷ ps else ps

unfoldable pub clean_step : Bool → List Text → Text → List Text
unfolding text_eq go_up
clean_step rooted stack part =
    if text_eq part [] || text_eq part (text ".")
    then stack
    else if text_eq part (text "..")
    then go_up rooted stack
    else part ∷ stack

unfoldable pub clean_parts : Bool → List Text → List Text → List Text
unfolding clean_step
clean_parts rooted stack [] = reverse stack
clean_parts rooted stack (p ∷ ps) = clean_parts rooted (clean_step rooted stack p) ps

-- The elements of a cleaned path.
unfoldable pub elements : Text → List Text
unfolding clean_parts split_on is_abs
elements path = clean_parts (is_abs path) [] (split_on b'/' path)

unfoldable pub or_dot : Text → Text
or_dot [] = text "."
or_dot (c ∷ s) = c ∷ s

-- filepath.Clean
unfoldable pub clean : Text → Text
unfolding elements join_with is_abs or_dot
clean path =
    if is_abs path
    then b'/' ∷ join_with b'/' (elements path)
    else or_dot (join_with b'/' (elements path))

-- One `..` for each element of the base that is left, and then the elements of the target.
unfoldable pub climb : List Text → List Text → List Text
climb [] target = target
climb (p ∷ ps) target = text ".." ∷ climb ps target

-- The walk past the equal elements. `none` is the error for a base that goes up.
unfoldable pub rel_parts : List Text → List Text → Option (List Text)
unfolding climb text_eq
rel_parts [] target = some target
rel_parts (b ∷ bs) [] = if text_eq b (text "..") then none else some (climb (b ∷ bs) [])
rel_parts (b ∷ bs) (t ∷ ts) =
    let rest = rel_parts bs ts in
    if text_eq b t
    then rest
    else if text_eq b (text "..")
    then none
    else some (climb (b ∷ bs) (t ∷ ts))

unfoldable pub rel_text : Option (List Text) → Option Text
unfolding join_with or_dot
rel_text none = none
rel_text (some parts) = some (or_dot (join_with b'/' parts))

unfoldable pub bool_eq : Bool → Bool → Bool
bool_eq true b = b
bool_eq false b = not b

-- filepath.Rel
unfoldable pub rel : Text → Text → Option Text
unfolding elements rel_parts rel_text bool_eq is_abs
rel base target =
    if bool_eq (is_abs base) (is_abs target)
    then rel_text (rel_parts (elements base) (elements target))
    else none

unfoldable pub has_dots : List Text → Bool
unfolding text_eq
has_dots [] = false
has_dots (p ∷ ps) = text_eq p (text ".") || text_eq p (text "..") || has_dots ps

unfoldable pub goes_up : Text → Bool
unfolding text_eq has_prefix
goes_up path = text_eq path (text "..") || has_prefix path (text "../")

-- filepath.IsLocal
unfoldable pub is_local : Text → Bool
unfolding is_abs text_eq has_dots goes_up clean split_on
is_local path =
    not (is_abs path)
    && not (text_eq path [])
    && not (goes_up (if has_dots (split_on b'/' path) then clean path else path))

-- filepath.Join of two elements
unfoldable pub join : Text → Text → Text
unfolding clean
join [] [] = []
join [] (d ∷ t) = clean (d ∷ t)
join (c ∷ s) [] = clean (c ∷ s)
join (c ∷ s) (d ∷ t) = clean ((c ∷ s) ++ (b'/' ∷ d ∷ t))
