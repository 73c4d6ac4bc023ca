-- ===== src/GoLib/Strings.antt =====
-- The functions of the packages strings, bytes and slices that the sources call.
use egress_gateway.Prelude.{
  ℕ, ◌+◌, ◌≡◌, refl, Bool, true, false, ◌&&◌, ◌||◌, List, [], ◌∷◌, ◌++◌, map, arith, ltb, leb, ◌==◌,
  if◌then◌else◌, Text,
}

-- `s != ""`
unfoldable pub is_set : Text → Bool
is_set [] = false
is_set (c ∷ s) = true

-- unicode.ToLower. The table beyond ASCII, of the package unicode, is `lower`.
unfoldable pub lower_rune : (ℕ → ℕ) → ℕ → ℕ
lower_rune lower c =
    if ltb c 0x80 then (if leb b'A' c && leb c b'Z' then c + 32 else c) else lower c

-- strings.ToLower
unfoldable pub to_lower : (ℕ → ℕ) → Text → Text
unfolding lower_rune
to_lower lower = map (lower_rune lower)

-- strings.Split and strings.SplitSeq, at a separator of one character
unfoldable pub add_to_first : ℕ → List Text → List Text
add_to_first c [] = (c ∷ []) ∷ []
add_to_first c (p ∷ ps) = (c ∷ p) ∷ ps

unfoldable pub split_on : ℕ → Text → List Text
unfolding add_to_first
split_on sep [] = [] ∷ []
split_on sep (c ∷ s) =
    let rest = split_on sep s in if c == sep then [] ∷ rest else add_to_first c rest

-- The inverse of a split: strings.Join
unfoldable pub join_with : ℕ → List Text → Text
join_with sep [] = []
join_with sep (p ∷ []) = p
join_with sep (p ∷ q ∷ ps) = p ++ (sep ∷ join_with sep (q ∷ ps))

-- strings.HasSuffix at one character
unfoldable pub ends_with : ℕ → Text → Bool
ends_with d [] = false
ends_with d (c ∷ []) = c == d
ends_with d (c ∷ e ∷ s) = ends_with d (e ∷ s)

-- strings.HasPrefix
unfoldable pub has_prefix : Text → Text → Bool
has_prefix s [] = true
has_prefix [] (d ∷ p) = false
has_prefix (c ∷ s) (d ∷ p) = c == d && has_prefix s p

-- strings.Contains
unfoldable pub contains : Text → Text → Bool
unfolding has_prefix
contains [] p = has_prefix [] p
contains (c ∷ s) p = has_prefix (c ∷ s) p || contains s p

-- strings.IndexByte, as a test
unfoldable pub has_rune : ℕ → Text → Bool
has_rune d [] = false
has_rune d (c ∷ s) = c == d || has_rune d s

-- unicode.IsSpace
unfoldable pub is_space : ℕ → Bool
is_space c =
    leb 9 c && leb c 13
    || c == 0x20
    || c == 0x85
    || c == 0xA0
    || c == 0x1680
    || leb 0x2000 c && leb c 0x200A
    || c == 0x2028
    || c == 0x2029
    || c == 0x202F
    || c == 0x205F
    || c == 0x3000

unfoldable pub trim_left : Text → Text
trim_left [] = []
trim_left (c ∷ s) = let rest = trim_left s in if is_space c then rest else c ∷ s

-- drops the trailing spaces
unfoldable pub trim_right : Text → Text
trim_right [] = []
trim_right (c ∷ s) = drop_space (trim_right s)
  where
    drop_space : Text → Text
    drop_space [] = if is_space c then [] else c ∷ []
    drop_space (d ∷ t) = c ∷ d ∷ t

-- strings.TrimSpace
unfoldable pub trim_space : Text → Text
unfolding trim_left trim_right is_space
trim_space s = trim_right (trim_left s)

-- strings.Cut at one character: the text before and after the first one, and whether there is one
unfoldable pub cut : ℕ → Text → Text × Text × Bool
cut sep [] = ([], [], false)
cut sep (c ∷ s) =
    let (before, after, found) = cut sep s in
    if c == sep then ([], s, true) else (c ∷ before, after, found)

-- strings.EqualFold against a lower-case ASCII text. Beyond ASCII only the Kelvin sign and the
-- long s fold to ASCII letters.
unfoldable pub fold_rune : ℕ → ℕ
fold_rune c =
    if leb b'A' c && leb c b'Z'
    then c + 32
    else if c == 0x212A
    then b'k'
    else if c == 0x17F
    then b's'
    else c

unfoldable pub equal_fold : Text → Text → Bool
unfolding fold_rune
equal_fold [] [] = true
equal_fold [] (d ∷ t) = false
equal_fold (c ∷ s) [] = false
equal_fold (c ∷ s) (d ∷ t) = fold_rune c == d && equal_fold s t

-- A split, joined again, is the text.
split_on-cons : (sep : ℕ) (s : Text) → (p : Text) × (ps : List Text) × (split_on sep s ≡ p ∷ ps)
unfolding split_on
split_on-cons sep [] = ([], [], refl)
split_on-cons sep (c ∷ s) = cons_cases (split_on sep s) (c == sep)
  where
    cons_cases :
        (l : List Text) (b : Bool)
        → (p : Text) × (ps : List Text) × ((if b then [] ∷ l else add_to_first c l) ≡ p ∷ ps)
    cons_cases l true = ([], l, refl)
    cons_cases [] false = (c ∷ [], [], refl)
    cons_cases (p ∷ ps) false = (c ∷ p, ps, refl)

join_with-add_to_first :
    (sep c : ℕ) (p : Text) (ps : List Text)
    → join_with sep (add_to_first c (p ∷ ps)) ≡ c ∷ join_with sep (p ∷ ps)
unfolding join_with add_to_first
join_with-add_to_first sep c p [] = refl
join_with-add_to_first sep c p (q ∷ ps) = refl

pub join_with-split_on : (sep : ℕ) (s : Text) → join_with sep (split_on sep s) ≡ s
unfolding split_on join_with
join_with-split_on sep [] = refl
join_with-split_on sep (c ∷ s) =
    let (p, ps, e) = split_on-cons sep s in
    ground (arith, e, join_with-split_on sep s, join_with-add_to_first sep c p ps)
