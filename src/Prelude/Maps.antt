-- ===== src/Prelude/Maps.antt =====
-- Go's maps and sets. A map that the code only reads and writes by key is a function; one that it
-- counts or ranges over is a list with each key once.
use Prim.Native.Nat.{ℕ, zero, suc, ◌+◌, ◌-◌, ◌≤◌, ◌<◌}
use mathlib.Core.Bool.{Bool, true, false}
use mathlib.Core.List.{List, [], ◌∷◌, ◌++◌}
use mathlib.Core.Logic.{ite}
use mathlib.Core.Option.{Option, none, some}
use mathlib.Core.Path.{◌≡◌, refl, ap, subst}
use native.Mathlib.Omega.{arith}

module _ {ℓ} {A : Type ℓ} where
  abbrev pub length : List A → ℕ
  length [] = 0
  length (x ∷ xs) = suc (length xs)

  pub length-append : (xs ys : List A) → length (xs ++ ys) ≡ length xs + length ys
  length-append [] ys = omega arith
  length-append (x ∷ xs) ys = omega (arith, length-append xs ys)

  unfoldable pub take : ℕ → List A → List A
  take zero xs = []
  take (suc n) [] = []
  take (suc n) (x ∷ xs) = x ∷ take n xs

  pub take_all : (n : ℕ) (xs : List A) → length xs ≤ n → take n xs ≡ xs
  unfolding take
  take_all zero [] h = refl
  take_all zero (x ∷ xs) h = absurd (omega arith)
  take_all (suc n) [] h = refl
  take_all (suc n) (x ∷ xs) h = ap (λ l. x ∷ l) (take_all n xs (omega arith))

  pub take-cons : (n : ℕ) (x : A) (xs : List A) → 0 < n → take n (x ∷ xs) ≡ x ∷ take (n - 1) xs
  unfolding take
  take-cons zero x xs h = absurd (omega arith)
  take-cons (suc n) x xs h = let same : n ≡ suc n - 1 = omega arith in ap (λ m. x ∷ take m xs) same

-- A statement of every element.
abbrev pub All {ℓ κ} : {A : Type ℓ} → (A → Type κ) → List A → Type κ
All P [] = Unit
All P (x ∷ xs) = P x × All P xs

pub All-map_of {ℓ κ μ} :
    {A : Type ℓ} {P : A → Type κ} {Q : A → Type μ}
    → ((a : A) → P a → Q a)
    → (xs : List A) → All P xs
    → All Q xs
All-map_of f [] h = tt
All-map_of f (x ∷ xs) h = (f x h.0, All-map_of f xs h.1)

pub All-append {ℓ κ} :
    {A : Type ℓ} (P : A → Type κ) (xs ys : List A) → All P xs → All P ys → All P (xs ++ ys)
All-append P [] ys h k = k
All-append P (x ∷ xs) ys h k = (h.0, All-append P xs ys h.1 k)

-- The keys and values are data, of the first universe.
module _ {K : Type 0} (dec : Discrete K) where
  -- `_, ok := m[k]` of a set
  unfoldable pub has : K → List K → Bool
  has k [] = false
  has k (x ∷ xs) = ite (dec x k) true (has k xs)

  -- `m[k] = struct{}{}`
  unfoldable pub add : K → List K → List K
  add k [] = k ∷ []
  add k (x ∷ xs) = ite (dec x k) (x ∷ xs) (x ∷ add k xs)

  -- `delete(m, k)`
  unfoldable pub delete : K → List K → List K
  delete k [] = []
  delete k (x ∷ xs) = ite (dec x k) (delete k xs) (x ∷ delete k xs)

  pub has-add : (j k : K) (xs : List K) → has j (add k xs) ≡ ite (dec k j) true (has j xs)
  unfolding has add
  has-add j k [] = refl
  has-add j k (x ∷ xs) = ground (arith, has-add j k xs)

  pub has-delete : (j k : K) (xs : List K) → has j (delete k xs) ≡ ite (dec k j) false (has j xs)
  unfolding has delete
  has-delete j k [] = ground arith
  has-delete j k (x ∷ xs) = ground (arith, has-delete j k xs)

  pub length-add-le : (k : K) (xs : List K) → length (add k xs) ≤ length xs + 1
  unfolding add
  length-add-le k [] = omega arith
  length-add-le k (x ∷ xs) = ground (arith, length-add-le k xs)

  pub length-delete-le : (k : K) (xs : List K) → length (delete k xs) ≤ length xs
  unfolding delete
  length-delete-le k [] = omega arith
  length-delete-le k (x ∷ xs) = ground (arith, length-delete-le k xs)

  -- A statement of every element, at an element of the list.
  pub All-has : (P : K → Type 0) (k : K) (xs : List K) → All P xs → has k xs ≡ true → P k
  unfolding has
  All-has P k [] h e = cc
  All-has P k (x ∷ xs) h e = elim (dec x k) [
    | yes same ↦ subst P same h.0
    | no other ↦ All-has P k xs h.1 (ground arith)
  ]

  pub has-All : (P : K → Type 0) (xs : List K) → ((k : K) → has k xs ≡ true → P k) → All P xs
  unfolding has
  has-All P [] f = tt
  has-All P (x ∷ xs) f = (f x (ground arith), has-All P xs (λ k h. f k (ground arith)))

  -- No key twice.
  abbrev pub IsDistinct : List K → Type 0
  IsDistinct [] = Unit
  IsDistinct (x ∷ xs) = (has x xs ≡ false) × IsDistinct xs

  pub add-IsDistinct : (k : K) (xs : List K) → IsDistinct xs → IsDistinct (add k xs)
  unfolding has add
  add-IsDistinct k [] h = (refl, tt)
  add-IsDistinct k (x ∷ xs) h = ground (arith, has-add x k xs, add-IsDistinct k xs)

  pub delete-IsDistinct : (k : K) (xs : List K) → IsDistinct xs → IsDistinct (delete k xs)
  unfolding delete
  delete-IsDistinct k [] h = tt
  delete-IsDistinct k (x ∷ xs) h = ground (arith, has-delete x k xs, delete-IsDistinct k xs)

  pub add_new : (k : K) (xs : List K) → has k xs ≡ false → add k xs ≡ xs ++ (k ∷ [])
  unfolding has add
  add_new k [] h = refl
  add_new k (x ∷ xs) h = ground (arith, add_new k xs)

  module _ {V : Type 0} where
    -- `m[k] = v` and `delete(m, k)` of a map kept as a function
    abbrev pub update : K → V → (K → Option V) → K → Option V
    update k v m j = ite (dec k j) (some v) (m j)

    abbrev pub forget : K → (K → Option V) → K → Option V
    forget k m j = ite (dec k j) none (m j)

    -- A map that is ranged over: its entries, each key once.
    unfoldable pub find : K → List (K × V) → Option V
    find k [] = none
    find k ((j, v) ∷ m) = ite (dec j k) (some v) (find k m)

    unfoldable pub insert : K → V → List (K × V) → List (K × V)
    insert k v [] = (k, v) ∷ []
    insert k v ((j, w) ∷ m) = ite (dec j k) ((k, v) ∷ m) ((j, w) ∷ insert k v m)

    unfoldable pub erase : K → List (K × V) → List (K × V)
    erase k [] = []
    erase k ((j, w) ∷ m) = ite (dec j k) (erase k m) ((j, w) ∷ erase k m)

    pub find-insert :
        (j k : K) (v : V) (m : List (K × V))
        → find j (insert k v m) ≡ ite (dec k j) (some v) (find j m)
    unfolding find insert
    find-insert j k v [] = refl
    find-insert j k v ((i, w) ∷ m) = ground (arith, find-insert j k v m)

    pub find-erase :
        (j k : K) (m : List (K × V)) → find j (erase k m) ≡ ite (dec k j) none (find j m)
    unfolding find erase
    find-erase j k [] = ground arith
    find-erase j k ((i, w) ∷ m) = ground (arith, find-erase j k m)

    unfoldable pub keys : List (K × V) → List K
    keys [] = []
    keys ((k, v) ∷ m) = k ∷ keys m

    pub has-keys : (k : K) (m : List (K × V)) {v : V} → find k m ≡ some v → has k (keys m) ≡ true
    unfolding find has keys
    has-keys k [] h = cc
    has-keys k ((j, w) ∷ m) {v} h = ground (arith, has-keys k m {v = v})
