-- ===== src/Prelude/Lists.antt =====
-- Lists measured and indexed by native numbers, and the loops over them that stop at a first hit.
use Prim.Native.Nat.{ℕ, zero, suc, ◌+◌, ◌<◌, ◌≤◌}
use mathlib.Core.Path.{◌≡◌, refl, ap, subst}
use mathlib.Core.Bool.{Bool, true, false}
use mathlib.Core.List.{List, [], ◌∷◌, ◌++◌}
use mathlib.Core.Option.{Option, none, some, some-injective}
use mathlib.Core.Option
use native.Mathlib.Omega.{arith}
use k8s_inc.Prelude.Tests.{◌==◌, if◌then◌else◌}

module _ {ℓ} {A : Type ℓ} where
  abbrev pub is_some : Option A → Bool
  is_some none = false
  is_some (some a) = true

  abbrev pub length : List A → ℕ
  length [] = 0
  length (x ∷ xs) = suc (length xs)

  abbrev pub is_empty : List A → Bool
  is_empty [] = true
  is_empty (x ∷ xs) = false

  abbrev pub get_elem? : List A → ℕ → Option A
  get_elem? [] i = none
  get_elem? (x ∷ xs) zero = some x
  get_elem? (x ∷ xs) (suc i) = get_elem? xs i

  abbrev pub take : ℕ → List A → List A
  take zero xs = []
  take (suc n) [] = []
  take (suc n) (x ∷ xs) = x ∷ take n xs

  abbrev pub replicate : ℕ → A → List A
  replicate zero a = []
  replicate (suc n) a = a ∷ replicate n a

  -- The index of the first element that passes the test.
  unfoldable pub find_index : (A → Bool) → List A → Option ℕ
  find_index p [] = none
  find_index p (x ∷ xs) = if p x then some 0 else Option.map suc (find_index p xs)

  -- Out of bounds nothing changes.
  unfoldable pub update_at : ℕ → (A → A) → List A → List A
  update_at i f [] = []
  update_at zero f (x ∷ xs) = f x ∷ xs
  update_at (suc i) f (x ∷ xs) = x ∷ update_at i f xs

  abbrev pub count_if : (A → Bool) → List A → ℕ
  count_if p [] = 0
  count_if p (x ∷ xs) = (if p x then 1 else 0) + count_if p xs

  pub length-append : (xs ys : List A) → length (xs ++ ys) ≡ length xs + length ys
  length-append [] ys = omega arith
  length-append (x ∷ xs) ys = omega (arith, length-append xs ys)

  pub length-update_at : (i : ℕ) (f : A → A) (xs : List A) → length (update_at i f xs) ≡ length xs
  unfolding update_at
  length-update_at i f [] = refl
  length-update_at zero f (x ∷ xs) = refl
  length-update_at (suc i) f (x ∷ xs) = ap suc (length-update_at i f xs)

  pub length-replicate : (n : ℕ) (a : A) → length (replicate n a) ≡ n
  length-replicate zero a = refl
  length-replicate (suc n) a = ap suc (length-replicate n a)

  pub count_if-le : (p : A → Bool) (xs : List A) → count_if p xs ≤ length xs
  count_if-le p [] = omega arith
  count_if-le p (x ∷ xs) = ground (arith, count_if-le p xs)

module _ {ℓ} {A : Type ℓ} where
  pub get_elem?-update_at :
      (i j : ℕ) (f : A → A) (xs : List A)
      → get_elem? (update_at i f xs) j
        ≡ (if i == j then Option.map f (get_elem? xs j) else get_elem? xs j)
  unfolding update_at
  get_elem?-update_at i j f [] = ground arith
  get_elem?-update_at zero zero f (x ∷ xs) = refl
  get_elem?-update_at zero (suc j) f (x ∷ xs) = ground arith
  get_elem?-update_at (suc i) zero f (x ∷ xs) = ground arith
  get_elem?-update_at (suc i) (suc j) f (x ∷ xs) = ground (arith, get_elem?-update_at i j f xs)

  -- A change at one index moves the count by what it does to the element there.
  pub count_if-update_at :
      (p : A → Bool) (i : ℕ) (f : A → A) (xs : List A) (x : A)
      → get_elem? xs i ≡ some x
      → count_if p (update_at i f xs) + (if p x then 1 else 0)
        ≡ count_if p xs + (if p (f x) then 1 else 0)
  unfolding update_at
  count_if-update_at p i f [] x h = cc
  count_if-update_at p zero f (y ∷ xs) x h = ground arith
  count_if-update_at p (suc i) f (y ∷ xs) x h = omega (arith, count_if-update_at p i f xs x h)

  pub find_index_hit :
      (p : A → Bool) (xs : List A) (i : ℕ)
      → find_index p xs ≡ some i
      → (x : A) × (get_elem? xs i ≡ some x) × (p x ≡ true)
  unfolding find_index
  find_index_hit p [] i h = ground arith
  find_index_hit p (x ∷ xs) zero h = (x, ground arith, ground arith)
  find_index_hit p (x ∷ xs) (suc i) h = find_index_hit p xs i (ground arith)

  pub find_index_first :
      (p : A → Bool) (xs : List A) (i j : ℕ) (x : A)
      → find_index p xs ≡ some i
      → j < i
      → get_elem? xs j ≡ some x
      → p x ≡ false
  unfolding find_index
  find_index_first p [] i j x h l g = ground arith
  find_index_first p (y ∷ xs) zero j x h l g = absurd (omega arith)
  find_index_first p (y ∷ xs) (suc i) zero x h l g = ground arith
  find_index_first p (y ∷ xs) (suc i) (suc j) x h l g =
      find_index_first p xs i j x (ground arith) (omega arith) g

  pub find_index_miss :
      (p : A → Bool) (xs : List A) (j : ℕ) (x : A)
      → find_index p xs ≡ none
      → get_elem? xs j ≡ some x
      → p x ≡ false
  unfolding find_index
  find_index_miss p [] j x h g = ground arith
  find_index_miss p (y ∷ xs) zero x h g = ground arith
  find_index_miss p (y ∷ xs) (suc j) x h g = find_index_miss p xs j x (ground arith) g

  pub get_elem?-lt : (xs : List A) (i : ℕ) (x : A) → get_elem? xs i ≡ some x → i < length xs
  get_elem?-lt [] i x h = cc
  get_elem?-lt (y ∷ xs) zero x h = omega arith
  get_elem?-lt (y ∷ xs) (suc i) x h = omega (arith, get_elem?-lt xs i x h)

-- What holds of every element still holds when one of them is replaced.
pub update_at_all {ℓ κ} :
    {A : Type ℓ} (P : A → Type κ) (i : ℕ) (f : A → A) (xs : List A)
    → ((x : A) → get_elem? xs i ≡ some x → P (f x))
    → ((j : ℕ) (x : A) → get_elem? xs j ≡ some x → P x)
    → (j : ℕ) (x : A) → get_elem? (update_at i f xs) j ≡ some x
    → P x
unfolding update_at
update_at_all P i f [] new old j x g = cc
update_at_all P zero f (y ∷ xs) new old zero x g = subst P (some-injective _ _ g) (new y refl)
update_at_all P zero f (y ∷ xs) new old (suc j) x g = old (suc j) x g
update_at_all P (suc i) f (y ∷ xs) new old zero x g = old zero x g
update_at_all P (suc i) f (y ∷ xs) new old (suc j) x g =
    update_at_all P i f xs new (λ k z. old (suc k) z) j x g

-- A change that the test does not see does not move the first hit.
pub find_index-update_at {ℓ} :
    {A : Type ℓ} (p : A → Bool) (i : ℕ) (f : A → A) (xs : List A)
    → ((x : A) → get_elem? xs i ≡ some x → p (f x) ≡ p x)
    → find_index p (update_at i f xs) ≡ find_index p xs
unfolding find_index update_at
find_index-update_at p i f [] h = refl
find_index-update_at p zero f (x ∷ xs) h = rw (h x refl)
find_index-update_at p (suc i) f (x ∷ xs) h = rw (find_index-update_at p i f xs h)

module _ {ℓ} {A : Type ℓ} where
  pub take-suc :
      (n : ℕ) (xs : List A) (x : A)
      → get_elem? xs n ≡ some x
      → take (suc n) xs ≡ take n xs ++ x ∷ []
  take-suc n [] x h = cc
  take-suc zero (y ∷ xs) x h = cc
  take-suc (suc n) (y ∷ xs) x h = rw (take-suc n xs x h)

  pub take-append : (xs ys : List A) → take (length xs) (xs ++ ys) ≡ xs
  take-append [] ys = refl
  take-append (x ∷ xs) ys = rw (take-append xs ys)

  pub get_elem?_of_lt : (xs : List A) (n : ℕ) → n < length xs → (x : A) × (get_elem? xs n ≡ some x)
  get_elem?_of_lt [] n h = absurd (omega arith)
  get_elem?_of_lt (x ∷ xs) zero h = (x, refl)
  get_elem?_of_lt (x ∷ xs) (suc n) h = get_elem?_of_lt xs n (omega arith)
