-- ===== src/Shim/Sets.antt =====
-- Sets of names as lists without a repetition, and what a pass over a set leaves to do.
use k8s_inc.Prelude.{
  String, ◌≡◌, refl, ◌∙◌, true, false, not, ◌&&◌, ◌||◌, Option, none, List, [], ◌∷◌, ◌++◌, arith,
  if◌then◌else◌, Option-cases, ℕ_eq, String_eq, contains, add, contains-add, is_some,
}
use k8s_inc.Shim.Api.{assign}

-- the sets of names; `set_of` is the Insert of each
abbrev pub set_of : List String → List String
set_of [] = []
set_of (x ∷ xs) = add x (set_of xs)

abbrev pub difference : List String → List String → List String
difference [] ys = []
difference (x ∷ xs) ys = if contains x ys then difference xs ys else x ∷ difference xs ys

abbrev pub intersect : List String → List String → List String
intersect [] ys = []
intersect (x ∷ xs) ys = if contains x ys then x ∷ intersect xs ys else intersect xs ys

-- no name is listed twice
abbrev pub IsUnique : List String → Type 0
IsUnique [] = Unit
IsUnique (x ∷ xs) = (contains x xs ≡ false) × IsUnique xs

pub contains-set_of : (n : String) (xs : List String) → contains n (set_of xs) ≡ contains n xs
contains-set_of n [] = refl
contains-set_of n (x ∷ xs) = ground (arith, contains-add x n (set_of xs), contains-set_of n xs)

pub contains-append :
    (n : String) (xs ys : List String) → contains n (xs ++ ys) ≡ (contains n xs || contains n ys)
contains-append n [] ys = refl
contains-append n (x ∷ xs) ys = ground (arith, contains-append n xs ys)

pub contains-difference :
    (n : String) (xs ys : List String)
    → contains n (difference xs ys) ≡ (contains n xs && not (contains n ys))
contains-difference n [] ys = refl
contains-difference n (x ∷ xs) ys =
    ground (arith, contains-difference n xs ys, String_eq.same_iff x n)

pub contains-intersect :
    (n : String) (xs ys : List String)
    → contains n (intersect xs ys) ≡ (contains n xs && contains n ys)
contains-intersect n [] ys = refl
contains-intersect n (x ∷ xs) ys =
    ground (arith, contains-intersect n xs ys, String_eq.same_iff x n)

pub IsUnique-add : (x : String) (xs : List String) → IsUnique xs → IsUnique (add x xs)
unfolding add
IsUnique-add x xs s = ground (arith, s)

pub IsUnique-set_of : (xs : List String) → IsUnique (set_of xs)
IsUnique-set_of [] = tt
IsUnique-set_of (x ∷ xs) = IsUnique-add x (set_of xs) (IsUnique-set_of xs)

pub IsUnique-difference : (xs ys : List String) → IsUnique xs → IsUnique (difference xs ys)
IsUnique-difference [] ys s = tt
IsUnique-difference (x ∷ xs) ys s =
    ground (arith, IsUnique-difference xs ys, contains-difference x xs ys)

pub IsUnique-intersect : (xs ys : List String) → IsUnique xs → IsUnique (intersect xs ys)
IsUnique-intersect [] ys s = tt
IsUnique-intersect (x ∷ xs) ys s =
    ground (arith, IsUnique-intersect xs ys, contains-intersect x xs ys)

pub IsUnique-append :
    (xs ys : List String)
    → IsUnique xs
    → IsUnique ys
    → ((n : String) → contains n xs ≡ true → contains n ys ≡ false)
    → IsUnique (xs ++ ys)
IsUnique-append [] ys sx sy apart = sy
IsUnique-append (x ∷ xs) ys (fresh, sx) sy apart = (
  ground (arith, contains-append x xs ys, fresh, apart x, String_eq.same_iff x x),
  IsUnique-append xs ys sx sy (λ n h. apart n (ground (arith, h))),
)

-- The map `f` has the target's value for every name that is not pending, and the first value for
-- the others.
abbrev pub Swept :
    {V : Type 0}
    → (String → Option V)
    → (String → Option V)
    → List String
    → (String → Option V)
    → Type 0
Swept target first pending f =
    (n : String) → f n ≡ (if contains n pending then first n else target n)

pub Swept-assign :
    {V : Type 0} (target first : String → Option V) (x : String) (xs : List String)
    (f : String → Option V) (val : Option V)
    → contains x xs ≡ false
    → target x ≡ val
    → Swept target first (x ∷ xs) f
    → Swept target first xs (assign x val f)
Swept-assign target first x xs f val fresh hit swept n =
    ground (arith, fresh, hit, swept n, String_eq.same_iff x n)

pub Swept-keep :
    {V : Type 0} (target first : String → Option V) (x : String) (xs : List String)
    (f : String → Option V)
    → target x ≡ first x
    → Swept target first (x ∷ xs) f
    → Swept target first xs f
Swept-keep target first x xs f same swept n = ground (arith, same, swept n, String_eq.same_iff x n)

-- What a pass handles, in this order: the names to remove, to check and to add.
abbrev pub all_names : List String → List String → List String
all_names present desired =
    difference present desired ++ (intersect desired present ++ difference desired present)

pub IsUnique-all_names :
    (present desired : List String)
    → IsUnique present
    → IsUnique desired
    → IsUnique (all_names present desired)
IsUnique-all_names present desired p d =
    IsUnique-append (difference present desired)
      (intersect desired present ++ difference desired present)
      (IsUnique-difference present desired p)
      (IsUnique-append (intersect desired present) (difference desired present)
        (IsUnique-intersect desired present d) (IsUnique-difference desired present d)
        (λ n h.
          ground (
            arith,
            h,
            contains-intersect n desired present,
            contains-difference n desired present,
          )))
      (λ n h. ground (
        arith,
        h,
        contains-difference n present desired,
        contains-append n (intersect desired present) (difference desired present),
        contains-intersect n desired present,
        contains-difference n desired present,
      ))

-- Before the pass a map has its first value for each name that the pass handles, and no other name.
pub Swept-all_names :
    {V : Type 0} (target first : String → Option V) (present desired : List String)
    → ((n : String) → contains n present ≡ is_some (first n))
    → ((n : String) → contains n desired ≡ false → target n ≡ none)
    → Swept target first (all_names present desired) first
Swept-all_names target first present desired listed unwanted n = ground (
  arith,
  contains-append n (difference present desired)
      (intersect desired present ++ difference desired present),
  contains-append n (intersect desired present) (difference desired present),
  contains-difference n present desired,
  contains-intersect n desired present,
  contains-difference n desired present,
  listed n,
  unwanted n,
  Option-cases (first n),
)

pub contains-both :
    (n : String) (present desired : List String)
    → contains n (intersect desired present ++ difference desired present) ≡ contains n desired
contains-both n present desired = ground (
  arith,
  contains-append n (intersect desired present) (difference desired present),
  contains-intersect n desired present,
  contains-difference n desired present,
)

pub contains-queried :
    (n : String) (present desired : List String)
    → contains n (set_of (difference desired present ++ intersect desired present))
      ≡ contains n desired
contains-queried n present desired =
    contains-set_of n (difference desired present ++ intersect desired present)
    ∙ ground (
      arith,
      contains-append n (difference desired present) (intersect desired present),
      contains-intersect n desired present,
      contains-difference n desired present,
    )
