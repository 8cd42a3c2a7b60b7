-- ===== src/Prelude/Maps.antt =====
-- Go's maps as association lists. A write replaces the binding in place or adds one at the end, so
-- the order of the list is one of the orders in which Go's `range` may go through the map.
use k8s_inc.Prelude.{
  suc, ◌≡◌, refl, Bool, false, Option, none, some, List, [], ◌∷◌, arith, Eq, ◌==◌, if◌then◌else◌,
  length, is_some,
}

module _ {ℓ κ} {K : Type ℓ} {V : Type κ} ⦃e : Eq K⦄ where
  unfoldable pub lookup : K → List (K × V) → Option V
  lookup key [] = none
  lookup key ((bound, val) ∷ rows) = if bound == key then some val else lookup key rows

  unfoldable pub insert : K → V → List (K × V) → List (K × V)
  insert key val [] = (key, val) ∷ []
  insert key val ((bound, old) ∷ rows) =
      if bound == key then (key, val) ∷ rows else (bound, old) ∷ insert key val rows

  unfoldable pub erase : K → List (K × V) → List (K × V)
  erase key [] = []
  erase key ((bound, val) ∷ rows) =
      let rest = erase key rows in if bound == key then rest else (bound, val) ∷ rest

  -- `_, ok := rows[key]`
  abbrev pub has : K → List (K × V) → Bool
  has key rows = is_some (lookup key rows)

  -- No key is bound twice, as in every map of Go.
  abbrev pub IsMap : List (K × V) → Type 0
  IsMap [] = Unit
  IsMap ((bound, val) ∷ rows) = (has bound rows ≡ false) × IsMap rows

  pub lookup-insert :
      (key bound : K) (val : V) (rows : List (K × V))
      → lookup bound (insert key val rows) ≡ (if key == bound then some val else lookup bound rows)
  unfolding lookup insert
  lookup-insert key bound val [] = refl
  lookup-insert key bound val ((i, old) ∷ rows) = ground (
    arith,
    e.same_iff key bound,
    e.same_iff i key,
    e.same_iff i bound,
    lookup-insert key bound val rows,
  )

  pub lookup-erase :
      (key bound : K) (rows : List (K × V))
      → lookup bound (erase key rows) ≡ (if key == bound then none else lookup bound rows)
  unfolding lookup erase
  lookup-erase key bound [] = ground arith
  lookup-erase key bound ((i, old) ∷ rows) = ground (
    arith,
    e.same_iff key bound,
    e.same_iff i key,
    e.same_iff i bound,
    lookup-erase key bound rows,
  )

  pub length-insert :
      (key : K) (val : V) (rows : List (K × V))
      → length (insert key val rows) ≡ (if has key rows then length rows else suc (length rows))
  unfolding lookup insert
  length-insert key val [] = refl
  length-insert key val ((i, old) ∷ rows) = ground (arith, length-insert key val rows)

  pub erase_absent : (key : K) (rows : List (K × V)) → has key rows ≡ false → erase key rows ≡ rows
  unfolding lookup erase
  erase_absent key [] h = refl
  erase_absent key ((i, old) ∷ rows) h = ground (arith, erase_absent key rows)

  pub length-erase :
      (key : K) (rows : List (K × V))
      → IsMap rows
      → length rows
        ≡ (if has key rows then suc (length (erase key rows)) else length (erase key rows))
  unfolding lookup erase
  length-erase key [] u = refl
  length-erase key ((i, old) ∷ rows) u =
      ground (arith, e.same_iff i key, length-erase key rows u.1, erase_absent i rows u.0)

  pub IsMap-insert :
      (key : K) (val : V) (rows : List (K × V)) → IsMap rows → IsMap (insert key val rows)
  unfolding lookup insert
  IsMap-insert key val [] u = (refl, tt)
  IsMap-insert key val ((i, old) ∷ rows) u = ground (
    arith,
    IsMap-insert key val rows u.1,
    lookup-insert key i val rows,
    e.same_iff i key,
    e.same_iff key i,
  )

  pub IsMap-erase : (key : K) (rows : List (K × V)) → IsMap rows → IsMap (erase key rows)
  unfolding lookup erase
  IsMap-erase key [] u = tt
  IsMap-erase key ((i, old) ∷ rows) u =
      ground (arith, IsMap-erase key rows u.1, lookup-erase key i rows)
