-- ===== src/Prelude/Keys.antt =====
-- Types whose values Go compares by `==`, as an interface with its law, and sets of such values
-- (the source's `map[K]struct{}`) as lists.
use Prim.Native.Nat.{ℕ}
use Prim.Native.String.{String}
use mathlib.Core.Path.{◌≡◌, refl}
use mathlib.Core.Logic.{◌↔◌}
use mathlib.Core.Bool.{Bool, true, false, not, ◌&&◌, ◌||◌}
use mathlib.Core.List.{List, [], ◌∷◌}
use native.Mathlib.Omega.{arith}
use text.Mathlib.Text.{◌==◌ as str_eq}
use text.Mathlib.TextEquality.{eq_iff}
use k8s_inc.Prelude.Lists.{is_empty}
use k8s_inc.Prelude.Tests.{◌==◌ as nat_eq, ==_iff, if◌then◌else◌}

pub record Eq {ℓ} (A : Type ℓ) : Type ℓ where
  pub same : A → A → Bool
  pub same_iff : (a b : A) → (same a b ≡ true) ↔ (a ≡ b)

infix 50 ◌==◌
abbrev pub ◌==◌ {ℓ} : {A : Type ℓ} ⦃e : Eq A⦄ → A → A → Bool
◌==◌ ⦃e⦄ = e.same

instance abbrev pub ℕ_eq : Eq ℕ
ℕ_eq = record { same = nat_eq; same_iff = ==_iff }

instance abbrev pub String_eq : Eq String
String_eq = record { same = str_eq; same_iff = eq_iff }

module _ {ℓ} {A : Type ℓ} ⦃e : Eq A⦄ where
  abbrev pub contains : A → List A → Bool
  contains a [] = false
  contains a (x ∷ xs) = x == a || contains a xs

  unfoldable pub add : A → List A → List A
  add a xs = if contains a xs then xs else a ∷ xs

  unfoldable pub remove : A → List A → List A
  remove a [] = []
  remove a (x ∷ xs) = let rest = remove a xs in if x == a then rest else x ∷ rest

  pub contains-add : (a b : A) (xs : List A) → contains b (add a xs) ≡ (a == b || contains b xs)
  unfolding add
  contains-add a b xs = ground (arith, e.same_iff a b)

  pub contains-remove :
      (a b : A) (xs : List A) → contains b (remove a xs) ≡ (contains b xs && not (a == b))
  unfolding remove
  contains-remove a b [] = refl
  contains-remove a b (x ∷ xs) =
      ground (arith, contains-remove a b xs, e.same_iff a b, e.same_iff x a, e.same_iff x b)

  pub contains_empty : (a : A) (xs : List A) → is_empty xs ≡ true → contains a xs ≡ false
  contains_empty a [] h = refl
  contains_empty a (x ∷ xs) h = cc

  pub same_refl : (a : A) → (a == a) ≡ true
  same_refl a = (e.same_iff a a).1 refl

  pub add_not_empty : (a : A) (xs : List A) → is_empty (add a xs) ≡ false
  unfolding add
  add_not_empty a [] = refl
  add_not_empty a (x ∷ xs) = ground arith

  -- Whoever is removed from a list that empties was alone in it.
  pub remove_empty :
      (a b : A) (xs : List A) → is_empty (remove a xs) ≡ true → contains b xs ≡ true → a ≡ b
  remove_empty a b xs h g =
      ground (arith, contains-remove a b xs, contains_empty b (remove a xs), e.same_iff a b)
