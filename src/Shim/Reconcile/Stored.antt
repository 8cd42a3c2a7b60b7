-- ===== src/Shim/Reconcile/Stored.antt =====
-- What Reconcile finds in a list of objects, and in the switches of an SDN controller.
use k8s_inc.Prelude.{
  String, ◌≡◌, refl, false, sym, ap, ◌∙◌, subst, inl, inr, true, Option, none, some, List, [], ◌∷◌,
  arith, Bool-cases, Option-cases, ◌==◌, ℕ_eq, String_eq, contains, is_some,
}
use k8s_inc.Controller.Mapping.{SwitchDetails}
use k8s_inc.Shim.Api.{Object, spec_of, AreStored, Network}
use k8s_inc.Shim.Reconcile.{stored_at, names_of}

-- an object under its name, as it was read
pub record IsStoredAt {S : Type 0} (name : String) (os : List (Object S)) (o : Object S)
    : Type 0 where
  pub found : stored_at name os ≡ some o
  pub named : o.name ≡ name
  pub spec_is : spec_of name os ≡ some o.spec
  pub versioned : is_some o.resource_version ≡ true

pub contains-names_of :
    {S : Type 0} (name : String) (os : List (Object S))
    → contains name (names_of os) ≡ is_some (spec_of name os)
contains-names_of name [] = refl
contains-names_of name (o ∷ os) = ground (arith, contains-names_of name os)

stored_at-none :
    {S : Type 0} (name : String) (os : List (Object S))
    → is_some (spec_of name os) ≡ false
    → stored_at name os ≡ none
stored_at-none name [] h = refl
stored_at-none name (o ∷ os) h = ground (arith, h, stored_at-none name os)

pub IsStoredAt-spec_of :
    {S : Type 0} (name : String) (os : List (Object S))
    → AreStored os
    → is_some (spec_of name os) ≡ true
    → (o : Object S) × IsStoredAt name os o
IsStoredAt-spec_of name [] stored there = absurd (ground (arith, there))
IsStoredAt-spec_of name (o ∷ os) (versioned, fresh, stored) there =
    elim (Bool-cases (o.name == name)) [
      | inl mine ↦
          let named : o.name ≡ name = ground (arith, mine, String_eq.same_iff o.name name) in
          let gone : stored_at name os ≡ none =
            subst (λ n. stored_at n os ≡ none) named (stored_at-none o.name os fresh) in
          (
            o,
            record {
              found = ground (arith, mine, gone);
              named = named;
              spec_is = ground (arith, mine);
              versioned = versioned;
            },
          )
      | inr other ↦
          let (o', at) = IsStoredAt-spec_of name os stored (ground (arith, other, there)) in
          (
            o',
            record {
              found = ground (arith, other, at.found);
              named = at.named;
              spec_is = ground (arith, other, at.spec_is);
              versioned = at.versioned;
            },
          )
    ]

-- the programs that the switches of a list run
abbrev pub programs_at : Option SwitchDetails → List String → List String
programs_at none rest = rest
programs_at (some d) rest = d.installed_program ∷ rest

abbrev pub installed : Network → List String → List String
installed net [] = []
installed net (n ∷ ns) = programs_at (net.details n) (installed net ns)

-- a switch of the list runs the program
abbrev pub IsInstalled : Network → List String → String → Type 0
IsInstalled net ns p =
    (n : String) × (d : SwitchDetails) × (contains n ns ≡ true)
    × (net.details n ≡ some d)
    × (d.installed_program ≡ p)

pub installed-IsInstalled :
    (net : Network) (ns : List String) (p : String)
    → contains p (installed net ns) ≡ true
    → IsInstalled net ns p
installed-IsInstalled net [] p h = absurd (ground (arith, h))
installed-IsInstalled net (n ∷ ns) p h =
    let later : contains p (installed net ns) ≡ true → IsInstalled net (n ∷ ns) p = λ g.
      let (m, d, there, is, runs) = installed-IsInstalled net ns p g in
      (m, d, ground (arith, there), is, runs) in
    elim (Option-cases (net.details n)) [
      | inl none_is ↦
          later (subst (λ o. contains p (programs_at o (installed net ns)) ≡ true) none_is h)
      | inr (d, is) ↦ elim (Bool-cases (d.installed_program == p)) [
        | inl runs ↦ (
          n,
          d,
          ground (arith, String_eq.same_iff n n),
          is,
          ground (arith, runs, String_eq.same_iff d.installed_program p),
        )
        | inr other ↦ later (
            ground (
              arith,
              other,
              subst (λ o. contains p (programs_at o (installed net ns)) ≡ true) is h,
            ))
      ]
    ]

pub IsInstalled-installed :
    (net : Network) (ns : List String) (p : String)
    → IsInstalled net ns p
    → contains p (installed net ns) ≡ true
IsInstalled-installed net [] p (m, d, there, is, runs) = absurd (ground (arith, there))
IsInstalled-installed net (n ∷ ns) p (m, d, there, is, runs) = elim (Bool-cases (n == m)) [
  | inl same ↦
      subst (λ o. contains p (programs_at o (installed net ns)) ≡ true)
        (sym (ap net.details (ground (arith, same, String_eq.same_iff n m)) ∙ is))
        (ground (arith, runs, String_eq.same_iff d.installed_program p))
  | inr other ↦
      let later : contains p (installed net ns) ≡ true =
        IsInstalled-installed net ns p (m, d, ground (arith, other, there), is, runs) in
      elim (Option-cases (net.details n)) [
        | inl none_is ↦ rw none_is later
        | inr (e, at) ↦ rw at (ground (arith, later))
      ]
]

-- The programs of two lists of the same names are the same.
pub installed-same :
    (net : Network) (xs ys : List String)
    → ((n : String) → contains n xs ≡ contains n ys)
    → (p : String) → contains p (installed net xs) ≡ contains p (installed net ys)
installed-same net xs ys same p =
    let over : (us vs : List String)
        → ((n : String) → contains n us ≡ contains n vs)
        → contains p (installed net us) ≡ true
        → contains p (installed net vs) ≡ true =
      λ us vs eq h.
        let (n, d, there, is, runs) = installed-IsInstalled net us p h in
        IsInstalled-installed net vs p (n, d, ground (arith, there, eq n), is, runs) in
    ground (arith, over xs ys same, over ys xs (λ n. sym (same n)))
