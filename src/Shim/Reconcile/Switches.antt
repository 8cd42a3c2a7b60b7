-- ===== src/Shim/Reconcile/Switches.antt =====
-- The switches behind a pass of Reconcile.
pub mod Loops
use k8s_inc.Prelude.{
  String, ◌≡◌, refl, sym, ap, ◌∙◌, subst, ◌⊎◌, inl, inr, true, false, ◌||◌, Option, none, some,
  List, [], ◌∷◌, ◌++◌, arith, if◌then◌else◌, Option-cases, ℕ_eq, String_eq, contains, add,
  contains-add, is_some,
}
use k8s_inc.Prelude.Maps.{lookup}
use k8s_inc.Controller.Mapping.{SwitchDetails}
use k8s_inc.Shim.Topology.{NetworkDevice}
use k8s_inc.Shim.Api.{
  IncSwitchSpec, Object, Kubernetes, Sdn, Cluster, Network, Always, assign, spec_of, AreStored,
  Laws,
}
use k8s_inc.Shim.Sets.{
  set_of, difference, intersect, IsUnique, contains-set_of, contains-difference, contains-intersect,
  IsUnique-set_of, IsUnique-add, Swept, IsUnique-all_names, Swept-all_names, contains-both,
  contains-queried, Swept-assign, Swept-keep,
}
use k8s_inc.Shim.Run.{Run, ◌>>=◌, ◌>>◌, return, call_or, try, for_each}
use k8s_inc.Shim.Run.Rules.{
  Runs, runs-bind, runs-return, runs-weaken, runs-deref, runs-if, runs-call_or, runs-try,
  runs-for_each_in,
}
use k8s_inc.Shim.Reconcile.{
  stored_at, names_of, switch_names, build_inc_switch_cr, details_differ, remove_switch,
  check_switch, add_switch, check_against, add_with, sync_switches, sync_listed_switches, refused,
  is_not_found, is_invalid_argument,
}
use k8s_inc.Shim.Reconcile.Refusals.{refused-Runs}
use k8s_inc.Shim.Reconcile.Stored.{
  contains-names_of, IsStoredAt-spec_of, installed, installed-same, programs_at,
}

abbrev spec_from : SwitchDetails → IncSwitchSpec
spec_from d = record { arch = d.arch; program_name = d.installed_program }

abbrev wanted : Option SwitchDetails → Option IncSwitchSpec → Option IncSwitchSpec
wanted none before = before
wanted (some d) before = some (spec_from d)

-- the switches behind a pass that finds `first` and wants those of the list
abbrev pub switches_after :
    Network → List String → (String → Option IncSwitchSpec) → String → Option IncSwitchSpec
switches_after net names first n =
    if contains n names then wanted (net.details n) (first n) else none

-- The switches of a cluster behind the loops are those wanted, and the result of the loops is the
-- programs that they run.
pub record SwitchesSynced (net : Network) (names : List String) (c0 : Cluster)
    (programs : List String) (c : Cluster) : Type 0 where
  pub shim_kept : c.shim ≡ c0.shim
  pub topology_kept : c.topology ≡ c0.topology
  pub programs_kept : c.programs ≡ c0.programs
  pub switches_are : (n : String) → c.switches n ≡ switches_after net names c0.switches n
  pub programs_distinct : IsUnique programs
  pub programs_are : (p : String) → contains p programs ≡ contains p (installed net names)

module _ {Faulty : Type 0} {W : Type 0} {view : W → Cluster} {network : String → Network}
    (k8s : Kubernetes W) (sdn : Sdn W) (laws : Laws Faulty W view network k8s sdn) (addr : String)
    (names : List String) (c0 : Cluster) (items : List (Object IncSwitchSpec))
    (stored : AreStored items) (listed : (n : String) → spec_of n items ≡ c0.switches n) where
  -- the pass has the switches of `pending` left to do, and `programs` are those of the others
  record Midway (pending : List String) (c : Cluster) : Type 0 where
    shim_kept : c.shim ≡ c0.shim
    topology_kept : c.topology ≡ c0.topology
    programs_kept : c.programs ≡ c0.programs
    distinct : IsUnique pending
    swept : Swept (switches_after (network addr) names c0.switches) c0.switches pending c.switches

  -- a pass that writes the target at the first name
  Midway-assign :
      (x : String) (xs : List String) (c : Cluster) (val : Option IncSwitchSpec)
      → switches_after (network addr) names c0.switches x ≡ val
      → Midway (x ∷ xs) c
      → Midway xs (record c { switches = assign x val c.switches })
  Midway-assign x xs c val hit m = record {
    shim_kept = m.shim_kept;
    topology_kept = m.topology_kept;
    programs_kept = m.programs_kept;
    distinct = m.distinct.1;
    swept =
        Swept-assign (switches_after (network addr) names c0.switches) c0.switches x xs c.switches
          val m.distinct.0 hit m.swept;
  }

  Midway-keep :
      (x : String) (xs : List String) (c : Cluster)
      → switches_after (network addr) names c0.switches x ≡ c0.switches x
      → Midway (x ∷ xs) c
      → Midway xs c
  Midway-keep x xs c same m = record {
    shim_kept = m.shim_kept;
    topology_kept = m.topology_kept;
    programs_kept = m.programs_kept;
    distinct = m.distinct.1;
    swept =
        Swept-keep (switches_after (network addr) names c0.switches) c0.switches x xs c.switches
          same m.swept;
  }

  -- the switch of the name is still as it was found
  Midway-first :
      (x : String) (xs : List String) (c : Cluster)
      → Midway (x ∷ xs) c
      → c.switches x ≡ c0.switches x
  Midway-first x xs c m = ground (arith, m.swept x, String_eq.same_iff x x)

  remove_switch-Midway :
      (x : String) (xs : List String) (c : Cluster)
      → is_some (c0.switches x) ≡ true
      → contains x names ≡ false
      → Midway (x ∷ xs) c
      → Runs Faulty view (remove_switch k8s sdn items x tt) c (λ u c'. Midway xs c')
  unfolding remove_switch
  remove_switch-Midway x xs c there unwanted m =
      let (o, at) = IsStoredAt-spec_of x items stored (ground (arith, listed x, there)) in
      runs-deref Faulty view (stored_at x items) o (λ present. try (k8s.delete_switch present)) c
        (λ u c'. Midway xs c') at.found
        (runs-try Faulty view (k8s.delete_switch o) (λ d. is_some (d.switches o.name) ≡ true)
          (λ d a d'. d' ≡ record d { switches = assign o.name none d.switches }) c
          (λ u c'. Midway xs c') (laws.delete_switch o)
          (inr (rw (at.named, Midway-first x xs c m) there))
          (λ a c' wrote.
            rw (wrote, at.named) (Midway-assign x xs c none (ground (arith, unwanted)) m)))

  -- the programs found and those of the pending switches are those of all
  abbrev Counted : List String → List String → List String → Type 0
  Counted all programs pending =
      IsUnique programs
      × ((p : String)
          → (contains p programs || contains p (installed (network addr) pending))
            ≡ contains p (installed (network addr) all))

  Counted-none :
      (all programs ps : List String) (x : String)
      → (network addr).details x ≡ none
      → Counted all programs (x ∷ ps)
      → Counted all programs ps
  Counted-none all programs ps x unknown (distinct, counted) = (
    distinct,
    subst
        (λ o.
          (p : String)
          → (contains p programs || contains p (programs_at o (installed (network addr) ps)))
            ≡ contains p (installed (network addr) all))
        unknown counted,
  )

  Counted-add :
      (all programs ps : List String) (x : String) (d : SwitchDetails)
      → (network addr).details x ≡ some d
      → Counted all programs (x ∷ ps)
      → Counted all (add d.installed_program programs) ps
  Counted-add all programs ps x d known (distinct, counted) =
      let here : (p : String)
          → (contains p programs || contains p (programs_at (some d) (installed (network addr) ps)))
            ≡ contains p (installed (network addr) all) =
        subst
          (λ o.
            (p : String)
            → (contains p programs || contains p (programs_at o (installed (network addr) ps)))
              ≡ contains p (installed (network addr) all))
          known counted in
      (
        IsUnique-add d.installed_program programs distinct,
        (λ p. ground (arith, here p, contains-add d.installed_program p programs)),
      )

  same_details :
      (d : SwitchDetails) (spec : IncSwitchSpec)
      → details_differ d spec ≡ false
      → spec_from d ≡ spec
  same_details d spec same = ground (
    arith,
    same,
    String_eq.same_iff d.arch spec.arch,
    String_eq.same_iff d.installed_program spec.program_name,
  )

  target_known :
      (x : String) (d : SwitchDetails)
      → contains x names ≡ true
      → (network addr).details x ≡ some d
      → switches_after (network addr) names c0.switches x ≡ some (spec_from d)
  target_known x d named known = rw (named, known) refl

  target_unknown :
      (x : String)
      → contains x names ≡ true
      → (network addr).details x ≡ none
      → switches_after (network addr) names c0.switches x ≡ c0.switches x
  target_unknown x named unknown = rw (named, unknown) refl

  check_against-Midway :
      (all : List String) (x : String) (ps b : List String) (c : Cluster)
      → is_some (c0.switches x) ≡ true
      → contains x names ≡ true
      → Midway (x ∷ ps) c
      → Counted all b (x ∷ ps)
      → (answer : Option SwitchDetails) → (network addr).details x ≡ answer
      → Runs Faulty view
          (check_against k8s sdn items x b answer)
          c
          (λ b' c'. Midway ps c' × Counted all b' ps)
  check_against-Midway all x ps b c there named m counted none unknown =
      runs-return Faulty view b c (λ b' c'. Midway ps c' × Counted all b' ps)
        (
          Midway-keep x ps c (target_unknown x named unknown) m,
          Counted-none all b ps x unknown counted,
        )
  check_against-Midway all x ps b c there named m counted (some d) known =
      let Q : List String → Cluster → Type 0 = λ b' c'. Midway ps c' × Counted all b' ps in
      let b' : List String = add d.installed_program b in
      let rewritten : Object IncSwitchSpec → Object IncSwitchSpec =
        λ present. record present { spec = spec_from d } in
      let write : Object IncSwitchSpec → Run W (List String) =
        λ present. (do try (k8s.update_switch (rewritten present)); return b') in
      let (o, at) = IsStoredAt-spec_of x items stored (ground (arith, listed x, there)) in
      let after : Counted all b' ps = Counted-add all b ps x d known counted in
      runs-deref Faulty view (stored_at x items) o
        (λ present. if details_differ d present.spec then write present else return b') c Q at.found
        (runs-if Faulty view (details_differ d o.spec) (write o) (return b') c Q
          (λ differ.
            runs-bind Faulty view (try (k8s.update_switch (rewritten o))) (λ u. return b') c
              (λ u c'. Midway ps c') Q
              (runs-try Faulty view (k8s.update_switch (rewritten o))
                (λ d. (is_some (d.switches o.name) ≡ true) × (is_some o.resource_version ≡ true))
                (λ e a e'.
                  e' ≡ record e { switches = assign o.name (some (spec_from d)) e.switches })
                c (λ u c'. Midway ps c') (laws.update_switch (rewritten o))
                (inr (rw (at.named, Midway-first x ps c m) there, at.versioned))
                (λ a c' wrote.
                  rw (wrote, at.named)
                    (Midway-assign x ps c (some (spec_from d)) (target_known x d named known) m)))
              (λ u c' m'. runs-return Faulty view b' c' Q (m', after)))
          (λ same. runs-return Faulty view b' c Q (
            Midway-keep x ps c
                (target_known x d named known
                  ∙ ap some (same_details d o.spec same)
                  ∙ sym at.spec_is
                  ∙ listed x)
                m,
            after,
          )))

  add_with-Midway :
      (all : List String) (x : String) (ps b : List String) (c : Cluster)
      → c0.switches x ≡ none
      → contains x names ≡ true
      → Midway (x ∷ ps) c
      → Counted all b (x ∷ ps)
      → (answer : Option SwitchDetails) → (network addr).details x ≡ answer
      → Runs Faulty view (add_with k8s sdn b answer) c (λ b' c'. Midway ps c' × Counted all b' ps)
  unfolding build_inc_switch_cr
  add_with-Midway all x ps b c absent named m counted none unknown =
      runs-return Faulty view b c (λ b' c'. Midway ps c' × Counted all b' ps)
        (
          Midway-keep x ps c (target_unknown x named unknown) m,
          Counted-none all b ps x unknown counted,
        )
  add_with-Midway all x ps b c absent named m counted (some d) known =
      let Q : List String → Cluster → Type 0 = λ b' c'. Midway ps c' × Counted all b' ps in
      let b' : List String = add d.installed_program b in
      let o : Object IncSwitchSpec = build_inc_switch_cr d in
      let is_x : d.name ≡ x = laws.details_named addr x d known in
      runs-bind Faulty view (try (k8s.set_controller_reference d.name))
        (λ u. (try (k8s.create_switch o) >> return b')) c (λ u c'. c' ≡ c) Q
        (runs-try Faulty view (k8s.set_controller_reference d.name) Always (λ e a e'. e' ≡ e) c
          (λ u c'. c' ≡ c) (laws.set_controller_reference d.name) (inr tt) (λ a c' same. same))
        (λ u c1 same. rw same (
          runs-bind Faulty view (try (k8s.create_switch o)) (λ u. return b') c
            (λ u c'. Midway ps c') Q
            (runs-try Faulty view (k8s.create_switch o) (λ e. e.switches o.name ≡ none)
              (λ e a e'. e' ≡ record e { switches = assign o.name (some o.spec) e.switches }) c
              (λ u c'. Midway ps c') (laws.create_switch o)
              (inr (rw (is_x, Midway-first x ps c m) absent))
              (λ a c' wrote.
                rw (wrote, is_x)
                  (Midway-assign x ps c (some (spec_from d)) (target_known x d named known) m)))
            (λ u c' m'.
              runs-return Faulty view b' c' Q (m', Counted-add all b ps x d known counted))))
