-- ===== src/Shim/Reconcile/Programs.antt =====
-- The programs behind a pass of Reconcile.
pub mod Loops
use k8s_inc.Prelude.{
  String, ◌≡◌, refl, sym, ap, ◌∙◌, subst, ◌⊎◌, inl, inr, true, false, Option, none, some, List, [],
  ◌∷◌, ◌++◌, arith, if◌then◌else◌, Bool-cases, Option-cases, ◌==◌, ℕ_eq, String_eq, contains,
  is_some,
}
use k8s_inc.Prelude.Maps.{lookup, insert, lookup-insert}
use k8s_inc.Shim.Api.{
  P4ProgramSpec, Object, Kubernetes, Sdn, Cluster, Network, Always, assign, spec_of, AreStored,
  Laws,
}
use k8s_inc.Shim.Sets.{
  set_of, difference, intersect, IsUnique, contains-set_of, contains-difference, contains-intersect,
  IsUnique-set_of, IsUnique-append, IsUnique-difference, IsUnique-intersect, contains-append, Swept,
  all_names, IsUnique-all_names, Swept-all_names, contains-queried, Swept-assign, Swept-keep,
}
use k8s_inc.Shim.Run.{Run, ◌>>=◌, ◌>>◌, return, call_or, try, for_each, deref}
use k8s_inc.Shim.Run.Rules.{
  Runs, runs-bind, runs-return, runs-weaken, runs-deref, runs-if, runs-call_or, runs-try,
  runs-for_each_in,
}
use k8s_inc.Shim.Reconcile.{
  stored_at, names_of, slices_equal, build_p4_program_cr, remove_program, fetch_program,
  add_program, check_program, sync_listed_programs, sync_programs, refused, is_not_found,
}
use k8s_inc.Shim.Reconcile.Refusals.{refused-Runs}
use k8s_inc.Shim.Reconcile.Stored.{contains-names_of, IsStoredAt-spec_of}

abbrev spec_from : List String → P4ProgramSpec
spec_from interfaces = record { artifacts = []; implemented_interfaces = interfaces }

abbrev pub wanted : Option (List String) → Option P4ProgramSpec → Option P4ProgramSpec
wanted none before = before
wanted (some is) none = some (spec_from is)
wanted (some is) (some spec) =
    if slices_equal spec.implemented_interfaces is then some spec else some (spec_from is)

-- the programs behind a pass that finds `first` and wants those of the list
abbrev pub programs_after :
    Network → List String → (String → Option P4ProgramSpec) → String → Option P4ProgramSpec
programs_after net names first p =
    if contains p names then wanted (net.interfaces p) (first p) else none

-- The programs of a cluster behind the loops are those wanted, and each has its interfaces.
pub record ProgramsSynced (net : Network) (names : List String) (c0 : Cluster) (c : Cluster)
    : Type 0 where
  pub shim_kept : c.shim ≡ c0.shim
  pub topology_kept : c.topology ≡ c0.topology
  pub switches_kept : c.switches ≡ c0.switches
  pub programs_are : (p : String) → c.programs p ≡ programs_after net names c0.programs p
  pub fetched : (p : String) → contains p names ≡ true → is_some (net.interfaces p) ≡ true

module _ {Faulty : Type 0} {W : Type 0} {view : W → Cluster} {network : String → Network}
    (k8s : Kubernetes W) (sdn : Sdn W) (laws : Laws Faulty W view network k8s sdn) (addr : String)
    (names : List String) (c0 : Cluster) (items : List (Object P4ProgramSpec))
    (stored : AreStored items) (listed : (n : String) → spec_of n items ≡ c0.programs n) where
  abbrev target : String → Option P4ProgramSpec
  target = programs_after (network addr) names c0.programs

  -- the pass has the programs of `pending` left to do
  record Midway (pending : List String) (c : Cluster) : Type 0 where
    shim_kept : c.shim ≡ c0.shim
    topology_kept : c.topology ≡ c0.topology
    switches_kept : c.switches ≡ c0.switches
    distinct : IsUnique pending
    swept : Swept target c0.programs pending c.programs

  Midway-assign :
      (x : String) (xs : List String) (c : Cluster) (val : Option P4ProgramSpec)
      → target x ≡ val
      → Midway (x ∷ xs) c
      → Midway xs (record c { programs = assign x val c.programs })
  Midway-assign x xs c val hit m = record {
    shim_kept = m.shim_kept;
    topology_kept = m.topology_kept;
    switches_kept = m.switches_kept;
    distinct = m.distinct.1;
    swept = Swept-assign target c0.programs x xs c.programs val m.distinct.0 hit m.swept;
  }

  Midway-keep :
      (x : String) (xs : List String) (c : Cluster)
      → target x ≡ c0.programs x
      → Midway (x ∷ xs) c
      → Midway xs c
  Midway-keep x xs c same m = record {
    shim_kept = m.shim_kept;
    topology_kept = m.topology_kept;
    switches_kept = m.switches_kept;
    distinct = m.distinct.1;
    swept = Swept-keep target c0.programs x xs c.programs same m.swept;
  }

  Midway-first :
      (x : String) (xs : List String) (c : Cluster)
      → Midway (x ∷ xs) c
      → c.programs x ≡ c0.programs x
  Midway-first x xs c m = ground (arith, m.swept x, String_eq.same_iff x x)

  abbrev present : List String
  present = set_of (names_of items)

  abbrev to_remove : List String
  to_remove = difference present names

  abbrev to_check : List String
  to_check = intersect names present

  abbrev to_add : List String
  to_add = difference names present

  abbrev queried : List String
  queried = set_of (to_add ++ to_check)

  contains-present : (n : String) → contains n present ≡ is_some (c0.programs n)
  contains-present n =
      contains-set_of n (names_of items) ∙ contains-names_of n items ∙ ap is_some (listed n)

  Midway-start : IsUnique names → Midway (all_names present names) c0
  Midway-start names-IsUnique = record {
    shim_kept = refl;
    topology_kept = refl;
    switches_kept = refl;
    distinct = IsUnique-all_names present names (IsUnique-set_of (names_of items)) names-IsUnique;
    swept =
        Swept-all_names target c0.programs present names contains-present
          (λ n out. ground (arith, out));
  }

  remove_program-Midway :
      (x : String) (xs : List String) (c : Cluster)
      → contains x to_remove ≡ true
      → Midway (x ∷ xs) c
      → Runs Faulty view (remove_program k8s sdn items x tt) c (λ u c'. Midway xs c')
  unfolding remove_program
  remove_program-Midway x xs c at_x m =
      let there : is_some (c0.programs x) ≡ true =
        ground (arith, at_x, contains-difference x present names, contains-present x) in
      let (o, at) = IsStoredAt-spec_of x items stored (ground (arith, listed x, there)) in
      runs-deref Faulty view (stored_at x items) o (λ p. try (k8s.delete_program p)) c
        (λ u c'. Midway xs c') at.found
        (runs-try Faulty view (k8s.delete_program o) (λ d. is_some (d.programs o.name) ≡ true)
          (λ d a d'. d' ≡ record d { programs = assign o.name none d.programs }) c
          (λ u c'. Midway xs c') (laws.delete_program o)
          (inr (rw (at.named, Midway-first x xs c m) there))
          (λ a c' wrote.
            rw (wrote, at.named)
              (Midway-assign x xs c none (ground (arith, at_x, contains-difference x present names))
                m)))

  -- desiredPrograms has every queried program that is not pending
  abbrev Fetched : List String → List (String × Object P4ProgramSpec) → Type 0
  Fetched pending found =
      (n : String)
      → contains n names ≡ true
      → contains n pending ≡ false
      → (is : List String) × (lookup n found ≡ some (build_p4_program_cr n is))
        × ((network addr).interfaces n ≡ some is)

  Fetched-insert :
      (x : String) (xs : List String) (found : List (String × Object P4ProgramSpec))
      (is : List String)
      → (network addr).interfaces x ≡ some is
      → Fetched (x ∷ xs) found
      → Fetched xs (insert x (build_p4_program_cr x is) found)
  Fetched-insert x xs found is known fetched n named done_n = elim (Bool-cases (x == n)) [
    | inl same ↦
        let e : x ≡ n = ground (arith, same, String_eq.same_iff x n) in
        subst
          (λ y.
            (js : List String) × (lookup y (insert x (build_p4_program_cr x is) found)
              ≡ some (build_p4_program_cr y js))
            × ((network addr).interfaces y ≡ some js))
          e
          (
            is,
            ground
                (arith, lookup-insert x x (build_p4_program_cr x is) found, String_eq.same_iff x x),
            known,
          )
    | inr other ↦
        let (js, at, known_n) = fetched n named (ground (arith, other, done_n)) in
        (js, ground (arith, lookup-insert x n (build_p4_program_cr x is) found, other, at), known_n)
  ]

  fetch_program-Fetched :
      (x : String) (xs : List String) (found : List (String × Object P4ProgramSpec)) (c : Cluster)
      → Faulty ⊎ (is_some ((network addr).interfaces x) ≡ true)
      → Midway (to_check ++ to_add) c × Fetched (x ∷ xs) found
      → Runs Faulty view
          (fetch_program k8s sdn addr x found)
          c
          (λ found' c'. Midway (to_check ++ to_add) c' × Fetched xs found')
  unfolding fetch_program
  fetch_program-Fetched x xs found c known (m, fetched) =
      let Answer : List String → Cluster → Type 0 =
        λ is c'. Midway (to_check ++ to_add) c' × ((network addr).interfaces x ≡ some is) in
      let Q : List (String × Object P4ProgramSpec) → Cluster → Type 0 =
        λ found' c'. Midway (to_check ++ to_add) c' × Fetched xs found' in
      let next : List String → List (String × Object P4ProgramSpec) =
        λ is. insert x (build_p4_program_cr x is) found in
      let query : Run W (List String) =
        call_or (sdn.get_program_details addr x) (λ e. refused k8s sdn (is_not_found e)) in
      runs-bind Faulty view query (λ is. return (next is)) c Answer Q
        (runs-call_or Faulty view (sdn.get_program_details addr x)
          (λ d. is_some ((network addr).interfaces x) ≡ true)
          (λ d is d'. (d' ≡ d) × ((network addr).interfaces x ≡ some is)) c Answer
          (λ e. refused k8s sdn (is_not_found e)) (laws.get_program_details addr x) known
          (λ is c' (same, at). rw same (m, at))
          (λ e c' fault. refused-Runs Faulty view k8s sdn (is_not_found e) c' Answer fault))
        (λ is c' (m', at).
          runs-return Faulty view (next is) c' Q (m', Fetched-insert x xs found is at fetched))

  Midway-swap :
      (c : Cluster) → IsUnique names → Midway (to_check ++ to_add) c → Midway (to_add ++ to_check) c
  Midway-swap c names-IsUnique m = record {
    shim_kept = m.shim_kept;
    topology_kept = m.topology_kept;
    switches_kept = m.switches_kept;
    distinct =
        IsUnique-append to_add to_check (IsUnique-difference names present names-IsUnique)
          (IsUnique-intersect names present names-IsUnique)
          (λ n h.
            ground
              (arith, h, contains-intersect n names present, contains-difference n names present));
    swept = λ n.
        ground
          (arith, m.swept n, contains-append n to_check to_add, contains-append n to_add to_check);
  }

  target_new :
      (x : String) (is : List String)
      → contains x names ≡ true
      → c0.programs x ≡ none
      → (network addr).interfaces x ≡ some is
      → target x ≡ some (spec_from is)
  target_new x is named absent known = rw (named, known, absent) refl

  target_kept :
      (x : String) (is : List String) (spec : P4ProgramSpec)
      → contains x names ≡ true
      → c0.programs x ≡ some spec
      → (network addr).interfaces x ≡ some is
      → slices_equal spec.implemented_interfaces is ≡ true
      → target x ≡ c0.programs x
  target_kept x is spec named there known same = rw (named, known, there, same) refl

  target_changed :
      (x : String) (is : List String) (spec : P4ProgramSpec)
      → contains x names ≡ true
      → c0.programs x ≡ some spec
      → (network addr).interfaces x ≡ some is
      → slices_equal spec.implemented_interfaces is ≡ false
      → target x ≡ some (spec_from is)
  target_changed x is spec named there known differ = rw (named, known, there, differ) refl

  add_program-Midway :
      (found : List (String × Object P4ProgramSpec)) (x : String) (ps : List String) (c : Cluster)
      → contains x to_add ≡ true
      → Fetched [] found
      → Midway (x ∷ ps) c
      → Runs Faulty view (add_program k8s sdn found x tt) c (λ u c'. Midway ps c')
  unfolding add_program build_p4_program_cr
  add_program-Midway found x ps c at_x fetched m =
      let named : contains x names ≡ true =
        ground (arith, at_x, contains-difference x names present) in
      let absent : c0.programs x ≡ none = ground (
        arith,
        at_x,
        contains-difference x names present,
        contains-present x,
        Option-cases (c0.programs x),
      ) in
      let (is, at, known) = fetched x named refl in
      let o : Object P4ProgramSpec = build_p4_program_cr x is in
      runs-deref Faulty view (lookup x found) o
        (λ p. try (k8s.set_controller_reference x) >> try (k8s.create_program p)) c
        (λ u c'. Midway ps c') at
        (runs-bind Faulty view (try (k8s.set_controller_reference x))
          (λ u. try (k8s.create_program o)) c (λ u c'. c' ≡ c) (λ u c'. Midway ps c')
          (runs-try Faulty view (k8s.set_controller_reference x) Always (λ e a e'. e' ≡ e) c
            (λ u c'. c' ≡ c) (laws.set_controller_reference x) (inr tt) (λ a c' same. same))
          (λ u c1 same. rw same (
            runs-try Faulty view (k8s.create_program o) (λ e. e.programs x ≡ none)
              (λ e a e'. e' ≡ record e { programs = assign x (some (spec_from is)) e.programs }) c
              (λ u c'. Midway ps c') (laws.create_program o) (inr (Midway-first x ps c m ∙ absent))
              (λ a c' wrote. rw wrote (
                Midway-assign x ps c (some (spec_from is)) (target_new x is named absent known)
                  m)))))

  -- a stored program has the interfaces that the SDN controller knows it by
  abbrev Agree : Type 0
  Agree =
      (p : String) (spec : P4ProgramSpec) (is : List String)
      → c0.programs p ≡ some spec
      → (network addr).interfaces p ≡ some is
      → slices_equal spec.implemented_interfaces is ≡ true

  check_program-Midway :
      (found : List (String × Object P4ProgramSpec)) (x : String) (ps : List String) (c : Cluster)
      → Faulty ⊎ Agree
      → contains x to_check ≡ true
      → Fetched [] found
      → Midway (x ∷ ps) c
      → Runs Faulty view (check_program k8s sdn items found x tt) c (λ u c'. Midway ps c')
  unfolding check_program build_p4_program_cr
  check_program-Midway found x ps c agree at_x fetched m =
      let Q : Unit {0} → Cluster → Type 0 = λ u c'. Midway ps c' in
      let named : contains x names ≡ true =
        ground (arith, at_x, contains-intersect x names present) in
      let there : is_some (c0.programs x) ≡ true =
        ground (arith, at_x, contains-intersect x names present, contains-present x) in
      let (o, at) = IsStoredAt-spec_of x items stored (ground (arith, listed x, there)) in
      let first_is : c0.programs x ≡ some o.spec = sym (listed x) ∙ at.spec_is in
      let (is, at_found, known) = fetched x named refl in
      let d : Object P4ProgramSpec = build_p4_program_cr x is in
      let keep_or_write : Object P4ProgramSpec → Object P4ProgramSpec → Run W (Unit {0}) =
        λ current desired.
          if slices_equal current.spec.implemented_interfaces desired.spec.implemented_interfaces
          then return tt
          else try (k8s.update_program desired) in
      runs-deref Faulty view (stored_at x items) o
        (λ current. deref (lookup x found) >>= keep_or_write current) c Q at.found
        (runs-deref Faulty view (lookup x found) d (keep_or_write o) c Q at_found (
          runs-if Faulty view (slices_equal o.spec.implemented_interfaces is) (return tt)
            (try (k8s.update_program d)) c Q
            (λ same.
              runs-return Faulty view tt c Q
                (Midway-keep x ps c (target_kept x is o.spec named first_is known same) m))
            (λ differ.
              runs-try Faulty view (k8s.update_program d)
                (λ e. (is_some (e.programs x) ≡ true) × (is_some d.resource_version ≡ true))
                (λ e a e'. e' ≡ record e { programs = assign x (some (spec_from is)) e.programs }) c
                Q (laws.update_program d)
                (elim agree [
                  | inl fault ↦ inl fault
                  | inr same ↦ absurd (ground (arith, differ, same x o.spec is first_is known))
                ])
                (λ a c' wrote. rw wrote (
                  Midway-assign x ps c (some (spec_from is))
                    (target_changed x is o.spec named first_is known differ) m)))))
