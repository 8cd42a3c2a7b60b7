-- ===== src/Shim/Reconcile/Switches/Loops.antt =====
-- The loops over the switches.
use k8s_inc.Prelude.{
  String, ◌≡◌, refl, sym, ap, ◌∙◌, ◌⊎◌, inl, inr, true, ◌||◌, List, [], ◌∷◌, ◌++◌, arith,
  Option-cases, ℕ_eq, String_eq, contains, is_some,
}
use k8s_inc.Prelude.Maps.{lookup}
use k8s_inc.Controller.Mapping.{SwitchDetails}
use k8s_inc.Shim.Topology.{NetworkDevice}
use k8s_inc.Shim.Api.{
  IncSwitchSpec, Object, Kubernetes, Sdn, Cluster, Network, Always, spec_of, AreStored, Laws,
}
use k8s_inc.Shim.Sets.{
  set_of, difference, intersect, IsUnique, contains-set_of, contains-difference, contains-intersect,
  IsUnique-set_of, IsUnique-add, IsUnique-all_names, Swept-all_names, contains-both,
  contains-queried,
}
use k8s_inc.Shim.Run.{Run, ◌>>=◌, call_or, try, for_each}
use k8s_inc.Shim.Run.Rules.{Runs, runs-bind, runs-weaken, runs-call_or, runs-try, runs-for_each_in}
use k8s_inc.Shim.Reconcile.{
  names_of, switch_names, remove_switch, check_switch, add_switch, sync_switches,
  sync_listed_switches, refused, is_not_found, is_invalid_argument,
}
use k8s_inc.Shim.Reconcile.Refusals.{refused-Runs}
use k8s_inc.Shim.Reconcile.Stored.{contains-names_of, installed-same}
use k8s_inc.Shim.Reconcile.Switches.{
  Midway, Counted, remove_switch-Midway, check_against-Midway, add_with-Midway, SwitchesSynced,
  switches_after,
}

module _ {Faulty : Type 0} {W : Type 0} {view : W → Cluster} {network : String → Network}
    (k8s : Kubernetes W) (sdn : Sdn W) (laws : Laws Faulty W view network k8s sdn) (addr : String)
    (names : List String) (c0 : Cluster) (items : List (Object IncSwitchSpec))
    (stored : AreStored items) (listed : (n : String) → spec_of n items ≡ c0.switches n) where
  abbrev to_remove : List String
  to_remove = difference (set_of (names_of items)) names

  abbrev to_check : List String
  to_check = intersect names (set_of (names_of items))

  abbrev to_add : List String
  to_add = difference names (set_of (names_of items))

  contains-present : (n : String) → contains n (set_of (names_of items)) ≡ is_some (c0.switches n)
  contains-present n =
      contains-set_of n (names_of items) ∙ contains-names_of n items ∙ ap is_some (listed n)

  Midway-start :
      IsUnique names
      → Midway k8s sdn laws addr names c0 items stored listed (to_remove ++ (to_check ++ to_add)) c0
  Midway-start names-IsUnique = record {
    shim_kept = refl;
    topology_kept = refl;
    programs_kept = refl;
    distinct =
        IsUnique-all_names (set_of (names_of items)) names (IsUnique-set_of (names_of items))
          names-IsUnique;
    swept =
        Swept-all_names (switches_after (network addr) names c0.switches) c0.switches
          (set_of (names_of items)) names contains-present (λ n out. ground (arith, out));
  }

  remove-Midway :
      Midway k8s sdn laws addr names c0 items stored listed (to_remove ++ (to_check ++ to_add)) c0
      → Runs Faulty view
          (for_each to_remove tt (remove_switch k8s sdn items))
          c0
          (λ u c. Midway k8s sdn laws addr names c0 items stored listed (to_check ++ to_add) c)
  remove-Midway m =
      runs-for_each_in Faulty view (remove_switch k8s sdn items)
        (λ xs u c.
          Midway k8s sdn laws addr names c0 items stored listed (xs ++ (to_check ++ to_add)) c)
        to_remove
        (λ x xs u c at m'.
          remove_switch-Midway k8s sdn laws addr names c0 items stored listed x
            (xs ++ (to_check ++ to_add)) c
            (ground (
              arith,
              at,
              contains-difference x (set_of (names_of items)) names,
              contains-present x,
            ))
            (ground (arith, at, contains-difference x (set_of (names_of items)) names)) m')
        to_remove (λ n h. h) tt c0 m

  check-Midway :
      (details_of : List (String × SwitchDetails)) (c : Cluster)
      → ((n : String) → contains n to_check ≡ true → lookup n details_of ≡ (network addr).details n)
      → Midway k8s sdn laws addr names c0 items stored listed (to_check ++ to_add) c
      → Runs Faulty view (for_each to_check [] (check_switch k8s sdn items details_of)) c (λ b c'.
        Midway k8s sdn laws addr names c0 items stored listed to_add c'
        × Counted k8s sdn laws addr names c0 items stored listed (to_check ++ to_add) b to_add)
  unfolding check_switch
  check-Midway details_of c answered m =
      runs-for_each_in Faulty view (check_switch k8s sdn items details_of)
        (λ xs b c'.
          Midway k8s sdn laws addr names c0 items stored listed (xs ++ to_add) c'
          × Counted k8s sdn laws addr names c0 items stored listed (to_check ++ to_add) b
              (xs ++ to_add))
        to_check
        (λ x xs b c' at (m', counted).
          check_against-Midway k8s sdn laws addr names c0 items stored listed (to_check ++ to_add) x
            (xs ++ to_add) b c'
            (ground
              (arith, at, contains-intersect x names (set_of (names_of items)), contains-present x))
            (ground (arith, at, contains-intersect x names (set_of (names_of items)))) m' counted
            (lookup x details_of) (sym (answered x at)))
        to_check (λ n h. h) [] c (m, (tt, (λ p. refl)))

  add-Midway :
      (details_of : List (String × SwitchDetails)) (b : List String) (c : Cluster)
      → ((n : String) → contains n to_add ≡ true → lookup n details_of ≡ (network addr).details n)
      → Midway k8s sdn laws addr names c0 items stored listed to_add c
        × Counted k8s sdn laws addr names c0 items stored listed (to_check ++ to_add) b to_add
      → Runs Faulty view (for_each to_add b (add_switch k8s sdn details_of)) c (λ b' c'.
        Midway k8s sdn laws addr names c0 items stored listed [] c'
        × Counted k8s sdn laws addr names c0 items stored listed (to_check ++ to_add) b' [])
  unfolding add_switch
  add-Midway details_of b c answered start =
      runs-for_each_in Faulty view (add_switch k8s sdn details_of)
        (λ xs b c'.
          Midway k8s sdn laws addr names c0 items stored listed xs c'
          × Counted k8s sdn laws addr names c0 items stored listed (to_check ++ to_add) b xs)
        to_add
        (λ x xs b c' at (m', counted).
          add_with-Midway k8s sdn laws addr names c0 items stored listed (to_check ++ to_add) x xs b
            c'
            (ground (
              arith,
              at,
              contains-difference x names (set_of (names_of items)),
              contains-present x,
              Option-cases (c0.switches x),
            ))
            (ground (arith, at, contains-difference x names (set_of (names_of items)))) m' counted
            (lookup x details_of) (sym (answered x at)))
        to_add (λ n h. h) b c start

  abbrev Answers : List (String × SwitchDetails) → Cluster → Type 0
  Answers details_of c =
      Midway k8s sdn laws addr names c0 items stored listed (to_check ++ to_add) c
      × ((n : String) → contains n names ≡ true → lookup n details_of ≡ (network addr).details n)

  query-Runs :
      (c : Cluster)
      → Faulty
        ⊎ ((n : String) → contains n names ≡ true → is_some ((network addr).details n) ≡ true)
      → Midway k8s sdn laws addr names c0 items stored listed (to_check ++ to_add) c
      → Runs Faulty view
          (call_or
            (sdn.get_switch_details addr (set_of (to_add ++ to_check)))
            (λ e. refused k8s sdn (is_not_found e || is_invalid_argument e)))
          c
          Answers
  query-Runs c known m =
      runs-call_or Faulty view (sdn.get_switch_details addr (set_of (to_add ++ to_check)))
        (λ d.
          (n : String)
          → contains n (set_of (to_add ++ to_check)) ≡ true
          → is_some ((network addr).details n) ≡ true)
        (λ d ds d'.
          (d' ≡ d)
          × ((n : String)
              → contains n (set_of (to_add ++ to_check)) ≡ true
              → lookup n ds ≡ (network addr).details n))
        c Answers (λ e. refused k8s sdn (is_not_found e || is_invalid_argument e))
        (laws.get_switch_details addr (set_of (to_add ++ to_check)))
        (elim known [
          | inl fault ↦ inl fault
          | inr all ↦
              inr (λ n h. all n (sym (contains-queried n (set_of (names_of items)) names) ∙ h))
        ])
        (λ ds c' (same, answered).
          rw same (m, (λ n h. answered n (contains-queried n (set_of (names_of items)) names ∙ h))))
        (λ e c' fault.
          refused-Runs Faulty view k8s sdn (is_not_found e || is_invalid_argument e) c' Answers
            fault)

  synced :
      (b : List String) (c : Cluster)
      → Midway k8s sdn laws addr names c0 items stored listed [] c
        × Counted k8s sdn laws addr names c0 items stored listed (to_check ++ to_add) b []
      → SwitchesSynced (network addr) names c0 b c
  synced b c (m, counted) = record {
    shim_kept = m.shim_kept;
    topology_kept = m.topology_kept;
    programs_kept = m.programs_kept;
    switches_are = m.swept;
    programs_distinct = counted.0;
    programs_are = λ p.
        ground (arith, counted.1 p)
        ∙ installed-same (network addr) (to_check ++ to_add) names
            (λ n. contains-both n (set_of (names_of items)) names) p;
  }

  pub sync_listed_switches-synced :
      IsUnique names
      → Faulty
        ⊎ ((n : String) → contains n names ≡ true → is_some ((network addr).details n) ≡ true)
      → Runs Faulty view
          (sync_listed_switches k8s sdn addr names items)
          c0
          (SwitchesSynced (network addr) names c0)
  unfolding sync_listed_switches
  sync_listed_switches-synced names-IsUnique known =
      let checks : List (String × SwitchDetails) → Run W (List String) =
        λ ds. for_each to_check [] (check_switch k8s sdn items ds) in
      let adds : List (String × SwitchDetails) → List String → Run W (List String) =
        λ ds b. for_each to_add b (add_switch k8s sdn ds) in
      let query : Run W (List (String × SwitchDetails)) =
        call_or (sdn.get_switch_details addr (set_of (to_add ++ to_check)))
          (λ e. refused k8s sdn (is_not_found e || is_invalid_argument e)) in
      runs-bind Faulty view (for_each to_remove tt (remove_switch k8s sdn items))
        (λ u. query >>= (λ ds. checks ds >>= adds ds)) c0
        (λ u c. Midway k8s sdn laws addr names c0 items stored listed (to_check ++ to_add) c)
        (SwitchesSynced (network addr) names c0) (remove-Midway (Midway-start names-IsUnique))
        (λ u c1 m1.
          runs-bind Faulty view query (λ ds. checks ds >>= adds ds) c1 Answers
            (SwitchesSynced (network addr) names c0) (query-Runs c1 known m1)
            (λ ds c2 (m2, answered).
              runs-bind Faulty view (checks ds) (adds ds) c2
                (λ b c.
                  Midway k8s sdn laws addr names c0 items stored listed to_add c
                  × Counted k8s sdn laws addr names c0 items stored listed (to_check ++ to_add) b
                      to_add)
                (SwitchesSynced (network addr) names c0)
                (check-Midway ds c2
                  (λ n h.
                    answered n
                      (ground (arith, h, contains-intersect n names (set_of (names_of items)))))
                  m2)
                (λ b c3 m3.
                  runs-weaken Faulty view (adds ds b) c3
                    (λ b c.
                      Midway k8s sdn laws addr names c0 items stored listed [] c
                      × Counted k8s sdn laws addr names c0 items stored listed (to_check ++ to_add)
                          b [])
                    (SwitchesSynced (network addr) names c0)
                    (add-Midway ds b c3
                      (λ n h.
                        answered n (
                          ground (arith, h, contains-difference n names (set_of (names_of items)))))
                      m3)
                    synced)))

module _ {Faulty : Type 0} {W : Type 0} {view : W → Cluster} {network : String → Network}
    (k8s : Kubernetes W) (sdn : Sdn W) (laws : Laws Faulty W view network k8s sdn)
    (addr : String) where
  switch_names-IsUnique : (graph : List NetworkDevice) → IsUnique (switch_names graph)
  switch_names-IsUnique [] = tt
  switch_names-IsUnique (dev ∷ devs) = ground (
    arith,
    switch_names-IsUnique devs,
    IsUnique-add dev.name (switch_names devs) (switch_names-IsUnique devs),
  )

  pub sync_switches-synced :
      (graph : List NetworkDevice) (c0 : Cluster)
      → Faulty
        ⊎ ((n : String)
            → contains n (switch_names graph) ≡ true
            → is_some ((network addr).details n) ≡ true)
      → Runs Faulty view
          (sync_switches k8s sdn addr graph)
          c0
          (SwitchesSynced (network addr) (switch_names graph) c0)
  unfolding sync_switches
  sync_switches-synced graph c0 known =
      let Q : List String → Cluster → Type 0 =
        SwitchesSynced (network addr) (switch_names graph) c0 in
      let Listed : List (Object IncSwitchSpec) → Cluster → Type 0 =
        λ os c. (c ≡ c0) × AreStored os × ((n : String) → spec_of n os ≡ c0.switches n) in
      runs-bind Faulty view (try k8s.list_switches)
        (sync_listed_switches k8s sdn addr (switch_names graph)) c0 Listed Q
        (runs-try Faulty view k8s.list_switches Always
          (λ c os c'. (c' ≡ c) × AreStored os × ((n : String) → spec_of n os ≡ c.switches n)) c0
          Listed laws.list_switches (inr tt) (λ os c' l. l))
        (λ os c1 (same, stored, listed). rw same (
          sync_listed_switches-synced k8s sdn laws addr (switch_names graph) c0 os stored listed
            (switch_names-IsUnique graph) known))
