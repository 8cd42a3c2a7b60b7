-- ===== src/Shim/Reconcile/Programs/Loops.antt =====
-- The loops over the programs.
use k8s_inc.Prelude.{
  String, ◌≡◌, refl, sym, ◌∙◌, ◌⊎◌, inl, inr, true, some, List, [], ◌++◌, arith, ℕ_eq, String_eq,
  contains, is_some,
}
use k8s_inc.Shim.Api.{
  P4ProgramSpec, Object, Kubernetes, Sdn, Cluster, Network, Always, spec_of, AreStored, Laws,
}
use k8s_inc.Shim.Sets.{set_of, difference, intersect, IsUnique, contains-queried}
use k8s_inc.Shim.Run.{Run, ◌>>=◌, ◌>>◌, try, for_each}
use k8s_inc.Shim.Run.Rules.{Runs, runs-bind, runs-weaken, runs-try, runs-for_each_in}
use k8s_inc.Shim.Reconcile.{
  names_of, slices_equal, remove_program, fetch_program, add_program, check_program,
  sync_listed_programs, sync_programs,
}
use k8s_inc.Shim.Reconcile.Programs.{
  Midway, Midway-start, Midway-swap, Fetched, remove_program-Midway, fetch_program-Fetched,
  add_program-Midway, check_program-Midway, Agree, ProgramsSynced,
}

module _ {Faulty : Type 0} {W : Type 0} {view : W → Cluster} {network : String → Network}
    (k8s : Kubernetes W) (sdn : Sdn W) (laws : Laws Faulty W view network k8s sdn) (addr : String)
    (names : List String) (c0 : Cluster) (items : List (Object P4ProgramSpec))
    (stored : AreStored items) (listed : (n : String) → spec_of n items ≡ c0.programs n) where
  abbrev present : List String
  present = set_of (names_of items)

  abbrev to_remove : List String
  to_remove = difference present names

  abbrev to_check : List String
  to_check = intersect names present

  abbrev to_add : List String
  to_add = difference names present

  abbrev queried : List String
  queried = set_of (to_add ++ to_check)

  pub sync_listed_programs-synced :
      IsUnique names
      → Faulty
        ⊎ ((n : String) → contains n names ≡ true → is_some ((network addr).interfaces n) ≡ true)
      → Faulty ⊎ Agree k8s sdn laws addr names c0 items stored listed
      → Runs Faulty view
          (sync_listed_programs k8s sdn addr names items)
          c0
          (λ u c. ProgramsSynced (network addr) names c0 c)
  unfolding sync_listed_programs
  sync_listed_programs-synced names-IsUnique known agree =
      let Found : Type 0 = List (String × Object P4ProgramSpec) in
      let Q : Unit {0} → Cluster → Type 0 = λ u c. ProgramsSynced (network addr) names c0 c in
      let Ready : Found → Cluster → Type 0 = λ found c.
        Midway k8s sdn laws addr names c0 items stored listed (to_check ++ to_add) c
        × Fetched k8s sdn laws addr names c0 items stored listed [] found in
      let fetches : Run W Found = for_each queried [] (fetch_program k8s sdn addr) in
      let adds : Found → Run W (Unit {0}) =
        λ found. for_each to_add tt (add_program k8s sdn found) in
      let checks : Found → Run W (Unit {0}) =
        λ found. for_each to_check tt (check_program k8s sdn items found) in
      runs-bind Faulty view (for_each to_remove tt (remove_program k8s sdn items))
        (λ u. fetches >>= (λ found. adds found >> checks found)) c0
        (λ u c. Midway k8s sdn laws addr names c0 items stored listed (to_check ++ to_add) c) Q
        (runs-for_each_in Faulty view (remove_program k8s sdn items)
          (λ xs u c.
            Midway k8s sdn laws addr names c0 items stored listed (xs ++ (to_check ++ to_add)) c)
          to_remove
          (λ x xs u c at m.
            remove_program-Midway k8s sdn laws addr names c0 items stored listed x
              (xs ++ (to_check ++ to_add)) c at m)
          to_remove (λ n h. h) tt c0
          (Midway-start k8s sdn laws addr names c0 items stored listed names-IsUnique))
        (λ u c1 m1.
          runs-bind Faulty view fetches (λ found. adds found >> checks found) c1 Ready Q
            (runs-for_each_in Faulty view (fetch_program k8s sdn addr)
              (λ xs found c.
                Midway k8s sdn laws addr names c0 items stored listed (to_check ++ to_add) c
                × Fetched k8s sdn laws addr names c0 items stored listed xs found)
              queried
              (λ x xs found c at i.
                fetch_program-Fetched k8s sdn laws addr names c0 items stored listed x xs found c
                  (elim known [
                    | inl fault ↦ inl fault
                    | inr all ↦ inr (all x (sym (contains-queried x present names) ∙ at))
                  ])
                  i)
              queried (λ n h. h) [] c1
              (
                m1,
                (λ n named out.
                    absurd (ground (arith, named, out, contains-queried n present names))),
              ))
            (λ found c2 (m2, fetched).
              runs-bind Faulty view (adds found) (λ u. checks found) c2
                (λ u c. Midway k8s sdn laws addr names c0 items stored listed to_check c) Q
                (runs-for_each_in Faulty view (add_program k8s sdn found)
                  (λ xs u c.
                    Midway k8s sdn laws addr names c0 items stored listed (xs ++ to_check) c)
                  to_add
                  (λ x xs u c at m.
                    add_program-Midway k8s sdn laws addr names c0 items stored listed found x
                      (xs ++ to_check) c at fetched m)
                  to_add (λ n h. h) tt c2
                  (Midway-swap k8s sdn laws addr names c0 items stored listed c2 names-IsUnique m2))
                (λ u c3 m3.
                  runs-weaken Faulty view (checks found) c3
                    (λ u c. Midway k8s sdn laws addr names c0 items stored listed [] c) Q
                    (runs-for_each_in Faulty view (check_program k8s sdn items found)
                      (λ xs u c. Midway k8s sdn laws addr names c0 items stored listed xs c)
                      to_check
                      (λ x xs u c at m.
                        check_program-Midway k8s sdn laws addr names c0 items stored listed found x
                          xs c agree at fetched m)
                      to_check (λ n h. h) tt c3 m3)
                    (λ u c4 m. record {
                      shim_kept = m.shim_kept;
                      topology_kept = m.topology_kept;
                      switches_kept = m.switches_kept;
                      programs_are = m.swept;
                      fetched = λ p named.
                          (let (is, at, is_known) = fetched p named refl in
                            ground (arith, is_known));
                    }))))

module _ {Faulty : Type 0} {W : Type 0} {view : W → Cluster} {network : String → Network}
    (k8s : Kubernetes W) (sdn : Sdn W) (laws : Laws Faulty W view network k8s sdn)
    (addr : String) where
  pub sync_programs-synced :
      (names : List String) (c0 : Cluster)
      → IsUnique names
      → Faulty
        ⊎ ((n : String) → contains n names ≡ true → is_some ((network addr).interfaces n) ≡ true)
      → Faulty
        ⊎ ((p : String) (spec : P4ProgramSpec) (is : List String)
            → c0.programs p ≡ some spec
            → (network addr).interfaces p ≡ some is
            → slices_equal spec.implemented_interfaces is ≡ true)
      → Runs Faulty view
          (sync_programs k8s sdn addr names)
          c0
          (λ u c. ProgramsSynced (network addr) names c0 c)
  unfolding sync_programs
  sync_programs-synced names c0 names-IsUnique known agree =
      let Q : Unit {0} → Cluster → Type 0 = λ u c. ProgramsSynced (network addr) names c0 c in
      let Listed : List (Object P4ProgramSpec) → Cluster → Type 0 =
        λ os c. (c ≡ c0) × AreStored os × ((n : String) → spec_of n os ≡ c0.programs n) in
      runs-bind Faulty view (try k8s.list_programs) (sync_listed_programs k8s sdn addr names) c0
        Listed Q
        (runs-try Faulty view k8s.list_programs Always
          (λ c os c'. (c' ≡ c) × AreStored os × ((n : String) → spec_of n os ≡ c.programs n)) c0
          Listed laws.list_programs (inr tt) (λ os c' l. l))
        (λ os c1 (same, stored, listed). rw same (
          sync_listed_programs-synced k8s sdn laws addr names c0 os stored listed names-IsUnique
            known agree))
