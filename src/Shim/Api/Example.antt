-- ===== src/Shim/Api/Example.antt =====
-- A cluster and an SDN controller that satisfy what the reconciler relies on: the cluster stores
-- its objects in lists, and no call fails without a reason.
use k8s_inc.Prelude.{
  String, ◌≡◌, refl, ap, ◌∙◌, ◌⊎◌, inl, inr, true, Option, none, some, List, [], ◌∷◌, arith,
  if◌then◌else◌, Bool-cases, ◌==◌, ℕ_eq, String_eq, contains, is_some,
}
use k8s_inc.Prelude.Maps.{
  lookup, insert, erase, IsMap, lookup-insert, lookup-erase, IsMap-insert, IsMap-erase,
}
use k8s_inc.Controller.Mapping.{SwitchDetails}
use k8s_inc.Shim.Topology.{NetworkDevice}
use k8s_inc.Shim.Api.{
  IncSwitchSpec, P4ProgramSpec, Object, SdnShim, not_found, Call, Kubernetes, Sdn, Cluster, Network,
  assign, spec_of, AreStored, Answered, Laws,
}

pub record World : Type 0 where
  pub shim : Option SdnShim
  pub topology : Option (List NetworkDevice)
  pub switches : List (String × IncSwitchSpec)
  pub switches_map : IsMap switches
  pub programs : List (String × P4ProgramSpec)
  pub programs_map : IsMap programs

abbrev pub view : World → Cluster
view w = record {
  shim = w.shim;
  topology = w.topology;
  switches = λ n. lookup n w.switches;
  programs = λ n. lookup n w.programs;
}

abbrev objects : {S : Type 0} → List (String × S) → List (Object S)
objects [] = []
objects ((name, spec) ∷ rows) =
    (record { name = name; resource_version = some "1"; spec = spec }) ∷ objects rows

spec_of-objects :
    {S : Type 0} (name : String) (rows : List (String × S))
    → spec_of name (objects rows) ≡ lookup name rows
unfolding lookup
spec_of-objects name [] = refl
spec_of-objects name ((k, v) ∷ rows) =
    ground (arith, spec_of-objects name rows, String_eq.same_iff k name)

objects-AreStored : {S : Type 0} (rows : List (String × S)) → IsMap rows → AreStored (objects rows)
objects-AreStored [] u = tt
objects-AreStored ((k, v) ∷ rows) u =
    (refl, rw (spec_of-objects k rows) u.0, objects-AreStored rows u.1)

abbrev asked : {A : Type 0} → Option A → Call World A
asked none w = (inl not_found, w)
asked (some a) w = (inr a, w)

abbrev pub k8s : Kubernetes World
k8s = record {
  get_shim = λ w. asked w.shim w;
  update_shim_status = λ s w. (inr tt, record w { shim = some s });
  set_status_condition = λ conditions condition. condition ∷ conditions;
  set_controller_reference = λ name w. (inr tt, w);
  get_topology = λ w. asked w.topology w;
  create_topology = λ g w. (inr tt, record w { topology = some g });
  update_topology = λ g w. (inr tt, record w { topology = some g });
  list_switches = λ w. (inr (objects w.switches), w);
  create_switch = λ o w. (
    inr tt,
    record w {
      switches = insert o.name o.spec w.switches;
      switches_map = IsMap-insert o.name o.spec w.switches w.switches_map;
    },
  );
  update_switch = λ o w. (
    inr tt,
    record w {
      switches = insert o.name o.spec w.switches;
      switches_map = IsMap-insert o.name o.spec w.switches w.switches_map;
    },
  );
  delete_switch = λ o w. (
    inr tt,
    record w {
      switches = erase o.name w.switches;
      switches_map = IsMap-erase o.name w.switches w.switches_map;
    },
  );
  list_programs = λ w. (inr (objects w.programs), w);
  create_program = λ o w. (
    inr tt,
    record w {
      programs = insert o.name o.spec w.programs;
      programs_map = IsMap-insert o.name o.spec w.programs w.programs_map;
    },
  );
  update_program = λ o w. (
    inr tt,
    record w {
      programs = insert o.name o.spec w.programs;
      programs_map = IsMap-insert o.name o.spec w.programs w.programs_map;
    },
  );
  delete_program = λ o w. (
    inr tt,
    record w {
      programs = erase o.name w.programs;
      programs_map = IsMap-erase o.name w.programs w.programs_map;
    },
  );
}

lookup-assign :
    {S : Type 0} (k : String) (v : S) (rows : List (String × S))
    → (λ n. lookup n (insert k v rows)) ≡ assign k (some v) (λ n. lookup n rows)
lookup-assign k v rows = λ i n. lookup-insert k n v rows i

lookup-unassign :
    {S : Type 0} (k : String) (rows : List (String × S))
    → IsMap rows
    → (λ n. lookup n (erase k rows)) ≡ assign k none (λ n. lookup n rows)
lookup-unassign k rows u = λ i n. lookup-erase k n rows i

asked-Answered :
    {A : Type 0} (Faulty : Type 0) (f : Cluster → Option A) (o : Option A) (w : World)
    → f (view w) ≡ o
    → Answered Faulty view
        (λ c. is_some (f c) ≡ true)
        (λ c a c'. (c' ≡ c) × (f c ≡ some a))
        (view w)
        (asked o w)
asked-Answered Faulty f none w is = λ there. absurd (ground (arith, there, is))
asked-Answered Faulty f (some a) w is = (refl, is)

module _ (network : String → Network) where
  abbrev entry :
      String → Option SwitchDetails → List (String × SwitchDetails) → List (String × SwitchDetails)
  entry n none rest = rest
  entry n (some d) rest = (n, d) ∷ rest

  abbrev answers : Network → List String → List (String × SwitchDetails)
  answers net [] = []
  answers net (n ∷ ns) = entry n (net.details n) (answers net ns)

  lookup-entry :
      (m n : String) (o : Option SwitchDetails) (rest : List (String × SwitchDetails))
      → lookup n rest ≡ none ⊎ (lookup n rest ≡ o)
      → lookup m (entry n o rest) ≡ (if n == m then o else lookup m rest)
  unfolding lookup
  lookup-entry m n none rest known = ground (arith, known, String_eq.same_iff n m)
  lookup-entry m n (some d) rest known = ground (arith, String_eq.same_iff n m)

  lookup-answers :
      (net : Network) (m : String) (ns : List String)
      → lookup m (answers net ns) ≡ (if contains m ns then net.details m else none)
  unfolding lookup
  lookup-answers net m [] = refl
  lookup-answers net m (n ∷ ns) =
      let known : (lookup n (answers net ns) ≡ none) ⊎ (lookup n (answers net ns) ≡ net.details n) =
        elim (Bool-cases (contains n ns)) [
          | inl there ↦ inr (lookup-answers net n ns ∙ rw there refl)
          | inr gone ↦ inl (lookup-answers net n ns ∙ rw gone refl)
        ] in
      lookup-entry m n (net.details n) (answers net ns) known ∙ elim (Bool-cases (n == m)) [
        | inl same ↦ rw same (ap net.details (ground (arith, same, String_eq.same_iff n m)))
        | inr other ↦ rw other (lookup-answers net m ns)
      ]

  abbrev pub sdn : Sdn World
  sdn = record {
    dial = λ addr w. (inr tt, w);
    subscribe_network_changes = λ addr w. (inr tt, w);
    get_topology = λ addr w. (inr (network addr).graph, w);
    get_switch_details = λ addr names w. (inr (answers (network addr) names), w);
    get_program_details = λ addr name w. asked ((network addr).interfaces name) w;
  }

  pub example_laws :
      (Faulty : Type 0)
      → ((addr name : String) (d : SwitchDetails)
          → (network addr).details name ≡ some d
          → d.name ≡ name)
      → Laws Faulty World view network k8s sdn
  example_laws Faulty named = record {
    get_shim = λ w. asked-Answered Faulty (λ c. c.shim) w.shim w refl;
    update_shim_status = λ s w. refl;
    set_controller_reference = λ name w. refl;
    get_topology = λ w. asked-Answered Faulty (λ c. c.topology) w.topology w refl;
    create_topology = λ g w. refl;
    update_topology = λ g w. refl;
    list_switches = λ w.
        (refl, objects-AreStored w.switches w.switches_map, (λ n. spec_of-objects n w.switches));
    create_switch =
        λ o w. ap (λ f. record (view w) { switches = f }) (lookup-assign o.name o.spec w.switches);
    update_switch =
        λ o w. ap (λ f. record (view w) { switches = f }) (lookup-assign o.name o.spec w.switches);
    delete_switch = λ o w.
        ap (λ f. record (view w) { switches = f })
          (lookup-unassign o.name w.switches w.switches_map);
    list_programs = λ w.
        (refl, objects-AreStored w.programs w.programs_map, (λ n. spec_of-objects n w.programs));
    create_program =
        λ o w. ap (λ f. record (view w) { programs = f }) (lookup-assign o.name o.spec w.programs);
    update_program =
        λ o w. ap (λ f. record (view w) { programs = f }) (lookup-assign o.name o.spec w.programs);
    delete_program = λ o w.
        ap (λ f. record (view w) { programs = f })
          (lookup-unassign o.name w.programs w.programs_map);
    sdn_get_topology = λ addr w. (refl, refl);
    get_switch_details =
        λ addr names w. (refl, (λ n h. lookup-answers (network addr) n names ∙ rw h refl));
    details_named = named;
    get_program_details = λ addr name w.
        asked-Answered Faulty (λ c. (network addr).interfaces name) ((network addr).interfaces name)
          w refl;
  }
