-- ===== src/Shim/Reconcile/Network.antt =====
-- The resources behind a pass of Reconcile that finishes.
use k8s_inc.Prelude.{
  String, ◌≡◌, refl, sym, ap, ◌∙◌, subst, ◌⊎◌, inl, inr, true, false, Option, none, some, List, [],
  ◌∷◌, arith, if◌then◌else◌, Bool-cases, Option-cases, ℕ_eq, String_eq, contains, is_some,
}
use k8s_inc.Controller.Mapping.{ProtoDevice, SwitchDetails}
use k8s_inc.Shim.Topology.{NetworkDevice, build_cluster_topo_cr, topology_changed}
use k8s_inc.Shim.Topology.Changed.{topology_changed_iff}
use k8s_inc.Shim.Api.{
  P4ProgramSpec, SdnShim, ApiError, Kubernetes, Sdn, Cluster, Network, Always, Laws,
}
use k8s_inc.Shim.Run.{requeue, failed, Run, ◌>>=◌, ◌>>◌, return, stop, call_or, try}
use k8s_inc.Shim.Run.Rules.{
  Runs, runs-bind, runs-return, runs-stop, runs-if, runs-call_or, runs-try,
}
use k8s_inc.Shim.Reconcile.{
  switch_names, slices_equal, close_sdn_client, is_not_found, with_condition, network_reconciled,
  sync_topology, sync_switches, sync_programs, sync_network,
}
use k8s_inc.Shim.Reconcile.Refusals.{close-Runs}
use k8s_inc.Shim.Reconcile.Stored.{IsInstalled, installed-IsInstalled, IsInstalled-installed}
use k8s_inc.Shim.Reconcile.Switches.{SwitchesSynced}
use k8s_inc.Shim.Reconcile.Switches.Loops.{sync_switches-synced}
use k8s_inc.Shim.Reconcile.Programs.{ProgramsSynced, wanted}
use k8s_inc.Shim.Reconcile.Programs.Loops.{sync_programs-synced}

-- the INC switches of the SDN controller's topology
abbrev pub inc_switches : Network → List String
inc_switches net = switch_names (build_cluster_topo_cr net.graph)

-- The SDN controller knows each of its INC switches and each program on them, the topology is
-- stored, and the stored programs have the interfaces that the SDN controller knows them by.
pub record IsAnswerable (net : Network) (c : Cluster) : Type 0 where
  pub topology_stored : is_some c.topology ≡ true
  pub switches_known :
      (n : String) → contains n (inc_switches net) ≡ true → is_some (net.details n) ≡ true
  pub programs_known :
      (p : String) → IsInstalled net (inc_switches net) p → is_some (net.interfaces p) ≡ true
  pub programs_agree :
      (p : String) (spec : P4ProgramSpec) (is : List String)
      → c.programs p ≡ some spec
      → net.interfaces p ≡ some is
      → slices_equal spec.implemented_interfaces is ≡ true

-- The resources are those of the network: its topology, its INC switches with their architectures
-- and programs, and the programs on them with the interfaces that they implement.
pub record IsProjection (net : Network) (c : Cluster) : Type 0 where
  pub topology_is : c.topology ≡ some (build_cluster_topo_cr net.graph)
  pub switch_is :
      (n : String) (d : SwitchDetails)
      → contains n (inc_switches net) ≡ true
      → net.details n ≡ some d
      → c.switches n ≡ some (record { arch = d.arch; program_name = d.installed_program })
  pub no_other_switch : (n : String) → contains n (inc_switches net) ≡ false → c.switches n ≡ none
  pub program_is :
      (p : String)
      → IsInstalled net (inc_switches net) p
      → (spec : P4ProgramSpec) × (c.programs p ≡ some spec)
        × (net.interfaces p ≡ some spec.implemented_interfaces)
  pub no_other_program :
      (p : String) (spec : P4ProgramSpec)
      → c.programs p ≡ some spec
      → IsInstalled net (inc_switches net) p

slices_equal_iff : (xs ys : List String) → slices_equal xs ys ≡ true → xs ≡ ys
slices_equal_iff [] [] h = refl
slices_equal_iff [] (y ∷ ys) h = absurd (ground (arith, h))
slices_equal_iff (x ∷ xs) [] h = absurd (ground (arith, h))
slices_equal_iff (x ∷ xs) (y ∷ ys) h =
    ground (arith, h, String_eq.same_iff x y, slices_equal_iff xs ys)

-- a program that is wanted is stored with its interfaces
wanted-interfaces :
    (is : List String) (before : Option P4ProgramSpec)
    → (spec : P4ProgramSpec) × (wanted (some is) before ≡ some spec)
      × (is ≡ spec.implemented_interfaces)
wanted-interfaces is none = (record { artifacts = []; implemented_interfaces = is }, refl, refl)
wanted-interfaces is (some spec) = elim (Bool-cases (slices_equal spec.implemented_interfaces is)) [
  | inl same ↦ (spec, rw same refl, sym (slices_equal_iff spec.implemented_interfaces is same))
  | inr differ ↦ (record { artifacts = []; implemented_interfaces = is }, rw differ refl, refl)
]

-- What the three parts of a pass ensure makes the resources those of the network.
parts-IsProjection :
    (net : Network) (c1 c2 c3 : Cluster) (programs : List String)
    → c1.topology ≡ some (build_cluster_topo_cr net.graph)
    → SwitchesSynced net (inc_switches net) c1 programs c2
    → ProgramsSynced net programs c2 c3
    → IsProjection net c3
parts-IsProjection net c1 c2 c3 programs at sw pr = record {
  topology_is = pr.topology_kept ∙ sw.topology_kept ∙ at;
  switch_is = λ n d named known.
      ap (λ f. f n) pr.switches_kept ∙ sw.switches_are n ∙ rw (named, known) refl;
  no_other_switch = λ n out. ap (λ f. f n) pr.switches_kept ∙ sw.switches_are n ∙ rw out refl;
  program_is = λ p is_installed.
      (let named : contains p programs ≡ true =
          sw.programs_are p ∙ IsInstalled-installed net (inc_switches net) p is_installed in
        elim (Option-cases (net.interfaces p)) [
          | inl unknown ↦ absurd (ground (arith, pr.fetched p named, unknown))
          | inr (is, known) ↦
              let (spec, stored, same) = wanted-interfaces is (c2.programs p) in
              (spec, pr.programs_are p ∙ rw (named, known) stored, known ∙ ap some same)
        ]);
  no_other_program = λ p spec there. installed-IsInstalled net (inc_switches net) p (
      sym (sw.programs_are p) ∙ elim (Bool-cases (contains p programs)) [
        | inl named ↦ named
        | inr out ↦ absurd (ground (arith, pr.programs_are p, out, there))
      ]);
}

module _ {Faulty : Type 0} {W : Type 0} {view : W → Cluster} {network : String → Network}
    (k8s : Kubernetes W) (sdn : Sdn W) (laws : Laws Faulty W view network k8s sdn) (addr : String)
    (c0 : Cluster) where
  abbrev topo : List NetworkDevice
  topo = build_cluster_topo_cr (network addr).graph

  abbrev Stored : List NetworkDevice → Cluster → Type 0
  Stored graph c = (graph ≡ topo) × (c ≡ record c0 { topology = some topo })

  create_topology-Runs :
      {A : Type 0} (c : Cluster) (Q : A → Cluster → Type 0)
      → Faulty
      → Runs Faulty view
          (try (k8s.set_controller_reference "cluster-topo")
            >> (try (k8s.create_topology topo) >> stop requeue))
          c
          Q
  create_topology-Runs c Q fault =
      let Any : Unit {0} → Cluster → Type 0 = λ u c. Unit in
      runs-bind Faulty view (try (k8s.set_controller_reference "cluster-topo"))
        (λ u. try (k8s.create_topology topo) >> stop requeue) c Any Q
        (runs-try Faulty view (k8s.set_controller_reference "cluster-topo") Always
          (λ e a e'. e' ≡ e) c Any (laws.set_controller_reference "cluster-topo") (inl fault)
          (λ a c' same. tt))
        (λ u c1 t.
          runs-bind Faulty view (try (k8s.create_topology topo)) (λ u. stop requeue) c1 Any Q
            (runs-try Faulty view (k8s.create_topology topo) (λ e. e.topology ≡ none)
              (λ e a e'. e' ≡ record e { topology = some topo }) c1 Any (laws.create_topology topo)
              (inl fault) (λ a c' same. tt))
            (λ u c2 t. runs-stop Faulty view requeue c2 Q refl fault))

  store_topology : List NetworkDevice → Run W (List NetworkDevice)
  store_topology stored =
      if topology_changed stored topo
      then try (k8s.update_topology topo) >> return topo
      else return stored

  Stored-Runs :
      (stored : List NetworkDevice)
      → c0.topology ≡ some stored
      → Runs Faulty view (store_topology stored) c0 Stored
  unfolding store_topology
  Stored-Runs stored at =
      runs-if Faulty view (topology_changed stored topo)
        (try (k8s.update_topology topo) >> return topo) (return stored) c0 Stored
        (λ changed.
          runs-bind Faulty view (try (k8s.update_topology topo)) (λ u. return topo) c0
            (λ u c. c ≡ record c0 { topology = some topo }) Stored
            (runs-try Faulty view (k8s.update_topology topo) (λ e. is_some e.topology ≡ true)
              (λ e a e'. e' ≡ record e { topology = some topo }) c0
              (λ u c. c ≡ record c0 { topology = some topo }) (laws.update_topology topo)
              (inr (rw at refl)) (λ a c' wrote. wrote))
            (λ u c1 wrote. runs-return Faulty view topo c1 Stored (refl, wrote)))
        (λ same.
          let e : stored ≡ topo = (topology_changed_iff stored topo).0 same in
          runs-return Faulty view stored c0 Stored
            (e, ap (λ t. record c0 { topology = t }) (at ∙ ap some e)))

  sync_topology-Stored :
      Faulty ⊎ (is_some c0.topology ≡ true)
      → Runs Faulty view (sync_topology k8s sdn addr) c0 Stored
  unfolding sync_topology store_topology
  sync_topology-Stored there =
      let Asked : List ProtoDevice → Cluster → Type 0 =
        λ g c. (c ≡ c0) × (g ≡ (network addr).graph) in
      let Read : List NetworkDevice → Cluster → Type 0 = λ g c. (c ≡ c0) × (c0.topology ≡ some g) in
      let missing : List NetworkDevice → ApiError → Run W (List NetworkDevice) = λ t e.
        if is_not_found e
        then (try (k8s.set_controller_reference "cluster-topo")
            >> (try (k8s.create_topology t) >> stop requeue))
        else stop (failed e) in
      let store : List NetworkDevice → List NetworkDevice → Run W (List NetworkDevice) = λ t stored.
        if topology_changed stored t
        then try (k8s.update_topology t) >> return t
        else return stored in
      let rest : List NetworkDevice → Run W (List NetworkDevice) =
        λ t. call_or k8s.get_topology (missing t) >>= store t in
      runs-bind Faulty view
        (call_or (sdn.get_topology addr) (λ e. close_sdn_client k8s sdn >> stop requeue))
        (λ g. rest (build_cluster_topo_cr g)) c0 Asked Stored
        (runs-call_or Faulty view (sdn.get_topology addr) Always
          (λ e g e'. (e' ≡ e) × (g ≡ (network addr).graph)) c0 Asked
          (λ e. close_sdn_client k8s sdn >> stop requeue) (laws.sdn_get_topology addr) (inr tt)
          (λ g c' asked. asked) (λ e c' fault. close-Runs Faulty view k8s sdn c' Asked fault))
        (λ g c1 (same, is).
          subst (λ x. Runs Faulty view (rest (build_cluster_topo_cr x)) c1 Stored) (sym is)
            (subst (λ x. Runs Faulty view (rest topo) x Stored) (sym same)
              (runs-bind Faulty view (call_or k8s.get_topology (missing topo)) (store topo) c0 Read
                Stored
                (runs-call_or Faulty view k8s.get_topology (λ e. is_some e.topology ≡ true)
                  (λ e g e'. (e' ≡ e) × (e.topology ≡ some g)) c0 Read (missing topo)
                  laws.get_topology there (λ g c' read. read)
                  (λ e c' fault.
                    runs-if Faulty view (is_not_found e)
                      (try (k8s.set_controller_reference "cluster-topo")
                        >> (try (k8s.create_topology topo) >> stop requeue))
                      (stop (failed e)) c' Read (λ found. create_topology-Runs c' Read fault)
                      (λ n. runs-stop Faulty view (failed e) c' Read refl fault)))
                (λ stored c2 (same2, at).
                  subst (λ x. Runs Faulty view (store topo stored) x Stored) (sym same2)
                    (Stored-Runs stored at)))))

-- the status of the shim is no part of it
IsProjection-status :
    (net : Network) (c : Cluster) (shim : Option SdnShim)
    → IsProjection net c
    → IsProjection net (record c { shim = shim })
IsProjection-status net c shim p = record {
  topology_is = p.topology_is;
  switch_is = p.switch_is;
  no_other_switch = p.no_other_switch;
  program_is = p.program_is;
  no_other_program = p.no_other_program;
}

abbrev given : {Faulty : Type 0} {A B : Type 0} → Faulty ⊎ A → (A → B) → Faulty ⊎ B
given (inl fault) f = inl fault
given (inr a) f = inr (f a)

module _ {Faulty : Type 0} {W : Type 0} {view : W → Cluster} {network : String → Network}
    (k8s : Kubernetes W) (sdn : Sdn W) (laws : Laws Faulty W view network k8s sdn) where
  -- A pass over an open connection finishes with the resources of the network, or is called again;
  -- the latter is a fault of the environment where the network and the resources are answerable.
  pub sync_network-projects :
      (shim : SdnShim) (c0 : Cluster)
      → is_some c0.shim ≡ true
      → Faulty ⊎ IsAnswerable (network shim.sdn_grpc_addr) c0
      → Runs Faulty view
          (sync_network k8s sdn shim)
          c0
          (λ u c. IsProjection (network shim.sdn_grpc_addr) c)
  unfolding sync_network
  sync_network-projects shim c0 there answerable =
      let addr : String = shim.sdn_grpc_addr in
      let net : Network = network addr in
      let Q : Unit {0} → Cluster → Type 0 = λ u c. IsProjection net c in
      let graph0 : List NetworkDevice = build_cluster_topo_cr net.graph in
      let shim' : SdnShim =
        with_condition k8s sdn shim (network_reconciled true "Network state reconciled") in
      let programs : List String → Run W (Unit {0}) =
        λ ps. sync_programs k8s sdn addr ps >> try (k8s.update_shim_status shim') in
      let switches : List NetworkDevice → Run W (Unit {0}) =
        λ graph. sync_switches k8s sdn addr graph >>= programs in
      runs-bind Faulty view (sync_topology k8s sdn addr) switches c0
        (λ graph c. (graph ≡ graph0) × (c ≡ record c0 { topology = some graph0 })) Q
        (sync_topology-Stored k8s sdn laws addr c0 (given answerable (λ a. a.topology_stored)))
        (λ graph c1 (is, same).
          subst (λ g. Runs Faulty view (switches g) c1 Q) (sym is)
            (runs-bind Faulty view (sync_switches k8s sdn addr graph0) programs c1
              (SwitchesSynced net (inc_switches net) c1) Q
              (sync_switches-synced k8s sdn laws addr graph0 c1
                (given answerable (λ a. a.switches_known)))
              (λ ps c2 sw.
                runs-bind Faulty view (sync_programs k8s sdn addr ps)
                  (λ u. try (k8s.update_shim_status shim')) c2 (λ u c. ProgramsSynced net ps c2 c) Q
                  (sync_programs-synced k8s sdn laws addr ps c2 sw.programs_distinct
                    (given answerable (λ a p named. a.programs_known p (
                      installed-IsInstalled net (inc_switches net) p
                        (sym (sw.programs_are p) ∙ named))))
                    (given answerable (λ a p spec is at known.
                      a.programs_agree p spec is
                        (ap (λ f. f p) (sym (sw.programs_kept ∙ ap (λ c. c.programs) same)) ∙ at)
                        known)))
                  (λ u c3 pr.
                    runs-try Faulty view (k8s.update_shim_status shim') (λ c. is_some c.shim ≡ true)
                      (λ c a c'. c' ≡ record c { shim = some shim' }) c3 Q
                      (laws.update_shim_status shim')
                      (inr
                        (ap is_some (pr.shim_kept ∙ sw.shim_kept ∙ ap (λ c. c.shim) same) ∙ there))
                      (λ a c4 wrote.
                        subst (λ c. IsProjection net c) (sym wrote)
                          (IsProjection-status net c3 (some shim') (
                            parts-IsProjection net c1 c2 c3 ps (ap (λ c. c.topology) same) sw
                              pr)))))))
