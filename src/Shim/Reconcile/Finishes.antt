-- ===== src/Shim/Reconcile/Finishes.antt =====
-- What it means that Reconcile finishes, and when it does.
use k8s_inc.Prelude.{
  String, ◌≡◌, refl, sym, ap, ◌∙◌, subst, ◌⊎◌, inl, inr, true, false, Option, none, some, arith,
  if◌then◌else◌, Bool-cases, ◌==◌, ℕ_eq, String_eq, is_some, is_empty,
}
use k8s_inc.Shim.Api.{SdnShim, ApiError, Kubernetes, Sdn, Cluster, Network, Answered, Laws}
use k8s_inc.Shim.Run.{
  Outcome, done, requeue, Reconciler, Run, go_on, returned, ◌>>=◌, ◌>>◌, return, stop, try,
  get_client,
}
use k8s_inc.Shim.Run.Rules.{Returns, Returns-bind, has_returned, Post}
use k8s_inc.Shim.Reconcile.{
  start_conditions, connect, serve_shim, sync_network, reconcile, close_sdn_client,
  run_sdn_client_for_shim, connected, with_condition, sdn_connected,
}
use k8s_inc.Shim.Reconcile.Network.{IsAnswerable, IsProjection, sync_network-projects}

module _ {W : Type 0} (k8s : Kubernetes W) (sdn : Sdn W) where
  start_conditions-Returns : (shim : SdnShim) → Returns (start_conditions k8s sdn shim)
  unfolding start_conditions
  start_conditions-Returns shim =
      Returns-bind (try (k8s.update_shim_status _)) (λ u. stop {A = Unit {0}} requeue)
        (λ u r w. refl)

  connected-Returns :
      (shim : SdnShim) (a : ApiError ⊎ (Unit {0})) → Returns (connected k8s sdn shim a)
  connected-Returns shim (inl e) = λ r w. refl
  connected-Returns shim (inr b) =
      let status : SdnShim = with_condition k8s sdn shim (sdn_connected true "SDN connected") in
      Returns-bind (try (k8s.update_shim_status status)) (λ u. stop {A = Unit {0}} requeue)
        (λ u r w. refl)

  connect-Returns : (shim : SdnShim) → Returns (connect k8s sdn shim)
  unfolding connect
  connect-Returns shim =
      Returns-bind (run_sdn_client_for_shim k8s sdn shim) (connected k8s sdn shim)
        (connected-Returns shim)

  -- where Reconcile finishes, it served the shim over a connection to the shim's address
  serve_shim-finishes :
      (shim : SdnShim) (client : Option SdnShim) (r : Reconciler) (w : W)
      → has_returned (serve_shim k8s sdn shim client r w) ≡ false
      → (c : SdnShim) × (client ≡ some c)
        × (serve_shim k8s sdn shim client r w ≡ sync_network k8s sdn shim r w)
  unfolding serve_shim
  serve_shim-finishes shim none r w goes = absurd (ground (arith, goes, connect-Returns shim r w))
  serve_shim-finishes shim (some c) r w goes =
      elim (Bool-cases (c.sdn_grpc_addr == shim.sdn_grpc_addr)) [
        | inl same ↦ (c, refl, rw same refl)
        | inr other ↦
            let again : Run W (Unit {0}) = close_sdn_client k8s sdn >> connect k8s sdn shim in
            let is : serve_shim k8s sdn shim (some c) r w ≡ again r w = rw other refl in
            absurd (
              ground (
                arith,
                goes,
                ap has_returned is,
                Returns-bind (close_sdn_client k8s sdn) (λ u. connect k8s sdn shim)
                    (λ u. connect-Returns shim) r w,
              ))
      ]

  abbrev handle_shim : SdnShim → Run W (Unit {0})
  handle_shim shim =
      if is_empty shim.conditions
      then start_conditions k8s sdn shim
      else (get_client >>= serve_shim k8s sdn shim)

  handle_shim-finishes :
      (shim : SdnShim) (r : Reconciler) (w : W)
      → has_returned (handle_shim shim r w) ≡ false
      → (c : SdnShim) × (r.shim_for_client ≡ some c)
        × (handle_shim shim r w ≡ sync_network k8s sdn shim r w)
  handle_shim-finishes shim r w goes = elim (Bool-cases (is_empty shim.conditions)) [
    | inl first ↦
        let is : handle_shim shim r w ≡ start_conditions k8s sdn shim r w = rw first refl in
        absurd (ground (arith, goes, ap has_returned is, start_conditions-Returns shim r w))
    | inr later ↦
        let is : handle_shim shim r w ≡ serve_shim k8s sdn shim r.shim_for_client r w =
          rw later refl in
        let (c, at, served) =
          serve_shim-finishes shim r.shim_for_client r w (ap has_returned (sym is) ∙ goes) in
        (c, at, is ∙ served)
  ]

module _ {W : Type 0} {view : W → Cluster} {network : String → Network} (k8s : Kubernetes W)
    (sdn : Sdn W) (laws : Laws Unit W view network k8s sdn) where
  shim-projects :
      (shim : SdnShim) (r r' : Reconciler) (w w' : W)
      → (view w).shim ≡ some shim
      → handle_shim k8s sdn shim r w ≡ (inr tt, r', w')
      → IsProjection (network shim.sdn_grpc_addr) (view w')
  shim-projects shim r r' w w' there finished =
      let (c, at, is) = handle_shim-finishes k8s sdn shim r w (ap has_returned finished) in
      (subst (λ t. Post Unit view r (λ u d. IsProjection (network shim.sdn_grpc_addr) d) t)
        (sym is ∙ finished)
        (sync_network-projects k8s sdn laws shim (view w) (ap is_some there) (inl tt) r w
          (ap is_some at) refl)).1

  answer-projects :
      (r r' : Reconciler) (w' : W) (c : Cluster) (t : (ApiError ⊎ SdnShim) × W)
      → Answered Unit view (λ d. is_some d.shim ≡ true) (λ d s d'. (d' ≡ d) × (d.shim ≡ some s)) c t
      → go_on
          (go_on (returned r t) (λ answer. elim answer [ inl e ↦ stop done | inr a ↦ return a ]))
          (handle_shim k8s sdn)
        ≡ (inr tt, r', w')
      → (shim : SdnShim) × (c.shim ≡ some shim)
        × IsProjection (network shim.sdn_grpc_addr) (view w')
  answer-projects r r' w' c (inl e, w) fault finished =
      absurd (ground (arith, ap has_returned finished))
  answer-projects r r' w' c (inr shim, w) (same, there) finished =
      (shim, there, shim-projects shim r r' w w' (ap (λ d. d.shim) same ∙ there) finished)

  -- Where Reconcile finishes there is a shim, and the resources are those of the network that the
  -- SDN controller at the shim's address reports: the topology, exactly its INC switches with their
  -- architectures and programs, and exactly the programs on them with the interfaces that they
  -- implement. It holds for the laws of the calls with any of them failing at any time.
  pub reconcile-IsProjection :
      (r r' : Reconciler) (w w' : W)
      → reconcile k8s sdn r w ≡ (inr tt, r', w')
      → (shim : SdnShim) × ((view w).shim ≡ some shim)
        × IsProjection (network shim.sdn_grpc_addr) (view w')
  unfolding reconcile
  reconcile-IsProjection r r' w w' finished =
      answer-projects r r' w' (view w) (k8s.get_shim w) (laws.get_shim w) finished

module _ {W : Type 0} {view : W → Cluster} {network : String → Network} (k8s : Kubernetes W)
    (sdn : Sdn W) (laws : Laws ⊥ W view network k8s sdn) where
  -- Reconcile has finished, over the connection it had, with the resources of the network
  abbrev pub Finished : Network → Reconciler → (Outcome ⊎ (Unit {0})) × Reconciler × W → Type 0
  Finished net r t = (w' : W) × (t ≡ (inr tt, r, w')) × IsProjection net (view w')

  Post-Finished :
      (net : Network) (r : Reconciler) (t : (Outcome ⊎ (Unit {0})) × Reconciler × W)
      → Post ⊥ view r (λ u c. IsProjection net c) t
      → Finished net r t
  Post-Finished net r (inl o, r1, w1) (again, fault) = absurd fault
  Post-Finished net r (inr u, r1, w1) (same, projects) =
      (w1, ap (λ x. (inr u, x, w1)) same, projects)

  serve-Finished :
      (shim c : SdnShim) (r : Reconciler) (w : W)
      → (view w).shim ≡ some shim
      → is_empty shim.conditions ≡ false
      → r.shim_for_client ≡ some c
      → c.sdn_grpc_addr ≡ shim.sdn_grpc_addr
      → IsAnswerable (network shim.sdn_grpc_addr) (view w)
      → Finished (network shim.sdn_grpc_addr) r (handle_shim k8s sdn shim r w)
  unfolding serve_shim
  serve-Finished shim c r w there started client same answerable =
      let open_ : (c.sdn_grpc_addr == shim.sdn_grpc_addr) ≡ true =
        (String_eq.same_iff c.sdn_grpc_addr shim.sdn_grpc_addr).1 same in
      let net : Network = network shim.sdn_grpc_addr in
      let is : handle_shim k8s sdn shim r w ≡ sync_network k8s sdn shim r w =
        rw (started, client, open_) refl in
      subst (Finished net r) (sym is) (
        Post-Finished net r (sync_network k8s sdn shim r w) (
          sync_network-projects k8s sdn laws shim (view w) (ap is_some there) (inr answerable) r w
            (ap is_some client) refl))

  answer-Finished :
      (shim c : SdnShim) (r : Reconciler) (before : Cluster) (t : (ApiError ⊎ SdnShim) × W)
      → Answered ⊥ view
          (λ d. is_some d.shim ≡ true)
          (λ d s d'. (d' ≡ d) × (d.shim ≡ some s))
          before
          t
      → before.shim ≡ some shim
      → is_empty shim.conditions ≡ false
      → r.shim_for_client ≡ some c
      → c.sdn_grpc_addr ≡ shim.sdn_grpc_addr
      → IsAnswerable (network shim.sdn_grpc_addr) before
      → Finished (network shim.sdn_grpc_addr) r (
          go_on
            (go_on (returned r t) (λ answer. elim answer [ inl e ↦ stop done | inr a ↦ return a ]))
            (handle_shim k8s sdn))
  answer-Finished shim c r before (inl e, w) fault there started client same answerable =
      absurd (fault (ap is_some there))
  answer-Finished shim c r before (inr s, w) (kept, found) there started client same answerable =
      let s_is : s ≡ shim = ground (arith, found, there) in
      subst (λ x. Finished (network shim.sdn_grpc_addr) r (handle_shim k8s sdn x r w)) (sym s_is)
        (serve-Finished shim c r w (ap (λ d. d.shim) kept ∙ there) started client same
          (subst (IsAnswerable (network shim.sdn_grpc_addr)) (sym kept) answerable))

  -- Where no call fails without a reason, Reconcile finishes over a connection to the shim's address
  -- once the conditions are set, if the SDN controller knows its INC switches and their programs,
  -- the topology is stored, and no stored program has other interfaces; the resources are then
  -- those of the network.
  pub reconcile-Finished :
      (shim c : SdnShim) (r : Reconciler) (w : W)
      → (view w).shim ≡ some shim
      → is_empty shim.conditions ≡ false
      → r.shim_for_client ≡ some c
      → c.sdn_grpc_addr ≡ shim.sdn_grpc_addr
      → IsAnswerable (network shim.sdn_grpc_addr) (view w)
      → Finished (network shim.sdn_grpc_addr) r (reconcile k8s sdn r w)
  unfolding reconcile
  reconcile-Finished shim c r w there started client same answerable =
      answer-Finished shim c r (view w) (k8s.get_shim w) (laws.get_shim w) there started client same
        answerable
