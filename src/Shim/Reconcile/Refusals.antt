-- ===== src/Shim/Reconcile/Refusals.antt =====
-- What Reconcile does where the SDN controller refuses a query: it closes the connection, or keeps
-- it, and is called again.
use k8s_inc.Prelude.{refl, inl, inr, Bool, arith, Option-cases, ℕ_eq, String_eq}
use k8s_inc.Shim.Api.{Kubernetes, Sdn, Cluster}
use k8s_inc.Shim.Run.{requeue, ◌>>◌, stop}
use k8s_inc.Shim.Run.Rules.{Runs, runs-if, runs-stop}
use k8s_inc.Shim.Reconcile.{close_sdn_client, refused}

module _ (Faulty : Type 0) {W : Type 0} (view : W → Cluster) (k8s : Kubernetes W)
    (sdn : Sdn W) where
  pub close-Runs :
      {A : Type 0} (c : Cluster) (Q : A → Cluster → Type 0)
      → Faulty
      → Runs Faulty view (close_sdn_client k8s sdn >> stop requeue) c Q
  close-Runs c Q fault r w open_ at = elim (Option-cases r.shim_for_client) [
    | inl closed ↦ absurd (ground (arith, open_, closed))
    | inr (shim, is) ↦ rw is (refl, fault)
  ]

  pub refused-Runs :
      {A : Type 0} (known_error : Bool) (c : Cluster) (Q : A → Cluster → Type 0)
      → Faulty
      → Runs Faulty view (refused k8s sdn known_error) c Q
  refused-Runs known_error c Q fault =
      runs-if Faulty view known_error (stop requeue) (close_sdn_client k8s sdn >> stop requeue) c Q
        (λ known. runs-stop Faulty view requeue c Q refl fault) (λ unknown. close-Runs c Q fault)
