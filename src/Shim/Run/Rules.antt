-- ===== src/Shim/Run/Rules.antt =====
-- What a part of Reconcile ensures: it goes on with a result and a cluster in a relation, or it
-- has returned to be called again, and then the environment is at fault.
use k8s_inc.Prelude.{
  String, ◌≡◌, refl, sym, subst, ◌⊎◌, inl, inr, Bool, true, false, Option, some, List, [], ◌∷◌,
  arith, if◌then◌else◌, ℕ_eq, String_eq, contains, is_some,
}
use k8s_inc.Shim.Api.{Call, ApiError, Cluster, Answered, Does}
use k8s_inc.Shim.Run.{
  Outcome, done, requeue, requeue_after, panicked, failed, Reconciler, Run, go_on, returned, ◌>>=◌,
  return, stop, call_or, try, for_each, deref,
}

-- Reconcile is called again behind it
abbrev pub is_retry : Outcome → Bool
is_retry done = false
is_retry panicked = false
is_retry requeue = true
is_retry requeue_after = true
is_retry (failed e) = true

-- a part of Reconcile has returned
abbrev pub has_returned : {A W : Type 0} → (Outcome ⊎ A) × Reconciler × W → Bool
has_returned (inl o, r, w) = true
has_returned (inr a, r, w) = false

-- a part that returns, whatever it is run from
abbrev pub Returns : {A W : Type 0} → Run W A → Type 0
Returns {W = W} m = (r : Reconciler) (w : W) → has_returned (m r w) ≡ true

Returns-go_on :
    {A B W : Type 0} (f : A → Run W B)
    → ((a : A) → Returns (f a))
    → (t : (Outcome ⊎ A) × Reconciler × W) → has_returned (go_on t f) ≡ true
Returns-go_on f rest (inl o, r, w) = refl
Returns-go_on f rest (inr a, r, w) = rest a r w

pub Returns-bind :
    {A B W : Type 0} (m : Run W A) (f : A → Run W B) → ((a : A) → Returns (f a)) → Returns (m >>= f)
Returns-bind m f rest r w = Returns-go_on f rest (m r w)

module _ (Faulty : Type 0) {W : Type 0} (view : W → Cluster) where
  abbrev pub Post :
      {A : Type 0} → Reconciler → (A → Cluster → Type 0) → (Outcome ⊎ A) × Reconciler × W → Type 0
  Post r0 Q (inl o, r, w) = (is_retry o ≡ true) × Faulty
  Post r0 Q (inr a, r, w) = (r ≡ r0) × Q a (view w)

  -- `m` from the cluster `c`, over an open connection
  abbrev pub Runs : {A : Type 0} → Run W A → Cluster → (A → Cluster → Type 0) → Type 0
  Runs m c Q =
      (r : Reconciler) (w : W) → is_some r.shim_for_client ≡ true → view w ≡ c → Post r Q (m r w)

  Post-go_on :
      {A B : Type 0} (f : A → Run W B) (Q : A → Cluster → Type 0) (Q' : B → Cluster → Type 0)
      (r : Reconciler)
      → is_some r.shim_for_client ≡ true
      → ((a : A) (c : Cluster) → Q a c → Runs (f a) c Q')
      → (t : (Outcome ⊎ A) × Reconciler × W) → Post r Q t
      → Post r Q' (go_on t f)
  Post-go_on f Q Q' r open_ rest (inl o, r1, w1) post = post
  Post-go_on f Q Q' r open_ rest (inr a, r1, w1) (same, q) =
      subst (λ x. Post x Q' (f a r1 w1)) same (rest a (view w1) q r1 w1 (rw same open_) refl)

  pub runs-bind :
      {A B : Type 0} (m : Run W A) (f : A → Run W B) (c : Cluster) (Q : A → Cluster → Type 0)
      (Q' : B → Cluster → Type 0)
      → Runs m c Q
      → ((a : A) (c' : Cluster) → Q a c' → Runs (f a) c' Q')
      → Runs (m >>= f) c Q'
  runs-bind m f c Q Q' first rest r w open_ at =
      Post-go_on f Q Q' r open_ rest (m r w) (first r w open_ at)

  pub runs-return :
      {A : Type 0} (a : A) (c : Cluster) (Q : A → Cluster → Type 0) → Q a c → Runs (return a) c Q
  runs-return a c Q q r w open_ at = (refl, subst (Q a) (sym at) q)

  pub runs-stop :
      {A : Type 0} (o : Outcome) (c : Cluster) (Q : A → Cluster → Type 0)
      → is_retry o ≡ true
      → Faulty
      → Runs (stop o) c Q
  runs-stop o c Q again fault r w open_ at = (again, fault)

  Post-weaken :
      {A : Type 0} (Q Q' : A → Cluster → Type 0) (r : Reconciler)
      → ((a : A) (c' : Cluster) → Q a c' → Q' a c')
      → (t : (Outcome ⊎ A) × Reconciler × W) → Post r Q t
      → Post r Q' t
  Post-weaken Q Q' r rest (inl o, r1, w1) post = post
  Post-weaken Q Q' r rest (inr a, r1, w1) (same, q) = (same, rest a (view w1) q)

  pub runs-weaken :
      {A : Type 0} (m : Run W A) (c : Cluster) (Q Q' : A → Cluster → Type 0)
      → Runs m c Q
      → ((a : A) (c' : Cluster) → Q a c' → Q' a c')
      → Runs m c Q'
  runs-weaken m c Q Q' first rest r w open_ at =
      Post-weaken Q Q' r rest (m r w) (first r w open_ at)

  pub runs-deref :
      {A B : Type 0} (o : Option A) (a : A) (f : A → Run W B) (c : Cluster)
      (Q : B → Cluster → Type 0)
      → o ≡ some a
      → Runs (f a) c Q
      → Runs (deref o >>= f) c Q
  runs-deref o a f c Q is rest = subst (λ x. Runs (deref x >>= f) c Q) (sym is) rest

  pub runs-if :
      {A : Type 0} (b : Bool) (m n : Run W A) (c : Cluster) (Q : A → Cluster → Type 0)
      → (b ≡ true → Runs m c Q)
      → (b ≡ false → Runs n c Q)
      → Runs (if b then m else n) c Q
  runs-if true m n c Q taken other = taken refl
  runs-if false m n c Q other taken = taken refl

  Post-returned :
      {A : Type 0} (P : Cluster → Type 0) (R : Cluster → A → Cluster → Type 0) (c : Cluster)
      (Q : A → Cluster → Type 0) (handle : ApiError → Run W A) (r : Reconciler)
      → is_some r.shim_for_client ≡ true
      → Faulty ⊎ P c
      → ((a : A) (c' : Cluster) → R c a c' → Q a c')
      → ((e : ApiError) (c' : Cluster) → Faulty → Runs (handle e) c' Q)
      → (t : (ApiError ⊎ A) × W) → Answered Faulty view P R c t
      → Post r Q
          (go_on (returned r t) (λ answer. elim answer [ inl e ↦ handle e | inr a ↦ return a ]))
  Post-returned P R c Q handle r open_ p q wrong (inl e, w) fault =
      wrong e (view w) (elim p [ inl given ↦ given | inr holds ↦ fault holds ]) r w open_ refl
  Post-returned P R c Q handle r open_ p q wrong (inr a, w) meets = (refl, q a (view w) meets)

  pub runs-call_or :
      {A : Type 0} (op : Call W A) (P : Cluster → Type 0) (R : Cluster → A → Cluster → Type 0)
      (c : Cluster) (Q : A → Cluster → Type 0) (handle : ApiError → Run W A)
      → Does Faulty view op P R
      → Faulty ⊎ P c
      → ((a : A) (c' : Cluster) → R c a c' → Q a c')
      → ((e : ApiError) (c' : Cluster) → Faulty → Runs (handle e) c' Q)
      → Runs (call_or op handle) c Q
  runs-call_or op P R c Q handle does p q wrong r w open_ at =
      Post-returned P R c Q handle r open_ p q wrong (op w)
        (subst (λ x. Answered Faulty view P R x (op w)) at (does w))

  -- the error of the call is returned
  pub runs-try :
      {A : Type 0} (op : Call W A) (P : Cluster → Type 0) (R : Cluster → A → Cluster → Type 0)
      (c : Cluster) (Q : A → Cluster → Type 0)
      → Does Faulty view op P R
      → Faulty ⊎ P c
      → ((a : A) (c' : Cluster) → R c a c' → Q a c')
      → Runs (try op) c Q
  runs-try op P R c Q does p q =
      runs-call_or op P R c Q (λ e. stop (failed e)) does p q
        (λ e c' fault. runs-stop (failed e) c' Q refl fault)

  -- A loop keeps what each pass carries from a list to its rest.
  pub runs-for_each :
      {A B : Type 0} (body : A → B → Run W B) (I : List A → B → Cluster → Type 0)
      → ((x : A) (xs : List A) (b : B) (c : Cluster) → I (x ∷ xs) b c → Runs (body x b) c (I xs))
      → (xs : List A) (b : B) (c : Cluster) → I xs b c
      → Runs (for_each xs b body) c (I [])
  runs-for_each body I pass [] b c i = runs-return b c (I []) i
  runs-for_each body I pass (x ∷ xs) b c i =
      runs-bind (body x b) (λ b'. for_each xs b' body) c (I xs) (I []) (pass x xs b c i)
        (λ b' c' i'. runs-for_each body I pass xs b' c' i')

  -- The same for a loop over the names of a list, where a pass knows that it is at one of them.
  pub runs-for_each_in :
      {B : Type 0} (body : String → B → Run W B) (I : List String → B → Cluster → Type 0)
      (all : List String)
      → ((x : String) (xs : List String) (b : B) (c : Cluster)
          → contains x all ≡ true
          → I (x ∷ xs) b c
          → Runs (body x b) c (I xs))
      → (xs : List String) → ((n : String) → contains n xs ≡ true → contains n all ≡ true)
      → (b : B) (c : Cluster) → I xs b c
      → Runs (for_each xs b body) c (I [])
  runs-for_each_in body I all pass [] within b c i = runs-return b c (I []) i
  runs-for_each_in body I all pass (x ∷ xs) within b c i =
      runs-bind (body x b) (λ b'. for_each xs b' body) c (I xs) (I [])
        (pass x xs b c (within x (ground (arith, String_eq.same_iff x x))) i)
        (λ b' c' i'.
          runs-for_each_in body I all pass xs (λ n h. within n (ground (arith, h))) b' c' i')
