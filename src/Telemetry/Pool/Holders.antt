-- ===== src/Telemetry/Pool/Holders.antt =====
-- The pool as a map from an intent and a collection id to an index: what each method does to it.
use k8s_inc.Prelude.{
  ℕ, String, ◌≡◌, inl, inr, false, ◌&&◌, none, some, arith, if◌then◌else◌, Bool-cases, Option-cases,
  ◌==◌, ℕ_eq, String_eq, remove, contains-add, contains-remove, contains_empty, find_index,
  update_at, get_elem?-update_at, find_index_hit, find_index-update_at,
}
use k8s_inc.Prelude.Int.{ℤ_eq}
use k8s_inc.Telemetry.Pool.{
  CollectionIdPool, allocated, is_free, is_named, is_owned, join_item, claim_item, leave_item,
  alloc_or_get, get_if_allocated, free, release,
}
use k8s_inc.Telemetry.Pool.Invariant.{IsValid}
use k8s_inc.Telemetry.Pool.Alloc.{alloc_or_get_found}

-- For any other intent or id nothing moves.
get-alloc_or_get_other :
    (intent id j c : String) (p : CollectionIdPool)
    → (id == "") ≡ false
    → IsValid p
    → (intent == j && id == c) ≡ false
    → get_if_allocated j c (alloc_or_get intent id p).1 ≡ get_if_allocated j c p
unfolding alloc_or_get get_if_allocated
get-alloc_or_get_other intent id j c p ne v other =
    elim (Option-cases (find_index (is_named id) p.pool)) [
      | inr (i, hit) ↦
          let (x, g, t) = find_index_hit (is_named id) p.pool i hit in
          ground (
            arith,
            find_index-update_at (is_owned j c) i (join_item intent) p.pool (λ y gy.
                ground
                  (arith, contains-add intent j y.intents, String_eq.same_iff y.collection_id id)),
          )
      | inl miss ↦ elim (Option-cases (find_index is_free p.pool)) [
        | inl none_free ↦ ground arith
        | inr (i, hit) ↦
            let (x, g, t) = find_index_hit is_free p.pool i hit in
            ground (
              arith,
              find_index-update_at (is_owned j c) i (claim_item intent id) p.pool (λ y gy.
                  ground (arith, contains-add intent j y.intents, contains_empty j y.intents)),
            )
      ]
    ]

-- In a valid pool and for an id that is not empty: after AllocOrGet returned `k`, the intent holds
-- the id at `k`; all other holdings are as before.
pub get-alloc_or_get :
    (intent id j c : String) (p : CollectionIdPool) (k : ℕ)
    → (id == "") ≡ false
    → IsValid p
    → (alloc_or_get intent id p).0 ≡ allocated k
    → get_if_allocated j c (alloc_or_get intent id p).1
      ≡ (if intent == j && id == c then some k else get_if_allocated j c p)
get-alloc_or_get intent id j c p k ne v h = elim (Bool-cases (intent == j && id == c)) [
  | inr other ↦ rw other (get-alloc_or_get_other intent id j c p ne v other)
  | inl mine ↦ ground (
    arith,
    String_eq.same_iff intent j,
    String_eq.same_iff id c,
    alloc_or_get_found intent id p k ne v,
  )
]

get-release_other :
    (intent id j c : String) (p : CollectionIdPool) (i : ℕ)
    → IsValid p
    → get_if_allocated intent id p ≡ some i
    → (intent == j && id == c) ≡ false
    → get_if_allocated j c (release intent i p) ≡ get_if_allocated j c p
unfolding release get_if_allocated
get-release_other intent id j c p i v hit other =
    let (x, g, t) = find_index_hit (is_owned intent id) p.pool i hit in
    find_index-update_at (is_owned j c) i (leave_item intent) p.pool (λ y gy. ground (
      arith,
      contains-remove intent j y.intents,
      contains_empty j (remove intent y.intents),
      String_eq.same_iff y.collection_id id,
      String_eq.same_iff y.collection_id c,
      String_eq.same_iff id c,
    ))

get-release_self :
    (intent id : String) (p : CollectionIdPool) (i : ℕ)
    → IsValid p
    → get_if_allocated intent id p ≡ some i
    → get_if_allocated intent id (release intent i p) ≡ none
unfolding release get_if_allocated
get-release_self intent id p i v hit =
    let (x, g, t) = find_index_hit (is_owned intent id) p.pool i hit in
    let after = update_at i (leave_item intent) p.pool in
    elim (Option-cases (find_index (is_owned intent id) after)) [
      | inl gone ↦ gone
      | inr (k, again) ↦
          let (y, gy, ty) = find_index_hit (is_owned intent id) after k again in
          ground (
            arith,
            get_elem?-update_at i k (leave_item intent) p.pool,
            contains-remove intent intent x.intents,
            String_eq.same_iff intent intent,
            contains_empty intent y.intents,
            v.distinct i k x y,
            contains_empty intent x.intents,
            String_eq.same_iff x.collection_id id,
            String_eq.same_iff y.collection_id id,
          )
    ]

-- In a valid pool: after Free the intent does not hold the id; all other holdings are as before.
pub get-free :
    (intent id j c : String) (p : CollectionIdPool)
    → IsValid p
    → get_if_allocated j c (free intent id p)
      ≡ (if intent == j && id == c then none else get_if_allocated j c p)
unfolding free
get-free intent id j c p v = elim (Option-cases (get_if_allocated intent id p)) [
  | inl absent ↦ ground (arith, String_eq.same_iff intent j, String_eq.same_iff id c)
  | inr (i, hit) ↦ ground (
    arith,
    String_eq.same_iff intent j,
    String_eq.same_iff id c,
    get-release_self intent id p i v hit,
    get-release_other intent id j c p i v hit,
  )
]
