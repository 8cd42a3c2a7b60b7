-- ===== src/Telemetry/Pool/Alloc.antt =====
-- What AllocOrGet returns, and the slots that the two lookups find.
use k8s_inc.Prelude.{
  ℕ, ◌<◌, String, ◌≡◌, sym, ◌∙◌, ◌≢◌, ◌↔◌, inl, inr, true, false, none, some, arith, Option-cases,
  ◌==◌, ℕ_eq, String_eq, contains-add, contains_empty, get_elem?, find_index, count_if, count_if-le,
  get_elem?-update_at, find_index_hit, find_index_miss, get_elem?-lt,
}
use k8s_inc.Prelude.Int.{ℤ_eq}
use k8s_inc.Telemetry.Pool.{
  PoolItem, CollectionIdPool, allocated, pool_full, panicked, is_free, is_named, is_owned, is_taken,
  join_item, claim_item, alloc_or_get, get_if_allocated, get_if_any_allocated,
}
use k8s_inc.Telemetry.Pool.Invariant.{IsValid, is_used, no_free_is_full, alloc_or_get-IsValid}

module _ (p : CollectionIdPool) (v : IsValid p) where
  -- an id has at most one slot, so the search finds the slot that is at hand
  pub taken_index :
      (id : String) (i : ℕ) (x : PoolItem)
      → get_elem? p.pool i ≡ some x
      → is_taken id x ≡ true
      → get_if_any_allocated id p ≡ some i
  unfolding get_if_any_allocated
  taken_index id i x g t = elim (Option-cases (find_index (is_taken id) p.pool)) [
    | inl miss ↦ ground (arith, find_index_miss (is_taken id) p.pool i x)
    | inr (j, hit) ↦
        let (y, at_j, owner) = find_index_hit (is_taken id) p.pool j hit in
        ground (
          arith,
          v.distinct j i y x,
          String_eq.same_iff x.collection_id id,
          String_eq.same_iff y.collection_id id,
        )
  ]

  pub owner_index :
      (intent id : String) (i : ℕ) (x : PoolItem)
      → get_elem? p.pool i ≡ some x
      → is_owned intent id x ≡ true
      → get_if_allocated intent id p ≡ some i
  unfolding get_if_allocated
  owner_index intent id i x g t = elim (Option-cases (find_index (is_owned intent id) p.pool)) [
    | inl miss ↦ ground (arith, find_index_miss (is_owned intent id) p.pool i x)
    | inr (j, hit) ↦
        let (y, at_j, owner) = find_index_hit (is_owned intent id) p.pool j hit in
        ground (
          arith,
          v.distinct j i y x,
          contains_empty intent y.intents,
          String_eq.same_iff x.collection_id id,
          String_eq.same_iff y.collection_id id,
        )
  ]

-- The panic at the end of AllocOrGet is not reached from a valid pool.
pub alloc_or_get-ne-panicked :
    (intent id : String) (p : CollectionIdPool)
    → IsValid p
    → (alloc_or_get intent id p).0 ≢ panicked
unfolding alloc_or_get
alloc_or_get-ne-panicked intent id p v h = ground (arith, no_free_is_full p v)

-- The slot that AllocOrGet returned carries the id and the intent.
allocated_item :
    (intent id : String) (p : CollectionIdPool) (i : ℕ)
    → (alloc_or_get intent id p).0 ≡ allocated i
    → (x : PoolItem) × (get_elem? (alloc_or_get intent id p).1.pool i ≡ some x)
      × (is_owned intent id x ≡ true)
unfolding alloc_or_get
allocated_item intent id p i h = elim (Option-cases (find_index (is_named id) p.pool)) [
  | inr (j, hit) ↦
      let (x, at_j, t) = find_index_hit (is_named id) p.pool j hit in
      (
        join_item intent x,
        ground (arith, get_elem?-update_at j j (join_item intent) p.pool),
        ground (arith, contains-add intent intent x.intents, String_eq.same_iff intent intent),
      )
  | inl miss ↦ elim (Option-cases (find_index is_free p.pool)) [
    | inl none_free ↦ ground arith
    | inr (j, hit) ↦
        let (x, at_j, t) = find_index_hit is_free p.pool j hit in
        (
          claim_item intent id x,
          ground (arith, get_elem?-update_at j j (claim_item intent id) p.pool),
          ground (
            arith,
            contains-add intent intent x.intents,
            String_eq.same_iff intent intent,
            String_eq.same_iff id id,
          ),
        )
  ]
]

max_size-alloc_or_get :
    (intent id : String) (p : CollectionIdPool) → (alloc_or_get intent id p).1.max_size ≡ p.max_size
unfolding alloc_or_get
max_size-alloc_or_get intent id p = ground arith

-- In a valid pool and for an id that is not empty, an index that AllocOrGet returns is below maxSize, and both lookups give it back afterwards.
pub alloc_or_get_found :
    (intent id : String) (p : CollectionIdPool) (i : ℕ)
    → (id == "") ≡ false
    → IsValid p
    → (alloc_or_get intent id p).0 ≡ allocated i
    → (i < p.max_size)
      × (get_if_allocated intent id (alloc_or_get intent id p).1 ≡ some i)
      × (get_if_any_allocated id (alloc_or_get intent id p).1 ≡ some i)
alloc_or_get_found intent id p i ne v h =
    let (x, g, t) = allocated_item intent id p i h in
    let p' = (alloc_or_get intent id p).1 in
    let v' = alloc_or_get-IsValid intent id p ne v in
    (
      omega (arith, get_elem?-lt p'.pool i x g, v'.sized, max_size-alloc_or_get intent id p),
      owner_index p' v' intent id i x g t,
      taken_index p' v' id i x g (ground (arith, contains_empty intent x.intents)),
    )

-- The first loop of AllocOrGet finds what GetIfAnyAllocated finds.
named-eq-taken :
    (id : String) (p : CollectionIdPool)
    → (id == "") ≡ false
    → IsValid p
    → find_index (is_named id) p.pool ≡ get_if_any_allocated id p
named-eq-taken id p ne v = elim (Option-cases (find_index (is_named id) p.pool)) [
  | inr (i, hit) ↦
      let (x, g, t) = find_index_hit (is_named id) p.pool i hit in
      hit
      ∙ sym (
          taken_index p v id i x g
            (ground (arith, v.named i x, String_eq.same_iff x.collection_id id)))
  | inl miss ↦ elim (Option-cases (get_if_any_allocated id p)) [
    | inl absent ↦ cc
    | inr (j, hit) ↦
        let (y, g, t) =
          find_index_hit (is_taken id) p.pool j (unfold get_if_any_allocated in hit) in
        ground (arith, find_index_miss (is_named id) p.pool j y)
  ]
]

-- In a valid pool and for an id that is not empty, AllocOrGet refuses exactly when the id has no slot and every slot is in use.
pub alloc_or_get_full :
    (intent id : String) (p : CollectionIdPool)
    → (id == "") ≡ false
    → IsValid p
    → ((alloc_or_get intent id p).0 ≡ pool_full)
      ↔ ((get_if_any_allocated id p ≡ none) × (count_if is_used p.pool ≡ p.max_size))
unfolding alloc_or_get
alloc_or_get_full intent id p ne v = ground (
  arith,
  named-eq-taken id p ne v,
  count_if-le is_used p.pool,
  v.sized,
  v.counted,
  no_free_is_full p v,
)

-- A refusal leaves the pool as it was.
pub alloc_or_get_full_unchanged :
    (intent id : String) (p : CollectionIdPool)
    → (alloc_or_get intent id p).0 ≡ pool_full
    → (alloc_or_get intent id p).1 ≡ p
unfolding alloc_or_get
alloc_or_get_full_unchanged intent id p h = ground arith
