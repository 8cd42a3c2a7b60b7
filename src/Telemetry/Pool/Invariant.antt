-- ===== src/Telemetry/Pool/Invariant.antt =====
-- What holds of a pool between two calls, when no request has the empty collection id.
use k8s_inc.Prelude.{
  ℕ, zero, suc, String, ◌≡◌, refl, sym, ap, ◌≢◌, inl, inr, Bool, true, false, not, ◌||◌, none, some,
  List, [], ◌∷◌, arith, if◌then◌else◌, Bool-cases, Option-cases, ◌==◌, ℕ_eq, String_eq, remove,
  add_not_empty, contains_empty, length, is_empty, get_elem?, replicate, find_index, update_at,
  count_if, length-update_at, length-replicate, get_elem?-update_at, count_if-update_at,
  find_index_hit, find_index_miss, update_at_all,
}
use k8s_inc.Prelude.Int.{pos, ◌+ℤ◌, leb_ℤ, pos-sub-one, pos-add-one, ℤ_eq}
use k8s_inc.Telemetry.Pool.{
  PoolItem, CollectionIdPool, new_pool, free_item, is_free, is_named, is_owned, join_item,
  claim_item, leave_item, claim, alloc_or_get, get_if_allocated, release, free,
}

abbrev pub is_used : PoolItem → Bool
is_used item = not (is_free item)

pub record IsValid (p : CollectionIdPool) : Type 0 where
  pub sized : length p.pool ≡ p.max_size
  pub counted : p.alloc_counter ≡ pos (count_if is_used p.pool)
  -- a slot has the empty id exactly while nobody uses it
  pub named :
      (i : ℕ) (x : PoolItem) → get_elem? p.pool i ≡ some x → is_free x ≡ (x.collection_id == "")
  -- no id has two slots
  pub distinct :
      (i j : ℕ) (x y : PoolItem)
      → get_elem? p.pool i ≡ some x
      → get_elem? p.pool j ≡ some y
      → x.collection_id ≡ y.collection_id
      → is_free x ≡ false
      → i ≡ j

all_counted :
    (xs : List PoolItem)
    → ((i : ℕ) (x : PoolItem) → get_elem? xs i ≡ some x → is_free x ≡ false)
    → count_if is_used xs ≡ length xs
all_counted [] h = refl
all_counted (x ∷ xs) h = ground (arith, h 0 x refl, all_counted xs (λ i y. h (suc i) y))

-- Reserving by the counter is enough: below the maximum some slot is free.
pub no_free_is_full :
    (p : CollectionIdPool)
    → IsValid p
    → find_index is_free p.pool ≡ none
    → leb_ℤ (pos p.max_size) p.alloc_counter ≢ false
no_free_is_full p v miss room =
    ground (
      arith,
      all_counted p.pool (λ i x. find_index_miss is_free p.pool i x miss),
      v.counted,
      v.sized,
    )

join-IsValid :
    (intent id : String) (p : CollectionIdPool) (i : ℕ)
    → (id == "") ≡ false
    → find_index (is_named id) p.pool ≡ some i
    → IsValid p
    → IsValid (record p { pool = update_at i (join_item intent) p.pool })
join-IsValid intent id p i ne hit v =
    let (x, at_i, is_id) = find_index_hit (is_named id) p.pool i hit in
    record {
      sized = ground (arith, v.sized, length-update_at i (join_item intent) p.pool);
      counted = ground (
        arith,
        v.counted,
        v.named i x,
        String_eq.same_iff x.collection_id id,
        add_not_empty intent x.intents,
        count_if-update_at is_used i (join_item intent) p.pool x,
      );
      named =
          update_at_all (λ y. is_free y ≡ (y.collection_id == "")) i (join_item intent) p.pool
            (λ y g.
              ground (arith, String_eq.same_iff x.collection_id id, add_not_empty intent y.intents))
            v.named;
      distinct = λ j k y z gy gz e used. ground (
        arith,
        get_elem?-update_at i j (join_item intent) p.pool,
        get_elem?-update_at i k (join_item intent) p.pool,
        v.distinct j k y z,
        v.distinct i k x z,
        v.distinct j i y x,
        v.named i x,
        String_eq.same_iff x.collection_id id,
      );
    }

claim-IsValid :
    (intent id : String) (p : CollectionIdPool)
    → (id == "") ≡ false
    → find_index (is_named id) p.pool ≡ none
    → IsValid p
    → IsValid (claim intent id p).1
unfolding claim
claim-IsValid intent id p ne miss v = elim (Bool-cases (leb_ℤ (pos p.max_size) p.alloc_counter)) [
  | inl full ↦ rw full v
  | inr room ↦ elim (Option-cases (find_index is_free p.pool)) [
    | inl none_free ↦ absurd (no_free_is_full p v none_free room)
    | inr (i, e) ↦ rw (room, e) (claimed i e)
  ]
]
  where
    f : PoolItem → PoolItem
    f = claim_item intent id

    claimed :
        (i : ℕ)
        → find_index is_free p.pool ≡ some i
        → IsValid
            (record p { pool = update_at i f p.pool; alloc_counter = p.alloc_counter +ℤ pos 1 })
    claimed i e =
        let (x, at_i, is_id) = find_index_hit is_free p.pool i e in
        record {
          sized = ground (arith, v.sized, length-update_at i f p.pool);
          counted = ground (
            arith,
            v.counted,
            pos-add-one (count_if is_used p.pool),
            add_not_empty intent x.intents,
            count_if-update_at is_used i f p.pool x,
          );
          named =
              update_at_all (λ y. is_free y ≡ (y.collection_id == "")) i f p.pool
                (λ y g. ground (arith, add_not_empty intent y.intents)) v.named;
          distinct = λ j k y z gy gz same used. ground (
            arith,
            get_elem?-update_at i j f p.pool,
            get_elem?-update_at i k f p.pool,
            v.distinct j k y z,
            find_index_miss (is_named id) p.pool j y,
            find_index_miss (is_named id) p.pool k z,
            String_eq.same_iff y.collection_id id,
            String_eq.same_iff z.collection_id id,
          );
        }

-- A new pool satisfies the invariant.
pub new_pool-IsValid : (n : ℕ) → IsValid (new_pool n)
unfolding new_pool
new_pool-IsValid n = record {
  sized = length-replicate n free_item;
  counted = ap pos (sym (fresh n));
  named = λ i x g. rw (← all_free n i x g) refl;
  distinct = λ i j x y gi gj e used. ground (arith, all_free n i x gi);
}
  where
    fresh : (k : ℕ) → count_if is_used (replicate k free_item) ≡ 0
    fresh zero = refl
    fresh (suc k) = omega (arith, fresh k)

    all_free :
        (k i : ℕ) (x : PoolItem) → get_elem? (replicate k free_item) i ≡ some x → free_item ≡ x
    all_free zero i x g = cc
    all_free (suc k) zero x g = cc
    all_free (suc k) (suc i) x g = all_free k i x g

-- AllocOrGet keeps the invariant, on every branch, for a collection id that is not empty.
pub alloc_or_get-IsValid :
    (intent id : String) (p : CollectionIdPool)
    → (id == "") ≡ false
    → IsValid p
    → IsValid (alloc_or_get intent id p).1
unfolding alloc_or_get
alloc_or_get-IsValid intent id p ne v = elim (Option-cases (find_index (is_named id) p.pool)) [
  | inl miss ↦ rw (miss, alloc_or_get) (claim-IsValid intent id p ne miss v)
  | inr (i, hit) ↦ rw (hit, alloc_or_get) (join-IsValid intent id p i ne hit v)
]

cleared : (b : Bool) (s : String) → ((if b then "" else s) == "") ≡ (b || s == "")
cleared true s = refl
cleared false s = refl

release-IsValid :
    (intent id : String) (p : CollectionIdPool) (i : ℕ)
    → get_if_allocated intent id p ≡ some i
    → IsValid p
    → IsValid (release intent i p)
unfolding release get_if_allocated
release-IsValid intent id p i hit v =
    let (x, at_i, is_owner) = find_index_hit (is_owned intent id) p.pool i hit in
    record {
      sized = ground (arith, v.sized, length-update_at i (leave_item intent) p.pool);
      counted = ground (
        arith,
        v.counted,
        contains_empty intent x.intents,
        pos-sub-one (count_if is_used (update_at i (leave_item intent) p.pool)),
        count_if-update_at is_used i (leave_item intent) p.pool x,
      );
      named =
          update_at_all (λ y. is_free y ≡ (y.collection_id == "")) i (leave_item intent) p.pool
            (λ y g. ground (
              arith,
              v.named i y,
              contains_empty intent y.intents,
              cleared (is_empty (remove intent y.intents)) y.collection_id,
            ))
            v.named;
      distinct = λ j k y z gy gz e used. ground (
        arith,
        get_elem?-update_at i j (leave_item intent) p.pool,
        get_elem?-update_at i k (leave_item intent) p.pool,
        v.distinct j k y z,
        v.distinct i k x z,
        v.distinct j i y x,
        v.named i x,
        v.named j y,
        v.named k z,
        contains_empty intent x.intents,
        String_eq.same_iff y.collection_id "",
        String_eq.same_iff z.collection_id "",
        String_eq.same_iff x.collection_id "",
      );
    }

-- Free keeps the invariant.
pub free-IsValid :
    (intent id : String) (p : CollectionIdPool) → IsValid p → IsValid (free intent id p)
unfolding free
free-IsValid intent id p v = elim (Option-cases (get_if_allocated intent id p)) [
  | inl absent ↦ rw (absent, free) v
  | inr (i, hit) ↦ rw (hit, free) (release-IsValid intent id p i hit v)
]
