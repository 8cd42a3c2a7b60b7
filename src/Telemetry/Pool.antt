-- ===== src/Telemetry/Pool.antt =====
-- src/kinda-sdn/telemetry/pool.go: the slots that stand for collection ids.
-- Every method locks one slot at a time; here a method is one step. A loop over the slots is a
-- search of the list `pool`, which has `maxSize` entries from `newPool` on.
pub mod Invariant
use k8s_inc.Prelude.{
  ℕ, ◌≡◌, Bool, true, false, ◌&&◌, not, Option, none, some, List, [], ◌∷◌, String, ◌==◌, String_eq,
  contains, add, remove, is_empty, find_index, update_at, get_elem?, replicate, if◌then◌else◌,
}
pub mod Alloc
pub mod Holders
pub mod EmptyId
mod Tests
use k8s_inc.Prelude.Int.{ℤ, pos, ◌+ℤ◌, ◌-ℤ◌, leb_ℤ}

pub record PoolItem : Type 0 where
  pub collection_id : String
  pub intents : List String

pub record CollectionIdPool : Type 0 where
  pub max_size : ℕ
  pub pool : List PoolItem
  pub alloc_counter : ℤ

abbrev pub free_item : PoolItem
free_item = record { collection_id = ""; intents = [] }

unfoldable pub new_pool : ℕ → CollectionIdPool
new_pool max_size = record {
  max_size = max_size;
  pool = replicate max_size free_item;
  alloc_counter = pos 0;
}

-- What `AllocOrGet` does: it returns an index, returns an error, or panics.
pub data Allocation : Type 0 where
  allocated : ℕ → Allocation
  pool_full panicked : Allocation

-- the test of each loop
abbrev pub is_named : String → PoolItem → Bool
is_named id item = item.collection_id == id

abbrev pub is_free : PoolItem → Bool
is_free item = is_empty item.intents

abbrev pub is_owned : String → String → PoolItem → Bool
is_owned intent id item = contains intent item.intents && item.collection_id == id

abbrev pub is_taken : String → PoolItem → Bool
is_taken id item = not (is_empty item.intents) && item.collection_id == id

-- the writes of each loop
abbrev pub join_item : String → PoolItem → PoolItem
join_item intent item = record item { intents = add intent item.intents }

abbrev pub claim_item : String → String → PoolItem → PoolItem
claim_item intent id item = record { collection_id = id; intents = add intent item.intents }

abbrev pub leave_item : String → PoolItem → PoolItem
leave_item intent item =
    let rest = remove intent item.intents in
    record { collection_id = if is_empty rest then "" else item.collection_id; intents = rest }

-- The part of `AllocOrGet` behind the first loop: reserve by the counter, then take a free slot.
unfoldable pub claim : String → String → CollectionIdPool → Allocation × CollectionIdPool
claim intent id p =
    if leb_ℤ (pos p.max_size) p.alloc_counter
    then (pool_full, p)
    else elim (find_index is_free p.pool) [
      | some i ↦ (
        allocated i,
        record p {
          pool = update_at i (claim_item intent id) p.pool;
          alloc_counter = p.alloc_counter +ℤ pos 1;
        },
      )
      | none ↦ (panicked, record p { alloc_counter = p.alloc_counter +ℤ pos 1 })
    ]

unfoldable pub alloc_or_get : String → String → CollectionIdPool → Allocation × CollectionIdPool
unfolding claim
alloc_or_get intent id p = elim (find_index (is_named id) p.pool) [
  | some i ↦ (allocated i, record p { pool = update_at i (join_item intent) p.pool })
  | none ↦ claim intent id p
]

unfoldable pub get_if_allocated : String → String → CollectionIdPool → Option ℕ
get_if_allocated intent id p = find_index (is_owned intent id) p.pool

unfoldable pub get_if_any_allocated : String → CollectionIdPool → Option ℕ
get_if_any_allocated id p = find_index (is_taken id) p.pool

-- The body of the loop of `Free`, at the slot that it found: the last intent to leave frees it.
unfoldable pub release : String → ℕ → CollectionIdPool → CollectionIdPool
release intent i p = record p {
  pool = update_at i (leave_item intent) p.pool;
  alloc_counter = elim (get_elem? p.pool i) [
    | some item ↦
        if is_empty (remove intent item.intents) then p.alloc_counter -ℤ pos 1 else p.alloc_counter
    | none ↦ p.alloc_counter
  ];
}

unfoldable pub free : String → String → CollectionIdPool → CollectionIdPool
unfolding release
free intent id p = elim (get_if_allocated intent id p) [ none ↦ p | some i ↦ release intent i p ]
