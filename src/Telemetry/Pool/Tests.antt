-- ===== src/Telemetry/Pool/Tests.antt =====
-- The pool at small sizes.
use k8s_inc.Prelude.{◌<◌, ◌≡◌, refl, none, some, ℕ_eq, String_eq, add, find_index, update_at}
use k8s_inc.Prelude.Int.{◌+ℤ◌, ℤ_eq}
use k8s_inc.Telemetry.Pool.{
  CollectionIdPool, new_pool, alloc_or_get, free, get_if_allocated, get_if_any_allocated, panicked,
}
use k8s_inc.Telemetry.Pool.Alloc.{alloc_or_get_found}
use k8s_inc.Telemetry.Pool.EmptyId.{empty_id_panics}
use k8s_inc.Telemetry.Pool.Holders.{get-alloc_or_get, get-free}
use k8s_inc.Telemetry.Pool.Invariant.{IsValid, new_pool-IsValid, alloc_or_get-IsValid, free-IsValid}

abbrev one_taken : CollectionIdPool
one_taken = (alloc_or_get "intent" "first" (new_pool 2)).1

one_taken-IsValid : IsValid one_taken
one_taken-IsValid = alloc_or_get-IsValid "intent" "first" (new_pool 2) refl (new_pool-IsValid 2)

get-alloc_or_get_example :
    get_if_allocated "intent" "first" (alloc_or_get "other" "second" one_taken).1
    ≡ get_if_allocated "intent" "first" one_taken
unfolding alloc_or_get new_pool find_index update_at add ◌+ℤ◌
get-alloc_or_get_example =
    get-alloc_or_get "other" "second" "intent" "first" one_taken 1 refl one_taken-IsValid refl

get-free_example : get_if_allocated "intent" "first" (free "intent" "first" one_taken) ≡ none
get-free_example = get-free "intent" "first" "intent" "first" one_taken one_taken-IsValid

alloc_or_get-IsValid_example : IsValid (alloc_or_get "other" "second" one_taken).1
alloc_or_get-IsValid_example =
    alloc_or_get-IsValid "other" "second" one_taken refl one_taken-IsValid

free-IsValid_example : IsValid (free "intent" "first" one_taken)
free-IsValid_example = free-IsValid "intent" "first" one_taken one_taken-IsValid

alloc_or_get_found_example :
    (1 < one_taken.max_size)
    × (get_if_allocated "other" "second" (alloc_or_get "other" "second" one_taken).1 ≡ some 1)
    × (get_if_any_allocated "second" (alloc_or_get "other" "second" one_taken).1 ≡ some 1)
unfolding alloc_or_get new_pool find_index update_at add ◌+ℤ◌
alloc_or_get_found_example =
    alloc_or_get_found "other" "second" one_taken 1 refl one_taken-IsValid refl

empty_id_panics_example :
    (alloc_or_get "j" "id" (alloc_or_get "intent" "" (new_pool 1)).1).0 ≡ panicked
empty_id_panics_example = empty_id_panics "intent" "j" "id" refl
