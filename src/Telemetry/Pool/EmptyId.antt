-- ===== src/Telemetry/Pool/EmptyId.antt =====
-- The empty collection id also marks a free slot, so a request for it joins a free slot and counts
-- nothing.
use k8s_inc.Prelude.{String, ◌≡◌, false, arith, ◌==◌, ℕ_eq, String_eq, add, find_index, update_at}
use k8s_inc.Prelude.Int.{◌+ℤ◌, ℤ_eq}
use k8s_inc.Telemetry.Pool.{panicked, new_pool, alloc_or_get}

-- In a new pool of one slot, an allocation for any id that is not empty panics when a request with
-- the empty id came before it.
pub empty_id_panics :
    (intent j id : String)
    → (id == "") ≡ false
    → (alloc_or_get j id (alloc_or_get intent "" (new_pool 1)).1).0 ≡ panicked
unfolding alloc_or_get new_pool find_index update_at add ◌+ℤ◌
empty_id_panics intent j id ne = ground (arith, String_eq.same_iff "" id, String_eq.same_iff id "")
