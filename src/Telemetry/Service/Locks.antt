-- ===== src/Telemetry/Service/Locks.antt =====
-- src/kinda-sdn/telemetry/service.go, the locks of the intents. `intentMapLock` makes each method
-- one step; a lock of the map is there with its state, true for held.
use k8s_inc.Prelude.{
  String, ◌≡◌, ◌≢◌, ◌↔◌, Bool, true, false, Option, none, some, List, arith, if◌then◌else◌, ℕ_eq,
  String_eq, same_refl,
}
use k8s_inc.Prelude.Maps.{lookup, insert, erase, has, lookup-insert}

abbrev pub IntentLocks : Type 0
IntentLocks = List (String × Bool)

-- the result and the locks after the call
unfoldable pub lock_intent : String → IntentLocks → Bool × IntentLocks
lock_intent intent_id locks = elim (lookup intent_id locks) [
  | none ↦ (true, insert intent_id true locks)
  | some held ↦ if held then (false, locks) else (true, insert intent_id true locks)
]

-- whether the lock exists, whether it was taken, and the locks after the call
unfoldable pub try_lock_intent_if_exists : String → IntentLocks → Bool × Bool × IntentLocks
try_lock_intent_if_exists intent_id locks = elim (lookup intent_id locks) [
  | none ↦ (false, true, locks)
  | some held ↦ if held then (true, false, locks) else (true, true, insert intent_id true locks)
]

-- `none` is the failure of an unlock of a lock that is missing or not held.
unfoldable pub unlock_intent : String → IntentLocks → Option IntentLocks
unlock_intent intent_id locks = elim (lookup intent_id locks) [
  | none ↦ none
  | some held ↦ if held then some (insert intent_id false locks) else none
]

unfoldable pub delete_intent_lock : String → IntentLocks → IntentLocks
delete_intent_lock intent_id locks = erase intent_id locks

-- A lock is taken by the call exactly when it succeeds, which it does exactly when nobody held it;
-- afterwards it is held in any case, and no other intent's lock has changed.
pub lock_intent_exclusive :
    (intent other : String) (locks : IntentLocks)
    → (((lock_intent intent locks).0 ≡ true) ↔ (lookup intent locks ≢ some true))
      × (lookup intent (lock_intent intent locks).1 ≡ some true)
      × (intent ≢ other → lookup other (lock_intent intent locks).1 ≡ lookup other locks)
unfolding lock_intent
lock_intent_exclusive intent other locks = ground (
  arith,
  lookup-insert intent intent true locks,
  lookup-insert intent other true locks,
  String_eq.same_iff intent other,
  same_refl intent,
)

-- The call for a removal takes a lock that exists and is free, reports one that is held as taken
-- by somebody else, and creates none.
pub try_lock_never_creates :
    (intent other : String) (locks : IntentLocks)
    → let (exists, taken, after) = try_lock_intent_if_exists intent locks in
      ((exists ≡ true) ↔ (has intent locks ≡ true))
      × ((exists ≡ false) → after ≡ locks)
      × (((taken ≡ false)) ↔ (lookup intent locks ≡ some true))
      × (has other after ≡ has other locks)
unfolding try_lock_intent_if_exists
try_lock_never_creates intent other locks = ground (
  arith,
  lookup-insert intent other true locks,
  String_eq.same_iff intent other,
  same_refl intent,
)
