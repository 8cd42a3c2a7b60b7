-- ===== src/Telemetry/Monitor.antt =====
-- src/kinda-sdn/telemetry/sourcecapabilitymonitor.go: capability updates go through a queue of one
-- place to a goroutine that passes them on to the observers. Observers and updates are type
-- parameters. A send to an observer's channel, which waits for the observer, is a delivery.
pub mod Rounds
mod Tests
use k8s_inc.Prelude.{
  ℕ, zero, suc, ◌+◌, ◌-◌, ◌*◌, ◌/◌, ◌%◌, ◌^◌, ◌≤◌, ◌<◌, String, ◌≡◌, refl, sym, ap, ◌∙◌, subst, ◌≢◌,
  ◌↔◌, ◌⊎◌, inl, inr, Bool, true, false, not, ◌&&◌, ◌||◌, Option, none, some, List, [], ◌∷◌, ◌++◌,
  map, arith, ltb, leb, if◌then◌else◌, ltb→lt, lt→ltb, leb→le, le→leb, Bool-cases, Option-cases, Eq,
  ◌==◌, ℕ_eq, String_eq, contains, add, remove, contains-add, contains-remove, add_not_empty,
  remove_empty, contains_empty, same_refl, is_some, length, is_empty, get_elem?, replicate,
  find_index, update_at, count_if, length-append, length-update_at, length-replicate, count_if-le,
  get_elem?-update_at, count_if-update_at, find_index_hit, find_index_first, find_index_miss,
  get_elem?-lt, update_at_all, find_index-update_at, take, take-suc, take-append, get_elem?_of_lt,
}

-- What the receive from `stopChan` finds: nothing, a value, or that the channel is closed.
pub data StopChan : Type 0 where
  silent signalled closed : StopChan

module _ {ℓ} {Update : Type ℓ} where
  -- One round of the loop of `NotifyChanged`: whether the update was sent, and the queue after it.
  unfoldable pub notify_round : Update → Option Update → Bool × Option Update
  notify_round update none = (true, some update)
  notify_round update (some older) = (false, none)

  -- `taken n` is whether the goroutine empties the queue before the round with `n` rounds behind it.
  -- The inner `none` is the empty queue, the outer one that the rounds were not enough.
  pub notify_loop : (ℕ → Bool) → ℕ → Update → Option Update → Option (Option Update)
  unfolding notify_round
  notify_loop taken zero update queue = none
  notify_loop taken (suc n) update queue =
      let (sent, queue') = notify_round update (if taken n then none else queue) in
      let more = notify_loop taken n update queue' in if sent then some queue' else more

module _ {ℓ} {Observer : Type ℓ} where
  abbrev pub register_downstream_observer : Observer → List Observer → List Observer
  register_downstream_observer chans observers = observers ++ chans ∷ []

  -- the second loop, from index `i` on, with the indices behind `j`
  pub keep_remaining : ℕ → List ℕ → List Observer → List Observer
  keep_remaining i removed [] = []
  keep_remaining i [] (obs ∷ rest) = obs ∷ keep_remaining (suc i) [] rest
  keep_remaining i (j ∷ removed) (obs ∷ rest) =
      if i == j
      then keep_remaining (suc i) removed rest
      else obs ∷ keep_remaining (suc i) (j ∷ removed) rest

  -- the third loop: the observers that were registered since the copy was made
  pub drop : ℕ → List Observer → List Observer
  drop zero observers = observers
  drop (suc n) [] = []
  drop (suc n) (obs ∷ rest) = drop n rest

  module _ (stop : Observer → StopChan) where
    -- The first loop of `run` over the copy of the observers, from index `i` on: the indices of the
    -- removed observers and the observers that the update is delivered to.
    pub deliver : ℕ → List Observer → List ℕ × List Observer
    deliver i [] = ([], [])
    deliver i (obs ∷ rest) =
        let (removed, delivered) = deliver (suc i) rest in
        elim (stop obs) [
          | closed ↦ (i ∷ removed, delivered)
          | signalled ↦ (removed, delivered)
          | silent ↦ (removed, obs ∷ delivered)
        ]

    -- The body of the loop of `run`, with the copy and the list of observers when it is locked the
    -- second time: the observers that got the update, and the list after it.
    unfoldable pub run_round : List Observer → List Observer → List Observer × List Observer
    unfolding deliver keep_remaining drop
    run_round observers_shallow_copy downstream_observers =
        let (removed, delivered) = deliver 0 observers_shallow_copy in
        if is_empty removed then (delivered, downstream_observers) else (
          delivered,
          keep_remaining 0 removed observers_shallow_copy
              ++ drop (length observers_shallow_copy) downstream_observers,
        )
