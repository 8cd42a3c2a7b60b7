-- ===== src/Telemetry/ChangeLog/Rollback.antt =====
-- Rollback as the undoing of a list of actions.
use mathlib.Core.List.{reverse, reverse-append}
use k8s_inc.Prelude.{
  ℕ, zero, suc, ◌≤◌, ◌≡◌, refl, inl, inr, List, [], ◌∷◌, ◌++◌, arith, ℕ_eq, String_eq, length, take,
  take-suc, get_elem?_of_lt,
}
use k8s_inc.Prelude.Int.{ℤ, pos, ◌-ℤ◌, pos-sub-one, ℤ_eq}
use k8s_inc.Prelude.Result.{Result, ok, err, panicked, Result-cases}
use k8s_inc.Telemetry.ChangeLog.{
  StateChangeAction, ChangeLog, reverse_action, rounds, Undo, undone, undo_panicked, rollback_loop,
  rollback,
}

module _ {S E : Type 0} (applier : StateChangeAction → S → Result E (Unit {0}) × S) where
  -- Undo a list of actions from its head on, whatever fails, and collect the failures.
  unfoldable pub undo_all : List StateChangeAction → List StateChangeAction → ℤ → S → Undo S
  undo_all [] undo_failed done s = undone undo_failed done s
  undo_all (a ∷ rest) undo_failed done s = elim (applier (reverse_action a) s).0 [
    | ok _ ↦ undo_all rest undo_failed (done -ℤ pos 1) (applier (reverse_action a) s).1
    | err _ ↦ undo_all rest (undo_failed ++ a ∷ []) (done -ℤ pos 1) (applier (reverse_action a) s).1
    | panicked ↦ undo_panicked
  ]

  rollback_loop-eq-undo_all :
      (actions : List StateChangeAction) (i : ℕ) (undo_failed : List StateChangeAction) (done : ℤ)
      (s : S)
      → i ≤ length actions
      → rollback_loop applier actions i undo_failed done s
        ≡ undo_all (reverse (take i actions)) undo_failed done s
  unfolding rollback_loop undo_all
  rollback_loop-eq-undo_all actions zero undo_failed done s h = refl
  rollback_loop-eq-undo_all actions (suc i) undo_failed done s h =
      let (a, at_i) = get_elem?_of_lt actions i (omega arith) in
      let last = take-suc i actions a at_i in
      rw (last, reverse-append (take i actions) (a ∷ []))
        (elim (Result-cases (applier (reverse_action a) s).0) [
          | inl good ↦
              rw (at_i, good, rollback_loop)
                (rollback_loop-eq-undo_all actions i undo_failed (done -ℤ pos 1)
                  (applier (reverse_action a) s).1 (omega arith))
          | inr (inl (e, bad)) ↦
              rw (at_i, bad, rollback_loop)
                (rollback_loop-eq-undo_all actions i (undo_failed ++ a ∷ []) (done -ℤ pos 1)
                  (applier (reverse_action a) s).1 (omega arith))
          | inr (inr bad) ↦ rw (at_i, bad, rollback_loop) refl
        ])

  -- When doneCounter counts no more actions than there are, Rollback undoes those that it counts, the
  -- last one first, as long as nothing panics, goes on after a
  -- failure, and returns the actions whose undoing failed.
  pub rollback-eq-undo_all :
      (c : ChangeLog) (s : S)
      → rounds c.done_counter ≤ length c.actions
      → rollback applier c s
        ≡ undo_all (reverse (take (rounds c.done_counter) c.actions)) [] c.done_counter s
  unfolding rollback
  rollback-eq-undo_all c s h =
      rollback_loop-eq-undo_all c.actions (rounds c.done_counter) [] c.done_counter s h

pub one_back : (i : ℕ) → pos (suc i) -ℤ pos 1 -ℤ pos 1 ≡ pos i -ℤ pos 1
one_back i = rw (pos-sub-one i)
