-- ===== src/Telemetry/Monitor/Rounds.antt =====
-- What a notification leaves in the queue, and what a round of the goroutine does to the observers.
use k8s_inc.Prelude.{
  ℕ, suc, ◌≤◌, ◌<◌, ◌≡◌, refl, ◌⊎◌, inl, inr, Bool, true, Option, some, List, [], ◌∷◌, ◌++◌, arith,
  Bool-cases, Option-cases, ℕ_eq, String_eq, same_refl, length, is_empty,
}
use k8s_inc.Telemetry.Monitor.{
  StopChan, silent, signalled, closed, notify_round, notify_loop, deliver, keep_remaining, drop,
  run_round,
}

module _ {ℓ} {Update : Type ℓ} where
  -- NotifyChanged sends its update within two rounds, whatever was in the queue and whenever the
  -- goroutine takes from it: the queue then holds this update.
  pub notify_loop_sends :
      (taken : ℕ → Bool) (n : ℕ) (update : Update) (queue : Option Update)
      → notify_loop taken (suc (suc n)) update queue ≡ some (some update)
  unfolding notify_loop notify_round
  notify_loop_sends taken n update queue = elim (Option-cases queue) [
    | inl empty ↦ ground arith
    | inr (older, full) ↦ ground arith
  ]

module _ {ℓ} {Observer : Type ℓ} (stop : Observer → StopChan) where
  -- the observers whose stop channel is not closed
  abbrev pub open_ones : List Observer → List Observer
  open_ones [] = []
  open_ones (obs ∷ rest) = elim (stop obs) [
    | closed ↦ open_ones rest
    | signalled ↦ obs ∷ open_ones rest
    | silent ↦ obs ∷ open_ones rest
  ]

  -- the observers on whose stop channel nothing has happened
  abbrev pub silent_ones : List Observer → List Observer
  silent_ones [] = []
  silent_ones (obs ∷ rest) = elim (stop obs) [
    | closed ↦ silent_ones rest
    | signalled ↦ silent_ones rest
    | silent ↦ obs ∷ silent_ones rest
  ]

  StopChan-cases : (c : StopChan) → (c ≡ closed) ⊎ ((c ≡ signalled) ⊎ (c ≡ silent))
  StopChan-cases closed = inl refl
  StopChan-cases signalled = inr (inl refl)
  StopChan-cases silent = inr (inr refl)

  deliver-delivered : (i : ℕ) (xs : List Observer) → (deliver stop i xs).1 ≡ silent_ones xs
  unfolding deliver
  deliver-delivered i [] = refl
  deliver-delivered i (x ∷ xs) = elim (StopChan-cases (stop x)) [
    | inl e ↦ ground (arith, deliver-delivered (suc i) xs)
    | inr (inl e) ↦ ground (arith, deliver-delivered (suc i) xs)
    | inr (inr e) ↦ ground (arith, deliver-delivered (suc i) xs)
  ]

  deliver_above :
      (i : ℕ) (xs : List Observer) (j : ℕ) (removed : List ℕ)
      → (deliver stop i xs).0 ≡ j ∷ removed
      → i ≤ j
  unfolding deliver
  deliver_above i [] j removed h = absurd (ground arith)
  deliver_above i (x ∷ xs) j removed h = elim (StopChan-cases (stop x)) [
    | inl e ↦ ground arith
    | inr (inl e) ↦ ground (arith, deliver_above (suc i) xs j removed)
    | inr (inr e) ↦ ground (arith, deliver_above (suc i) xs j removed)
  ]

  keep_remaining_skips :
      (i : ℕ) (x : Observer) (xs : List Observer) (removed : List ℕ)
      → ((j : ℕ) (more : List ℕ) → removed ≡ j ∷ more → i < j)
      → keep_remaining i removed (x ∷ xs) ≡ x ∷ keep_remaining (suc i) removed xs
  unfolding keep_remaining
  keep_remaining_skips i x xs [] above = refl
  keep_remaining_skips i x xs (j ∷ removed) above =
      ground (arith, above j removed refl, ℕ_eq.same_iff i j)

  keep_nothing : (i : ℕ) (removed : List ℕ) → keep_remaining {Observer = Observer} i removed [] ≡ []
  unfolding keep_remaining
  keep_nothing i removed = refl

  keep_remaining_hits :
      (i : ℕ) (x : Observer) (xs : List Observer) (removed : List ℕ)
      → keep_remaining i (i ∷ removed) (x ∷ xs) ≡ keep_remaining (suc i) removed xs
  unfolding keep_remaining
  keep_remaining_hits i x xs removed = ground (arith, same_refl i)

  keep_remaining-deliver :
      (i : ℕ) (xs : List Observer) → keep_remaining i (deliver stop i xs).0 xs ≡ open_ones xs
  unfolding deliver
  keep_remaining-deliver i [] = keep_nothing i []
  keep_remaining-deliver i (x ∷ xs) =
      let removed = (deliver stop (suc i) xs).0 in
      let skips =
        keep_remaining_skips i x xs removed (λ j more e. deliver_above (suc i) xs j more e) in
      elim (StopChan-cases (stop x)) [
        | inl e ↦
            ground (arith, keep_remaining_hits i x xs removed, keep_remaining-deliver (suc i) xs)
        | inr (inl e) ↦ ground (arith, skips, keep_remaining-deliver (suc i) xs)
        | inr (inr e) ↦ ground (arith, skips, keep_remaining-deliver (suc i) xs)
      ]

  no_removed :
      (i : ℕ) (xs : List Observer) → is_empty (deliver stop i xs).0 ≡ true → open_ones xs ≡ xs
  unfolding deliver
  no_removed i [] h = refl
  no_removed i (x ∷ xs) h = elim (StopChan-cases (stop x)) [
    | inl e ↦ ground arith
    | inr (inl e) ↦ ground (arith, no_removed (suc i) xs)
    | inr (inr e) ↦ ground (arith, no_removed (suc i) xs)
  ]

  drop-append : (xs ys : List Observer) → drop (length xs) (xs ++ ys) ≡ ys
  unfolding drop
  drop-append [] ys = refl
  drop-append (x ∷ xs) ys = drop-append xs ys

  -- A round delivers the update, in order, to the observers on whose stop channel nothing has
  -- happened, removes exactly those whose stop channel is closed, and keeps those that were
  -- registered since it copied the list.
  pub run_round_correct :
      (observers registered : List Observer)
      → run_round stop observers (observers ++ registered)
        ≡ (silent_ones observers, open_ones observers ++ registered)
  unfolding run_round
  run_round_correct observers registered =
      elim (Bool-cases (is_empty (deliver stop 0 observers).0)) [
        | inl nobody ↦ ground (arith, deliver-delivered 0 observers, no_removed 0 observers nobody)
        | inr some_closed ↦ ground (
          arith,
          deliver-delivered 0 observers,
          keep_remaining-deliver 0 observers,
          drop-append observers registered,
        )
      ]
