-- ===== src/Telemetry/ChangeLog/Commit.antt =====
-- What Commit did when it returns.
use k8s_inc.Prelude.{
  zero, suc, ◌+◌, ◌≤◌, ◌≡◌, refl, ap, inl, inr, List, [], ◌∷◌, ◌++◌, arith, ℕ_eq, String_eq, length,
}
use k8s_inc.Prelude.Int.{neg_part, ℤ, pos, negsuc, ◌+ℤ◌, ◌-ℤ◌, ℤ_eq}
use k8s_inc.Prelude.Result.{Result, ok, err, Result-cases}
use k8s_inc.Telemetry.ChangeLog.{StateChangeAction, ChangeLog, commit_loop, commit, rounds}

rounds-add_one :
    (done : ℤ)
    → neg_part done ≤ 1
    → (rounds (done +ℤ pos 1) ≡ suc (rounds done)) × (neg_part (done +ℤ pos 1) ≤ 1)
unfolding ◌+ℤ◌
rounds-add_one (pos n) h = ground arith
rounds-add_one (negsuc zero) h = ground arith
rounds-add_one (negsuc (suc n)) h = absurd (omega arith)

rounds-sub_one : (done : ℤ) → neg_part done ≤ 1 → pos (rounds done) -ℤ pos 1 ≡ done
unfolding ◌-ℤ◌
rounds-sub_one (pos n) h = ground arith
rounds-sub_one (negsuc zero) h = ground arith
rounds-sub_one (negsuc (suc n)) h = absurd (omega arith)

module _ {S E : Type 0} (applier : StateChangeAction → S → Result E (Unit {0}) × S) where
  -- all the actions succeed, one after the other, on the way from `s` to `t`
  abbrev pub Ran : List StateChangeAction → S → S → Type 0
  Ran [] s t = s ≡ t
  Ran (a ∷ rest) s t = ((applier a s).0 ≡ ok tt) × Ran rest (applier a s).1 t

  -- the actions that succeeded before the error, and the failing one
  pub record Failure (actions : List StateChangeAction) (e : E) (s t : S) : Type 0 where
    pub before : List StateChangeAction
    pub failing : StateChangeAction
    pub after : List StateChangeAction
    pub state : S
    pub split : actions ≡ before ++ failing ∷ after
    pub ran : Ran before s state
    pub fails : (applier failing state).0 ≡ err e
    pub ends : (applier failing state).1 ≡ t

  commit_loop_ok :
      (actions : List StateChangeAction) (done : ℤ) (s : S)
      → neg_part done ≤ 1
      → (commit_loop applier actions done s).0 ≡ ok tt
      → Ran actions s (commit_loop applier actions done s).2
        × (rounds (commit_loop applier actions done s).1 ≡ rounds done + length actions)
  unfolding commit_loop
  commit_loop_ok [] done s start h = (refl, omega arith)
  commit_loop_ok (a ∷ rest) done s start h = elim (Result-cases (applier a s).0) [
    | inl good ↦
        let (next, start') = rounds-add_one done start in
        let (ran, counted) =
          commit_loop_ok rest (done +ℤ pos 1) (applier a s).1 start'
            (rw (good, commit_loop) at h) in
        rw (good, commit_loop) ((refl, ran), omega (arith, next, counted))
    | inr bad ↦ ground arith
  ]

  commit_loop_err :
      (actions : List StateChangeAction) (done : ℤ) (s : S) (e : E)
      → neg_part done ≤ 1
      → (commit_loop applier actions done s).0 ≡ err e
      → (f : Failure actions e s (commit_loop applier actions done s).2) × (rounds
            (commit_loop applier actions done s).1
          ≡ rounds done + length f.before)
  unfolding commit_loop
  commit_loop_err [] done s e start h = cc
  commit_loop_err (a ∷ rest) done s e start h = elim (Result-cases (applier a s).0) [
    | inl good ↦
        let (next, start') = rounds-add_one done start in
        let (f, counted) =
          commit_loop_err rest (done +ℤ pos 1) (applier a s).1 e start'
            (rw (good, commit_loop) at h) in
        rw (good, commit_loop)
          (
            record {
              before = a ∷ f.before;
              failing = f.failing;
              after = f.after;
              state = f.state;
              split = ap (λ (l : List StateChangeAction). a ∷ l) f.split;
              ran = (good, f.ran);
              fails = f.fails;
              ends = f.ends;
            },
            omega (arith, next, counted),
          )
    | inr (inl (x, bad)) ↦
        rw (bad, commit_loop)
          (
            record {
              before = [];
              failing = a;
              after = rest;
              state = s;
              split = refl;
              ran = refl;
              fails = ground arith;
              ends = refl;
            },
            omega arith,
          )
    | inr (inr bad) ↦ ground arith
  ]

  commit_loop_start :
      (actions : List StateChangeAction) (done : ℤ) (s : S)
      → neg_part done ≤ 1
      → neg_part (commit_loop applier actions done s).1 ≤ 1
  unfolding commit_loop
  commit_loop_start [] done s start = start
  commit_loop_start (a ∷ rest) done s start =
      ground
        (arith, rounds-add_one done start, commit_loop_start rest (done +ℤ pos 1) (applier a s).1)

  -- `doneCounter` is never below -1
  pub done_counter-commit :
      (c : ChangeLog) (s : S)
      → c.done_counter ≡ negsuc 0
      → pos (rounds (commit applier c s).1.done_counter) -ℤ pos 1
        ≡ (commit applier c s).1.done_counter
  unfolding commit
  done_counter-commit c s fresh =
      rounds-sub_one (commit applier c s).1.done_counter
        (commit_loop_start c.actions c.done_counter s (rw fresh (omega arith)))

  -- A Commit of a new log that returns no error ran every action, in order, and counts them all.
  pub commit_ok :
      (c : ChangeLog) (s : S)
      → c.done_counter ≡ negsuc 0
      → (commit applier c s).0 ≡ ok tt
      → Ran c.actions s (commit applier c s).2
        × (rounds (commit applier c s).1.done_counter ≡ length c.actions)
        × ((commit applier c s).1.actions ≡ c.actions)
  unfolding commit
  commit_ok c s fresh h =
      let (ran, counted) = commit_loop_ok c.actions c.done_counter s (rw fresh (omega arith)) h in
      (ran, omega (arith, counted, ap rounds fresh), refl)

  -- A Commit of a new log that returns an error stopped at the first action that failed, and
  -- counts the actions before it.
  pub commit_err :
      (c : ChangeLog) (s : S) (e : E)
      → c.done_counter ≡ negsuc 0
      → (commit applier c s).0 ≡ err e
      → (f : Failure c.actions e s (commit applier c s).2) × (rounds
            (commit applier c s).1.done_counter
          ≡ length f.before)
        × ((commit applier c s).1.actions ≡ c.actions)
  unfolding commit
  commit_err c s e fresh h =
      let (f, counted) = commit_loop_err c.actions c.done_counter s e (rw fresh (omega arith)) h in
      (f, omega (arith, counted, ap rounds fresh), refl)
