-- ===== src/Telemetry/Traversals/Edges.antt =====
-- The ends of the telemetry on a path, and the switches between them.
use k8s_inc.Prelude.{
  ℕ, zero, suc, ◌+◌, ◌-◌, ◌≤◌, ◌<◌, String, ◌≡◌, refl, sym, ap, subst, ◌≢◌, ◌↔◌, ◌⊎◌, inl, inr,
  Bool, true, false, Option, none, some, List, arith, ltb, ltb→lt, Bool-cases, Option-cases, ◌==◌,
  ℕ_eq, String_eq, contains, add, contains-add, length, get_elem?,
}
use k8s_inc.Model.Graph.{TopologyGraph}
use k8s_inc.Programs.{Registry}
use k8s_inc.Telemetry.Entities.{TelemetryEntities}
use k8s_inc.Telemetry.Traversals.{
  SourceSink, compatible_at, scan_down, scan_up, fill_transits, find_on_path,
}

module _ {ℓ} {D : Type ℓ} (registry : Registry D) (g : TopologyGraph) (path : List String) where
  abbrev pub compat : ℕ → Option Bool
  compat = compatible_at registry g path

  scan_down_hit :
      (n i : ℕ)
      → scan_down registry g path n ≡ some (some i)
      → (i < n) × (compat i ≡ some true) × ((k : ℕ) → i < k → k < n → compat k ≡ some false)
  unfolding scan_down
  scan_down_hit zero i h = ground arith
  scan_down_hit (suc n) i h = elim (Option-cases (compat n)) [
    | inl panics ↦ ground arith
    | inr (true, good) ↦
        let e : n ≡ i = ground arith in
        (
          omega (arith, e),
          subst (λ m. compat m ≡ some true) e good,
          λ k lo hi. absurd (omega (arith, e)),
        )
    | inr (false, bad) ↦
        let (lt, hit, rest) = scan_down_hit n i (rw (bad, scan_down) at h) in
        (
          omega (arith, lt),
          hit,
          λ k lo hi. elim (Bool-cases (ltb k n)) [
            | inl below ↦ rest k lo (ltb→lt k n below)
            | inr last ↦ let e : n ≡ k = ground arith in subst (λ m. compat m ≡ some false) e bad
          ],
        )
  ]

  scan_up_stop :
      (rounds j k : ℕ)
      → scan_up registry g path rounds j ≡ some k
      → (j ≤ k)
        × (k ≤ j + rounds)
        × (k < j + rounds → compat k ≡ some true)
        × ((m : ℕ) → j ≤ m → m < k → compat m ≡ some false)
  unfolding scan_up
  scan_up_stop zero j k h =
      let e : j ≡ k = ground arith in
      (
        omega (arith, e),
        omega (arith, e),
        λ lt. absurd (omega (arith, e)),
        λ m lo hi. absurd (omega (arith, e)),
      )
  scan_up_stop (suc rounds) j k h = elim (Option-cases (compat j)) [
    | inl panics ↦ ground arith
    | inr (true, good) ↦
        let e : j ≡ k = ground arith in
        (
          omega (arith, e),
          omega (arith, e),
          λ lt. subst (λ m. compat m ≡ some true) e good,
          λ m lo hi. absurd (omega (arith, e)),
        )
    | inr (false, bad) ↦
        let (lo', hi', hit, rest) = scan_up_stop rounds (suc j) k (rw (bad, scan_up) at h) in
        (
          omega (arith, lo'),
          omega (arith, hi'),
          λ lt. hit (omega (arith, lt)),
          λ m lo hi. elim (Bool-cases (ltb j m)) [
            | inl above ↦ rest m (ltb→lt j m above) hi
            | inr first ↦ let e : j ≡ m = ground arith in subst (λ x. compat x ≡ some false) e bad
          ],
        )
  ]

  -- a compatible switch of the path at an index from `lo` on and below `hi`
  abbrev pub Between : ℕ → ℕ → String → Type 0
  Between lo hi name =
      (k : ℕ) × (lo ≤ k) × (k < hi) × (compat k ≡ some true) × (get_elem? path k ≡ some name)

  widen :
      (rounds k : ℕ) (name : String)
      → Between (suc k) (suc k + rounds) name
      → Between k (k + suc rounds) name
  widen rounds k name (m, lo, hi, good, at_m) = (m, omega arith, omega arith, good, at_m)

  narrow :
      (rounds k : ℕ) (name : String)
      → Between k (k + suc rounds) name
      → ((compat k ≡ some true) × (get_elem? path k ≡ some name))
        ⊎ Between (suc k) (suc k + rounds) name
  narrow rounds k name (m, lo, hi, good, at_m) = elim (Bool-cases (ltb k m)) [
    | inl above ↦ inr (m, ltb→lt k m above, omega arith, good, at_m)
    | inr first ↦
        let e : m ≡ k = ground arith in
        inl (
          subst (λ x. compat x ≡ some true) e good,
          subst (λ x. get_elem? path x ≡ some name) e at_m,
        )
  ]

  -- the source's index is compatible, so the scan for the sink does not pass it
  sink_not_past :
      (i j : ℕ) → (i < j → compat i ≡ some false) → compat i ≡ some true → j ≤ 1 + i → j ≢ i → j < i
  sink_not_past i j past good hi ne = elim (Bool-cases (ltb i j)) [
    | inl above ↦ ground (arith, past (ltb→lt i j above))
    | inr below ↦ ground arith
  ]

  fill_adds :
      (rounds k : ℕ) (before after : List String)
      → fill_transits registry g path rounds k before ≡ some after
      → (name : String)
      → (contains name after ≡ true) ↔ ((contains name before ≡ true) ⊎ Between k (k + rounds) name)
  unfolding fill_transits
  fill_adds zero k before after h name =
      let e : before ≡ after = ground arith in
      (
        λ c. inl (subst (λ l. contains name l ≡ true) (sym e) c),
        λ d. elim d [
          | inl c ↦ subst (λ l. contains name l ≡ true) e c
          | inr (m, lo, hi, good, at_m) ↦ absurd (omega arith)
        ],
      )
  fill_adds (suc rounds) k before after h name = elim (Option-cases (compat k)) [
    | inl panics ↦ ground arith
    | inr (false, bad) ↦
        let ih = fill_adds rounds (suc k) before after (rw (bad, fill_transits) at h) name in
        (
          λ c. elim (ih.0 c) [ inl old ↦ inl old | inr b ↦ inr (widen rounds k name b) ],
          λ d. elim d [
            | inl old ↦ ih.1 (inl old)
            | inr b ↦ elim (narrow rounds k name b) [
              | inl (good, at_k) ↦ ground arith
              | inr later ↦ ih.1 (inr later)
            ]
          ],
        )
    | inr (true, good) ↦ elim (Option-cases (get_elem? path k)) [
      | inl panics ↦ ground arith
      | inr (x, at_k) ↦
          let ih =
            fill_adds rounds (suc k) (add x before) after (rw (good, at_k, fill_transits) at h)
              name in
          (
            λ c. elim (ih.0 c) [
              | inr b ↦ inr (widen rounds k name b)
              | inl old ↦ elim (Bool-cases (x == name)) [
                | inr other ↦ inl (ground (arith, contains-add x name before))
                | inl this ↦
                    inr
                      (k, omega arith, omega arith, good, ground (arith, String_eq.same_iff x name))
              ]
            ],
            λ d. elim d [
              | inl old ↦ ih.1 (inl (ground (arith, contains-add x name before)))
              | inr b ↦ elim (narrow rounds k name b) [
                | inl (good', at_k') ↦
                    ih.1
                      (inl (ground (arith, contains-add x name before, String_eq.same_iff x name)))
                | inr later ↦ ih.1 (inr later)
              ]
            ],
          )
    ]
  ]

  -- What findSourceSinkEdgesAndFillTransit promises of the two indices and of the transits.
  pub record IsSplit (ss : SourceSink) (before after : List String) : Type 0 where
    pub same_path : ss.reversed_path ≡ path
    pub source_inside : suc ss.source_path_idx < length path
    pub source_compatible : compat ss.source_path_idx ≡ some true
    pub source_first :
        (k : ℕ) → ss.source_path_idx < k → suc k < length path → compat k ≡ some false
    pub sink_after_source : ss.sink_path_idx < ss.source_path_idx
    pub sink_inside : 1 ≤ ss.sink_path_idx
    pub sink_compatible : compat ss.sink_path_idx ≡ some true
    pub sink_last : (k : ℕ) → 1 ≤ k → k < ss.sink_path_idx → compat k ≡ some false
    pub transits :
        (name : String)
        → (contains name after ≡ true)
          ↔ ((contains name before ≡ true) ⊎ Between (suc ss.sink_path_idx) ss.source_path_idx name)

  IsSplit-from :
      (i j : ℕ) (before after : List String)
      → scan_down registry g path (length path - 1) ≡ some (some i)
      → scan_up registry g path i 1 ≡ some j
      → j ≢ i
      → 0 < i
      → fill_transits registry g path (i - suc j) (suc j) before ≡ some after
      → IsSplit
          (record { reversed_path = path; source_path_idx = i; sink_path_idx = j })
          before
          after
  IsSplit-from i j before after down up ne positive fill =
      let (lt, source, first) = scan_down_hit (length path - 1) i down in
      let (lo, hi, hit, last) = scan_up_stop i 1 j up in
      let below : j < i =
        omega
          (arith, lo, hi, sink_not_past i j (λ past. last i positive (omega arith)) source hi ne) in
      record {
        same_path = refl;
        source_inside = omega (arith, lt);
        source_compatible = source;
        source_first = λ k a b. first k a (omega arith);
        sink_after_source = below;
        sink_inside = lo;
        sink_compatible = hit (omega arith);
        sink_last = last;
        transits = λ name.
            subst
              (λ n.
                (contains name after ≡ true)
                ↔ ((contains name before ≡ true) ⊎ Between (suc j) n name))
              (omega arith) (fill_adds (i - suc j) (suc j) before after fill name);
      }

  scan_down_lone :
      (n : ℕ)
      → compat 0 ≡ some true
      → ((k : ℕ) → 0 < k → k < suc n → compat k ≡ some false)
      → scan_down registry g path (suc n) ≡ some (some 0)
  unfolding scan_down
  scan_down_lone zero hit miss = rw (hit, scan_down) refl
  scan_down_lone (suc n) hit miss =
      rw (miss (suc n) (omega arith) (omega arith), scan_down)
        (scan_down_lone n hit (λ k lo hi. miss k lo (omega arith)))

-- What is found on a path whose source index is not 0: the source index is that of the compatible
-- switch nearest to the source, the sink index that of the one nearest to the target (which is
-- not itself considered), both are inside the path, the sink's index is the smaller one, and
-- exactly the compatible switches strictly between them are added to the transits.
pub find_on_path_correct {ℓ} :
    {D : Type ℓ} (registry : Registry D) (g : TopologyGraph) (path : List String)
    (entities entities' : TelemetryEntities) (ss : SourceSink)
    → find_on_path registry g path entities ≡ some (some ss, entities')
    → 0 < ss.source_path_idx
    → IsSplit registry g path ss entities.transits entities'.transits
unfolding find_on_path
find_on_path_correct registry g path entities entities' ss h positive =
    elim (Option-cases (scan_down registry g path (length path - 1))) [
      | inl panics ↦ ground arith
      | inr (none, down) ↦ ground arith
      | inr (some i, down) ↦ elim (Option-cases (scan_up registry g path i 1)) [
        | inl panics ↦ ground arith
        | inr (j, up) ↦ elim (Bool-cases (j == i)) [
          | inl single ↦ ground arith
          | inr two ↦
              elim (Option-cases
                (fill_transits registry g path (i - suc j) (suc j) entities.transits)) [
                  | inl panics ↦ ground arith
                  | inr (after, fill) ↦
                      let is_ss : record {
                        reversed_path = path;
                        source_path_idx = i;
                        sink_path_idx = j;
                      }
                          ≡ ss =
                        ground arith in
                      let is_after : after ≡ entities'.transits = ground arith in
                      subst (λ x. IsSplit registry g path x entities.transits entities'.transits)
                        is_ss
                        (subst
                          (λ l.
                            IsSplit registry g path
                              (record {
                                reversed_path = path;
                                source_path_idx = i;
                                sink_path_idx = j;
                              })
                              entities.transits l)
                          is_after
                          (IsSplit-from registry g path i j entities.transits after down up
                            (ground (arith, ℕ_eq.same_iff j i))
                            (subst (λ x. 0 < x) (sym (ap (λ x. x.source_path_idx) is_ss)) positive)
                            fill))
                ]
        ]
      ]
    ]

-- When the target itself is the only compatible device of the path, it is taken for the source
-- and the device before it for the sink, compatible or not.
pub lone_target_is_found {ℓ} :
    {D : Type ℓ} (registry : Registry D) (g : TopologyGraph) (path : List String) (n : ℕ)
    (entities : TelemetryEntities)
    → length path ≡ suc (suc n)
    → compat registry g path 0 ≡ some true
    → ((k : ℕ) → 0 < k → k < suc n → compat registry g path k ≡ some false)
    → find_on_path registry g path entities
      ≡ some
          (some (record { reversed_path = path; source_path_idx = 0; sink_path_idx = 1 }), entities)
unfolding find_on_path
lone_target_is_found registry g path n entities len hit miss =
    let down : scan_down registry g path (length path - 1) ≡ some (some 0) =
      subst (λ m. scan_down registry g path m ≡ some (some 0)) {x = suc n} {y = length path - 1}
        (omega (arith, len)) (scan_down_lone registry g path n hit miss) in
    ground arith
