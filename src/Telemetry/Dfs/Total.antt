-- ===== src/Telemetry/Dfs/Total.antt =====
-- The search ends within its fuel, does not panic in a graph whose links lead to its devices, and
-- finds a path whenever there is one.
use k8s_inc.Model.Devices.{Link, Device, get_links}
use k8s_inc.Model.Graph.{TopologyGraph}
use k8s_inc.Prelude.{
  ℕ, zero, suc, ◌+◌, ◌≤◌, ◌<◌, String, ◌≡◌, refl, subst, ◌≢◌, ◌⊎◌, inl, inr, true, false, some,
  List, [], ◌∷◌, ◌++◌, arith, if◌then◌else◌, Bool-cases, Option-cases, ◌==◌, ℕ_eq, String_eq,
  contains, add, contains-add, is_some, length, is_empty,
}
use k8s_inc.Prelude.Maps.{lookup, has}
use k8s_inc.Telemetry.Dfs.{
  DfsState, Search, done, crashed, out_of_fuel, after_call, dfs_links, dfs, start, run_dfs,
}
use k8s_inc.Telemetry.Dfs.Sound.{links_to, Walk, arrive, step}

-- the devices of the graph that are not visited yet
abbrev pub unvisited : List String → TopologyGraph → ℕ
unvisited vs [] = 0
unvisited vs ((name, d) ∷ g) = (if contains name vs then 0 else 1) + unvisited vs g

unvisited-le :
    (g : TopologyGraph) (vs ws : List String)
    → ((x : String) → contains x vs ≡ true → contains x ws ≡ true)
    → unvisited ws g ≤ unvisited vs g
unvisited-le [] vs ws h = omega arith
unvisited-le ((name, d) ∷ g) vs ws h = ground (arith, unvisited-le g vs ws h, h name)

pub unvisited-add :
    (g : TopologyGraph) (vs : List String) (cur : String) (d : Device)
    → lookup cur g ≡ some d
    → contains cur vs ≡ false
    → unvisited (add cur vs) g < unvisited vs g
unfolding lookup
unvisited-add [] vs cur d h new = cc
unvisited-add ((name, x) ∷ g) vs cur d h new = ground (
  arith,
  contains-add cur name vs,
  String_eq.same_iff cur name,
  String_eq.same_iff name cur,
  unvisited-add g vs cur d,
  unvisited-le g vs (add cur vs) (λ x h. ground (arith, contains-add cur x vs)),
)

pub unvisited-le-length : (vs : List String) (g : TopologyGraph) → unvisited vs g ≤ length g
unvisited-le-length vs [] = omega arith
unvisited-le-length vs ((name, d) ∷ g) = ground (arith, unvisited-le-length vs g)

-- every link leads to a device of the graph
abbrev pub IsLinked : TopologyGraph → Type 0
IsLinked g =
    (name to : String) (dev : Device)
    → lookup name g ≡ some dev
    → links_to to (get_links dev) ≡ true
    → has to g ≡ true

-- a search that returns satisfies `Q`; it panics only where `safe` fails, and has fuel enough
abbrev Ends : Type 0 → (DfsState → Type 0) → Search → Type 0
Ends safe Q (done st) = Q st
Ends safe Q crashed = ¬ safe
Ends safe Q out_of_fuel = ⊥

snoc_not_empty : (x : String) (xs : List String) → xs ++ x ∷ [] ≢ []
snoc_not_empty x [] h = cc
snoc_not_empty x (y ∷ xs) h = cc

module _ (g : TopologyGraph) (target : String) where
  Ends-map :
      (safe safe' : Type 0) (Q Q' : DfsState → Type 0) (r : Search)
      → (safe' → safe)
      → ((st : DfsState) → Q st → Q' st)
      → Ends safe Q r
      → Ends safe' Q' r
  Ends-map safe safe' Q Q' (done st) f h e = h st e
  Ends-map safe safe' Q Q' crashed f h e = λ s. e (f s)
  Ends-map safe safe' Q Q' out_of_fuel f h e = e

  -- a visited device that the search is done with
  abbrev IsClosed : List String → String → Type 0
  IsClosed vs v =
      (dev : Device) × (lookup v g ≡ some dev)
      × (v ≢ target)
      × ((to : String) → links_to to (get_links dev) ≡ true → contains to vs ≡ true)

  record Explored (before : List String) (st : DfsState) : Type 0 where
    grows : (x : String) → contains x before ≡ true → contains x st.visited ≡ true
    closed :
        st.reversed_path ≡ []
        → (v : String) → contains v st.visited ≡ true
        → (contains v before ≡ true) ⊎ IsClosed st.visited v

  -- after a call for `cur`
  abbrev Called : String → List String → DfsState → Type 0
  Called cur before st =
      Explored before st × (st.reversed_path ≡ [] → contains cur st.visited ≡ true)

  -- after the loop over the links `ls`
  abbrev Looped : List Link → List String → DfsState → Type 0
  Looped ls before st =
      Explored before st
      × (st.reversed_path ≡ []
          → (to : String) → links_to to ls ≡ true
          → contains to st.visited ≡ true)

  Explored-trans :
      (before : List String) (mid after : DfsState)
      → mid.reversed_path ≡ []
      → Explored before mid
      → Explored mid.visited after
      → Explored before after
  Explored-trans before mid after empty a b = record {
    grows = λ x h. b.grows x (a.grows x h);
    closed = λ e v h. elim (b.closed e v h) [
      | inr c ↦ inr c
      | inl old ↦ elim (a.closed empty v old) [
        | inl older ↦ inl older
        | inr (dev, known, ne, all) ↦ inr (dev, known, ne, λ to l. b.grows to (all to l))
      ]
    ];
  }

  abbrev Linked : List Link → Type 0
  Linked ls = IsLinked g × ((to : String) → links_to to ls ≡ true → has to g ≡ true)

  Ends-after_call :
      (cur : String) (l : Link) (ls : List Link) (before : List String) (more : DfsState → Search)
      (r : Search)
      → Ends (IsLinked g × (has l.to g ≡ true)) (Called l.to before) r
      → ((st : DfsState)
          → st.reversed_path ≡ []
          → Explored before st
          → Ends (Linked ls) (Looped ls st.visited) (more st))
      → Ends (Linked (l ∷ ls)) (Looped (l ∷ ls) before) (after_call cur more r)
  Ends-after_call cur l ls before more crashed called rest =
      λ safe. called (safe.0, safe.1 l.to (ground (arith, String_eq.same_iff l.to l.to)))
  Ends-after_call cur l ls before more out_of_fuel called rest = called
  Ends-after_call cur l ls before more (done st) called rest =
      elim (Bool-cases (is_empty st.reversed_path)) [
        | inr found ↦ rw found (
          record {
            grows = called.0.grows;
            closed = λ e. absurd (snoc_not_empty cur st.reversed_path e);
          },
          λ e. absurd (snoc_not_empty cur st.reversed_path e),
        )
        | inl nothing ↦
            let empty : st.reversed_path ≡ [] = ground arith in
            rw nothing (
              Ends-map (Linked ls) (Linked (l ∷ ls)) (Looped ls st.visited) (Looped (l ∷ ls) before)
                (more st) (λ safe. (safe.0, λ to h. safe.1 to (ground arith)))
                (λ st' after. (
                  Explored-trans before st st' empty called.0 after.0,
                  λ e to h. elim (Bool-cases (l.to == to)) [
                    | inl this ↦ after.0.grows to (
                        subst (λ x. contains x st.visited ≡ true)
                          ((String_eq.same_iff l.to to).0 this) (called.1 empty))
                    | inr other ↦ after.1 e to (ground arith)
                  ],
                ))
                (rest st empty called.0))
      ]

  links-Ends :
      (fuel : ℕ) (go : String → DfsState → Search)
      → ((next : String) (st : DfsState)
          → st.reversed_path ≡ []
          → contains next st.visited ≡ false
          → unvisited st.visited g < fuel
          → Ends (IsLinked g × (has next g ≡ true)) (Called next st.visited) (go next st))
      → (cur : String) (ls : List Link) (st : DfsState) → st.reversed_path ≡ []
      → unvisited st.visited g < fuel
      → Ends (Linked ls) (Looped ls st.visited) (dfs_links go cur ls st)
  unfolding dfs_links
  links-Ends fuel go ih cur [] st fresh room =
      (record { grows = λ x h. h; closed = λ e v h. inl h }, λ e to h. ground arith)
  links-Ends fuel go ih cur (l ∷ ls) st fresh room = elim (Bool-cases (contains l.to st.visited)) [
    | inl seen ↦
        rw (seen, dfs_links)
          (Ends-map (Linked ls) (Linked (l ∷ ls)) (Looped ls st.visited)
            (Looped (l ∷ ls) st.visited) (dfs_links go cur ls st)
            (λ safe. (safe.0, λ to h. safe.1 to (ground arith)))
            (λ st' after. (
              after.0,
              λ e to h. elim (Bool-cases (l.to == to)) [
                | inl this ↦ after.0.grows to (
                    subst (λ x. contains x st.visited ≡ true) ((String_eq.same_iff l.to to).0 this)
                      seen)
                | inr other ↦ after.1 e to (ground arith)
              ],
            ))
            (links-Ends fuel go ih cur ls st fresh room))
    | inr new ↦
        rw (new, dfs_links)
          (Ends-after_call cur l ls st.visited (dfs_links go cur ls) (go l.to st)
            (ih l.to st fresh new room)
            (λ st' empty after.
              links-Ends fuel go ih cur ls st' empty
                (omega (arith, unvisited-le g st.visited st'.visited after.grows))))
  ]

  Looped-Called :
      (cur : String) (dev : Device) (st after : DfsState)
      → lookup cur g ≡ some dev
      → cur ≢ target
      → Looped (get_links dev) (add cur st.visited) after
      → Called cur st.visited after
  Looped-Called cur dev st after known ne looped = (
    record {
      grows = λ x h. looped.0.grows x (ground (arith, contains-add cur x st.visited));
      closed = λ e v h. elim (looped.0.closed e v h) [
        | inr c ↦ inr c
        | inl old ↦ elim (Bool-cases (cur == v)) [
          | inr other ↦ inl (ground (arith, contains-add cur v st.visited))
          | inl this ↦
              subst (λ x. (contains x st.visited ≡ true) ⊎ IsClosed after.visited x)
                ((String_eq.same_iff cur v).0 this) (inr (dev, known, ne, looped.1 e))
        ]
      ];
    },
    λ e.
        looped.0.grows cur
          (ground (arith, contains-add cur cur st.visited, String_eq.same_iff cur cur)),
  )

  dfs-Ends :
      (fuel : ℕ) (cur : String) (st : DfsState)
      → st.reversed_path ≡ []
      → contains cur st.visited ≡ false
      → unvisited st.visited g < fuel
      → Ends (IsLinked g × (has cur g ≡ true)) (Called cur st.visited) (dfs g target fuel cur st)
  unfolding dfs
  dfs-Ends zero cur st fresh new room = absurd (omega arith)
  dfs-Ends (suc fuel) cur st fresh new room =
      let st' : DfsState = record st { visited = add cur st.visited } in
      elim (Bool-cases (cur == target)) [
        | inl here ↦
            rw (here, dfs)
              (
                record {
                  grows = λ x h. ground (arith, contains-add cur x st.visited);
                  closed = λ e. absurd (snoc_not_empty cur st.reversed_path e);
                },
                λ e. absurd (snoc_not_empty cur st.reversed_path e),
              )
        | inr there ↦ elim (Option-cases (lookup cur g)) [
          | inl absent ↦ rw (there, absent, dfs) (λ safe. ground arith)
          | inr (dev, known) ↦
              rw (there, known, dfs)
                (Ends-map (Linked (get_links dev)) (IsLinked g × (is_some (some dev) ≡ true))
                  (Looped (get_links dev) st'.visited) (Called cur st.visited)
                  (dfs_links (dfs g target fuel) cur (get_links dev) st')
                  (λ safe. (safe.0, λ to h. safe.0 cur to dev known h))
                  (λ after looped.
                    Looped-Called cur dev st after known
                      (ground (arith, String_eq.same_iff cur target)) looped)
                  (links-Ends fuel (dfs g target fuel) (dfs-Ends fuel) cur (get_links dev) st' fresh
                    (omega (arith, unvisited-add g st.visited cur dev known new))))
        ]
      ]

-- runDfs never runs out of fuel, and does not panic where every link leads to a device and the
-- source is one.
pub run_dfs_returns :
    (g : TopologyGraph) (source target : String)
    → (run_dfs g source target ≢ out_of_fuel)
      × (IsLinked g → has source g ≡ true → (st : DfsState) × (run_dfs g source target ≡ done st))
unfolding run_dfs
run_dfs_returns g source target = go (run_dfs g source target) refl (
    dfs-Ends g target (suc (length g)) source start refl refl
      (omega (arith, unvisited-le-length [] g)))
  where
    go :
        (r : Search)
        → run_dfs g source target ≡ r
        → Ends (IsLinked g × (has source g ≡ true)) (Called g target source []) r
        → (run_dfs g source target ≢ out_of_fuel)
          × (IsLinked g
              → has source g ≡ true
              → (st : DfsState) × (run_dfs g source target ≡ done st))
    go (done st) e h = (λ x. cc, λ linked known. (st, e))
    go crashed e h = (λ x. cc, λ linked known. absurd (h (linked, known)))
    go out_of_fuel e h = absurd h

-- From a device that the search is done with, no walk leads to the target.
no-Walk :
    (g : TopologyGraph) (target : String) (vs : List String)
    → ((v : String) → contains v vs ≡ true → IsClosed g target vs v)
    → {cur : String} {path : List String} → contains cur vs ≡ true
    → ¬ Walk g target cur path
no-Walk g target vs closed seen (arrive cur e) = (closed cur seen).2 e
no-Walk g target vs closed seen (step {cur} {next} dev known link walk) =
    let (dev', known', ne, all) = closed cur seen in
    no-Walk g target vs closed
      (all next
        (subst (λ d. links_to next (get_links d) ≡ true) {x = dev} {y = dev'} (ground arith) link))
      walk

-- When runDfs returns an empty path, no walk leads from the source to the target.
pub run_dfs_complete :
    (g : TopologyGraph) (source target : String) (st : DfsState) (path : List String)
    → run_dfs g source target ≡ done st
    → is_empty st.reversed_path ≡ true
    → ¬ Walk g target source path
unfolding run_dfs
run_dfs_complete g source target st path h nothing walk =
    let ends =
      dfs-Ends g target (suc (length g)) source start refl refl
        (omega (arith, unvisited-le-length [] g)) in
    let called =
      subst (Ends (IsLinked g × (has source g ≡ true)) (Called g target source [])) h ends in
    let empty : st.reversed_path ≡ [] = ground arith in
    no-Walk g target st.visited
      (λ v seen. elim (called.0.closed empty v seen) [ inl old ↦ ground arith | inr c ↦ c ])
      (called.1 empty) walk
