-- ===== src/Graphutils/Bfs.antt =====
-- The breadth-first search ends, and finds exactly the names that links lead to.
pub mod Paths
use k8s_inc.Prelude.{
  ℕ, zero, suc, ◌+◌, ◌-◌, ◌*◌, ◌/◌, ◌%◌, ◌^◌, ◌≤◌, ◌<◌, String, ◌≡◌, refl, sym, ap, ◌∙◌, subst, ◌≢◌,
  ◌↔◌, ◌⊎◌, inl, inr, Bool, true, false, not, ◌&&◌, ◌||◌, Option, none, some, List, [], ◌∷◌, ◌++◌,
  map, arith, ltb, leb, if◌then◌else◌, ltb→lt, lt→ltb, leb→le, le→leb, Bool-cases, Option-cases, Eq,
  ◌==◌, ℕ_eq, String_eq, contains, add, remove, contains-add, contains-remove, add_not_empty,
  remove_empty, contains_empty, same_refl, is_some, length, is_empty, get_elem?, replicate,
  find_index, update_at, count_if, length-append, length-update_at, length-replicate, count_if-le,
  get_elem?-update_at, count_if-update_at, find_index_hit, find_index_first, find_index_miss,
  get_elem?-lt, update_at_all, find_index-update_at, take, take-suc, take-append, get_elem?_of_lt,
}
use k8s_inc.Prelude.Maps.{
  lookup, insert, erase, has, IsMap, lookup-insert, lookup-erase, length-insert, length-erase,
  IsMap-insert, IsMap-erase, erase_absent,
}
use k8s_inc.Model.Devices.{Link, Device, get_name, get_links}
use k8s_inc.Model.Graph.{TopologyGraph}
use k8s_inc.Telemetry.Dfs.Sound.{links_to}
use k8s_inc.Telemetry.Dfs.Total.{unvisited, unvisited-add, unvisited-le-length, IsLinked}
use k8s_inc.Graphutils.{
  ParentsMap, BfsState, Search, found, crashed, out_of_fuel, visit, popped, bfs_links, bfs_loop,
  bfs,
}

-- links lead from a name to another
pub data Reaches (g : TopologyGraph) (source : String) : String → Type 0 where
  at_source : Reaches g source source
  through :
      {cur next : String} (dev : Device)
      → Reaches g source cur
      → lookup cur g ≡ some dev
      → links_to next (get_links dev) ≡ true
      → Reaches g source next

-- the new names are links of the device, and are queued with it as their parent
record Grown (cur : Device) (links : List Link) (g : TopologyGraph) (st st' : BfsState)
    : Type 0 where
  grows : (n : String) → contains n st.visited ≡ true → contains n st'.visited ≡ true
  keeps : (n : String) → contains n st.queue ≡ true → contains n st'.queue ≡ true
  added :
      (n : String)
      → contains n st'.visited ≡ true
      → (contains n st.visited ≡ true) ⊎ ((links_to n links ≡ true) × (contains n st'.queue ≡ true))
  queued :
      (n : String)
      → contains n st'.queue ≡ true
      → (contains n st.queue ≡ true) ⊎ (links_to n links ≡ true)
  parent :
      (n : String)
      → (lookup n st'.parents ≡ lookup n st.parents)
        ⊎ ((links_to n links ≡ true) × (lookup n st'.parents ≡ some (some cur)))
  keyed :
      ((n : String) → has n st.parents ≡ contains n st.visited)
      → (n : String) → has n st'.parents ≡ contains n st'.visited
  covers : (n : String) → links_to n links ≡ true → contains n st'.visited ≡ true
  room :
      ((n : String) → links_to n links ≡ true → has n g ≡ true)
      → unvisited st'.visited g + length st'.queue ≤ unvisited st.visited g + length st.queue

contains-snoc :
    (n m : String) (xs : List String) → contains n (xs ++ m ∷ []) ≡ (contains n xs || m == n)
contains-snoc n m [] = ground arith
contains-snoc n m (x ∷ xs) = ground (arith, contains-snoc n m xs)

unvisited-visit :
    (g : TopologyGraph) (vs : List String) (m : String)
    → has m g ≡ true
    → contains m vs ≡ false
    → suc (unvisited (m ∷ vs) g) ≤ unvisited vs g
unfolding add
unvisited-visit g vs m there new = elim (Option-cases (lookup m g)) [
  | inl gone ↦ absurd (ground (arith, there, gone))
  | inr (d, is) ↦
      let less : unvisited (add m vs) g < unvisited vs g = unvisited-add g vs m d is new in
      let same : add m vs ≡ m ∷ vs = rw new refl in
      subst (λ ws. suc (unvisited ws g) ≤ unvisited vs g) same (omega (arith, less))
]

length-snoc : (m : String) (xs : List String) → length (xs ++ m ∷ []) ≡ suc (length xs)
length-snoc m [] = refl
length-snoc m (x ∷ xs) = ap suc (length-snoc m xs)

links-Grown :
    (g : TopologyGraph) (cur : Device) (links : List Link) (st : BfsState)
    → Grown cur links g st (bfs_links cur links st)
unfolding bfs_links
links-Grown g cur [] st = record {
  grows = λ n h. h;
  keeps = λ n h. h;
  added = λ n h. inl h;
  queued = λ n h. inl h;
  parent = λ n. inl refl;
  keyed = λ k. k;
  covers = λ n h. absurd (ground (arith, h));
  room = λ linked. omega arith;
}
links-Grown g cur (l ∷ ls) st = elim (Bool-cases (contains l.to st.visited)) [
  | inl old ↦
      let after : Grown cur ls g st (bfs_links cur ls st) = links-Grown g cur ls st in
      rw old (record {
        grows = after.grows;
        keeps = after.keeps;
        added = λ n h. ground (arith, after.added n h);
        queued = λ n h. ground (arith, after.queued n h);
        parent = λ n. ground (arith, after.parent n);
        keyed = after.keyed;
        covers =
            λ n h. ground (arith, h, old, after.covers n, after.grows n, String_eq.same_iff l.to n);
        room = λ linked. after.room (λ n h. linked n (ground (arith, h)));
      })
  | inr new ↦
      let st1 : BfsState = visit cur l.to st in
      let after : Grown cur ls g st1 (bfs_links cur ls st1) = links-Grown g cur ls st1 in
      let there : contains l.to st1.queue ≡ true =
        ground (arith, contains-snoc l.to l.to st.queue, String_eq.same_iff l.to l.to) in
      rw new (record {
        grows = λ n h. after.grows n (ground (arith, h));
        keeps = λ n h. after.keeps n (ground (arith, h, contains-snoc n l.to st.queue));
        added = λ n h.
            ground (arith, after.added n h, String_eq.same_iff l.to n, after.keeps l.to there);
        queued = λ n h.
            ground
              (arith, after.queued n h, contains-snoc n l.to st.queue, String_eq.same_iff l.to n);
        parent = λ n. ground (
          arith,
          after.parent n,
          lookup-insert l.to n (some cur) st.parents,
          String_eq.same_iff l.to n,
        );
        keyed = λ k. after.keyed (λ n.
            ground
              (arith, k n, lookup-insert l.to n (some cur) st.parents, String_eq.same_iff l.to n));
        covers = λ n h. ground (
          arith,
          h,
          after.covers n,
          after.grows l.to,
          String_eq.same_iff l.to n,
          String_eq.same_iff l.to l.to,
        );
        room = λ linked. omega (
          arith,
          after.room (λ n h. linked n (ground (arith, h))),
          unvisited-visit g st.visited l.to
              (linked l.to (ground (arith, String_eq.same_iff l.to l.to))) new,
          length-snoc l.to st.queue,
        );
      })
]

-- What a search has found: the names that links lead to from the source; each but the source has a
-- parent among them which links to it.
pub record IsSearched (g : TopologyGraph) (source : String) (parents : ParentsMap) : Type 0 where
  pub sound : (n : String) → has n parents ≡ true → Reaches g source n
  pub complete : (n : String) → Reaches g source n → has n parents ≡ true
  pub parent_links :
      (n : String) (d : Device)
      → lookup n parents ≡ some (some d)
      → (m : String) × (lookup m g ≡ some d)
        × (has m parents ≡ true)
        × (links_to n (get_links d) ≡ true)

abbrev pub Finds : TopologyGraph → String → Search → Type 0
Finds g source (found parents) = IsSearched g source parents
Finds g source crashed = ⊥
Finds g source out_of_fuel = ⊥

module _ (g : TopologyGraph) (source : String) (linked : IsLinked g)
    (source_there : has source g ≡ true) where
  Reaches-has : (n : String) → Reaches g source n → has n g ≡ true
  Reaches-has n at_source = source_there
  Reaches-has n (through {cur = cur} dev before known link) = linked cur n dev known link

  abbrev IsDone : List String → String → Type 0
  IsDone vs n =
      (d : Device) × (lookup n g ≡ some d)
      × ((to : String) → links_to to (get_links d) ≡ true → contains to vs ≡ true)

  record Searching (vs : List String) (parents : ParentsMap) (queue : List String) : Type 0 where
    reached : (n : String) → contains n vs ≡ true → Reaches g source n
    waiting : (n : String) → contains n queue ≡ true → contains n vs ≡ true
    keyed : (n : String) → has n parents ≡ contains n vs
    closed : (n : String) → contains n vs ≡ true → (contains n queue ≡ true) ⊎ IsDone vs n
    parent :
        (n : String) (d : Device)
        → lookup n parents ≡ some (some d)
        → (m : String) × (lookup m g ≡ some d)
          × (contains m vs ≡ true)
          × (links_to n (get_links d) ≡ true)
    source_in : contains source vs ≡ true

  -- where the queue is empty, what was visited is all there is
  all_visited :
      (vs : List String) (parents : ParentsMap)
      → Searching vs parents []
      → (n : String) → Reaches g source n
      → contains n vs ≡ true
  all_visited vs parents s n at_source = s.source_in
  all_visited vs parents s n (through {cur = cur} dev before known link) =
      elim (s.closed cur (all_visited vs parents s cur before)) [
        | inl queued ↦ absurd (ground (arith, queued))
        | inr (d, is, all) ↦ all n (ground (arith, is, known, link))
      ]

  Searching-end :
      (vs : List String) (parents : ParentsMap)
      → Searching vs parents []
      → IsSearched g source parents
  Searching-end vs parents s = record {
    sound = λ n h. s.reached n (sym (s.keyed n) ∙ h);
    complete = λ n r. s.keyed n ∙ all_visited vs parents s n r;
    parent_links =
        λ n d h. (let (m, is, there, link) = s.parent n d h in (m, is, s.keyed m ∙ there, link));
  }

  Searching-pop :
      (vs : List String) (parents : ParentsMap) (name : String) (queue : List String) (cur : Device)
      (st : BfsState)
      → lookup name g ≡ some cur
      → Searching vs parents (name ∷ queue)
      → Grown cur (get_links cur) g (record { visited = vs; queue = queue; parents = parents }) st
      → Searching st.visited st.parents st.queue
  Searching-pop vs parents name queue cur st known s after =
      let here : contains name vs ≡ true =
        s.waiting name (ground (arith, String_eq.same_iff name name)) in
      record {
        reached = λ n h. elim (after.added n h) [
          | inl old ↦ s.reached n old
          | inr (link, q) ↦ through cur (s.reached name here) known link
        ];
        waiting = λ n h. elim (after.queued n h) [
          | inl old ↦ after.grows n (s.waiting n (ground (arith, old)))
          | inr link ↦ after.covers n link
        ];
        keyed = after.keyed s.keyed;
        closed = λ n h. elim (after.added n h) [
          | inr (link, q) ↦ inl q
          | inl old ↦ elim (s.closed n old) [
            | inr (d, is, all) ↦ inr (d, is, (λ to l. after.grows to (all to l)))
            | inl waits ↦ elim (Bool-cases (name == n)) [
              | inl this ↦ inr (
                cur,
                subst (λ x. lookup x g ≡ some cur) ((String_eq.same_iff name n).0 this) known,
                after.covers,
              )
              | inr other ↦ inl (after.keeps n (ground (arith, waits, other)))
            ]
          ]
        ];
        parent = λ n d h. elim (after.parent n) [
          | inl same ↦
              (let (m, is, there, link) = s.parent n d (sym same ∙ h) in
                (m, is, after.grows m there, link))
          | inr (link, is_cur) ↦
              let same : cur ≡ d = ground (arith, h, is_cur) in
              (
                name,
                known ∙ ap some same,
                after.grows name here,
                subst (λ x. links_to n (get_links x) ≡ true) same link,
              )
        ];
        source_in = after.grows source s.source_in;
      }

  loop-Finds :
      (fuel : ℕ) (vs : List String) (parents : ParentsMap) (queue : List String)
      → Searching vs parents queue
      → unvisited vs g + length queue < fuel
      → Finds g source (bfs_loop g fuel vs parents queue)
  unfolding bfs_loop
  loop-Finds zero vs parents queue s room = absurd (omega (arith, room))
  loop-Finds (suc fuel) vs parents [] s room = Searching-end vs parents s
  loop-Finds (suc fuel) vs parents (name ∷ queue) s room =
      let here : contains name vs ≡ true =
        s.waiting name (ground (arith, String_eq.same_iff name name)) in
      elim (Option-cases (lookup name g)) [
        | inl gone ↦ absurd (ground (arith, gone, Reaches-has name (s.reached name here)))
        | inr (cur, known) ↦
            let st0 : BfsState = record { visited = vs; queue = queue; parents = parents } in
            let st : BfsState = bfs_links cur (get_links cur) st0 in
            let after : Grown cur (get_links cur) g st0 st =
              links-Grown g cur (get_links cur) st0 in
            let next : Device → Search = λ dev.
              let st = bfs_links dev (get_links dev) st0 in
              bfs_loop g fuel st.visited st.parents st.queue in
            subst (λ o. Finds g source (popped o next)) (sym known)
              (loop-Finds fuel st.visited st.parents st.queue
                (Searching-pop vs parents name queue cur st known s after)
                (omega (arith, room, after.room (λ n link. linked name n cur known link))))
      ]

-- the source alone is visited and queued
Searching-start :
    (g : TopologyGraph) (source : String) (linked : IsLinked g) (there : has source g ≡ true)
    → Searching g source linked there (source ∷ []) ((source, none) ∷ []) (source ∷ [])
unfolding lookup
Searching-start g source linked there = record {
  reached =
      λ n h. subst (Reaches g source) (ground (arith, h, String_eq.same_iff source n)) at_source;
  waiting = λ n h. h;
  keyed = λ n. ground arith;
  closed = λ n h. inl h;
  parent = λ n d h. absurd (ground (arith, h));
  source_in = ground (arith, String_eq.same_iff source source);
}

source_there :
    (g : TopologyGraph) (source : Device)
    → has (get_name source) (insert (get_name source) source g) ≡ true
source_there g source = ground (
  arith,
  lookup-insert (get_name source) (get_name source) source g,
  String_eq.same_iff (get_name source) (get_name source),
)

pub bfs-Finds :
    (g : TopologyGraph) (source : Device)
    → IsLinked (insert (get_name source) source g)
    → Finds (insert (get_name source) source g) (get_name source) (bfs g source)
unfolding bfs
bfs-Finds g source linked =
    let name : String = get_name source in
    let nodes : TopologyGraph = insert name source g in
    loop-Finds nodes name linked (source_there g source) (suc (suc (length nodes))) (name ∷ [])
      ((name, none) ∷ []) (name ∷ []) (Searching-start nodes name linked (source_there g source))
      (omega (arith, unvisited-le-length (name ∷ []) nodes))
