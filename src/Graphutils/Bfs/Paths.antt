-- ===== src/Graphutils/Bfs/Paths.antt =====
-- The path that BfsPathFind returns.
use k8s_inc.Prelude.{
  ℕ, zero, suc, ◌<◌, String, ◌≡◌, sym, ap, ◌∙◌, subst, inl, inr, true, false, not, Option, none,
  some, List, [], ◌∷◌, ◌++◌, arith, if◌then◌else◌, Bool-cases, Option-cases, ◌==◌, ℕ_eq, String_eq,
  contains, length,
}
use k8s_inc.Prelude.Maps.{lookup, insert, has, lookup-insert, length-insert}
use k8s_inc.Model.Devices.{Link, Device, get_name, get_links}
use k8s_inc.Model.Graph.{TopologyGraph, IsNamed}
use k8s_inc.Telemetry.Dfs.Sound.{links_to}
use k8s_inc.Telemetry.Dfs.Total.{IsLinked}
use k8s_inc.Graphutils.{
  ParentsMap, BfsState, Search, found, crashed, out_of_fuel, visit, popped, bfs_links, bfs_loop,
  bfs, append_to, follow_from, follow, path_to, bfs_path_find,
}
use k8s_inc.Graphutils.Bfs.{
  Reaches, IsSearched, Finds, Searching, Searching-pop, links-Grown, bfs-Finds, Searching-start,
  source_there,
}

-- the parents of a name come before it, and only the source has none
record Ranked (source : String) (parents : ParentsMap) : Type 0 where
  rank : String → ℕ
  bounded : (n : String) → has n parents ≡ true → rank n < length parents
  lower :
      (n : String) (d : Device)
      → lookup n parents ≡ some (some d)
      → (has (get_name d) parents ≡ true) × (rank (get_name d) < rank n)
  root : (n : String) → lookup n parents ≡ some none → n ≡ source

Ranked-insert :
    (source to : String) (cur : Device) (parents : ParentsMap)
    → has to parents ≡ false
    → has (get_name cur) parents ≡ true
    → Ranked source parents
    → Ranked source (insert to (some cur) parents)
Ranked-insert source to cur parents new there r = record {
  rank = λ n. if to == n then length parents else r.rank n;
  bounded = λ n h. ground (
    arith,
    h,
    lookup-insert to n (some cur) parents,
    length-insert to (some cur) parents,
    new,
    r.bounded n,
  );
  lower = λ n d h. elim (Bool-cases (to == n)) [
    | inl fresh ↦
        let same : cur ≡ d = ground (arith, h, fresh, lookup-insert to n (some cur) parents) in
        subst
          (λ x.
            (has (get_name x) (insert to (some cur) parents) ≡ true)
            × ((if to == get_name x then length parents else r.rank (get_name x))
                < (if to == n then length parents else r.rank n)))
          same
          (
            ground (arith, there, lookup-insert to (get_name cur) (some cur) parents),
            ground (
              arith,
              there,
              new,
              fresh,
              r.bounded (get_name cur),
              String_eq.same_iff to (get_name cur),
            ),
          )
    | inr old ↦
        let (kept, less) =
          r.lower n d (ground (arith, h, old, lookup-insert to n (some cur) parents)) in
        (
          ground (arith, kept, lookup-insert to (get_name d) (some cur) parents),
          ground (arith, kept, less, new, old, String_eq.same_iff to (get_name d)),
        )
  ];
  root = λ n h. ground (arith, h, lookup-insert to n (some cur) parents, r.root n);
}

links-Ranked :
    (source : String) (cur : Device) (links : List Link) (st : BfsState)
    → ((n : String) → has n st.parents ≡ contains n st.visited)
    → has (get_name cur) st.parents ≡ true
    → Ranked source st.parents
    → Ranked source (bfs_links cur links st).parents
unfolding bfs_links
links-Ranked source cur [] st keyed there r = r
links-Ranked source cur (l ∷ ls) st keyed there r = elim (Bool-cases (contains l.to st.visited)) [
  | inl old ↦
      subst
        (λ b. Ranked source (bfs_links cur ls (if not b then visit cur l.to st else st)).parents)
        (sym old) (links-Ranked source cur ls st keyed there r)
  | inr new ↦
      subst
        (λ b. Ranked source (bfs_links cur ls (if not b then visit cur l.to st else st)).parents)
        (sym new)
        (links-Ranked source cur ls (visit cur l.to st)
          (λ n.
            ground (
              arith,
              keyed n,
              lookup-insert l.to n (some cur) st.parents,
              String_eq.same_iff l.to n,
            ))
          (ground (arith, there, lookup-insert l.to (get_name cur) (some cur) st.parents))
          (Ranked-insert source l.to cur st.parents (keyed l.to ∙ new) there r))
]

abbrev RankedSearch : String → Search → Type 0
RankedSearch source (found parents) = Ranked source parents
RankedSearch source _ = Unit

module _ (g : TopologyGraph) (source : String) (linked : IsLinked g)
    (source_there : has source g ≡ true) (named : IsNamed g) where
  loop-Ranked :
      (fuel : ℕ) (vs : List String) (parents : ParentsMap) (queue : List String)
      → Searching g source linked source_there vs parents queue
      → Ranked source parents
      → RankedSearch source (bfs_loop g fuel vs parents queue)
  unfolding bfs_loop
  loop-Ranked zero vs parents queue s r = tt
  loop-Ranked (suc fuel) vs parents [] s r = r
  loop-Ranked (suc fuel) vs parents (name ∷ queue) s r =
      let st0 : BfsState = record { visited = vs; queue = queue; parents = parents } in
      let next : Device → Search = λ dev.
        let st = bfs_links dev (get_links dev) st0 in
        bfs_loop g fuel st.visited st.parents st.queue in
      let here : contains name vs ≡ true =
        s.waiting name (ground (arith, String_eq.same_iff name name)) in
      elim (Option-cases (lookup name g)) [
        | inl gone ↦ subst (λ o. RankedSearch source (popped o next)) (sym gone) tt
        | inr (cur, known) ↦
            let st : BfsState = bfs_links cur (get_links cur) st0 in
            let in_parents : has (get_name cur) parents ≡ true =
              ap (λ n. has n parents) (named name cur known) ∙ s.keyed name ∙ here in
            subst (λ o. RankedSearch source (popped o next)) (sym known)
              (loop-Ranked fuel st.visited st.parents st.queue
                (Searching-pop g source linked source_there vs parents name queue cur st known s
                  (links-Grown g cur (get_links cur) st0))
                (links-Ranked source cur (get_links cur) st0 s.keyed in_parents r))
      ]

-- a way along links from the source, as the names on it
pub data IsWay (g : TopologyGraph) (source : String) : String → List String → Type 0 where
  stays : IsWay g source source (source ∷ [])
  goes :
      {cur next : String} {path : List String} (dev : Device)
      → IsWay g source cur path
      → lookup cur g ≡ some dev
      → links_to next (get_links dev) ≡ true
      → IsWay g source next (path ++ next ∷ [])

abbrev IsWayFound : TopologyGraph → String → String → Option (List String) → Type 0
IsWayFound g source target none = ⊥
IsWayFound g source target (some path) = IsWay g source target path

follow-IsWayFound :
    (g : TopologyGraph) (source : String) (parents : ParentsMap)
    → IsNamed g
    → IsSearched g source parents
    → (r : Ranked source parents) → (fuel : ℕ) (n : String) → has n parents ≡ true
    → r.rank n < fuel
    → IsWayFound g source n (follow parents fuel n)
unfolding follow
follow-IsWayFound g source parents named s r zero n there room = absurd (omega (arith, room))
follow-IsWayFound g source parents named s r (suc fuel) n there room =
    let next : String → Option (List String) = follow parents fuel in
    elim (Option-cases (lookup n parents)) [
      | inl gone ↦ absurd (ground (arith, gone, there))
      | inr (parent, is) ↦ elim (Option-cases parent) [
        | inl none_is ↦
            subst (λ o. IsWayFound g source n (follow_from n o next)) (sym (is ∙ ap some none_is))
              (subst (λ x. IsWay g source x (x ∷ [])) (sym (r.root n (is ∙ ap some none_is))) stays)
        | inr (d, some_is) ↦
            let at : lookup n parents ≡ some (some d) = is ∙ ap some some_is in
            let (m, known, in_parents, link) = s.parent_links n d at in
            let name_is : get_name d ≡ m = named m d known in
            let (kept, less) = r.lower n d at in
            let before : IsWayFound g source (get_name d) (follow parents fuel (get_name d)) =
              follow-IsWayFound g source parents named s r fuel (get_name d) kept
                (omega (arith, less, room)) in
            subst (λ o. IsWayFound g source n (follow_from n o next)) (sym at)
              (appended g source n d (follow parents fuel (get_name d))
                (subst (λ x. lookup x g ≡ some d) (sym name_is) known) link before)
      ]
    ]
  where
    appended :
        (g : TopologyGraph) (source n : String) (d : Device) (o : Option (List String))
        → lookup (get_name d) g ≡ some d
        → links_to n (get_links d) ≡ true
        → IsWayFound g source (get_name d) o
        → IsWayFound g source n (append_to n o)
    appended g source n d none known link before = before
    appended g source n d (some path) known link before = goes d before known link

-- What BfsPathFind returns: a way, or the panic where there is none.
abbrev pub IsPathAnswer : TopologyGraph → String → String → Option (List String) → Type 0
IsPathAnswer g source target none = ¬ Reaches g source target
IsPathAnswer g source target (some path) = IsWay g source target path

found-IsPathAnswer :
    (g : TopologyGraph) (source target : String) (o : Option (List String))
    → IsWayFound g source target o
    → IsPathAnswer g source target o
found-IsPathAnswer g source target none never = absurd never
found-IsPathAnswer g source target (some path) way = way

path_to-IsPathAnswer :
    (g : TopologyGraph) (source target : String) (search : Search)
    → IsNamed g
    → Finds g source search
    → RankedSearch source search
    → IsPathAnswer g source target (path_to target search)
unfolding path_to
path_to-IsPathAnswer g source target crashed named never ranked = absurd never
path_to-IsPathAnswer g source target out_of_fuel named never ranked = absurd never
path_to-IsPathAnswer g source target (found parents) named s r =
    elim (Bool-cases (has target parents)) [
      | inl there ↦
          subst
            (λ b.
              IsPathAnswer g source target
                (if b then follow parents (suc (length parents)) target else none))
            (sym there)
            (found-IsPathAnswer g source target (follow parents (suc (length parents)) target) (
              follow-IsWayFound g source parents named s r (suc (length parents)) target there
                (omega (arith, r.bounded target there))))
      | inr gone ↦
          subst
            (λ b.
              IsPathAnswer g source target
                (if b then follow parents (suc (length parents)) target else none))
            (sym gone) (λ reach. absurd (ground (arith, gone, s.complete target reach)))
    ]

Ranked-start : (source : String) → Ranked source ((source, none) ∷ [])
unfolding lookup
Ranked-start source = record {
  rank = λ n. 0;
  bounded = λ n h. omega arith;
  lower = λ n d h. absurd (ground (arith, h));
  root = λ n h. ground (arith, h, String_eq.same_iff source n);
}

-- In a graph with a device of the name at the end of every link, BfsPathFind ends, and returns a way
-- along links from the source to the target; it panics exactly where no links lead there.
pub bfs_path_find-IsPathAnswer :
    (g : TopologyGraph) (source target : Device)
    → IsLinked (insert (get_name source) source g)
    → IsNamed (insert (get_name source) source g)
    → IsPathAnswer
        (insert (get_name source) source g)
        (get_name source)
        (get_name target)
        (bfs_path_find g source target)
unfolding bfs_path_find bfs
bfs_path_find-IsPathAnswer g source target linked named =
    let name : String = get_name source in
    let nodes : TopologyGraph = insert name source g in
    path_to-IsPathAnswer nodes name (get_name target) (bfs g source) named
      (bfs-Finds g source linked)
      (loop-Ranked nodes name linked (source_there g source) named (suc (suc (length nodes)))
        (name ∷ []) ((name, none) ∷ []) (name ∷ [])
        (Searching-start nodes name linked (source_there g source)) (Ranked-start name))
