-- ===== src/Telemetry/Dfs/Sound.antt =====
-- A path that the search returns is a walk along the links.
use mathlib.Core.Path.{subst}
use k8s_inc.Model.Devices.{Link, Device, get_links}
use k8s_inc.Model.Graph.{TopologyGraph}
use k8s_inc.Prelude.{
  ℕ, zero, suc, String, ◌≡◌, refl, sym, ◌⊎◌, inl, inr, Bool, true, false, ◌||◌, some, List, [], ◌∷◌,
  ◌++◌, arith, if◌then◌else◌, Bool-cases, Option-cases, ◌==◌, ℕ_eq, String_eq, contains, add,
  length, is_empty,
}
use k8s_inc.Prelude.Maps.{lookup}
use k8s_inc.Telemetry.Dfs.{
  DfsState, Search, done, crashed, out_of_fuel, after_call, dfs_links, dfs, start, run_dfs,
}

abbrev pub links_to : String → List Link → Bool
links_to to [] = false
links_to to (l ∷ ls) = l.to == to || links_to to ls

-- The walks that end at the target, with the names on them from the target back to the source.
pub data Walk (g : TopologyGraph) (target : String) : String → List String → Type 0 where
  arrive : (cur : String) → cur ≡ target → Walk g target cur (cur ∷ [])
  step :
      {cur next : String} {path : List String} (dev : Device)
      → lookup cur g ≡ some dev
      → links_to next (get_links dev) ≡ true
      → Walk g target next path
      → Walk g target cur (path ++ cur ∷ [])

module _ (g : TopologyGraph) (target : String) where
  -- what a call returns that found nothing before: nothing, or a walk from `cur`
  abbrev Found : String → Search → Type 0
  Found cur (done st) = (st.reversed_path ≡ []) ⊎ Walk g target cur st.reversed_path
  Found cur crashed = Unit
  Found cur out_of_fuel = Unit

  Found-after_call :
      (cur next : String) (dev : Device) (more : DfsState → Search) (r : Search)
      → lookup cur g ≡ some dev
      → links_to next (get_links dev) ≡ true
      → ((st : DfsState) → st.reversed_path ≡ [] → Found cur (more st))
      → Found next r
      → Found cur (after_call cur more r)
  Found-after_call cur next dev more crashed known link rest f = tt
  Found-after_call cur next dev more out_of_fuel known link rest f = tt
  Found-after_call cur next dev more (done st) known link rest (inl nothing) =
      subst
        (λ p. Found cur (
          if is_empty p
          then more st
          else done (record st { reversed_path = st.reversed_path ++ cur ∷ [] })))
        (sym nothing) (rest st nothing)
  Found-after_call cur next dev more (done st) known link rest (inr walk) =
      elim (Bool-cases (is_empty st.reversed_path)) [
        | inl empty ↦ rw empty (rest st (ground arith))
        | inr found ↦ rw found (inr (step dev known link walk))
      ]

  links-Found :
      (go : String → DfsState → Search)
      → ((next : String) (st : DfsState) → st.reversed_path ≡ [] → Found next (go next st))
      → (cur : String) (dev : Device) → lookup cur g ≡ some dev
      → (ls : List Link)
      → ((to : String) → links_to to ls ≡ true → links_to to (get_links dev) ≡ true)
      → (st : DfsState) → st.reversed_path ≡ []
      → Found cur (dfs_links go cur ls st)
  unfolding dfs_links
  links-Found go ih cur dev known [] sub st fresh = inl fresh
  links-Found go ih cur dev known (l ∷ ls) sub st fresh =
      let rest = links-Found go ih cur dev known ls (λ to h. sub to (ground arith)) in
      elim (Bool-cases (contains l.to st.visited)) [
        | inl seen ↦ rw (seen, dfs_links) (rest st fresh)
        | inr new ↦
            rw (new, dfs_links)
              (Found-after_call cur l.to dev (dfs_links go cur ls) (go l.to st) known
                (sub l.to (ground (arith, String_eq.same_iff l.to l.to))) rest (ih l.to st fresh))
      ]

  dfs-Found :
      (fuel : ℕ) (cur : String) (st : DfsState)
      → st.reversed_path ≡ []
      → Found cur (dfs g target fuel cur st)
  unfolding dfs
  dfs-Found zero cur st fresh = tt
  dfs-Found (suc fuel) cur st fresh = elim (Bool-cases (cur == target)) [
    | inl here ↦
        rw (here, dfs, fresh) (inr (arrive cur (ground (arith, String_eq.same_iff cur target))))
    | inr there ↦ elim (Option-cases (lookup cur g)) [
      | inl absent ↦ rw (there, absent, dfs) tt
      | inr (dev, known) ↦
          rw (there, known, dfs)
            (links-Found (dfs g target fuel) (dfs-Found fuel) cur dev known (get_links dev)
              (λ to h. h) (record st { visited = add cur st.visited }) fresh)
    ]
  ]

-- A non-empty path that runDfs returns is a walk from the source to the target along links of the
-- graph, with its devices in reversed order.
pub run_dfs_sound :
    (g : TopologyGraph) (source target : String) (st : DfsState)
    → run_dfs g source target ≡ done st
    → is_empty st.reversed_path ≡ false
    → Walk g target source st.reversed_path
unfolding run_dfs
run_dfs_sound g source target st h found =
    elim (subst (Found g target source) h (dfs-Found g target (suc (length g)) source start refl)) [
      | inl nothing ↦ ground arith
      | inr walk ↦ walk
    ]
