-- ===== src/Telemetry/Entities/Differences.antt =====
-- The difference of two entities is exactly what one has and the other lacks.
use k8s_inc.Prelude.{
  String, ◌≡◌, refl, inl, inr, Bool, false, not, ◌&&◌, ◌||◌, Option, none, some, List, [], ◌∷◌,
  arith, if◌then◌else◌, Option-cases, Eq, ◌==◌, ℕ_eq, String_eq, contains, contains-add,
  contains_empty, is_empty,
}
use k8s_inc.Prelude.Maps.{lookup, insert, has, IsMap, lookup-insert}
use k8s_inc.Telemetry.Entities.{
  Edge, Edge_eq, TelemetrySourceConfig, TelemetrySourceConfig_eq, SourceMap, TelemetryEntities,
  missing_from, set_difference, insert_nonempty, added_at_old_edges, removed_at_old_edges,
  added_at_new_edges, compute_differences,
}

module _ {ℓ} {A : Type ℓ} ⦃e : Eq A⦄ where
  contains-missing_from :
      (a : A) (ys xs : List A)
      → contains a (missing_from ys xs) ≡ (contains a xs && not (contains a ys))
  unfolding missing_from
  contains-missing_from a ys [] = refl
  contains-missing_from a ys (x ∷ xs) =
      ground (arith, contains-missing_from a ys xs, e.same_iff x a)

  contains-set_difference :
      (a : A) (ys xs : List A)
      → contains a (set_difference ys xs) ≡ (contains a xs && not (contains a ys))
  unfolding set_difference
  contains-set_difference a ys [] = refl
  contains-set_difference a ys (x ∷ xs) = ground (
    arith,
    contains-set_difference a ys xs,
    contains-add x a (set_difference ys xs),
    e.same_iff x a,
  )

abbrev confs_or_none : Option (List TelemetrySourceConfig) → List TelemetrySourceConfig
confs_or_none none = []
confs_or_none (some confs) = confs

-- whether an edge is configured with a source configuration
unfoldable pub configures : Edge → TelemetrySourceConfig → SourceMap → Bool
configures edge conf m = contains conf (confs_or_none (lookup edge m))

module _ (edge : Edge) (conf : TelemetrySourceConfig) where
  configures-insert :
      (k : Edge) (confs : List TelemetrySourceConfig) (m : SourceMap)
      → configures edge conf (insert k confs m)
        ≡ (if k == edge then contains conf confs else configures edge conf m)
  unfolding configures
  configures-insert k confs m = ground (arith, lookup-insert k edge confs m)

  configures-insert_nonempty :
      (k : Edge) (confs : List TelemetrySourceConfig) (m : SourceMap)
      → configures edge conf (insert_nonempty k confs m) ≡ (
          if k == edge && not (is_empty confs) then contains conf confs else configures edge conf m)
  configures-insert_nonempty k confs m = ground (arith, configures-insert k confs m)

  configures-cons :
      (k : Edge) (confs : List TelemetrySourceConfig) (m : SourceMap)
      → (configures edge conf ((k, confs) ∷ m)
          ≡ (if k == edge then contains conf confs else configures edge conf m))
        × (has edge ((k, confs) ∷ m) ≡ (k == edge || has edge m))
  unfolding configures lookup
  configures-cons k confs m = ground arith

  configures_absent : (m : SourceMap) → has edge m ≡ false → configures edge conf m ≡ false
  unfolding configures
  configures_absent m h = ground arith

  configures-found :
      (m : SourceMap) (confs : List TelemetrySourceConfig)
      → lookup edge m ≡ some confs
      → configures edge conf m ≡ contains conf confs
  unfolding configures
  configures-found m confs h = ground arith

  configures-added_at_old_edges :
      (new_sources old_sources : SourceMap)
      → IsMap old_sources
      → configures edge conf (added_at_old_edges new_sources old_sources) ≡ (
          has edge old_sources
          && (configures edge conf new_sources && not (configures edge conf old_sources)))
  unfolding added_at_old_edges configures lookup
  configures-added_at_old_edges new_sources [] u = refl
  configures-added_at_old_edges new_sources ((k, olds) ∷ rest) u =
      elim (Option-cases (lookup k new_sources)) [
        | inl absent ↦ ground (
          arith,
          configures-added_at_old_edges new_sources rest u.1,
          configures-cons k olds rest,
          configures_absent new_sources,
          Edge_eq.same_iff k edge,
        )
        | inr (news, found) ↦
            let confs = missing_from olds news in
            let more = added_at_old_edges new_sources rest in
            ground (
              arith,
              configures-added_at_old_edges new_sources rest u.1,
              configures-cons k olds rest,
              configures-insert_nonempty k confs more,
              contains-missing_from conf olds news,
              contains_empty conf confs,
              configures-found new_sources news,
              Edge_eq.same_iff k edge,
            )
      ]

  configures-removed_at_old_edges :
      (new_sources old_sources : SourceMap)
      → IsMap old_sources
      → configures edge conf (removed_at_old_edges new_sources old_sources)
        ≡ (configures edge conf old_sources && not (configures edge conf new_sources))
  unfolding removed_at_old_edges configures lookup
  configures-removed_at_old_edges new_sources [] u = refl
  configures-removed_at_old_edges new_sources ((k, olds) ∷ rest) u =
      elim (Option-cases (lookup k new_sources)) [
        | inl absent ↦ ground (
          arith,
          configures-removed_at_old_edges new_sources rest u.1,
          configures-cons k olds rest,
          configures-insert k olds (removed_at_old_edges new_sources rest),
          configures_absent new_sources,
          configures_absent rest,
          Edge_eq.same_iff k edge,
        )
        | inr (news, found) ↦
            let confs = missing_from news olds in
            let more = removed_at_old_edges new_sources rest in
            ground (
              arith,
              configures-removed_at_old_edges new_sources rest u.1,
              configures-cons k olds rest,
              configures-insert_nonempty k confs more,
              contains-missing_from conf news olds,
              contains_empty conf confs,
              configures-found new_sources news,
              configures_absent rest,
              Edge_eq.same_iff k edge,
            )
      ]

  configures-added_at_new_edges :
      (old_sources new_sources added : SourceMap)
      → IsMap new_sources
      → configures edge conf (added_at_new_edges old_sources new_sources added) ≡ (
          if has edge new_sources && not (has edge old_sources)
          then configures edge conf new_sources
          else configures edge conf added)
  unfolding added_at_new_edges lookup configures
  configures-added_at_new_edges old_sources [] added u = refl
  configures-added_at_new_edges old_sources ((k, conf') ∷ rest) added u = ground (
    arith,
    configures-added_at_new_edges old_sources rest added u.1,
    configures-cons k conf' rest,
    configures-insert k conf' (added_at_new_edges old_sources rest added),
    Edge_eq.same_iff k edge,
  )

module _ (old_entities new_entities : TelemetryEntities) (old_map : IsMap old_entities.sources)
    (new_map : IsMap new_entities.sources) where
  -- When no edge is bound twice in either, `added` configures an edge with a configuration exactly when the new entities do and the old
  -- do not; `removed` exactly when the old entities do and the new do not.
  pub compute_differences_sources :
      (edge : Edge) (conf : TelemetrySourceConfig)
      → let (added, removed) = compute_differences old_entities new_entities in
        (configures edge conf added.sources ≡ (
          configures edge conf new_entities.sources
          && not (configures edge conf old_entities.sources)))
        × (configures edge conf removed.sources ≡ (
            configures edge conf old_entities.sources
            && not (configures edge conf new_entities.sources)))
  unfolding compute_differences
  compute_differences_sources edge conf = ground (
    arith,
    configures-added_at_new_edges edge conf old_entities.sources new_entities.sources
        (added_at_old_edges new_entities.sources old_entities.sources) new_map,
    configures-added_at_old_edges edge conf new_entities.sources old_entities.sources old_map,
    configures-removed_at_old_edges edge conf new_entities.sources old_entities.sources old_map,
    configures_absent edge conf old_entities.sources,
    configures_absent edge conf new_entities.sources,
  )

-- `added` has a transit switch or a sink edge exactly when the new entities do and the old do not;
-- `removed` exactly when the old entities do and the new do not.
pub compute_differences_sets :
    (old_entities new_entities : TelemetryEntities) (transit : String) (sink : Edge)
    → let (added, removed) = compute_differences old_entities new_entities in
      (contains transit added.transits
        ≡ (contains transit new_entities.transits && not (contains transit old_entities.transits)))
      × (contains transit removed.transits ≡ (
          contains transit old_entities.transits && not (contains transit new_entities.transits)))
      × (contains sink added.sinks
          ≡ (contains sink new_entities.sinks && not (contains sink old_entities.sinks)))
      × (contains sink removed.sinks
          ≡ (contains sink old_entities.sinks && not (contains sink new_entities.sinks)))
unfolding compute_differences
compute_differences_sets old_entities new_entities transit sink = (
  contains-set_difference transit old_entities.transits new_entities.transits,
  contains-set_difference transit new_entities.transits old_entities.transits,
  contains-set_difference sink old_entities.sinks new_entities.sinks,
  contains-set_difference sink new_entities.sinks old_entities.sinks,
)
