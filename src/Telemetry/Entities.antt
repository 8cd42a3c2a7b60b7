-- ===== src/Telemetry/Entities.antt =====
-- src/kinda-sdn/telemetry/util.go: what a request configures, as sets of edges and switches, and the
-- difference of two of them.
pub mod Differences
mod Tests
use k8s_inc.Prelude.{
  ℕ, zero, suc, ◌+◌, ◌-◌, ◌*◌, ◌/◌, ◌%◌, ◌^◌, ◌≤◌, ◌<◌, String, ◌≡◌, refl, sym, ap, ◌∙◌, ◌≢◌, ◌↔◌,
  ◌⊎◌, inl, inr, Bool, true, false, not, ◌&&◌, ◌||◌, Option, none, some, List, [], ◌∷◌, ◌++◌, map,
  arith, ltb, leb, if◌then◌else◌, ltb→lt, lt→ltb, leb→le, le→leb, Bool-cases, Option-cases, Eq,
  ◌==◌, ℕ_eq, String_eq, contains, add, remove, contains-add, contains-remove, add_not_empty,
  remove_empty, contains_empty, same_refl, is_some, length, is_empty, get_elem?, replicate,
  find_index, update_at, count_if, length-append, length-update_at, length-replicate, count_if-le,
  get_elem?-update_at, count_if-update_at, find_index_hit, find_index_first, find_index_miss,
  get_elem?-lt, update_at_all, find_index-update_at, take, take-suc, take-append, get_elem?_of_lt,
}
use k8s_inc.Prelude.Int.{
  ℤ, pos, negsuc, ◌+ℤ◌, ◌-ℤ◌, neg, leb_ℤ, pos-sub-one, pos-add-one, sub-add_one, add-sub_one,
  neg-neg, ℤ_eq, same_ℤ,
}
use k8s_inc.Prelude.Maps.{
  lookup, insert, erase, has, IsMap, lookup-insert, lookup-erase, length-insert, length-erase,
  IsMap-insert, IsMap-erase, erase_absent,
}

pub record Edge : Type 0 where
  pub from : String
  pub to : String

pub record TernaryIpPair : Type 0 where
  pub src : String
  pub dst : String

pub record TelemetrySourceConfig : Type 0 where
  pub ips : TernaryIpPair
  pub src_port : ℤ
  pub dst_port : ℤ
  pub tunneled : Bool

-- Go's `==` on these structs compares field by field.
abbrev pub same_edge : Edge → Edge → Bool
same_edge a b = a.from == b.from && a.to == b.to

pub same_edge_iff : (a b : Edge) → (same_edge a b ≡ true) ↔ (a ≡ b)
same_edge_iff a b = ground (arith, String_eq.same_iff a.from b.from, String_eq.same_iff a.to b.to)

instance abbrev pub Edge_eq : Eq Edge
Edge_eq = record { same = same_edge; same_iff = same_edge_iff }

abbrev same_bool : Bool → Bool → Bool
same_bool true b = b
same_bool false b = not b

abbrev pub same_config : TelemetrySourceConfig → TelemetrySourceConfig → Bool
same_config a b =
    (a.ips.src == b.ips.src && a.ips.dst == b.ips.dst)
    && (a.src_port == b.src_port && a.dst_port == b.dst_port)
    && same_bool a.tunneled b.tunneled

pub same_config_iff : (a b : TelemetrySourceConfig) → (same_config a b ≡ true) ↔ (a ≡ b)
same_config_iff a b = ground (
  arith,
  String_eq.same_iff a.ips.src b.ips.src,
  String_eq.same_iff a.ips.dst b.ips.dst,
  ℤ_eq.same_iff a.src_port b.src_port,
  ℤ_eq.same_iff a.dst_port b.dst_port,
)

instance abbrev pub TelemetrySourceConfig_eq : Eq TelemetrySourceConfig
TelemetrySourceConfig_eq = record { same = same_config; same_iff = same_config_iff }

abbrev pub SourceMap : Type 0
SourceMap = List (Edge × List TelemetrySourceConfig)

pub record TelemetryEntities : Type 0 where
  pub sources : SourceMap
  pub transits : List String
  pub sinks : List Edge

unfoldable pub entities_empty : TelemetryEntities → Bool
entities_empty t = is_empty t.sources && is_empty t.transits && is_empty t.sinks

abbrev pub new_telemetry_entities : TelemetryEntities
new_telemetry_entities = record { sources = []; transits = []; sinks = [] }

-- the loops with `found`: the elements of one list that the other lacks
module _ {ℓ} {A : Type ℓ} ⦃e : Eq A⦄ where
  unfoldable pub missing_from : List A → List A → List A
  missing_from ys [] = []
  missing_from ys (x ∷ xs) =
      let rest = missing_from ys xs in if contains x ys then rest else x ∷ rest

  -- the loops over sets: what is in the second set and not in the first
  unfoldable pub set_difference : List A → List A → List A
  set_difference ys [] = []
  set_difference ys (x ∷ xs) =
      let rest = set_difference ys xs in if contains x ys then rest else add x rest

-- `if len(confs) > 0 { m[edge] = confs }`
abbrev pub insert_nonempty : Edge → List TelemetrySourceConfig → SourceMap → SourceMap
insert_nonempty edge confs m = if is_empty confs then m else insert edge confs m

-- The first loop of `computeDifferences`, for `added`.
unfoldable pub added_at_old_edges : SourceMap → SourceMap → SourceMap
added_at_old_edges new_sources [] = []
added_at_old_edges new_sources ((edge, old_confs) ∷ rest) =
    let more = added_at_old_edges new_sources rest in
    elim (lookup edge new_sources) [
      | none ↦ more
      | some new_confs ↦ insert_nonempty edge (missing_from old_confs new_confs) more
    ]

-- The first loop, for `removed`.
unfoldable pub removed_at_old_edges : SourceMap → SourceMap → SourceMap
removed_at_old_edges new_sources [] = []
removed_at_old_edges new_sources ((edge, old_confs) ∷ rest) =
    let more = removed_at_old_edges new_sources rest in
    elim (lookup edge new_sources) [
      | none ↦ insert edge old_confs more
      | some new_confs ↦ insert_nonempty edge (missing_from new_confs old_confs) more
    ]

-- The second loop: edges that only the new entities have.
unfoldable pub added_at_new_edges : SourceMap → SourceMap → SourceMap → SourceMap
added_at_new_edges old_sources [] added = added
added_at_new_edges old_sources ((edge, conf) ∷ rest) added =
    let more = added_at_new_edges old_sources rest added in
    if has edge old_sources then more else insert edge conf more

unfoldable pub compute_differences :
    TelemetryEntities → TelemetryEntities → TelemetryEntities × TelemetryEntities
unfolding added_at_old_edges removed_at_old_edges added_at_new_edges set_difference
compute_differences old_entities new_entities = (
  record {
    sources =
        added_at_new_edges old_entities.sources new_entities.sources
          (added_at_old_edges new_entities.sources old_entities.sources);
    transits = set_difference old_entities.transits new_entities.transits;
    sinks = set_difference old_entities.sinks new_entities.sinks;
  },
  record {
    sources = removed_at_old_edges new_entities.sources old_entities.sources;
    transits = set_difference new_entities.transits old_entities.transits;
    sinks = set_difference new_entities.sinks old_entities.sinks;
  },
)
