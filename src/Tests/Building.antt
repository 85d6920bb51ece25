-- ===== src/Tests/Building.antt =====
-- The builder on the monitor `orders` and its library.
use pgpilot_operator.Base.{
  String, ◌≡◌, ◌≢◌, refl, sym, ◌↔◌, ◌⊎◌, true, none, some, List, [], ◌∷◌, map, Result, ok,
  ok-injective, arith, ap, string_eq, nonempty, if◌then◌else◌,
}
use mathlib.Core.List.{Memᴰ}
use mathlib.Core.Option
use mathlib.Core.Option.{some-injective}
use mathlib.Core.Path.{subst}
use Prim.Native.Char.{code}
use pgpilot_operator.Base.Dict.{Dict, lookup, insert, copy, or_else}
use pgpilot_operator.Base.Int.{ℤ, pos, int_eq, ℤ-discrete}
use pgpilot_operator.Base.Int.Format.{atoi}
use pgpilot_operator.Kube.Objects.{ConfigMap, config_map_volume, empty_dir}
use pgpilot_operator.Builder.Library.{PgwatchSource, PgwatchMetric, PgwatchMetricsFile}
use pgpilot_operator.Builder.Labels.{merge_labels, merge_annotations, annotation_config_hash}
use pgpilot_operator.Builder.Labels.Precedence.{lookup-merged_metadata}
use pgpilot_operator.Builder.Metrics.{
  node_status, metric_def, interval_of, parse_sqls, add_metric, add_metrics, add_libraries,
  merge_metrics,
}
use pgpilot_operator.Builder.Sources.{bare_source, source_entry, render_sources}
use pgpilot_operator.Builder.MetricsFile.{
  pgwatch_metric, put_definitions, metrics_file, render_metrics,
}
use pgpilot_operator.Builder.Hash.{hashed, content_hash}
use pgpilot_operator.Builder.ConfigMap.{config_entries, config_map, build_config_map}
use pgpilot_operator.Builder.Deployment.{build_env_vars, deployment}
use pgpilot_operator.Builder.Service.{build_service}
use pgpilot_operator.Builder.ServiceMonitor.{build_service_monitor}
use pgpilot_operator.Builder.Builtin.{load_builtin_metrics, expand_preset_into_intervals}
use pgpilot_operator.Builder.Hash.Injective.{IsNulFree}
use pgpilot_operator.Builder.Discovery.{has_service_monitor_crd}
use pgpilot_operator.Builder.Discovery.Found.{has_service_monitor_crd_iff}
use pgpilot_operator.Builder.Wiring.{Selects, selectors_match}
use pgpilot_operator.Builder.Wiring.Files.{found_at, build_config_map-is_mounted}
use pgpilot_operator.Builder.Rollout.{YamlIsNulFree, Collision, build_config_map-rollout}
use pgpilot_operator.Builder.Collected.{collected, preset_interval, collected-source_entry}
use pgpilot_operator.Builder.Collected.Defined.{IsClosed, lookup-metrics_file, collected-is_defined}
use pgpilot_operator.Builder.Secrecy.{HasCredentials, build_env_vars-HasCredentials}
use pgpilot_operator.Tests.Data.{merged, plain, builtin, basic, bgwriter, sizes, orders, shared}

built : (out : ConfigMap × String) × (build_config_map plain orders merged ≡ ok out)
unfolding build_config_map config_entries config_map content_hash hashed render_sources source_entry
    render_metrics metrics_file expand_preset_into_intervals load_builtin_metrics copy lookup
    merge_metrics add_libraries add_metrics add_metric interval_of metric_def parse_sqls node_status
    insert string_eq int_eq ℤ-discrete atoi
built = (_, refl)

-- The preset's metric and the monitor's own, which replaces the library's.
abbrev source : PgwatchSource
source = record (bare_source plain orders) {
  custom_metrics = ("bgwriter", pos 60) ∷ ("table_sizes", pos 60) ∷ [];
}

abbrev file : PgwatchMetricsFile
file = record {
  metrics =
      ("bgwriter", bgwriter)
      ∷ ("table_sizes", pgwatch_metric (metric_def (record sizes { interval = none })))
      ∷ [];
  presets = ("basic", basic) ∷ [];
}

source_made : source_entry plain orders merged ≡ ok source
unfolding source_entry expand_preset_into_intervals load_builtin_metrics copy lookup merge_metrics
    add_libraries add_metrics add_metric interval_of metric_def parse_sqls node_status insert
    string_eq int_eq ℤ-discrete atoi
source_made = refl

file_made : metrics_file plain merged ≡ ok file
unfolding metrics_file load_builtin_metrics put_definitions copy merge_metrics add_libraries
    add_metrics add_metric interval_of metric_def parse_sqls node_status insert string_eq int_eq
    ℤ-discrete atoi
file_made = refl

loaded : load_builtin_metrics plain ≡ ok builtin
unfolding load_builtin_metrics
loaded = refl

plain-YamlIsNulFree : YamlIsNulFree plain
plain-YamlIsNulFree = record {
  sources =
      λ l s e. subst IsNulFree (ok-injective e) ((λ c. absurd (omega (arith, ap code c))), tt);
  metrics =
      λ f s e. subst IsNulFree (ok-injective e) ((λ c. absurd (omega (arith, ap code c))), tt);
}

builtin-IsClosed : IsClosed builtin "basic"
unfolding lookup string_eq
builtin-IsClosed = record {
  at = λ preset n i p q. (
    bgwriter,
    named n i (subst (λ x. lookup n x.metrics ≡ some i) (sym (some-injective basic preset p)) q),
  );
}
  where
    named :
        (n : String) (i : ℤ)
        → lookup n basic.metrics ≡ some i
        → lookup n builtin.metrics ≡ some bgwriter
    named n i h = ground arith

abbrev system : Dict String String
system = ("a", "b") ∷ []

abbrev user : Dict String String
user = ("a", "c") ∷ ("team", "dba") ∷ []

lookup-merged_metadata_example :
    (lookup "team" (merge_labels system user) ≡ or_else (lookup "team" system) (lookup "team" user))
    × (lookup "team" (merge_annotations system user)
        ≡ or_else (lookup "team" system) (lookup "team" user))
lookup-merged_metadata_example = lookup-merged_metadata "team" system user

has_service_monitor_crd_iff_example :
    (has_service_monitor_crd (ok ("PodMonitor" ∷ "ServiceMonitor" ∷ [])) ≡ true) ↔ (
      (kinds : List String) × (◌≡◌ {A = Result (List String)}
        (ok ("PodMonitor" ∷ "ServiceMonitor" ∷ []))
        (ok kinds))
      × Memᴰ "ServiceMonitor" kinds)
has_service_monitor_crd_iff_example =
    has_service_monitor_crd_iff (ok ("PodMonitor" ∷ "ServiceMonitor" ∷ []))

selectors_match_example :
    let dep = deployment orders merged "h" [] in
    let svc = build_service orders in
    let sm = build_service_monitor orders in
    Selects dep.selector.match_labels dep.template.labels
    × Selects svc.selector dep.template.labels
    × Selects sm.selector.match_labels svc.object_meta.labels
    × (sm.match_namespaces ≡ svc.object_meta.namespace ∷ [])
    × (svc.object_meta.namespace ≡ dep.object_meta.namespace)
selectors_match_example = selectors_match orders merged "h" []

build_config_map-is_mounted_example :
    let dep = deployment orders merged built.0.1 [] in
    (lookup annotation_config_hash dep.template.annotations
      ≡ some (content_hash plain built.0.0.entries))
    × (map (λ v. v.source) dep.template.spec.volumes
        ≡ config_map_volume built.0.0.object_meta.name ∷ empty_dir ∷ [])
    × (dep.object_meta.namespace ≡ built.0.0.object_meta.namespace)
    × (found_at "/etc/pgwatch" dep.template.spec
        ≡ some (config_map_volume built.0.0.object_meta.name) ∷ [])
    × (found_at "/tmp" dep.template.spec ≡ some empty_dir ∷ [])
build_config_map-is_mounted_example =
    build_config_map-is_mounted plain orders merged built.0.0 built.0.1 [] built.1

build_config_map-rollout_example :
    (built.0.0.entries ≡ built.0.0.entries) ⊎ Collision plain built.0.0 built.0.0
build_config_map-rollout_example =
    build_config_map-rollout plain plain-YamlIsNulFree orders orders merged merged built.0.0
      built.0.0 built.0.1 built.0.1 built.1 built.1 refl

collected-source_entry_example :
    collected builtin.presets source "bgwriter"
    ≡ or_else
        (lookup "bgwriter" merged.intervals)
        (preset_interval builtin merged.preset "bgwriter")
collected-source_entry_example =
    collected-source_entry plain builtin loaded orders merged source "bgwriter" source_made

lookup-metrics_file_example :
    (lookup "table_sizes" file.metrics
      ≡ or_else
          (Option.map pgwatch_metric (lookup "table_sizes" merged.definitions))
          (if nonempty merged.preset then lookup "table_sizes" builtin.metrics else none))
    × (lookup "table_sizes" file.presets
        ≡ (if nonempty merged.preset then lookup "table_sizes" builtin.presets else none))
lookup-metrics_file_example =
    lookup-metrics_file plain builtin loaded merged file "table_sizes" file_made

collected-is_defined_example :
    (metric : PgwatchMetric) × (lookup "bgwriter" file.metrics ≡ some metric)
unfolding lookup string_eq
collected-is_defined_example =
    collected-is_defined plain builtin loaded orders (shared ∷ []) source file "bgwriter" (pos 60)
      builtin-IsClosed source_made file_made refl

build_env_vars-HasCredentials_example :
    (build_env_vars orders ≢ none) ↔ HasCredentials orders.spec.database
build_env_vars-HasCredentials_example = build_env_vars-HasCredentials orders
