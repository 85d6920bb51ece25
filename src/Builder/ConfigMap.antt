-- ===== src/Builder/ConfigMap.antt =====
-- internal/builder/configmap.go: `BuildConfigMap`.
use pgpilot_operator.Base.{
  String, ◌<>◌, Bool, ◌||◌, [], ◌∷◌, Result, ok, wrapping, ◌>>=◌, string_eq, nonempty, has_items,
  if◌then◌else◌,
}
use pgpilot_operator.Base.Dict.{Dict, insert}
use pgpilot_operator.Kube.Meta.{new_meta}
use pgpilot_operator.Kube.Objects.{ConfigMap}
use pgpilot_operator.Api.Monitor.{PgpilotMonitor}
use pgpilot_operator.Builder.Labels.{system_labels, resource_name}
use pgpilot_operator.Builder.Library.{Library}
use pgpilot_operator.Builder.Metrics.{MergedMetrics}
use pgpilot_operator.Builder.Sources.{render_sources}
use pgpilot_operator.Builder.MetricsFile.{render_metrics}
use pgpilot_operator.Builder.Hash.{content_hash}

abbrev pub sources_key : String
sources_key = "sources.yaml"

abbrev pub metrics_key : String
metrics_key = "metrics.yaml"

-- `merged.Preset != "" || len(merged.Definitions) > 0`
abbrev pub wants_metrics : MergedMetrics → Bool
wants_metrics merged = nonempty merged.preset || has_items merged.definitions

module _ (lib : Library) where
  -- `data`
  unfoldable pub config_entries : PgpilotMonitor → MergedMetrics → Result (Dict String String)
  config_entries monitor merged = do
    sources_yaml ← wrapping "render sources.yaml" (render_sources lib monitor merged)
    let entries : Dict String String = (sources_key, sources_yaml) ∷ []
    if wants_metrics merged
        then (do
          metrics_yaml ← wrapping "render metrics.yaml" (render_metrics lib merged)
          ok (insert metrics_key metrics_yaml entries))
        else ok entries

  -- `cm`
  unfoldable pub config_map : PgpilotMonitor → Dict String String → ConfigMap
  config_map monitor entries = record {
    type_meta = record { api_version = "v1"; kind = "ConfigMap" };
    object_meta =
        new_meta (resource_name monitor.object_meta.name <> "-config") monitor.object_meta.namespace
          (system_labels monitor.object_meta.name) [];
    entries = entries;
  }

  unfoldable pub build_config_map : PgpilotMonitor → MergedMetrics → Result (ConfigMap × String)
  build_config_map monitor merged = do
    entries ← config_entries monitor merged
    ok (config_map monitor entries, content_hash lib entries)
