-- ===== src/Builder/MetricsFile.antt =====
-- internal/builder/configmap.go: `renderMetrics`.
use pgpilot_operator.Base.{String, [], ◌∷◌, Result, ok, ◌>>=◌, string_eq, nonempty, if◌then◌else◌}
use pgpilot_operator.Base.Dict.{Dict, insert, copy}
use pgpilot_operator.Builder.Library.{Library, PgwatchMetric, PgwatchMetricsFile}
use pgpilot_operator.Builder.Metrics.{MetricDef, MergedMetrics}
use pgpilot_operator.Builder.Builtin.{Registry, load_builtin_metrics}

unfoldable pub pgwatch_metric : MetricDef → PgwatchMetric
pgwatch_metric def = record {
  init_sql = "";
  sqls = def.sqls;
  gauges = def.gauges;
  is_instance_level = def.is_instance_level;
  node_status = def.node_status;
  storage_name = "";
  description = def.description;
}

-- The loop over `merged.Definitions`.
unfoldable pub put_definitions :
    Dict String PgwatchMetric → Dict String MetricDef → Dict String PgwatchMetric
put_definitions metrics [] = metrics
put_definitions metrics ((name, def) ∷ defs) =
    insert name (pgwatch_metric def) (put_definitions metrics defs)

module _ (lib : Library) where
  abbrev no_registry : Registry
  no_registry = record { metrics = []; presets = [] }

  -- `mf`
  unfoldable pub metrics_file : MergedMetrics → Result PgwatchMetricsFile
  metrics_file merged = do
    builtin ← if nonempty merged.preset then load_builtin_metrics lib else ok no_registry
    ok (record {
      metrics = put_definitions (copy [] builtin.metrics) merged.definitions;
      presets = copy [] builtin.presets;
    })

  unfoldable pub render_metrics : MergedMetrics → Result String
  render_metrics merged = do mf ← metrics_file merged; lib.marshal_metrics mf
