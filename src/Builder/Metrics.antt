-- ===== src/Builder/Metrics.antt =====
-- internal/builder/metrics_merge.go
pub mod Merge
pub mod Versions
pub mod Printed
use pgpilot_operator.Base.{
  String, Bool, true, false, Option, none, some, List, [], ◌∷◌, string_eq, if◌then◌else◌,
}
use pgpilot_operator.Base.Dict.{Dict, insert}
use pgpilot_operator.Base.Int.{ℤ, pos, is_positive, int_eq}
use pgpilot_operator.Base.Int.Format.{atoi}
use pgpilot_operator.Api.Metrics.{MetricDefinition, PgpilotMetricLibrary}
use pgpilot_operator.Api.Monitor.{MetricsSpec}
use pgpilot_operator.Builder.Library.{Library}

pub record MetricDef : Type 0 where
  pub sqls : Dict ℤ String
  pub gauges : List String
  pub is_instance_level : Bool
  pub node_status : String
  pub description : String

pub record MergedMetrics : Type 0 where
  pub preset : String
  pub intervals : Dict String ℤ
  pub definitions : Dict String MetricDef

abbrev pub default_interval : ℤ
default_interval = pos 60

-- The loop over `md.SQLs`: a key that is no integer is skipped. Go visits the entries in no fixed
-- order; here the last entry of the list comes first.
unfoldable pub parse_sqls : Dict String String → Dict ℤ String
parse_sqls [] = []
parse_sqls ((ver_str, sql) ∷ sqls) =
    let rest = parse_sqls sqls in
    elim (atoi ver_str) [ none ↦ rest | some ver ↦ insert ver sql rest ]

unfoldable pub node_status : MetricDefinition → String
node_status md = if md.master_only then "primary" else if md.standby_only then "standby" else ""

unfoldable pub metric_def : MetricDefinition → MetricDef
metric_def md = record {
  sqls = parse_sqls md.sqls;
  gauges = md.gauges;
  is_instance_level = md.is_instance_level;
  node_status = node_status md;
  description = md.description;
}

module _ (lib : Library) where
  abbrev given_interval : Option ℤ → ℤ
  given_interval none = default_interval
  given_interval (some d) = lib.whole_seconds d

  unfoldable pub interval_of : MetricDefinition → ℤ
  interval_of md =
      let interval = given_interval md.interval in
      if is_positive interval then interval else default_interval

  unfoldable pub add_metric : MergedMetrics → MetricDefinition → MergedMetrics
  add_metric m md = record m {
    intervals = insert md.name (interval_of md) m.intervals;
    definitions = insert md.name (metric_def md) m.definitions;
  }

  -- `for _, md := range mds { addMetric(&m, md) }`
  unfoldable pub add_metrics : MergedMetrics → List MetricDefinition → MergedMetrics
  add_metrics m [] = m
  add_metrics m (md ∷ mds) = add_metrics (add_metric m md) mds

  unfoldable pub add_libraries : MergedMetrics → List PgpilotMetricLibrary → MergedMetrics
  add_libraries m [] = m
  add_libraries m (l ∷ ls) = add_libraries (add_metrics m l.spec.metrics) ls

  unfoldable pub merge_metrics : MetricsSpec → List PgpilotMetricLibrary → MergedMetrics
  merge_metrics spec libraries =
      let m : MergedMetrics = record { preset = spec.preset; intervals = []; definitions = [] } in
      add_metrics (add_libraries m libraries) spec.custom
