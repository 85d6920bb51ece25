-- ===== src/Builder/Alike.antt =====
-- Inputs of the builder that differ only in the order in which a `range` loop meets the entries of
-- their maps.
pub mod Merged
pub mod Results
pub mod Sources
pub mod Files
pub mod Built
use pgpilot_operator.Base.{String, ◌≡◌, List, AllPairs, string_eq}
use pgpilot_operator.Base.Dict.{Dict, Same}
use pgpilot_operator.Base.Dict.SameBy.{SameBy}
use pgpilot_operator.Base.Int.{ℤ, int_eq}
use pgpilot_operator.Api.Metrics.{MetricDefinition, PgpilotMetricLibrary}
use pgpilot_operator.Api.Monitor.{PgpilotMonitor}
use pgpilot_operator.Builder.Library.{
  Library, PgwatchSource, PgwatchMetric, PgwatchPreset, PgwatchMetricsFile,
}
use pgpilot_operator.Builder.Metrics.{MetricDef, MergedMetrics}
use pgpilot_operator.Builder.Metrics.Versions.{Unambiguous}

-- No two keys of `sqls` are read as one version.
abbrev pub AlikeDefinition : MetricDefinition → MetricDefinition → Type 0
AlikeDefinition a b =
    (sqls : Dict String String) × (b ≡ record a { sqls = sqls })
    × Same a.sqls sqls
    × Unambiguous a.sqls

abbrev pub AlikeLibrary : PgpilotMetricLibrary → PgpilotMetricLibrary → Type 0
AlikeLibrary a b = AllPairs AlikeDefinition a.spec.metrics b.spec.metrics

-- What the builder reads of a monitor. The order of the user's labels does not enter.
pub record AlikeMonitor (a b : PgpilotMonitor) : Type 0 where
  pub name : a.object_meta.name ≡ b.object_meta.name
  pub namespace : a.object_meta.namespace ≡ b.object_meta.namespace
  pub custom_tags : Dict String String
  pub database : b.spec.database ≡ record a.spec.database { custom_tags = custom_tags }
  pub same_tags : Same a.spec.database.custom_tags custom_tags
  pub preset : a.spec.metrics.preset ≡ b.spec.metrics.preset
  pub custom : AllPairs AlikeDefinition a.spec.metrics.custom b.spec.metrics.custom

abbrev pub AlikeDef : MetricDef → MetricDef → Type 0
AlikeDef a b = (sqls : Dict ℤ String) × (b ≡ record a { sqls = sqls }) × Same a.sqls sqls

pub record AlikeMerged (a b : MergedMetrics) : Type 0 where
  pub preset : a.preset ≡ b.preset
  pub intervals : Same a.intervals b.intervals
  pub definitions : SameBy AlikeDef a.definitions b.definitions

abbrev pub AlikeSource : PgwatchSource → PgwatchSource → Type 0
AlikeSource a b =
    (custom_metrics : Dict String ℤ) × (custom_tags : Dict String String) × (b
      ≡ record a { custom_metrics = custom_metrics; custom_tags = custom_tags })
    × Same a.custom_metrics custom_metrics
    × Same a.custom_tags custom_tags

abbrev pub AlikeMetric : PgwatchMetric → PgwatchMetric → Type 0
AlikeMetric a b = (sqls : Dict ℤ String) × (b ≡ record a { sqls = sqls }) × Same a.sqls sqls

abbrev pub AlikePreset : PgwatchPreset → PgwatchPreset → Type 0
AlikePreset a b =
    (metrics : Dict String ℤ) × (b ≡ record a { metrics = metrics }) × Same a.metrics metrics

pub record AlikeFile (a b : PgwatchMetricsFile) : Type 0 where
  pub metrics : SameBy AlikeMetric a.metrics b.metrics
  pub presets : SameBy AlikePreset a.presets b.presets

-- Both YAML encoders sort the keys of a map: what they write depends on the map alone.
pub record SortsKeys (lib : Library) : Type 0 where
  pub sources :
      (a b : List PgwatchSource)
      → AllPairs AlikeSource a b
      → lib.marshal_sources a ≡ lib.marshal_sources b
  pub metrics :
      (a b : PgwatchMetricsFile) → AlikeFile a b → lib.marshal_metrics a ≡ lib.marshal_metrics b
