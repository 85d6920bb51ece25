-- ===== src/Builder/Alike/Files.antt =====
-- The metrics file does not depend on the order in which the loop meets the merged definitions.
use mathlib.Core.Option
use pgpilot_operator.Base.{String, refl, sym, ap, Option, none, some, [], Result, ok, string_eq}
use pgpilot_operator.Base.Dict.{Dict, lookup, copy}
use pgpilot_operator.Base.Dict.SameBy.{Both, or_else-Both, SameBy, SameBy-refl}
use pgpilot_operator.Base.Int.{int_eq}
use pgpilot_operator.Builder.Library.{Library, PgwatchMetric, PgwatchMetricsFile}
use pgpilot_operator.Builder.Metrics.{MetricDef, MergedMetrics}
use pgpilot_operator.Builder.Builtin.{Registry}
use pgpilot_operator.Builder.MetricsFile.{pgwatch_metric, put_definitions, metrics_file}
use pgpilot_operator.Builder.Collected.Defined.{lookup-put_definitions}
use pgpilot_operator.Builder.Alike.{AlikeDef, AlikeMerged, AlikeMetric, AlikePreset, AlikeFile}
use pgpilot_operator.Builder.Alike.Results.{AlikeResult, after_same}

map-Both :
    (a b : Option MetricDef)
    → Both AlikeDef a b
    → Both AlikeMetric (Option.map pgwatch_metric a) (Option.map pgwatch_metric b)
unfolding pgwatch_metric
map-Both none none h = tt
map-Both none (some b) h = h
map-Both (some a) none h = h
map-Both (some a) (some b) (sqls, e, same) = (sqls, ap pgwatch_metric e, same)

put_definitions-Alike :
    (metrics : Dict String PgwatchMetric) (c d : Dict String MetricDef)
    → SameBy AlikeDef c d
    → SameBy AlikeMetric (put_definitions metrics c) (put_definitions metrics d)
put_definitions-Alike metrics c d same = record {
  at = λ k.
      rw (lookup-put_definitions, lookup-put_definitions)
        (or_else-Both AlikeMetric (Option.map pgwatch_metric (lookup k c))
          (Option.map pgwatch_metric (lookup k d)) (lookup k metrics) (lookup k metrics)
          (map-Both (lookup k c) (lookup k d) (same.at k))
          ((SameBy-refl AlikeMetric metrics (λ v. (v.sqls, refl, record { at = λ j. refl }))).at
            k));
}

-- The file over a registry.
abbrev file_of : Dict String MetricDef → Registry → Result PgwatchMetricsFile
file_of definitions builtin = ok (record {
  metrics = put_definitions (copy [] builtin.metrics) definitions;
  presets = copy [] builtin.presets;
})

module _ (lib : Library) where
  pub metrics_file-Alike :
      (a b : MergedMetrics)
      → AlikeMerged a b
      → AlikeResult AlikeFile (metrics_file lib a) (metrics_file lib b)
  unfolding metrics_file
  metrics_file-Alike a b alike = rw (sym alike.preset) (
      after_same {A = Registry} AlikeFile _ (file_of a.definitions) (file_of b.definitions)
        (λ builtin. record {
          metrics =
              put_definitions-Alike (copy [] builtin.metrics) a.definitions b.definitions
                alike.definitions;
          presets =
              SameBy-refl AlikePreset (copy [] builtin.presets)
                (λ v. (v.metrics, refl, record { at = λ j. refl }));
        }))
