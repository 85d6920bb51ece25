-- ===== src/Builder/Collected/Defined.antt =====
-- Every metric that pgwatch is told to collect has a definition in the metrics file.
use mathlib.Core.Option
use pgpilot_operator.Base.{
  String, ◌≡◌, refl, ◌∙◌, true, Bool-cases, inl, inr, Option, none, some, List, [], ◌∷◌, arith, ok,
  string_eq, nonempty, has_items, if◌then◌else◌,
}
use pgpilot_operator.Base.Dict.{Dict, or_else, lookup, copy, lookup-nil, lookup-insert, lookup-copy}
use pgpilot_operator.Base.Int.{ℤ}
use pgpilot_operator.Api.Metrics.{MetricDefinition, PgpilotMetricLibrary}
use pgpilot_operator.Api.Monitor.{PgpilotMonitor}
use pgpilot_operator.Builder.Library.{
  Library, PgwatchSource, PgwatchMetric, PgwatchPreset, PgwatchMetricsFile,
}
use pgpilot_operator.Builder.Metrics.{
  MetricDef, MergedMetrics, metric_def, interval_of, merge_metrics,
}
use pgpilot_operator.Builder.Metrics.Merge.{merge_metrics-last_wins, last_named, all_definitions}
use pgpilot_operator.Builder.Builtin.{Registry, load_builtin_metrics}
use pgpilot_operator.Builder.Sources.{source_entry}
use pgpilot_operator.Builder.MetricsFile.{pgwatch_metric, put_definitions, metrics_file}
use pgpilot_operator.Builder.Collected.{
  collected, preset_interval, interval_in, empty_is_empty, collected-source_entry,
}

pub lookup-put_definitions :
    (n : String) (metrics : Dict String PgwatchMetric) (defs : Dict String MetricDef)
    → lookup n (put_definitions metrics defs)
      ≡ or_else (Option.map pgwatch_metric (lookup n defs)) (lookup n metrics)
unfolding put_definitions lookup
lookup-put_definitions n metrics [] = refl
lookup-put_definitions n metrics ((name, def) ∷ defs) = ground (
  arith,
  lookup-insert n name (pgwatch_metric def) (put_definitions metrics defs),
  lookup-put_definitions n metrics defs,
)

-- Every metric of a preset, if it is there, has a definition in the registry.
pub record IsClosed (registry : Registry) (p : String) : Type 0 where
  pub at :
      (preset : PgwatchPreset) (n : String) (i : ℤ)
      → lookup p registry.presets ≡ some preset
      → lookup n preset.metrics ≡ some i
      → (metric : PgwatchMetric) × (lookup n registry.metrics ≡ some metric)

module _ (lib : Library) (registry : Registry)
    (loaded : load_builtin_metrics lib ≡ ok registry) where
  -- If the built-in registry loads and the metrics file is made, then in that file a merged
  -- definition replaces the built-in one of its name, and the built-in metrics and presets are
  -- there exactly if a preset is chosen.
  pub lookup-metrics_file :
      (merged : MergedMetrics) (mf : PgwatchMetricsFile) (n : String)
      → metrics_file lib merged ≡ ok mf
      → (lookup n mf.metrics
          ≡ or_else
              (Option.map pgwatch_metric (lookup n merged.definitions))
              (if nonempty merged.preset then lookup n registry.metrics else none))
        × (lookup n mf.presets
            ≡ (if nonempty merged.preset then lookup n registry.presets else none))
  unfolding metrics_file
  lookup-metrics_file merged mf n h = elim (Bool-cases (nonempty merged.preset)) [
    | inl p ↦ ground (
      arith,
      rw (p, loaded) at h,
      lookup-put_definitions n (copy [] registry.metrics) merged.definitions,
      lookup-copy n [] registry.metrics,
      lookup-copy n [] registry.presets,
      lookup-nil {V = PgwatchMetric} n,
      lookup-nil {V = PgwatchPreset} n,
    )
    | inr p ↦ ground (
      arith,
      rw p at h,
      lookup-put_definitions n (copy [] []) merged.definitions,
      lookup-copy {V = PgwatchMetric} n [] [],
      lookup-copy {V = PgwatchPreset} n [] [],
      lookup-nil {V = PgwatchMetric} n,
      lookup-nil {V = PgwatchPreset} n,
    )
  ]

  preset_of_source :
      (m : PgpilotMonitor) (merged : MergedMetrics) (src : PgwatchSource)
      → source_entry lib m merged ≡ ok src
      → nonempty src.preset_metrics ≡ true
      → nonempty merged.preset ≡ true
  unfolding source_entry
  preset_of_source m merged src h on = elim (Bool-cases (nonempty merged.preset)) [
    | inl p ↦ p
    | inr p ↦ elim (Bool-cases (has_items merged.intervals)) [
      | inl i ↦ ground (arith, rw (p, i) at h, empty_is_empty)
      | inr i ↦ ground (arith, rw (p, i) at h, empty_is_empty)
    ]
  ]

  collected-metrics_file :
      (m : PgpilotMonitor) (merged : MergedMetrics) (src : PgwatchSource) (mf : PgwatchMetricsFile)
      (n : String)
      → source_entry lib m merged ≡ ok src
      → metrics_file lib merged ≡ ok mf
      → collected mf.presets src n ≡ collected registry.presets src n
  collected-metrics_file m merged src mf n s f = elim (Bool-cases (nonempty src.preset_metrics)) [
    | inl p ↦ ground (
      arith,
      preset_of_source m merged src s p,
      lookup-metrics_file merged mf src.preset_metrics f,
    )
    | inr p ↦ ground arith
  ]

  preset_is_defined :
      (preset n : String) (i : ℤ)
      → IsClosed registry preset
      → preset_interval registry preset n ≡ some i
      → (metric : PgwatchMetric) × ((if nonempty preset then lookup n registry.metrics else none)
          ≡ some metric)
  preset_is_defined preset n i closed e = elim (Bool-cases (nonempty preset)) [
    | inl p ↦ rw p (go (lookup preset registry.presets) refl (rw p at e))
    | inr p ↦ absurd (cc (rw p at e))
  ]
    where
      go :
          (o : Option PgwatchPreset)
          → lookup preset registry.presets ≡ o
          → interval_in n o ≡ some i
          → (metric : PgwatchMetric) × (lookup n registry.metrics ≡ some metric)
      go none at_preset at_metric = absurd (cc at_metric)
      go (some p) at_preset at_metric = closed.at p n i at_preset at_metric

  winner_or_preset :
      (preset n : String) (i : ℤ)
      → IsClosed registry preset
      → (w : Option MetricDefinition)
      → or_else (Option.map (interval_of lib) w) (preset_interval registry preset n) ≡ some i
      → (metric : PgwatchMetric) × (or_else
            (Option.map pgwatch_metric (Option.map metric_def w))
            (if nonempty preset then lookup n registry.metrics else none)
          ≡ some metric)
  winner_or_preset preset n i closed none e = preset_is_defined preset n i closed e
  winner_or_preset preset n i closed (some md) e = (pgwatch_metric (metric_def md), refl)

  -- If the built-in registry loads and defines every metric of the chosen preset, and the source
  -- entry and the metrics file of a monitor are made, then every metric that pgwatch is told to
  -- collect, over the presets of that file, has a definition in that file.
  pub collected-is_defined :
      (m : PgpilotMonitor) (libraries : List PgpilotMetricLibrary) (src : PgwatchSource)
      (mf : PgwatchMetricsFile) (n : String) (i : ℤ)
      → IsClosed registry m.spec.metrics.preset
      → source_entry lib m (merge_metrics lib m.spec.metrics libraries) ≡ ok src
      → metrics_file lib (merge_metrics lib m.spec.metrics libraries) ≡ ok mf
      → collected mf.presets src n ≡ some i
      → (metric : PgwatchMetric) × (lookup n mf.metrics ≡ some metric)
  collected-is_defined m libraries src mf n i closed s f c =
      let merged = merge_metrics lib m.spec.metrics libraries in
      let winner = last_named n (all_definitions m.spec.metrics libraries) in
      let wins = merge_metrics-last_wins lib m.spec.metrics libraries n in
      let (metric, found) = winner_or_preset m.spec.metrics.preset n i closed winner (
        cc (
          c,
          collected-metrics_file m merged src mf n s f,
          collected-source_entry lib registry loaded m merged src n s,
          wins.1,
          wins.2,
        )) in
      (metric, (lookup-metrics_file merged mf n f).0 ∙ rw (wins.0, wins.2) found)
