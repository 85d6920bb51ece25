-- ===== src/Builder/Alike/Merged.antt =====
-- The merge of metrics does not depend on the order of the entries of `SQLs`.
use mathlib.Core.Path.{subst}
use pgpilot_operator.Base.{String, ◌≡◌, refl, sym, List, [], ◌∷◌, AllPairs, string_eq}
use pgpilot_operator.Base.Dict.{Dict, Same}
use pgpilot_operator.Base.Dict.SameBy.{SameBy-nil, insert-SameBy, insert-Same}
use pgpilot_operator.Base.Int.{int_eq}
use pgpilot_operator.Api.Metrics.{MetricDefinition, PgpilotMetricLibrary}
use pgpilot_operator.Api.Monitor.{MetricsSpec}
use pgpilot_operator.Builder.Library.{Library}
use pgpilot_operator.Builder.Metrics.{
  MergedMetrics, node_status, metric_def, interval_of, add_metric, add_metrics, add_libraries,
  merge_metrics,
}
use pgpilot_operator.Builder.Metrics.Versions.{Unambiguous, parse_sqls-Same}
use pgpilot_operator.Builder.Alike.{AlikeDefinition, AlikeLibrary, AlikeDef, AlikeMerged}

metric_def-Alike :
    (a : MetricDefinition) (sqls : Dict String String)
    → Same a.sqls sqls
    → Unambiguous a.sqls
    → AlikeDef (metric_def a) (metric_def (record a { sqls = sqls }))
unfolding metric_def node_status
metric_def-Alike a sqls same once = (_, refl, parse_sqls-Same a.sqls sqls once same)

module _ (lib : Library) where
  add_metric-Alike :
      (m n : MergedMetrics) (a b : MetricDefinition)
      → AlikeMerged m n
      → AlikeDefinition a b
      → AlikeMerged (add_metric lib m a) (add_metric lib n b)
  unfolding add_metric interval_of
  add_metric-Alike m n a b alike (sqls, e, same, once) =
      subst (λ x. AlikeMerged (add_metric lib m a) (add_metric lib n x)) (sym e)
        (record {
          preset = alike.preset;
          intervals =
              insert-Same a.name (interval_of lib a) m.intervals n.intervals alike.intervals;
          definitions =
              insert-SameBy AlikeDef a.name (metric_def a) (metric_def (record a { sqls = sqls }))
                m.definitions n.definitions (metric_def-Alike a sqls same once) alike.definitions;
        })

  add_metrics-Alike :
      (m n : MergedMetrics) (xs ys : List MetricDefinition)
      → AlikeMerged m n
      → AllPairs AlikeDefinition xs ys
      → AlikeMerged (add_metrics lib m xs) (add_metrics lib n ys)
  unfolding add_metrics
  add_metrics-Alike m n [] [] alike h = alike
  add_metrics-Alike m n [] (b ∷ ys) alike h = absurd h
  add_metrics-Alike m n (a ∷ xs) [] alike h = absurd h
  add_metrics-Alike m n (a ∷ xs) (b ∷ ys) alike (h, hs) =
      add_metrics-Alike (add_metric lib m a) (add_metric lib n b) xs ys
        (add_metric-Alike m n a b alike h) hs

  add_libraries-Alike :
      (m n : MergedMetrics) (ks ls : List PgpilotMetricLibrary)
      → AlikeMerged m n
      → AllPairs AlikeLibrary ks ls
      → AlikeMerged (add_libraries lib m ks) (add_libraries lib n ls)
  unfolding add_libraries
  add_libraries-Alike m n [] [] alike h = alike
  add_libraries-Alike m n [] (l ∷ ls) alike h = absurd h
  add_libraries-Alike m n (k ∷ ks) [] alike h = absurd h
  add_libraries-Alike m n (k ∷ ks) (l ∷ ls) alike (h, hs) =
      add_libraries-Alike (add_metrics lib m k.spec.metrics) (add_metrics lib n l.spec.metrics) ks
        ls (add_metrics-Alike m n k.spec.metrics l.spec.metrics alike h) hs

  pub merge_metrics-Alike :
      (s t : MetricsSpec) (ks ls : List PgpilotMetricLibrary)
      → s.preset ≡ t.preset
      → AllPairs AlikeDefinition s.custom t.custom
      → AllPairs AlikeLibrary ks ls
      → AlikeMerged (merge_metrics lib s ks) (merge_metrics lib t ls)
  unfolding merge_metrics
  merge_metrics-Alike s t ks ls e custom libraries =
      add_metrics-Alike _ _ s.custom t.custom
        (add_libraries-Alike _ _ ks ls
          (record {
            preset = e;
            intervals = record { at = λ k. refl };
            definitions = SameBy-nil AlikeDef;
          })
          libraries)
        custom
