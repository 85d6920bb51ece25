-- ===== src/Builder/Metrics/Merge.antt =====
-- What the merge of libraries and inline metrics holds.
use mathlib.Core.List.{append_assoc}
use mathlib.Core.Option
use pgpilot_operator.Base.{
  String, ◌≡◌, refl, sym, ◌∙◌, true, Option, none, some, List, [], ◌∷◌, ◌++◌, arith, ◌==◌,
  string_eq, if◌then◌else◌,
}
use pgpilot_operator.Base.Dict.{or_else, lookup, lookup-insert}
use pgpilot_operator.Base.Int.{ℤ, is_positive}
use pgpilot_operator.Api.Metrics.{MetricDefinition, PgpilotMetricLibrary}
use pgpilot_operator.Api.Monitor.{MetricsSpec}
use pgpilot_operator.Builder.Library.{Library}
use pgpilot_operator.Builder.Metrics.{
  MergedMetrics, metric_def, interval_of, add_metric, add_metrics, add_libraries, merge_metrics,
}

-- Every definition that a monitor names, in the order of precedence: later wins.
abbrev pub shared_definitions : List PgpilotMetricLibrary → List MetricDefinition
shared_definitions [] = []
shared_definitions (l ∷ ls) = l.spec.metrics ++ shared_definitions ls

abbrev pub all_definitions : MetricsSpec → List PgpilotMetricLibrary → List MetricDefinition
all_definitions spec libraries = shared_definitions libraries ++ spec.custom

-- The last definition of a name.
abbrev pub last_named : String → List MetricDefinition → Option MetricDefinition
last_named n [] = none
last_named n (md ∷ mds) = or_else (last_named n mds) (if n == md.name then some md else none)

or_else-lookup-nil {ℓ} :
    {V : Type ℓ} (n : String) (o : Option V) → or_else o (lookup {V = V} n []) ≡ o
unfolding lookup
or_else-lookup-nil n none = refl
or_else-lookup-nil n (some v) = refl

module _ (lib : Library) where
  add_metrics-append :
      (m : MergedMetrics) (mds more : List MetricDefinition)
      → add_metrics lib (add_metrics lib m mds) more ≡ add_metrics lib m (mds ++ more)
  unfolding add_metrics
  add_metrics-append m [] more = refl
  add_metrics-append m (md ∷ mds) more = add_metrics-append (add_metric lib m md) mds more

  add_libraries-eq-add_metrics :
      (m : MergedMetrics) (ls : List PgpilotMetricLibrary) (mds : List MetricDefinition)
      → add_metrics lib (add_libraries lib m ls) mds
        ≡ add_metrics lib m (shared_definitions ls ++ mds)
  unfolding add_libraries
  add_libraries-eq-add_metrics m [] mds = refl
  add_libraries-eq-add_metrics m (l ∷ ls) mds =
      add_libraries-eq-add_metrics (add_metrics lib m l.spec.metrics) ls mds
      ∙ add_metrics-append m l.spec.metrics (shared_definitions ls ++ mds)
      ∙ rw append_assoc

  lookup-add_metrics :
      (n : String) (m : MergedMetrics) (mds : List MetricDefinition)
      → (lookup n (add_metrics lib m mds).definitions
          ≡ or_else (Option.map metric_def (last_named n mds)) (lookup n m.definitions))
        × (lookup n (add_metrics lib m mds).intervals
            ≡ or_else (Option.map (interval_of lib) (last_named n mds)) (lookup n m.intervals))
        × ((add_metrics lib m mds).preset ≡ m.preset)
  unfolding add_metrics add_metric
  lookup-add_metrics n m [] = (refl, refl, refl)
  lookup-add_metrics n m (md ∷ mds) = ground (
    arith,
    lookup-add_metrics n (add_metric lib m md) mds,
    lookup-insert n md.name (metric_def md) m.definitions,
    lookup-insert n md.name (interval_of lib md) m.intervals,
  )

  -- A merged metric is the last definition of its name among the libraries in their listed order
  -- and then the inline metrics. It has a definition exactly if it has an interval, each computed
  -- from that one definition, and the preset is passed on.
  pub merge_metrics-last_wins :
      (spec : MetricsSpec) (libraries : List PgpilotMetricLibrary) (n : String)
      → let m = merge_metrics lib spec libraries in
        let winner = last_named n (all_definitions spec libraries) in
        (lookup n m.definitions ≡ Option.map metric_def winner)
        × (lookup n m.intervals ≡ Option.map (interval_of lib) winner)
        × (m.preset ≡ spec.preset)
  unfolding merge_metrics
  merge_metrics-last_wins spec libraries n =
      let m : MergedMetrics = record { preset = spec.preset; intervals = []; definitions = [] } in
      let facts = lookup-add_metrics n m (all_definitions spec libraries) in
      rw (add_libraries-eq-add_metrics m libraries spec.custom)
        (facts.0 ∙ or_else-lookup-nil n _, facts.1 ∙ or_else-lookup-nil n _, facts.2)

  interval_of-is_positive : (md : MetricDefinition) → is_positive (interval_of lib md) ≡ true
  unfolding interval_of
  interval_of-is_positive md = ground arith

  -- Every collection interval of a merge is positive, whatever durations the resources give.
  pub merge_metrics-is_positive :
      (spec : MetricsSpec) (libraries : List PgpilotMetricLibrary) (n : String) (i : ℤ)
      → lookup n (merge_metrics lib spec libraries).intervals ≡ some i
      → is_positive i ≡ true
  merge_metrics-is_positive spec libraries n i h =
      positive_of_map (last_named n (all_definitions spec libraries))
        (sym ((merge_metrics-last_wins spec libraries n).1) ∙ h)
    where
      positive_of_map :
          (o : Option MetricDefinition)
          → Option.map (interval_of lib) o ≡ some i
          → is_positive i ≡ true
      positive_of_map none e = cc
      positive_of_map (some md) e = ground (arith, interval_of-is_positive md)
