-- ===== src/Builder/Collected.antt =====
-- Which metrics pgwatch collects from the files that the operator writes.
pub mod Defined
use pgpilot_operator.Base.{
  String, ◌≡◌, refl, false, Bool-cases, inl, inr, Option, none, some, [], ◌∷◌, arith, ok, ◌>>=◌,
  >>=-eq-ok, string_eq, nonempty, has_items, if◌then◌else◌,
}
use pgpilot_operator.Base.Dict.{Dict, or_else, lookup, copy, lookup-nil, lookup-copy}
use pgpilot_operator.Base.Int.{ℤ}
use pgpilot_operator.Api.Monitor.{PgpilotMonitor}
use pgpilot_operator.Builder.Library.{Library, PgwatchSource, PgwatchPreset}
use pgpilot_operator.Builder.Metrics.{MergedMetrics}
use pgpilot_operator.Builder.Builtin.{
  Registry, load_builtin_metrics, preset_intervals, expand_preset_into_intervals,
}
use pgpilot_operator.Builder.Sources.{bare_source, source_entry}

-- The interval of a metric in a preset that may be missing.
abbrev pub interval_in : String → Option PgwatchPreset → Option ℤ
interval_in n none = none
interval_in n (some p) = lookup n p.metrics

-- How pgwatch resolves a source entry over the presets of its metrics file, as the comment in
-- `renderSources` has it: a preset replaces the custom metrics.
abbrev pub collected : Dict String PgwatchPreset → PgwatchSource → String → Option ℤ
collected presets src n =
    if nonempty src.preset_metrics
    then interval_in n (lookup src.preset_metrics presets)
    else lookup n src.custom_metrics

-- The interval that the chosen preset gives, if one is chosen.
abbrev pub preset_interval : Registry → String → String → Option ℤ
preset_interval registry preset n =
    if nonempty preset then interval_in n (lookup preset registry.presets) else none

pub lookup-no_items {ℓ} :
    {V : Type ℓ} (d : Dict String V) (n : String) → has_items d ≡ false → lookup n d ≡ none
lookup-no_items [] n h = lookup-nil n
lookup-no_items (e ∷ d) n h = cc

pub empty_is_empty : nonempty "" ≡ false
unfolding string_eq
empty_is_empty = refl

module _ (lib : Library) (registry : Registry)
    (loaded : load_builtin_metrics lib ≡ ok registry) where
  lookup-expanded :
      (preset : String) (user out : Dict String ℤ) (n : String)
      → expand_preset_into_intervals lib preset user ≡ ok out
      → lookup n out ≡ or_else (lookup n user) (interval_in n (lookup preset registry.presets))
  unfolding expand_preset_into_intervals
  lookup-expanded preset user out n h = go (lookup preset registry.presets) (rw loaded at h)
    where
      go :
          (p : Option PgwatchPreset)
          → preset_intervals lib preset user p ≡ ok out
          → lookup n out ≡ or_else (lookup n user) (interval_in n p)
      go none e = cc
      go (some p) e = ground (
        arith,
        lookup-copy n (copy [] p.metrics) user,
        lookup-copy n [] p.metrics,
        lookup-nil {V = ℤ} n,
      )

  -- If the built-in registry loads and the source entry is made, then it makes pgwatch collect the
  -- metrics of the chosen preset together with the merged ones, at the merged interval where a
  -- metric is in both.
  pub collected-source_entry :
      (m : PgpilotMonitor) (merged : MergedMetrics) (src : PgwatchSource) (n : String)
      → source_entry lib m merged ≡ ok src
      → collected registry.presets src n
        ≡ or_else (lookup n merged.intervals) (preset_interval registry merged.preset n)
  unfolding source_entry
  collected-source_entry m merged src n h = elim (Bool-cases (nonempty merged.preset)) [
    | inl p ↦ elim (Bool-cases (has_items merged.intervals)) [
      | inl i ↦
          let (out, made, e) =
            >>=-eq-ok (expand_preset_into_intervals lib merged.preset merged.intervals)
              (λ out. ok (record (bare_source lib m) { custom_metrics = out })) (rw (p, i) at h) in
          ground (arith, empty_is_empty, lookup-expanded merged.preset merged.intervals out n made)
      | inr i ↦ ground (arith, rw (p, i) at h, lookup-no_items merged.intervals n i)
    ]
    | inr p ↦ elim (Bool-cases (has_items merged.intervals)) [
      | inl i ↦ ground (arith, rw (p, i) at h, empty_is_empty)
      | inr i ↦ ground (
        arith,
        rw (p, i) at h,
        empty_is_empty,
        lookup-no_items merged.intervals n i,
        lookup-nil {V = ℤ} n,
      )
    ]
  ]
