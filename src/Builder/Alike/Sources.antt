-- ===== src/Builder/Alike/Sources.antt =====
-- The source that is rendered does not depend on the order of the entries of the maps.
use pgpilot_operator.Base.{
  String, ◌≡◌, refl, sym, ap, Bool, true, false, ◌&&◌, Option, none, some, [], ok, ◌>>=◌, string_eq,
  nonempty, has_items, if◌then◌else◌,
}
use pgpilot_operator.Base.Dict.{Dict, lookup, copy, Same}
use pgpilot_operator.Base.Dict.SameBy.{copy-Same, has_items-Same}
use pgpilot_operator.Base.Int.{ℤ, int_eq}
use pgpilot_operator.Api.Monitor.{PgpilotMonitor}
use pgpilot_operator.Builder.Library.{Library, PgwatchPreset}
use pgpilot_operator.Builder.Metrics.{MergedMetrics}
use pgpilot_operator.Builder.Builtin.{
  load_builtin_metrics, preset_intervals, expand_preset_into_intervals,
}
use pgpilot_operator.Builder.Sources.{build_conn_str, bare_source, source_entry}
use pgpilot_operator.Builder.Alike.{AlikeMonitor, AlikeMerged, AlikeSource}
use pgpilot_operator.Builder.Alike.Results.{AlikeResult, then_alike, after_same}

module _ (lib : Library) where
  expand_preset-Alike :
      (preset : String) (c d : Dict String ℤ)
      → Same c d
      → AlikeResult Same
          (expand_preset_into_intervals lib preset c)
          (expand_preset_into_intervals lib preset d)
  unfolding expand_preset_into_intervals
  expand_preset-Alike preset c d same =
      after_same Same (load_builtin_metrics lib) _ _
        (λ registry. go (lookup preset registry.presets))
    where
      go :
          (o : Option PgwatchPreset)
          → AlikeResult Same (preset_intervals lib preset c o) (preset_intervals lib preset d o)
      go none = refl
      go (some p) = copy-Same (copy [] p.metrics) c d same

  -- Whatever the branch fills in, the rest of the source is the same.
  bare_source-Alike :
      (m n : PgpilotMonitor) (preset : String) (c d : Dict String ℤ)
      → AlikeMonitor m n
      → Same c d
      → AlikeSource
          (record (bare_source lib m) { preset_metrics = preset; custom_metrics = c })
          (record (bare_source lib n) { preset_metrics = preset; custom_metrics = d })
  unfolding build_conn_str
  bare_source-Alike m n preset c d alike same =
      let conn : build_conn_str n.spec.database ≡ build_conn_str m.spec.database =
        ap build_conn_str alike.database in
      let tags : n.spec.database.custom_tags ≡ alike.custom_tags =
        ap (λ db. db.custom_tags) alike.database in
      (
        d,
        alike.custom_tags,
        λ i. record (bare_source lib m) {
          name = sym alike.name i;
          conn_str = conn i;
          preset_metrics = preset;
          custom_metrics = d;
          custom_tags = tags i;
        },
        same,
        alike.same_tags,
      )

  pub source_entry-Alike :
      (m n : PgpilotMonitor) (a b : MergedMetrics)
      → AlikeMonitor m n
      → AlikeMerged a b
      → AlikeResult AlikeSource (source_entry lib m a) (source_entry lib n b)
  unfolding source_entry
  source_entry-Alike m n a b alike merged =
      rw (sym merged.preset, sym (has_items-Same a.intervals b.intervals merged.intervals))
        (go (nonempty a.preset) (has_items a.intervals))
    where
      empty : Same {K = String} {V = ℤ} [] []
      empty = record { at = λ k. refl }

      go :
          (chosen given : Bool)
          → AlikeResult AlikeSource
              (if chosen && given
                then (do
                  expanded ← expand_preset_into_intervals lib a.preset a.intervals
                  ok (record (bare_source lib m) { custom_metrics = expanded }))
                else if chosen
                then ok (record (bare_source lib m) { preset_metrics = a.preset })
                else if given
                then ok (record (bare_source lib m) { custom_metrics = a.intervals })
                else ok (bare_source lib m))
              (if chosen && given
                then (do
                  expanded ← expand_preset_into_intervals lib a.preset b.intervals
                  ok (record (bare_source lib n) { custom_metrics = expanded }))
                else if chosen
                then ok (record (bare_source lib n) { preset_metrics = a.preset })
                else if given
                then ok (record (bare_source lib n) { custom_metrics = b.intervals })
                else ok (bare_source lib n))
      go true true =
          then_alike Same AlikeSource _ _ _ _ (λ c d same. bare_source-Alike m n "" c d alike same)
            (expand_preset-Alike a.preset a.intervals b.intervals merged.intervals)
      go true false = bare_source-Alike m n a.preset [] [] alike empty
      go false true = bare_source-Alike m n "" a.intervals b.intervals alike merged.intervals
      go false false = bare_source-Alike m n "" [] [] alike empty
