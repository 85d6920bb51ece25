-- ===== src/Builder/Alike/Built.antt =====
-- The ConfigMap and its hash do not depend on the order of the entries of the maps.
use pgpilot_operator.Base.{
  String, ◌≡◌, refl, sym, ap, List, [], ◌∷◌, AllPairs, Result, ok, err, ◌>>=◌, string_eq,
}
use pgpilot_operator.Base.Dict.{Dict, NodupKeys, Same}
use pgpilot_operator.Base.Dict.SameBy.{has_items-SameBy}
use pgpilot_operator.Base.Int.{int_eq}
use pgpilot_operator.Kube.Objects.{ConfigMap}
use pgpilot_operator.Api.Metrics.{PgpilotMetricLibrary}
use pgpilot_operator.Api.Monitor.{PgpilotMonitor}
use pgpilot_operator.Builder.Library.{Library}
use pgpilot_operator.Builder.Metrics.{MergedMetrics, merge_metrics}
use pgpilot_operator.Builder.Sources.{source_entry, render_sources}
use pgpilot_operator.Builder.MetricsFile.{metrics_file, render_metrics}
use pgpilot_operator.Builder.ConfigMap.{config_entries, config_map, build_config_map, wants_metrics}
use pgpilot_operator.Builder.Alike.{
  AlikeLibrary, AlikeMonitor, AlikeDef, AlikeMerged, AlikeSource, AlikeFile, SortsKeys,
}
use pgpilot_operator.Builder.Alike.Merged.{merge_metrics-Alike}
use pgpilot_operator.Builder.Alike.Results.{bind-AlikeResult}
use pgpilot_operator.Builder.Hash.{content_hash}
use pgpilot_operator.Builder.Hash.Canonical.{hashed-listed}
use pgpilot_operator.Builder.Wiring.Files.{config_entries-files, files-NodupKeys}
use mathlib.Core.Path.{subst}
use pgpilot_operator.Builder.Alike.Sources.{source_entry-Alike}
use pgpilot_operator.Builder.Alike.Files.{metrics_file-Alike}

-- The order in which `contentHash` meets the entries of the map that it is given: some order of the
-- same entries.
abbrev pub IsListing : (Dict String String → Dict String String) → Type 0
IsListing order = (d : Dict String String) → NodupKeys d → Same d (order d) × NodupKeys (order d)

-- `BuildConfigMap`, where `contentHash` meets the data in the given order.
abbrev pub build_by :
    Library
    → (Dict String String → Dict String String)
    → PgpilotMonitor
    → MergedMetrics
    → Result (ConfigMap × String)
build_by lib order m merged = do
  entries ← config_entries lib m merged
  ok (config_map lib m entries, content_hash lib (order entries))

module _ (lib : Library) (sorts : SortsKeys lib) where
  render_sources-Alike :
      (m n : PgpilotMonitor) (a b : MergedMetrics)
      → AlikeMonitor m n
      → AlikeMerged a b
      → render_sources lib m a ≡ render_sources lib n b
  unfolding render_sources
  render_sources-Alike m n a b alike merged =
      bind-AlikeResult AlikeSource (source_entry lib m a) (source_entry lib n b) _
        (λ x y h. sorts.sources (x ∷ []) (y ∷ []) (h, tt))
        (source_entry-Alike lib m n a b alike merged)

  render_metrics-Alike :
      (a b : MergedMetrics) → AlikeMerged a b → render_metrics lib a ≡ render_metrics lib b
  unfolding render_metrics
  render_metrics-Alike a b merged =
      bind-AlikeResult AlikeFile (metrics_file lib a) (metrics_file lib b) _ sorts.metrics
        (metrics_file-Alike lib a b merged)

  wants_metrics-Alike : (a b : MergedMetrics) → AlikeMerged a b → wants_metrics a ≡ wants_metrics b
  wants_metrics-Alike a b merged =
      rw (merged.preset, has_items-SameBy AlikeDef a.definitions b.definitions merged.definitions)
        refl

  config_entries-Alike :
      (m n : PgpilotMonitor) (a b : MergedMetrics)
      → AlikeMonitor m n
      → AlikeMerged a b
      → config_entries lib m a ≡ config_entries lib n b
  unfolding config_entries
  config_entries-Alike m n a b alike merged =
      rw
        (
          render_sources-Alike m n a b alike merged,
          render_metrics-Alike a b merged,
          wants_metrics-Alike a b merged,
        )
        refl

  config_map-Alike :
      (m n : PgpilotMonitor) (entries : Dict String String)
      → AlikeMonitor m n
      → config_map lib m entries ≡ config_map lib n entries
  unfolding config_map
  config_map-Alike m n entries alike = rw (alike.name, alike.namespace) refl

  content_hash-listed :
      (order : Dict String String → Dict String String) (m : PgpilotMonitor)
      (merged : MergedMetrics) (entries : Dict String String)
      → IsListing order
      → config_entries lib m merged ≡ ok entries
      → content_hash lib entries ≡ content_hash lib (order entries)
  unfolding content_hash
  content_hash-listed order m merged entries listing h =
      let (sources, metrics, e, _, _, _) = config_entries-files lib m merged entries h in
      let nodup = subst NodupKeys (sym e) (files-NodupKeys sources metrics) in
      let (same, fresh) = listing entries nodup in
      ap lib.hex_digest (hashed-listed entries (order entries) nodup fresh same)

  build_by-Alike :
      (order : Dict String String → Dict String String) (m n : PgpilotMonitor) (a b : MergedMetrics)
      → IsListing order
      → AlikeMonitor m n
      → AlikeMerged a b
      → build_config_map lib m a ≡ build_by lib order n b
  unfolding build_config_map
  build_by-Alike order m n a b listing alike merged =
      rw (config_entries-Alike m n a b alike merged) (go (config_entries lib n b) refl)
    where
      go :
          (r : Result (Dict String String))
          → config_entries lib n b ≡ r
          → ◌>>=◌ {B = ConfigMap × String} r
              (λ entries. ok (config_map lib m entries, content_hash lib entries))
            ≡ ◌>>=◌ {B = ConfigMap × String} r
                (λ entries. ok (config_map lib n entries, content_hash lib (order entries)))
      go (err e) h = refl
      go (ok entries) h =
          rw (config_map-Alike m n entries alike, content_hash-listed order n b entries listing h)
            refl

  -- Let what the YAML encoders write depend on the map alone: they sort its keys. Take two monitors
  -- with the same name, namespace, database, preset, custom metrics and libraries, but for the order
  -- of the entries in the custom tags and in each `sqls`, where no two keys are read as one version.
  -- Then `BuildConfigMap` on what `MergeMetrics` makes of the first gives the same error, or the same
  -- ConfigMap with the same hash, as for the second, on what `MergeMetrics` makes of that and on
  -- any other order of the merged definitions and intervals, and whatever the order in which the
  -- `range` of `contentHash` meets the data. So the order in which Go's `range` loops meet the
  -- entries of these maps does not change the hash on the pod template.
  pub build_config_map-Alike :
      (order : Dict String String → Dict String String) (m n : PgpilotMonitor)
      (ks ls : List PgpilotMetricLibrary) (b : MergedMetrics)
      → IsListing order
      → AlikeMonitor m n
      → AllPairs AlikeLibrary ks ls
      → AlikeMerged (merge_metrics lib m.spec.metrics ks) b
      → let built = build_config_map lib m (merge_metrics lib m.spec.metrics ks) in
        (built ≡ build_by lib order n (merge_metrics lib n.spec.metrics ls))
        × (built ≡ build_by lib order n b)
  build_config_map-Alike order m n ks ls b listing alike libraries merged = (
    build_by-Alike order m n _ _ listing alike (
        merge_metrics-Alike lib m.spec.metrics n.spec.metrics ks ls alike.preset alike.custom
          libraries),
    build_by-Alike order m n _ b listing alike merged,
  )
