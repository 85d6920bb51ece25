-- ===== src/Builder/Wiring/Files.antt =====
-- The ConfigMap that the Deployment mounts, and the files that pgwatch reads from it.
use pgpilot_operator.Base.{
  String, ◌≡◌, refl, ap, Bool, true, false, Option, none, some, List, [], ◌∷◌, map, arith, Result,
  ok, ok-injective, err, wrapping, ◌>>=◌, >>=-eq-ok, ◌==◌, string_eq, if◌then◌else◌,
}
use pgpilot_operator.Base.Dict.{Dict, NodupKeys, lookup, insert, lookup-cons_self}
use pgpilot_operator.Kube.Objects.{
  ConfigMap, EnvVar, VolumeMount, VolumeSource, config_map_volume, empty_dir, Volume, PodSpec,
}
use pgpilot_operator.Api.Monitor.{PgpilotMonitor}
use pgpilot_operator.Builder.Labels.{annotation_config_hash}
use pgpilot_operator.Builder.Labels.Precedence.{lookup-merge_annotations}
use pgpilot_operator.Builder.Library.{Library}
use pgpilot_operator.Builder.Metrics.{MergedMetrics}
use pgpilot_operator.Builder.Sources.{render_sources}
use pgpilot_operator.Builder.MetricsFile.{render_metrics}
use pgpilot_operator.Builder.Hash.{content_hash}
use pgpilot_operator.Builder.ConfigMap.{
  sources_key, metrics_key, wants_metrics, config_entries, config_map, build_config_map,
}
use pgpilot_operator.Builder.Deployment.{pgwatch_container, deployment}

abbrev pub has_value {ℓ} : {V : Type ℓ} → Option V → Bool
has_value none = false
has_value (some v) = true

-- The source of the volume of that name.
abbrev pub source_of : String → List Volume → Option VolumeSource
source_of name [] = none
source_of name (v ∷ vs) = if v.name == name then some v.source else source_of name vs

-- What a container finds at a path: the source of the volume that is mounted there by its name.
abbrev pub mounted_at : String → List VolumeMount → List Volume → Option VolumeSource
mounted_at path [] volumes = none
mounted_at path (v ∷ vs) volumes =
    if v.mount_path == path then source_of v.name volumes else mounted_at path vs volumes

-- What the containers of the pods find at a path.
unfoldable pub found_at : String → PodSpec → List (Option VolumeSource)
found_at path pod = map (λ c. mounted_at path c.volume_mounts pod.volumes) pod.containers

-- The entries of a ConfigMap that holds the sources and perhaps the metrics.
abbrev pub files : String → Option String → Dict String String
files sources none = (sources_key, sources) ∷ []
files sources (some metrics) = (sources_key, sources) ∷ (metrics_key, metrics) ∷ []

pub files-NodupKeys : (s : String) (t : Option String) → NodupKeys (files s t)
unfolding lookup string_eq
files-NodupKeys s none = (refl, tt)
files-NodupKeys s (some t) = (refl, (refl, tt))

abbrev assemble : Result String → Bool → Result String → Result (Dict String String)
assemble sources wanted metrics = do
  s ← wrapping "render sources.yaml" sources
  let entries : Dict String String = (sources_key, s) ∷ []
  if wanted
      then (do t ← wrapping "render metrics.yaml" metrics; ok (insert metrics_key t entries))
      else ok entries

assembled :
    (sources : Result String) (wanted : Bool) (metrics : Result String)
    {entries : Dict String String}
    → assemble sources wanted metrics ≡ ok entries
    → (s : String) × (t : Option String) × (entries ≡ files s t)
      × (sources ≡ ok s)
      × (has_value t ≡ wanted)
      × ((text : String) → t ≡ some text → metrics ≡ ok text)
unfolding insert string_eq
assembled (ok s) true (ok t) h = (s, some t, cc, refl, refl, λ text e. cc)
assembled (ok s) true (err e) h = cc
assembled (ok s) false metrics h = (s, none, cc, refl, refl, λ text e. cc)
assembled (err e) wanted metrics h = cc

module _ (lib : Library) (m : PgpilotMonitor) (merged : MergedMetrics) where
  -- The keys of the data are `sources.yaml`, and `metrics.yaml` exactly if metrics are wanted; the
  -- texts are those that the two renderers return.
  pub config_entries-files :
      (entries : Dict String String)
      → config_entries lib m merged ≡ ok entries
      → (sources : String) × (metrics : Option String) × (entries ≡ files sources metrics)
        × (render_sources lib m merged ≡ ok sources)
        × (has_value metrics ≡ wants_metrics merged)
        × ((text : String) → metrics ≡ some text → render_metrics lib merged ≡ ok text)
  unfolding config_entries
  config_entries-files entries h =
      assembled (render_sources lib m merged) (wants_metrics merged) (render_metrics lib merged) h

  -- If the ConfigMap is built, then, whatever annotations the user adds, the hash on the pod
  -- template is the hash of the very data of the ConfigMap. At the directory from which pgwatch reads
  -- its files the pod's container finds the volume of that ConfigMap, of the Deployment's own
  -- namespace, and at `/tmp` an empty directory; the pod has no other volume.
  pub build_config_map-is_mounted :
      (cm : ConfigMap) (hash : String) (env : List EnvVar)
      → build_config_map lib m merged ≡ ok (cm, hash)
      → let dep = deployment m merged hash env in
        (lookup annotation_config_hash dep.template.annotations
          ≡ some (content_hash lib cm.entries))
        × (map (λ v. v.source) dep.template.spec.volumes
            ≡ config_map_volume cm.object_meta.name ∷ empty_dir ∷ [])
        × (dep.object_meta.namespace ≡ cm.object_meta.namespace)
        × (found_at "/etc/pgwatch" dep.template.spec
            ≡ some (config_map_volume cm.object_meta.name) ∷ [])
        × (found_at "/tmp" dep.template.spec ≡ some empty_dir ∷ [])
  unfolding build_config_map config_map deployment pgwatch_container found_at string_eq
  build_config_map-is_mounted cm hash env h =
      let (entries, p, q) = >>=-eq-ok (config_entries lib m merged) _ h in
      let own : lookup annotation_config_hash (deployment m merged hash env).template.annotations
          ≡ some hash =
        rw (lookup-merge_annotations, lookup-cons_self) in
      let mounted : found_at "/etc/pgwatch" (deployment m merged hash env).template.spec
          ≡ some (config_map_volume cm.object_meta.name) ∷ [] =
        ap (λ (c : ConfigMap). some (config_map_volume c.object_meta.name) ∷ [])
          (ap (λ o. o.0) (ok-injective q)) in
      (ground (arith, own), ground arith, ground arith, mounted, refl)
