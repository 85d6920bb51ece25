-- ===== src/Builder/Rollout.antt =====
-- When the hash on the pod template changes.
use Prim.Native.Char.{code}
use mathlib.Core.Path.{ap₂}
use text.Mathlib.TextLemmas.{append_cancel_left, cons-append, head-eq_of_cons-eq}
use pgpilot_operator.Base.{
  String, ◌<>◌, ◌≡◌, refl, ◌≢◌, sym, ◌∙◌, ap, ◌⊎◌, inl, inr, Option, none, some, List, [], ◌∷◌, ok,
  >>=-eq-ok, string_eq, arith,
}
use pgpilot_operator.Base.Dict.{lookup}
use pgpilot_operator.Kube.Objects.{ConfigMap}
use pgpilot_operator.Api.Monitor.{PgpilotMonitor}
use pgpilot_operator.Builder.Library.{Library, PgwatchSource, PgwatchMetricsFile}
use pgpilot_operator.Builder.Metrics.{MergedMetrics}
use pgpilot_operator.Builder.Hash.{nul, hashed, content_hash}
use pgpilot_operator.Builder.Hash.Injective.{IsNulFree, nul-cons, terminated_inj}
use pgpilot_operator.Builder.Sources.{source_entry, render_sources}
use pgpilot_operator.Builder.MetricsFile.{metrics_file, render_metrics}
use pgpilot_operator.Builder.ConfigMap.{config_entries, config_map, build_config_map}
use pgpilot_operator.Builder.Wiring.Files.{files, config_entries-files}

-- YAML text holds no NUL character: its scalars write one as an escape.
pub record YamlIsNulFree (lib : Library) : Type 0 where
  pub sources : (l : List PgwatchSource) (s : String) → lib.marshal_sources l ≡ ok s → IsNulFree s
  pub metrics : (f : PgwatchMetricsFile) (s : String) → lib.marshal_metrics f ≡ ok s → IsNulFree s

-- Two different texts that were hashed, with one digest.
abbrev pub Collision : Library → ConfigMap → ConfigMap → Type 0
Collision lib cm cm' =
    (hashed cm.entries ≢ hashed cm'.entries)
    × (lib.hex_digest (hashed cm.entries) ≡ lib.hex_digest (hashed cm'.entries))

abbrev AllNulFree : Option String → Type 0
AllNulFree none = Unit
AllNulFree (some t) = IsNulFree t

-- What the loop over the sorted keys writes for such data.
abbrev written : String → Option String → String
written s none = "sources.yaml" <> (nul <> (s <> (nul <> "")))
written s (some t) =
    "metrics.yaml" <> (nul <> (t <> (nul <> ("sources.yaml" <> (nul <> (s <> (nul <> "")))))))

hashed-files : (s : String) (t : Option String) → hashed (files s t) ≡ written s t
unfolding hashed lookup string_eq
hashed-files s none = refl
hashed-files s (some t) = refl

-- The file names differ in their first character.
names_differ : (x y : String) → "sources.yaml" <> x ≢ "metrics.yaml" <> y
names_differ x y e =
    let heads =
      head-eq_of_cons-eq
        (sym (cons-append "s" "ources.yaml" x) ∙ e ∙ cons-append "m" "etrics.yaml" y) in
    absurd (omega (arith, ap code heads))

-- What follows a file name: its text, ended by NUL, and the rest.
entry_inj :
    (name s t x y : String)
    → IsNulFree s
    → IsNulFree t
    → name <> (nul <> (s <> (nul <> x))) ≡ name <> (nul <> (t <> (nul <> y)))
    → (s ≡ t) × (x ≡ y)
entry_inj name s t x y hs ht e = terminated_inj s t x y hs ht (
    ap (λ z. s <> z) (sym (nul-cons x))
    ∙ append_cancel_left nul _ _ (append_cancel_left name _ _ e)
    ∙ ap (λ z. t <> z) (nul-cons y))

written_inj :
    (s s' : String) (t t' : Option String)
    → IsNulFree s
    → IsNulFree s'
    → AllNulFree t
    → AllNulFree t'
    → written s t ≡ written s' t'
    → files s t ≡ files s' t'
written_inj s s' none none hs hs' _ _ e =
    ap (λ z. files z none) (entry_inj "sources.yaml" s s' "" "" hs hs' e).0
written_inj s s' none (some t') _ _ _ _ e = absurd (names_differ _ _ e)
written_inj s s' (some t) none _ _ _ _ e = absurd (names_differ _ _ (sym e))
written_inj s s' (some t) (some t') hs hs' ht ht' e =
    let (p, q) = entry_inj "metrics.yaml" t t' _ _ ht ht' e in
    ap₂ (λ y z. files y (some z)) (entry_inj "sources.yaml" s s' "" "" hs hs' q).0 p

module _ (lib : Library) (yaml : YamlIsNulFree lib) where
  render_sources-IsNulFree :
      (m : PgpilotMonitor) (merged : MergedMetrics) (s : String)
      → render_sources lib m merged ≡ ok s
      → IsNulFree s
  unfolding render_sources
  render_sources-IsNulFree m merged s h =
      let (src, _, q) = >>=-eq-ok (source_entry lib m merged) _ h in yaml.sources (src ∷ []) s q

  render_metrics-IsNulFree :
      (merged : MergedMetrics) (t : Option String)
      → ((text : String) → t ≡ some text → render_metrics lib merged ≡ ok text)
      → AllNulFree t
  unfolding render_metrics
  render_metrics-IsNulFree merged none h = tt
  render_metrics-IsNulFree merged (some t) h =
      let (mf, _, q) = >>=-eq-ok (metrics_file lib merged) _ (h t refl) in yaml.metrics mf t q

  -- Let the YAML encoders write no NUL. If two ConfigMaps that are built have the same hash, then
  -- they have the same data, or the two different texts that were hashed for them have one digest.
  -- So, but for such a collision, a changed configuration changes the hash on the pod template.
  pub build_config_map-rollout :
      (m m' : PgpilotMonitor) (merged merged' : MergedMetrics) (cm cm' : ConfigMap)
      (hash hash' : String)
      → build_config_map lib m merged ≡ ok (cm, hash)
      → build_config_map lib m' merged' ≡ ok (cm', hash')
      → hash ≡ hash'
      → (cm.entries ≡ cm'.entries) ⊎ Collision lib cm cm'
  unfolding build_config_map config_map content_hash
  build_config_map-rollout m m' merged merged' cm cm' hash hash' h h' same =
      let (d, p, q) = >>=-eq-ok (config_entries lib m merged) _ h in
      let (d', p', q') = >>=-eq-ok (config_entries lib m' merged') _ h' in
      let (s, t, e, r, _, f) = config_entries-files lib m merged d p in
      let (s', t', e', r', _, f') = config_entries-files lib m' merged' d' p' in
      let same_text = λ (w : written s t ≡ written s' t').
        written_inj s s' t t' (render_sources-IsNulFree m merged s r)
          (render_sources-IsNulFree m' merged' s' r') (render_metrics-IsNulFree merged t f)
          (render_metrics-IsNulFree merged' t' f') w in
      elim (string_eq.dec (hashed cm.entries) (hashed cm'.entries)) [
        | yes w ↦ inl (
            cc (
              q,
              q',
              e,
              e',
              same_text (cc (q, q', e, e', w, hashed-files s t, hashed-files s' t')),
            ))
        | no n ↦ inr (n, cc (q, q', same))
      ]
