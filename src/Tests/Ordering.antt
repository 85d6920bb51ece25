-- ===== src/Tests/Ordering.antt =====
-- Maps whose entries are met in another order.
use Prim.Native.Char.{code, nul as nul_char}
use Prim.Native.Nat.{Ordering, compare}
use native.Mathlib.Omega.{compare-lt}
use mathlib.Core.Option.{some-injective}
use mathlib.Core.Path.{subst}
use pgpilot_operator.Base.{
  String, ◌≡◌, ◌≢◌, refl, sym, ap, ◌↔◌, ◌∙◌, ◌==◌, Bool, true, false, some, List, [], ◌∷◌, AllPairs,
  Result, ok, string_eq, arith, Bool-cases, inl, inr,
}
use pgpilot_operator.Base.Dict.{Dict, lookup, Same, NodupKeys}
use pgpilot_operator.Base.Int.{pos}
use pgpilot_operator.Base.Int.Format.{atoi}
use pgpilot_operator.Api.Metrics.{PgpilotMetricLibrary}
use pgpilot_operator.Api.Monitor.{PgpilotMonitor}
use pgpilot_operator.Builder.Library.{Library, PgwatchSource}
use pgpilot_operator.Builder.Metrics.{merge_metrics}
use pgpilot_operator.Builder.Metrics.Versions.{Unambiguous}
use pgpilot_operator.Builder.ConfigMap.{build_config_map}
use pgpilot_operator.Builder.Hash.{hashed, text_at}
use pgpilot_operator.Builder.Hash.Injective.{IsNulFree}
use pgpilot_operator.Builder.Hash.Canonical.{Data, go_map, hashed-GoMap_iff}
use pgpilot_operator.Builder.Alike.{
  AlikeMerged, AlikeDefinition, AlikeSource, AlikeMonitor, SortsKeys,
}
use pgpilot_operator.Builder.Alike.Built.{IsListing, build_by, build_config_map-Alike}
use pgpilot_operator.Builder.Alike.Merged.{merge_metrics-Alike}
use pgpilot_operator.Tests.Data.{plain, orders, shared, sizes}

abbrev is_free : String → Bool
is_free String.[] = true
is_free (String.◌∷◌ c s) =
    let rest = is_free s in elim (compare 0 (code c)) [ Ordering.lt ↦ rest | _ ↦ false ]

is_free_sound : (s : String) → is_free s ≡ true → IsNulFree s
is_free_sound String.[] h = tt
is_free_sound (String.◌∷◌ c s) h =
    let (p, q) = go (compare 0 (code c)) refl h in (p, is_free_sound s q)
  where
    go :
        (o : Ordering)
        → compare 0 (code c) ≡ o
        → elim o as (λ _. Bool) [ Ordering.lt ↦ is_free s | _ ↦ false ] ≡ true
        → (c ≢ nul_char) × (is_free s ≡ true)
    go Ordering.lt e h =
        (λ q. absurd (let less = compare-lt 0 (code c) e in omega (arith, less, ap code q)), h)
    go Ordering.eq e h = cc
    go Ordering.gt e h = cc

abbrev FreeEntries : Dict String String → Type 0
FreeEntries d = (k v : String) → lookup k d ≡ some v → IsNulFree k × IsNulFree v

free_cons :
    (j s : String) (d : Dict String String)
    → is_free j ≡ true
    → is_free s ≡ true
    → FreeEntries d
    → FreeEntries ((j, s) ∷ d)
unfolding lookup
free_cons j s d hj hs rest k v e = elim (Bool-cases (k == j)) [
  | inl here ↦ (
    subst IsNulFree (ground arith) (is_free_sound j hj),
    subst IsNulFree (some-injective s v (rw here at e)) (is_free_sound s hs),
  )
  | inr away ↦ rest k v (rw away at e)
]

free_nil : FreeEntries []
unfolding lookup
free_nil k v e = cc

abbrev ahead : Dict String String
ahead = ("sources.yaml", "- name: orders") ∷ ("metrics.yaml", "metrics: {}") ∷ []

abbrev back : Dict String String
back = ("metrics.yaml", "metrics: {}") ∷ ("sources.yaml", "- name: orders") ∷ []

ahead-NodupKeys : NodupKeys ahead
unfolding lookup string_eq
ahead-NodupKeys = (refl, (refl, tt))

back-NodupKeys : NodupKeys back
unfolding lookup string_eq
back-NodupKeys = (refl, (refl, tt))

abbrev sources_first : Data
sources_first = record {
  entries = ahead;
  nodup = ahead-NodupKeys;
  nul_free = free_cons _ _ _ refl refl (free_cons _ _ _ refl refl free_nil);
}

abbrev metrics_first : Data
metrics_first = record {
  entries = back;
  nodup = back-NodupKeys;
  nul_free = free_cons _ _ _ refl refl (free_cons _ _ _ refl refl free_nil);
}

hashed-GoMap_iff_example :
    (hashed ahead ≡ hashed back) ↔ (go_map sources_first ≡ go_map metrics_first)
hashed-GoMap_iff_example = hashed-GoMap_iff sources_first metrics_first

-- An encoder that writes one custom tag.
abbrev tag_of : List PgwatchSource → String
tag_of [] = ""
tag_of (s ∷ rest) = text_at (lookup "team" s.custom_tags)

abbrev tagging : Library
tagging = record plain { marshal_sources = λ sources. ok (tag_of sources) }

tagging-SortsKeys : SortsKeys tagging
tagging-SortsKeys = record { sources = go; metrics = λ a b alike. refl }
  where
    go :
        (a b : List PgwatchSource)
        → AllPairs AlikeSource a b
        → ◌≡◌ {A = Result String} (ok (tag_of a)) (ok (tag_of b))
    go [] [] h = refl
    go [] (y ∷ ys) h = absurd h
    go (x ∷ xs) [] h = absurd h
    go (x ∷ xs) (y ∷ ys) ((intervals, tags, e, _, same), _) =
        ap (λ o. ok (text_at o)) (same.at "team")
        ∙ ap (λ (z : PgwatchSource). ok (text_at (lookup "team" z.custom_tags))) (sym e)

abbrev two_versions : Dict String String
two_versions = ("13", "select 1") ∷ ("14", "select 2") ∷ []

abbrev swapped : Dict String String
swapped = ("14", "select 2") ∷ ("13", "select 1") ∷ []

read_13 : atoi "13" ≡ some (pos 13)
unfolding atoi
read_13 = refl

read_14 : atoi "14" ≡ some (pos 14)
unfolding atoi
read_14 = refl

two_versions-Unambiguous : Unambiguous two_versions
unfolding lookup
two_versions-Unambiguous j k s t version p q a b = ground (arith, read_13, read_14)

versions_differ : ◌≢◌ {A = String} "13" "14"
unfolding string_eq
versions_differ e = let h : true ≡ false = ap (λ x. x == "13") e in absurd (cc h)

swapped-Same : Same two_versions swapped
unfolding lookup
swapped-Same = record { at = λ k. ground (arith, versions_differ) }

abbrev tags : Dict String String
tags = ("team", "dba") ∷ ("tier", "1") ∷ []

abbrev tags_back : Dict String String
tags_back = ("tier", "1") ∷ ("team", "dba") ∷ []

tags_differ : ◌≢◌ {A = String} "team" "tier"
unfolding string_eq
tags_differ e = let h : true ≡ false = ap (λ x. x == "team") e in absurd (cc h)

tags-Same : Same tags tags_back
unfolding lookup
tags-Same = record { at = λ k. ground (arith, tags_differ) }

abbrev tagged : Dict String String → Dict String String → PgpilotMonitor
tagged custom_tags sqls = record orders {
  spec = record orders.spec {
    database = record orders.spec.database { custom_tags = custom_tags };
    metrics = record orders.spec.metrics { custom = record sizes { sqls = sqls } ∷ [] };
  };
}

abbrev versioned : Dict String String → PgpilotMetricLibrary
versioned sqls = record shared { spec = record { metrics = record sizes { sqls = sqls } ∷ [] } }

sizes-Alike :
    AlikeDefinition (record sizes { sqls = two_versions }) (record sizes { sqls = swapped })
sizes-Alike = (swapped, refl, swapped-Same, two_versions-Unambiguous)

tagged-Alike : AlikeMonitor (tagged tags two_versions) (tagged tags_back swapped)
tagged-Alike = record {
  name = refl;
  namespace = refl;
  custom_tags = tags_back;
  database = refl;
  same_tags = tags-Same;
  preset = refl;
  custom = (sizes-Alike, tt);
}

-- The data with the last entry first.
abbrev turned : Dict String String → Dict String String
turned (a ∷ b ∷ []) = b ∷ a ∷ []
turned d = d

-- The order of two entries is turned.
turned-pair :
    (j k s t : String)
    → NodupKeys ((j, s) ∷ (k, t) ∷ [])
    → Same ((j, s) ∷ (k, t) ∷ []) ((k, t) ∷ (j, s) ∷ []) × NodupKeys ((k, t) ∷ (j, s) ∷ [])
unfolding lookup
turned-pair j k s t (fresh, _) =
    (record { at = λ i. ground (arith, fresh) }, (ground (arith, fresh), (refl, tt)))

turned-IsListing : IsListing turned
turned-IsListing [] u = (record { at = λ k. refl }, u)
turned-IsListing (a ∷ []) u = (record { at = λ k. refl }, u)
turned-IsListing ((j, s) ∷ (k, t) ∷ []) u = turned-pair j k s t u
turned-IsListing (a ∷ b ∷ c ∷ d) u = (record { at = λ k. refl }, u)

merged_back-Alike :
    AlikeMerged
      (merge_metrics tagging (tagged tags two_versions).spec.metrics (versioned two_versions ∷ []))
      (merge_metrics tagging (tagged tags_back swapped).spec.metrics (versioned swapped ∷ []))
merged_back-Alike =
    merge_metrics-Alike tagging _ _ (versioned two_versions ∷ []) (versioned swapped ∷ []) refl
      (sizes-Alike, tt) ((sizes-Alike, tt), tt)

build_config_map-Alike_example :
    let m = tagged tags two_versions in
    let n = tagged tags_back swapped in
    let back = merge_metrics tagging n.spec.metrics (versioned swapped ∷ []) in
    let built =
      build_config_map tagging m
        (merge_metrics tagging m.spec.metrics (versioned two_versions ∷ [])) in
    (built ≡ build_by tagging turned n back) × (built ≡ build_by tagging turned n back)
build_config_map-Alike_example =
    build_config_map-Alike tagging tagging-SortsKeys turned (tagged tags two_versions)
      (tagged tags_back swapped) (versioned two_versions ∷ []) (versioned swapped ∷ [])
      (merge_metrics tagging (tagged tags_back swapped).spec.metrics (versioned swapped ∷ []))
      turned-IsListing tagged-Alike ((sizes-Alike, tt), tt) merged_back-Alike
