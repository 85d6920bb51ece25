-- ===== src/Api/DeepCopy/Copied.antt =====
-- `DeepCopyInto` makes good copies of each type.
use pgpilot_operator.Base.{ℕ, none, []}
use pgpilot_operator.Api.Layout.{ForeignTypes}
use pgpilot_operator.Api.Memory.{Heap, Mem, pure, ◌>>=◌, copy_ref, copy_each, copy_map}
use pgpilot_operator.Api.Memory.Kinds.{
  text_map_kind, texts_kind, duration_kind, credentials_kind, tls_kind, prometheus_kind, grpc_kind,
  refs_kind, definitions_kind,
}
use pgpilot_operator.Api.Memory.Makes.{
  Later, Makes, Later-refl, Later-trans, Makes-pure, Makes-bind,
}
use pgpilot_operator.Api.Memory.Copies.{
  IsCopier, HoldsFlat, HoldsSome, HoldsRef, flat-IsCopier, map-IsCopier, some-IsCopier,
  each-IsCopier, ref-IsCopier,
}
use pgpilot_operator.Api.DeepCopy.{
  credentials_into, tls_into, prometheus_into, database_into, grpc_into, definition_into,
  metrics_spec_into, overrides_into, sinks_into, library_spec_into,
}
use pgpilot_operator.Api.DeepCopy.Holds.{
  HoldsTextMap, HoldsDatabase, HoldsGrpc, HoldsDefinition, HoldsDefinitions, HoldsMetricsSpec,
  HoldsOverrides, HoldsSinks, HoldsLibrarySpec,
}

module _ {T : ForeignTypes} where
  -- The next copy, from a later heap.
  pub then_copy :
      {R V B : Type 0} {P : Heap T → R → V → Type 0} {into : R → Mem T R} {n : ℕ} {h k : Heap T}
      {Q : B → Heap T → Type 0} (copier : IsCopier P into) (x : R) (v : V) (f : R → Mem T B)
      → Later n h k
      → P h x v
      → ((y : R) (l : Heap T) → Later n h l → Makes n l (f y) (λ b g. P g y v → Q b g))
      → Makes n k (into x >>= f) Q
  then_copy {into} {n} {h} {k} copier x v f later p next =
      Makes-bind (into x) f
        (copier.copies n k x v (Later-refl k later.bounded later.beyond)
          (copier.local h k x v later.extends p))
        (λ y l more. next y l (Later-trans later more))

  pub done_copy :
      {B : Type 0} {n : ℕ} {h k : Heap T} {Q : B → Heap T → Type 0} (b : B)
      → Later n h k
      → ((g : Heap T) → Q b g)
      → Makes n k (pure b) Q
  done_copy {k} b later q = Makes-pure b (Later-refl k later.bounded later.beyond) q

  text_map-IsCopier : IsCopier {T = T} HoldsTextMap (copy_ref text_map_kind copy_map)
  text_map-IsCopier = ref-IsCopier map-IsCopier text_map_kind []

  credentials-IsCopier :
      IsCopier {T = T}
        (HoldsRef (HoldsSome HoldsFlat) credentials_kind none)
        (copy_ref credentials_kind credentials_into)
  unfolding credentials_into
  credentials-IsCopier = ref-IsCopier (some-IsCopier flat-IsCopier) credentials_kind none

  pub database-IsCopier : IsCopier {T = T} HoldsDatabase database_into
  unfolding database_into
  database-IsCopier = record {
    local = λ h g x v more p. record {
      plain = p.plain;
      credentials_secret = credentials-IsCopier.local h g _ _ more p.credentials_secret;
      custom_tags = text_map-IsCopier.local h g _ _ more p.custom_tags;
    };
    copies = λ n h x v ready p.
        then_copy credentials-IsCopier _ _ _ ready p.credentials_secret (λ y0 h0 at0.
          then_copy text_map-IsCopier _ _ _ at0 p.custom_tags (λ y1 h1 at1.
            done_copy _ at1
              (λ g p1 p0. record { plain = p.plain; credentials_secret = p0; custom_tags = p1 })));
  }

  tls-IsCopier :
      IsCopier {T = T} (HoldsRef (HoldsSome HoldsFlat) tls_kind none) (copy_ref tls_kind tls_into)
  unfolding tls_into
  tls-IsCopier = ref-IsCopier (some-IsCopier flat-IsCopier) tls_kind none

  pub grpc-IsCopier : IsCopier {T = T} HoldsGrpc grpc_into
  unfolding grpc_into
  grpc-IsCopier = record {
    local =
        λ h g x v more p. record { plain = p.plain; tls = tls-IsCopier.local h g _ _ more p.tls };
    copies = λ n h x v ready p.
        then_copy tls-IsCopier _ _ _ ready p.tls
          (λ y0 h0 at0. done_copy _ at0 (λ g p0. record { plain = p.plain; tls = p0 }));
  }

  duration-IsCopier :
      IsCopier {T = T}
        (HoldsRef (HoldsSome HoldsFlat) duration_kind none)
        (copy_ref duration_kind pure)
  duration-IsCopier = ref-IsCopier (some-IsCopier flat-IsCopier) duration_kind none

  texts-IsCopier : IsCopier {T = T} (HoldsRef HoldsFlat texts_kind []) (copy_ref texts_kind pure)
  texts-IsCopier = ref-IsCopier flat-IsCopier texts_kind []

  pub definition-IsCopier : IsCopier {T = T} HoldsDefinition definition_into
  unfolding definition_into
  definition-IsCopier = record {
    local = λ h g x v more p. record {
      plain = p.plain;
      interval = duration-IsCopier.local h g _ _ more p.interval;
      sqls = text_map-IsCopier.local h g _ _ more p.sqls;
      gauges = texts-IsCopier.local h g _ _ more p.gauges;
    };
    copies = λ n h x v ready p. then_copy duration-IsCopier _ _ _ ready p.interval (λ y0 h0 at0.
        then_copy text_map-IsCopier _ _ _ at0 p.sqls (λ y1 h1 at1.
          then_copy texts-IsCopier _ _ _ at1 p.gauges (λ y2 h2 at2.
            done_copy _ at2
              (λ g p2 p1 p0. record { plain = p.plain; interval = p0; sqls = p1; gauges = p2 }))));
  }

  definitions-IsCopier :
      IsCopier {T = T} HoldsDefinitions (copy_ref definitions_kind (copy_each definition_into))
  definitions-IsCopier = ref-IsCopier (each-IsCopier definition-IsCopier) definitions_kind []

  refs-IsCopier : IsCopier {T = T} (HoldsRef HoldsFlat refs_kind []) (copy_ref refs_kind pure)
  refs-IsCopier = ref-IsCopier flat-IsCopier refs_kind []

  pub metrics_spec-IsCopier : IsCopier {T = T} HoldsMetricsSpec metrics_spec_into
  unfolding metrics_spec_into
  metrics_spec-IsCopier = record {
    local = λ h g x v more p. record {
      plain = p.plain;
      from_libraries = refs-IsCopier.local h g _ _ more p.from_libraries;
      custom = definitions-IsCopier.local h g _ _ more p.custom;
    };
    copies = λ n h x v ready p. then_copy refs-IsCopier _ _ _ ready p.from_libraries (λ y0 h0 at0.
        then_copy definitions-IsCopier _ _ _ at0 p.custom (λ y1 h1 at1.
          done_copy _ at1
            (λ g p1 p0. record { plain = p.plain; from_libraries = p0; custom = p1 })));
  }

  pub overrides-IsCopier : IsCopier {T = T} HoldsOverrides overrides_into
  unfolding overrides_into
  overrides-IsCopier = record {
    local = λ h g x v more p. record {
      labels = text_map-IsCopier.local h g _ _ more p.labels;
      annotations = text_map-IsCopier.local h g _ _ more p.annotations;
    };
    copies = λ n h x v ready p. then_copy text_map-IsCopier _ _ _ ready p.labels (λ y0 h0 at0.
        then_copy text_map-IsCopier _ _ _ at0 p.annotations
          (λ y1 h1 at1. done_copy _ at1 (λ g p1 p0. record { labels = p0; annotations = p1 })));
  }

  prometheus-IsCopier :
      IsCopier {T = T}
        (HoldsRef (HoldsSome HoldsFlat) prometheus_kind none)
        (copy_ref prometheus_kind prometheus_into)
  unfolding prometheus_into
  prometheus-IsCopier = ref-IsCopier (some-IsCopier flat-IsCopier) prometheus_kind none

  grpc_ref-IsCopier :
      IsCopier {T = T}
        (HoldsRef (HoldsSome HoldsGrpc) grpc_kind none)
        (copy_ref grpc_kind grpc_into)
  grpc_ref-IsCopier = ref-IsCopier (some-IsCopier grpc-IsCopier) grpc_kind none

  pub sinks-IsCopier : IsCopier {T = T} HoldsSinks sinks_into
  unfolding sinks_into
  sinks-IsCopier = record {
    local = λ h g x v more p. record {
      prometheus = prometheus-IsCopier.local h g _ _ more p.prometheus;
      grpc = grpc_ref-IsCopier.local h g _ _ more p.grpc;
    };
    copies = λ n h x v ready p. then_copy prometheus-IsCopier _ _ _ ready p.prometheus (λ y0 h0 at0.
        then_copy grpc_ref-IsCopier _ _ _ at0 p.grpc
          (λ y1 h1 at1. done_copy _ at1 (λ g p1 p0. record { prometheus = p0; grpc = p1 })));
  }

  pub library_spec-IsCopier : IsCopier {T = T} HoldsLibrarySpec library_spec_into
  unfolding library_spec_into
  library_spec-IsCopier = record {
    local =
        λ h g x v more p. record { metrics = definitions-IsCopier.local h g _ _ more p.metrics };
    copies = λ n h x v ready p.
        then_copy definitions-IsCopier _ _ _ ready p.metrics
          (λ y0 h0 at0. done_copy _ at0 (λ g p0. record { metrics = p0 }));
  }
