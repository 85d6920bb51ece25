-- ===== src/Api/DeepCopy/Holds.antt =====
-- What a struct in memory holds, as a value of the resource types.
use pgpilot_operator.Base.{ℕ, String, ◌≡◌, none, List, []}
use pgpilot_operator.Base.Dict.{Dict}
use pgpilot_operator.Kube.Meta.{TypeMeta, ObjectMeta, Condition}
use pgpilot_operator.Kube.Objects.{ResourceRequirements}
use pgpilot_operator.Api.Metrics.{
  MetricDefinition, PgpilotMetricLibrarySpec, PgpilotMetricLibraryStatus, PgpilotMetricLibrary,
}
use pgpilot_operator.Api.Monitor.{
  DatabaseRef, MetricsSpec, GrpcSink, SinksSpec, ObjectMetadataOverrides, PgpilotMonitorSpec,
  PgpilotMonitorStatus, PgpilotMonitor,
}
use pgpilot_operator.Api.Layout.{
  Ref, ForeignTypes, DatabaseRefLayout, GrpcSinkLayout, MetricDefinitionLayout, MetricsSpecLayout,
  ObjectMetadataOverridesLayout, SinksSpecLayout, PgpilotMetricLibrarySpecLayout,
  PgpilotMetricLibraryStatusLayout, PgpilotMonitorStatusLayout, PgpilotMonitorSpecLayout,
  PgpilotMetricLibraryLayout, PgpilotMonitorLayout, ListLayout,
}
use pgpilot_operator.Api.Memory.{Heap}
use pgpilot_operator.Api.Memory.Kinds.{
  text_map_kind, texts_kind, duration_kind, time_kind, credentials_kind, tls_kind, prometheus_kind,
  grpc_kind, refs_kind, definitions_kind, conditions_kind, libraries_kind, monitors_kind,
}
use pgpilot_operator.Api.Memory.Copies.{
  IsCopier, HoldsFlat, HoldsMap, HoldsSome, HoldsEach, HoldsRef,
}
use pgpilot_operator.Api.DeepCopy.{Foreign}

module _ {T : ForeignTypes} where
  abbrev pub HoldsTextMap : Heap T → Ref → Dict String String → Type 0
  HoldsTextMap = HoldsRef HoldsMap text_map_kind []

  pub record HoldsDatabase (h : Heap T) (x : DatabaseRefLayout) (v : DatabaseRef) : Type 0 where
    pub plain :
        (x.host ≡ v.host)
        × (x.port ≡ v.port)
        × (x.database ≡ v.database)
        × (x.sslmode ≡ v.sslmode)
        × (x.username ≡ v.username)
        × (x.password ≡ v.password)
    pub credentials_secret :
        HoldsRef
          (HoldsSome HoldsFlat)
          credentials_kind
          none
          h
          x.credentials_secret
          v.credentials_secret
    pub custom_tags : HoldsTextMap h x.custom_tags v.custom_tags

  pub record HoldsGrpc (h : Heap T) (x : GrpcSinkLayout) (v : GrpcSink) : Type 0 where
    pub plain : (x.enabled ≡ v.enabled) × (x.endpoint ≡ v.endpoint)
    pub tls : HoldsRef (HoldsSome HoldsFlat) tls_kind none h x.tls v.tls

  pub record HoldsDefinition (h : Heap T) (x : MetricDefinitionLayout) (v : MetricDefinition)
      : Type 0 where
    pub plain :
        (x.name ≡ v.name)
        × (x.description ≡ v.description)
        × (x.statement_timeout_seconds ≡ v.statement_timeout_seconds)
        × (x.master_only ≡ v.master_only)
        × (x.standby_only ≡ v.standby_only)
        × (x.is_instance_level ≡ v.is_instance_level)
    pub interval : HoldsRef (HoldsSome HoldsFlat) duration_kind none h x.interval v.interval
    pub sqls : HoldsTextMap h x.sqls v.sqls
    pub gauges : HoldsRef HoldsFlat texts_kind [] h x.gauges v.gauges

  abbrev pub HoldsDefinitions : Heap T → Ref → List MetricDefinition → Type 0
  HoldsDefinitions = HoldsRef (HoldsEach HoldsDefinition) definitions_kind []

  pub record HoldsMetricsSpec (h : Heap T) (x : MetricsSpecLayout) (v : MetricsSpec) : Type 0 where
    pub plain : x.preset ≡ v.preset
    pub from_libraries : HoldsRef HoldsFlat refs_kind [] h x.from_libraries v.from_libraries
    pub custom : HoldsDefinitions h x.custom v.custom

  pub record HoldsOverrides (h : Heap T) (x : ObjectMetadataOverridesLayout)
      (v : ObjectMetadataOverrides) : Type 0 where
    pub labels : HoldsTextMap h x.labels v.labels
    pub annotations : HoldsTextMap h x.annotations v.annotations

  pub record HoldsSinks (h : Heap T) (x : SinksSpecLayout) (v : SinksSpec) : Type 0 where
    pub prometheus : HoldsRef (HoldsSome HoldsFlat) prometheus_kind none h x.prometheus v.prometheus
    pub grpc : HoldsRef (HoldsSome HoldsGrpc) grpc_kind none h x.grpc v.grpc

  pub record HoldsLibrarySpec (h : Heap T) (x : PgpilotMetricLibrarySpecLayout)
      (v : PgpilotMetricLibrarySpec) : Type 0 where
    pub metrics : HoldsDefinitions h x.metrics v.metrics

-- What the structs of other packages hold, and that their deep copies are good copies.
pub record IsForeign (T : ForeignTypes) (F : Foreign T) : Type 1 where
  pub ListMeta : Type 0
  pub HoldsMeta : Heap T → T.Meta → ObjectMeta → Type 0
  pub HoldsListMeta : Heap T → T.ListMeta → ListMeta → Type 0
  pub HoldsResources : Heap T → T.Resources → ResourceRequirements → Type 0
  pub HoldsCondition : Heap T → T.Condition → Condition → Type 0
  pub HoldsTime : Heap T → T.Time → ℕ → Type 0
  pub meta : IsCopier HoldsMeta F.meta_into
  pub list_meta : IsCopier HoldsListMeta F.list_meta_into
  pub resources : IsCopier HoldsResources F.resources_into
  pub condition : IsCopier HoldsCondition F.condition_into
  pub time : IsCopier (HoldsRef (HoldsSome HoldsTime) time_kind none) F.time_copy

module _ {T : ForeignTypes} {F : Foreign T} (L : IsForeign T F) where
  abbrev pub HoldsConditions : Heap T → Ref → List Condition → Type 0
  HoldsConditions = HoldsRef (HoldsEach L.HoldsCondition) conditions_kind []

  pub record HoldsLibraryStatus (h : Heap T) (x : PgpilotMetricLibraryStatusLayout)
      (v : PgpilotMetricLibraryStatus) : Type 0 where
    pub plain : x.observed_generation ≡ v.observed_generation
    pub conditions : HoldsConditions h x.conditions v.conditions

  pub record HoldsMonitorStatus (h : Heap T) (x : PgpilotMonitorStatusLayout)
      (v : PgpilotMonitorStatus) : Type 0 where
    pub plain :
        (x.ready ≡ v.ready)
        × (x.pod_name ≡ v.pod_name)
        × (x.observed_generation ≡ v.observed_generation)
        × (x.config_hash ≡ v.config_hash)
    pub last_reconciled :
        HoldsRef (HoldsSome L.HoldsTime) time_kind none h x.last_reconciled v.last_reconciled
    pub conditions : HoldsConditions h x.conditions v.conditions

  pub record HoldsMonitorSpec (h : Heap T) (x : PgpilotMonitorSpecLayout T) (v : PgpilotMonitorSpec)
      : Type 0 where
    pub image : x.image ≡ v.image
    pub database : HoldsDatabase h x.database v.database
    pub metrics : HoldsMetricsSpec h x.metrics v.metrics
    pub sinks : HoldsSinks h x.sinks v.sinks
    pub resources : L.HoldsResources h x.resources v.resources
    pub pod_metadata : HoldsOverrides h x.pod_metadata v.pod_metadata
    pub service_metadata : HoldsOverrides h x.service_metadata v.service_metadata

  -- A resource, with its type.
  pub record HoldsLibrary (h : Heap T) (x : PgpilotMetricLibraryLayout T)
      (v : TypeMeta × PgpilotMetricLibrary) : Type 0 where
    pub type_meta : x.type_meta ≡ v.0
    pub object_meta : L.HoldsMeta h x.object_meta v.1.object_meta
    pub spec : HoldsLibrarySpec h x.spec v.1.spec
    pub status : HoldsLibraryStatus h x.status v.1.status

  pub record HoldsMonitor (h : Heap T) (x : PgpilotMonitorLayout T) (v : TypeMeta × PgpilotMonitor)
      : Type 0 where
    pub type_meta : x.type_meta ≡ v.0
    pub object_meta : L.HoldsMeta h x.object_meta v.1.object_meta
    pub spec : HoldsMonitorSpec h x.spec v.1.spec
    pub status : HoldsMonitorStatus h x.status v.1.status

  -- A list of resources, with its type and its metadata.
  pub record HoldsLibraries (h : Heap T) (x : ListLayout T)
      (v : TypeMeta × L.ListMeta × List (TypeMeta × PgpilotMetricLibrary)) : Type 0 where
    pub type_meta : x.type_meta ≡ v.0
    pub list_meta : L.HoldsListMeta h x.list_meta v.1
    pub items : HoldsRef (HoldsEach HoldsLibrary) libraries_kind [] h x.items v.2

  pub record HoldsMonitors (h : Heap T) (x : ListLayout T)
      (v : TypeMeta × L.ListMeta × List (TypeMeta × PgpilotMonitor)) : Type 0 where
    pub type_meta : x.type_meta ≡ v.0
    pub list_meta : L.HoldsListMeta h x.list_meta v.1
    pub items : HoldsRef (HoldsEach HoldsMonitor) monitors_kind [] h x.items v.2
