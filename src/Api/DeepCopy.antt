-- ===== src/Api/DeepCopy.antt =====
-- api/v1/zz_generated.deepcopy.go: `DeepCopyInto` of each type.
pub mod Pointers
pub mod Holds
pub mod Copied
pub mod Resources
pub mod Independent
pub mod Parts
use pgpilot_operator.Base.{Option, none, some}
use pgpilot_operator.Api.Monitor.{
  CredentialsSecretRef, LibraryRef, PrometheusSink, GrpcTls, ImageSpec,
}
use pgpilot_operator.Api.Layout.{
  Ref, ForeignTypes, DatabaseRefLayout, GrpcSinkLayout, MetricDefinitionLayout, MetricsSpecLayout,
  ObjectMetadataOverridesLayout, SinksSpecLayout, PgpilotMetricLibrarySpecLayout,
  PgpilotMetricLibraryStatusLayout, PgpilotMonitorStatusLayout, PgpilotMonitorSpecLayout,
  PgpilotMetricLibraryLayout, PgpilotMonitorLayout, ListLayout,
}
use pgpilot_operator.Api.Memory.{Mem, pure, ◌>>=◌, copy_ref, copy_each, copy_map}
use pgpilot_operator.Api.Memory.Kinds.{
  text_map_kind, texts_kind, duration_kind, credentials_kind, tls_kind, prometheus_kind, grpc_kind,
  refs_kind, definitions_kind, conditions_kind, libraries_kind, monitors_kind,
}

-- The deep copies of `metav1.ObjectMeta`, `metav1.ListMeta`, `corev1.ResourceRequirements` and
-- `metav1.Condition`, and `DeepCopy` of `metav1.Time`.
pub record Foreign (T : ForeignTypes) : Type 0 where
  pub meta_into : T.Meta → Mem T T.Meta
  pub list_meta_into : T.ListMeta → Mem T T.ListMeta
  pub resources_into : T.Resources → Mem T T.Resources
  pub condition_into : T.Condition → Mem T T.Condition
  pub time_copy : Ref → Mem T Ref

module _ {T : ForeignTypes} where
  unfoldable pub credentials_into : CredentialsSecretRef → Mem T CredentialsSecretRef
  credentials_into x = pure x

  unfoldable pub tls_into : GrpcTls → Mem T GrpcTls
  tls_into x = pure x

  unfoldable pub image_into : ImageSpec → Mem T ImageSpec
  image_into x = pure x

  unfoldable pub ref_into : LibraryRef → Mem T LibraryRef
  ref_into x = pure x

  unfoldable pub prometheus_into : PrometheusSink → Mem T PrometheusSink
  prometheus_into x = pure x

  unfoldable pub database_into : DatabaseRefLayout → Mem T DatabaseRefLayout
  database_into x = do
    credentials_secret ← copy_ref credentials_kind credentials_into x.credentials_secret
    custom_tags ← copy_ref text_map_kind copy_map x.custom_tags
    pure (record x { credentials_secret = credentials_secret; custom_tags = custom_tags })

  unfoldable pub grpc_into : GrpcSinkLayout → Mem T GrpcSinkLayout
  grpc_into x = do tls ← copy_ref tls_kind tls_into x.tls; pure (record x { tls = tls })

  unfoldable pub definition_into : MetricDefinitionLayout → Mem T MetricDefinitionLayout
  definition_into x = do
    interval ← copy_ref duration_kind pure x.interval
    sqls ← copy_ref text_map_kind copy_map x.sqls
    gauges ← copy_ref texts_kind pure x.gauges
    pure (record x { interval = interval; sqls = sqls; gauges = gauges })

  unfoldable pub metrics_spec_into : MetricsSpecLayout → Mem T MetricsSpecLayout
  metrics_spec_into x = do
    from_libraries ← copy_ref refs_kind pure x.from_libraries
    custom ← copy_ref definitions_kind (copy_each definition_into) x.custom
    pure (record x { from_libraries = from_libraries; custom = custom })

  unfoldable pub overrides_into :
      ObjectMetadataOverridesLayout → Mem T ObjectMetadataOverridesLayout
  overrides_into x = do
    labels ← copy_ref text_map_kind copy_map x.labels
    annotations ← copy_ref text_map_kind copy_map x.annotations
    pure (record x { labels = labels; annotations = annotations })

  unfoldable pub sinks_into : SinksSpecLayout → Mem T SinksSpecLayout
  sinks_into x = do
    prometheus ← copy_ref prometheus_kind prometheus_into x.prometheus
    grpc ← copy_ref grpc_kind grpc_into x.grpc
    pure (record x { prometheus = prometheus; grpc = grpc })

  unfoldable pub library_spec_into :
      PgpilotMetricLibrarySpecLayout → Mem T PgpilotMetricLibrarySpecLayout
  library_spec_into x = do
    metrics ← copy_ref definitions_kind (copy_each definition_into) x.metrics
    pure (record x { metrics = metrics })

module _ {T : ForeignTypes} (F : Foreign T) where
  unfoldable pub library_status_into :
      PgpilotMetricLibraryStatusLayout → Mem T PgpilotMetricLibraryStatusLayout
  library_status_into x = do
    conditions ← copy_ref conditions_kind (copy_each F.condition_into) x.conditions
    pure (record x { conditions = conditions })

  unfoldable pub copy_time : Ref → Mem T Ref
  copy_time none = pure none
  copy_time (some a) = F.time_copy (some a)

  unfoldable pub monitor_status_into : PgpilotMonitorStatusLayout → Mem T PgpilotMonitorStatusLayout
  monitor_status_into x = do
    last_reconciled ← copy_time x.last_reconciled
    conditions ← copy_ref conditions_kind (copy_each F.condition_into) x.conditions
    pure (record x { last_reconciled = last_reconciled; conditions = conditions })

  unfoldable pub monitor_spec_into : PgpilotMonitorSpecLayout T → Mem T (PgpilotMonitorSpecLayout T)
  monitor_spec_into x = do
    database ← database_into x.database
    metrics ← metrics_spec_into x.metrics
    sinks ← sinks_into x.sinks
    resources ← F.resources_into x.resources
    pod_metadata ← overrides_into x.pod_metadata
    service_metadata ← overrides_into x.service_metadata
    pure (record x {
      database = database;
      metrics = metrics;
      sinks = sinks;
      resources = resources;
      pod_metadata = pod_metadata;
      service_metadata = service_metadata;
    })

  unfoldable pub library_into : PgpilotMetricLibraryLayout T → Mem T (PgpilotMetricLibraryLayout T)
  library_into x = do
    object_meta ← F.meta_into x.object_meta
    spec ← library_spec_into x.spec
    status ← library_status_into x.status
    pure (record x { object_meta = object_meta; spec = spec; status = status })

  unfoldable pub monitor_into : PgpilotMonitorLayout T → Mem T (PgpilotMonitorLayout T)
  monitor_into x = do
    object_meta ← F.meta_into x.object_meta
    spec ← monitor_spec_into x.spec
    status ← monitor_status_into x.status
    pure (record x { object_meta = object_meta; spec = spec; status = status })

  unfoldable pub library_list_into : ListLayout T → Mem T (ListLayout T)
  library_list_into x = do
    list_meta ← F.list_meta_into x.list_meta
    items ← copy_ref libraries_kind (copy_each library_into) x.items
    pure (record x { list_meta = list_meta; items = items })

  unfoldable pub monitor_list_into : ListLayout T → Mem T (ListLayout T)
  monitor_list_into x = do
    list_meta ← F.list_meta_into x.list_meta
    items ← copy_ref monitors_kind (copy_each monitor_into) x.items
    pure (record x { list_meta = list_meta; items = items })
