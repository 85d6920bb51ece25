-- ===== src/Api/Layout.antt =====
-- The structs of api/v1 as they lie in memory: a pointer, a slice and a map are references.
use pgpilot_operator.Base.{ℕ, String, Bool, Option, List}
use pgpilot_operator.Base.Dict.{Dict}
use pgpilot_operator.Base.Int.{ℤ}
use pgpilot_operator.Kube.Meta.{TypeMeta}
use pgpilot_operator.Api.Monitor.{
  SslMode, CredentialsSecretRef, LibraryRef, PrometheusSink, GrpcTls, ImageSpec,
}

-- An address, or nil.
abbrev pub Ref : Type 0
Ref = Option ℕ

-- `metav1.ObjectMeta`, `metav1.ListMeta`, `corev1.ResourceRequirements`, `metav1.Condition` and
-- `metav1.Time` as they lie in memory, and what their own references lead to.
pub record ForeignTypes : Type 1 where
  pub Meta : Type 0
  pub ListMeta : Type 0
  pub Resources : Type 0
  pub Condition : Type 0
  pub Time : Type 0
  pub Block : Type 0

pub record DatabaseRefLayout : Type 0 where
  pub host : String
  pub port : ℤ
  pub database : String
  pub sslmode : SslMode
  pub username : String
  pub password : String
  pub credentials_secret : Ref
  pub custom_tags : Ref

pub record GrpcSinkLayout : Type 0 where
  pub enabled : Bool
  pub endpoint : String
  pub tls : Ref

pub record MetricDefinitionLayout : Type 0 where
  pub name : String
  pub description : String
  pub interval : Ref
  pub sqls : Ref
  pub gauges : Ref
  pub statement_timeout_seconds : ℤ
  pub master_only : Bool
  pub standby_only : Bool
  pub is_instance_level : Bool

pub record MetricsSpecLayout : Type 0 where
  pub preset : String
  pub from_libraries : Ref
  pub custom : Ref

pub record ObjectMetadataOverridesLayout : Type 0 where
  pub labels : Ref
  pub annotations : Ref

pub record SinksSpecLayout : Type 0 where
  pub prometheus : Ref
  pub grpc : Ref

pub record PgpilotMetricLibrarySpecLayout : Type 0 where
  pub metrics : Ref

pub record PgpilotMetricLibraryStatusLayout : Type 0 where
  pub observed_generation : ℕ
  pub conditions : Ref

pub record PgpilotMonitorStatusLayout : Type 0 where
  pub ready : Bool
  pub pod_name : String
  pub observed_generation : ℕ
  pub config_hash : String
  pub last_reconciled : Ref
  pub conditions : Ref

pub record PgpilotMonitorSpecLayout (T : ForeignTypes) : Type 0 where
  pub database : DatabaseRefLayout
  pub metrics : MetricsSpecLayout
  pub sinks : SinksSpecLayout
  pub resources : T.Resources
  pub image : ImageSpec
  pub pod_metadata : ObjectMetadataOverridesLayout
  pub service_metadata : ObjectMetadataOverridesLayout

pub record PgpilotMetricLibraryLayout (T : ForeignTypes) : Type 0 where
  pub type_meta : TypeMeta
  pub object_meta : T.Meta
  pub spec : PgpilotMetricLibrarySpecLayout
  pub status : PgpilotMetricLibraryStatusLayout

pub record PgpilotMonitorLayout (T : ForeignTypes) : Type 0 where
  pub type_meta : TypeMeta
  pub object_meta : T.Meta
  pub spec : PgpilotMonitorSpecLayout T
  pub status : PgpilotMonitorStatusLayout

-- `items` leads to a slice of the resources.
pub record ListLayout (T : ForeignTypes) : Type 0 where
  pub type_meta : TypeMeta
  pub list_meta : T.ListMeta
  pub items : Ref

-- What an address may lead to.
pub data Cell (T : ForeignTypes) : Type 0 where
  text_map_cell : Dict String String → Cell T
  texts_cell : List String → Cell T
  duration_cell : ℤ → Cell T
  time_cell : T.Time → Cell T
  credentials_cell : CredentialsSecretRef → Cell T
  tls_cell : GrpcTls → Cell T
  prometheus_cell : PrometheusSink → Cell T
  grpc_cell : GrpcSinkLayout → Cell T
  refs_cell : List LibraryRef → Cell T
  definitions_cell : List MetricDefinitionLayout → Cell T
  conditions_cell : List T.Condition → Cell T
  libraries_cell : List (PgpilotMetricLibraryLayout T) → Cell T
  monitors_cell : List (PgpilotMonitorLayout T) → Cell T
  library_cell : PgpilotMetricLibraryLayout T → Cell T
  monitor_cell : PgpilotMonitorLayout T → Cell T
  list_cell : ListLayout T → Cell T
  database_cell : DatabaseRefLayout → Cell T
  image_cell : ImageSpec → Cell T
  ref_cell : LibraryRef → Cell T
  definition_cell : MetricDefinitionLayout → Cell T
  metrics_spec_cell : MetricsSpecLayout → Cell T
  overrides_cell : ObjectMetadataOverridesLayout → Cell T
  library_spec_cell : PgpilotMetricLibrarySpecLayout → Cell T
  library_status_cell : PgpilotMetricLibraryStatusLayout → Cell T
  monitor_spec_cell : PgpilotMonitorSpecLayout T → Cell T
  monitor_status_cell : PgpilotMonitorStatusLayout → Cell T
  sinks_cell : SinksSpecLayout → Cell T
  block_cell : T.Block → Cell T
