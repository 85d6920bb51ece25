-- ===== src/Api/Monitor.antt =====
-- api/v1/pgpilotmonitor_types.go: the resource that asks for one pgwatch collector. A pointer field
-- is an `Option`, and a string field is empty when it is left out.
use pgpilot_operator.Base.{ℕ, String, Bool, Option, List}
use pgpilot_operator.Base.Dict.{Dict}
use pgpilot_operator.Base.Int.{ℤ}
use pgpilot_operator.Kube.Meta.{ObjectMeta, Condition}
use pgpilot_operator.Kube.Objects.{ResourceRequirements}
use pgpilot_operator.Api.Metrics.{MetricDefinition}

-- `SSLMode` is a string type of the source.
abbrev pub SslMode : Type 0
SslMode = String

abbrev pub ssl_mode_disable : SslMode
ssl_mode_disable = "disable"

pub record CredentialsSecretRef : Type 0 where
  pub name : String
  pub username_key : String
  pub password_key : String

pub record DatabaseRef : Type 0 where
  pub host : String
  pub port : ℤ
  pub database : String
  pub sslmode : SslMode
  pub username : String
  pub password : String
  pub credentials_secret : Option CredentialsSecretRef
  pub custom_tags : Dict String String

pub record LibraryRef : Type 0 where
  pub name : String

pub record MetricsSpec : Type 0 where
  pub preset : String
  pub from_libraries : List LibraryRef
  pub custom : List MetricDefinition

pub record PrometheusSink : Type 0 where
  pub enabled : Bool
  pub port : ℤ

pub record GrpcTls : Type 0 where
  pub ca_secret_ref : String

pub record GrpcSink : Type 0 where
  pub enabled : Bool
  pub endpoint : String
  pub tls : Option GrpcTls

pub record SinksSpec : Type 0 where
  pub prometheus : Option PrometheusSink
  pub grpc : Option GrpcSink

pub record ImageSpec : Type 0 where
  pub repository : String
  pub tag : String
  pub pull_policy : String

pub record ObjectMetadataOverrides : Type 0 where
  pub labels : Dict String String
  pub annotations : Dict String String

pub record PgpilotMonitorSpec : Type 0 where
  pub database : DatabaseRef
  pub metrics : MetricsSpec
  pub sinks : SinksSpec
  pub resources : ResourceRequirements
  pub image : ImageSpec
  pub pod_metadata : ObjectMetadataOverrides
  pub service_metadata : ObjectMetadataOverrides

pub record PgpilotMonitorStatus : Type 0 where
  pub ready : Bool
  pub pod_name : String
  pub observed_generation : ℕ
  pub config_hash : String
  pub last_reconciled : Option ℕ
  pub conditions : List Condition

pub record PgpilotMonitor : Type 0 where
  pub object_meta : ObjectMeta
  pub spec : PgpilotMonitorSpec
  pub status : PgpilotMonitorStatus
