-- ===== src/Api/Metrics.antt =====
-- api/v1/pgpilotmetriclibrary_types.go: a metric definition, and the resource that shares a set.
use pgpilot_operator.Base.{ℕ, String, Bool, Option, List}
use pgpilot_operator.Base.Dict.{Dict}
use pgpilot_operator.Base.Int.{ℤ}
use pgpilot_operator.Kube.Meta.{ObjectMeta, Condition}

-- `interval` is a `metav1.Duration` in nanoseconds.
pub record MetricDefinition : Type 0 where
  pub name : String
  pub description : String
  pub interval : Option ℤ
  pub sqls : Dict String String
  pub gauges : List String
  pub statement_timeout_seconds : ℤ
  pub master_only : Bool
  pub standby_only : Bool
  pub is_instance_level : Bool

pub record PgpilotMetricLibrarySpec : Type 0 where
  pub metrics : List MetricDefinition

pub record PgpilotMetricLibraryStatus : Type 0 where
  pub observed_generation : ℕ
  pub conditions : List Condition

pub record PgpilotMetricLibrary : Type 0 where
  pub object_meta : ObjectMeta
  pub spec : PgpilotMetricLibrarySpec
  pub status : PgpilotMetricLibraryStatus
