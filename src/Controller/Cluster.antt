-- ===== src/Controller/Cluster.antt =====
-- What the reconcilers call and the repository does not hold: the API server behind the client of
-- controller-runtime, and the helpers of apimachinery, client-go and controllerutil.
use pgpilot_operator.Base.{
  ℕ, String, ◌≡◌, ◌≢◌, Bool, true, false, Option, none, some, List, [], ◌∷◌, Reason, not_found,
  conflict, other, Error, failure, errorf, wrap, Result, err, ◌==◌, string_eq, if◌then◌else◌,
}
use pgpilot_operator.Base.Dict.{Dict}
use pgpilot_operator.Base.Int.{ℤ}
use pgpilot_operator.Kube.Meta.{ObjectMeta, NamespacedName, Condition}
use pgpilot_operator.Kube.Objects.{ConfigMap, Deployment, Service, ServiceMonitor}
use pgpilot_operator.Api.Metrics.{PgpilotMetricLibrary}
use pgpilot_operator.Api.Monitor.{PgpilotMonitor}

-- A `client.Object` that the operator applies.
pub data Object : Type 0 where
  config_map_object : ConfigMap → Object
  deployment_object : Deployment → Object
  service_object : Service → Object
  service_monitor_object : ServiceMonitor → Object

-- An API server with all that surrounds it. A call may change the world, also a call that reads:
-- other clients act in between.
pub record Cluster : Type 1 where
  pub World : Type 0
  pub get_monitor : NamespacedName → World → Result PgpilotMonitor × World
  pub get_library : NamespacedName → World → Result PgpilotMetricLibrary × World
  pub get_secret : NamespacedName → World → Result (Unit {0}) × World
  -- `Status.ReadyReplicas` of the Deployment that is read
  pub get_ready_replicas : NamespacedName → World → Result ℤ × World
  -- the names of the pods with the labels
  pub list_pods : String → Dict String String → World → Result (List String) × World
  pub list_monitors : String → World → Result (List PgpilotMonitor) × World
  -- `Update` decodes the server's answer into its argument
  pub update_monitor : PgpilotMonitor → World → Result PgpilotMonitor × World
  pub update_status : PgpilotMonitor → World → Result (Unit {0}) × World
  pub update_library_status : PgpilotMetricLibrary → World → Result (Unit {0}) × World
  -- a server-side apply as field owner "pgpilot-operator", forced
  pub apply : Object → World → Result (Unit {0}) × World
  pub now : World → ℕ × World
  pub contains_finalizer : ObjectMeta → String → Bool
  pub add_finalizer : ObjectMeta → String → ObjectMeta
  pub remove_finalizer : ObjectMeta → String → ObjectMeta
  -- the owner's metadata, then those of the object that it is to own
  pub set_controller_reference : ObjectMeta → ObjectMeta → Result ObjectMeta
  pub set_status_condition : List Condition → Condition → List Condition
  pub retry_on_conflict : (S : Type 0) → (S → Result (Unit {0}) × S) → S → Result (Unit {0}) × S

-- `apierrors.IsNotFound` and `apierrors.IsConflict` look through wrapped errors.
abbrev pub reason_of : Error → Reason
reason_of (failure reason message) = reason
reason_of (errorf message) = other
reason_of (wrap prefix e) = reason_of e

abbrev pub is_not_found : Error → Bool
is_not_found e = elim (reason_of e) [ not_found ↦ true | conflict ↦ false | other ↦ false ]

abbrev pub is_conflict : Error → Bool
is_conflict e = elim (reason_of e) [ not_found ↦ false | conflict ↦ true | other ↦ false ]

-- `out` is what the last of one or more runs returned, each run but the last having met a conflict.
pub data Retried {S : Type 0} (run : S → Result (Unit {0}) × S)
    : S → Result (Unit {0}) × S → Type 0 where
  last : {s : S} {out : Result (Unit {0}) × S} → run s ≡ out → Retried run s out
  again :
      {s t : S} {out : Result (Unit {0}) × S} (e : Error)
      → run s ≡ (err e, t)
      → is_conflict e ≡ true
      → Retried run t out
      → Retried run s out

-- `meta.FindStatusCondition`
abbrev pub find_condition : String → List Condition → Option Condition
find_condition t [] = none
find_condition t (c ∷ cs) = if t == c.condition_type then some c else find_condition t cs

-- The documented behaviour of the helpers that the proofs rely on.
pub record IsLawful (C : Cluster) : Type 1 where
  pub retry :
      (S : Type 0) (run : S → Result (Unit {0}) × S) (s : S)
      → Retried run s (C.retry_on_conflict S run s)
  pub condition_self :
      (cs : List Condition) (c : Condition)
      → (d : Condition) × (find_condition c.condition_type (C.set_status_condition cs c) ≡ some d)
        × (d.status ≡ c.status)
        × (d.reason ≡ c.reason)
        × (d.message ≡ c.message)
        × (d.observed_generation ≡ c.observed_generation)
  pub condition_other :
      (cs : List Condition) (c : Condition) (t : String)
      → t ≢ c.condition_type
      → find_condition t (C.set_status_condition cs c) ≡ find_condition t cs
