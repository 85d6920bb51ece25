-- ===== src/Controller/Monitor/Statuses.antt =====
-- What the statuses and the events say that a run of `Reconcile` sends.
pub mod Account
pub mod Checks
pub mod Observation
pub mod Generation
pub mod Children
pub mod Runs
use pgpilot_operator.Base.{
  String, ◌≡◌, ◌≢◌, ◌∙◌, ◌&&◌, some, List, Error, ok, nonempty, if◌then◌else◌,
}
use pgpilot_operator.Base.Int.{ℤ, is_positive}
use pgpilot_operator.Kube.Meta.{Condition, ConditionStatus, status_true, status_false}
use pgpilot_operator.Kube.Objects.{ConfigMap, Deployment}
use pgpilot_operator.Api.Metrics.{PgpilotMetricLibrary}
use pgpilot_operator.Api.Monitor.{
  CredentialsSecretRef, DatabaseRef, PgpilotMonitorStatus, PgpilotMonitor,
}
use pgpilot_operator.Builder.Library.{Library}
use pgpilot_operator.Builder.Metrics.{merge_metrics}
use pgpilot_operator.Builder.ConfigMap.{build_config_map}
use pgpilot_operator.Builder.Deployment.{build_deployment}
use pgpilot_operator.Builder.Secrecy.{HasCredentials}
use pgpilot_operator.Controller.Cluster.{Cluster, IsLawful, find_condition}
use pgpilot_operator.Controller.Session.{EventType, normal, warning}
use pgpilot_operator.Controller.Client.{set_condition}
use pgpilot_operator.Controller.Triple.{Fetched, Refused}
use pgpilot_operator.Controller.Checks.{key_of}
use pgpilot_operator.Controller.Monitor.Report.{Turned}
use pgpilot_operator.Controller.Monitor.Validation.{ResolvedAll, Unresolved}

-- The condition of the type has the status and the reason.
abbrev pub Tells : String → ConditionStatus → String → PgpilotMonitorStatus → Type 0
Tells t status reason st =
    (c : Condition) × (find_condition t st.conditions ≡ some c)
    × (c.status ≡ status)
    × (c.reason ≡ reason)

-- The reason that is given for credentials that were found.
abbrev pub credentials_reason : DatabaseRef → String
credentials_reason db =
    if nonempty db.username && nonempty db.password then "InlineCredentials" else "CredentialsFound"

-- After the credentials were found.
pub record Checked (m : PgpilotMonitor) (st : PgpilotMonitorStatus) : Type 0 where
  pub flag : st.ready ≡ m.status.ready
  pub same_hash : st.config_hash ≡ m.status.config_hash
  pub reachable : Tells "DatabaseReachable" status_true (credentials_reason m.spec.database) st

module _ (C : Cluster) (lib : Library) where
  -- The status of a monitor whose children were applied.
  pub record Observed (m : PgpilotMonitor) (st : PgpilotMonitorStatus) : Type 0 where
    pub libraries : List PgpilotMetricLibrary
    pub cm : ConfigMap
    pub dep : Deployment
    pub replicas : ℤ
    pub resolved : ResolvedAll C m m.spec.metrics.from_libraries libraries
    pub built :
        build_config_map lib m (merge_metrics lib m.spec.metrics libraries)
        ≡ ok (cm, st.config_hash)
    pub deployed :
        build_deployment m (merge_metrics lib m.spec.metrics libraries) st.config_hash ≡ some dep
    pub fetched :
        Fetched
          (C.get_ready_replicas
            (record { name = dep.object_meta.name; namespace = dep.object_meta.namespace }))
          replicas
    pub flag : st.ready ≡ is_positive replicas
    pub generation : st.observed_generation ≡ m.object_meta.generation
    pub ready :
        Tells "Ready"
          (if is_positive replicas then status_true else status_false)
          (if is_positive replicas then "PodRunning" else "PodNotReady")
          st
    pub generated : Tells "ConfigGenerated" status_true "ConfigMapUpdated" st
    pub reachable : Tells "DatabaseReachable" status_true (credentials_reason m.spec.database) st

  -- What a status says of the monitor, with the reason for it.
  pub data Says (m : PgpilotMonitor) (st : PgpilotMonitorStatus) : Type 0 where
    says_no_source :
        ¬ HasCredentials m.spec.database
        → st.ready ≡ m.status.ready
        → Tells "Ready" status_false "NoCredentials" st
        → Says m st
    says_no_secret :
        (ref : CredentialsSecretRef) (e : Error)
        → m.spec.database.credentials_secret ≡ some ref
        → Refused (C.get_secret (key_of m ref.name)) e
        → st.ready ≡ m.status.ready
        → Tells "Ready" status_false "SecretNotFound" st
        → Tells "DatabaseReachable" status_false "SecretNotFound" st
        → Says m st
    says_no_library :
        Unresolved C m m.spec.metrics.from_libraries
        → st.ready ≡ m.status.ready
        → Tells "Ready" status_false "LibraryResolveFailed" st
        → Tells "DatabaseReachable" status_true (credentials_reason m.spec.database) st
        → Says m st
    says_observed : Observed m st → Says m st

  -- The news that an event tells of a monitor, with the reason for it.
  pub data News (m : PgpilotMonitor) : EventType → String → Type 0 where
    new_config :
        (libraries : List PgpilotMetricLibrary) (cm : ConfigMap) (hash : String)
        → ResolvedAll C m m.spec.metrics.from_libraries libraries
        → build_config_map lib m (merge_metrics lib m.spec.metrics libraries) ≡ ok (cm, hash)
        → hash ≢ m.status.config_hash
        → News m normal "ConfigMapUpdated"
    new_pod :
        (libraries : List PgpilotMetricLibrary) (cm : ConfigMap) (hash : String) (dep : Deployment)
        (replicas : ℤ) (kind : EventType) (reason : String)
        → ResolvedAll C m m.spec.metrics.from_libraries libraries
        → build_config_map lib m (merge_metrics lib m.spec.metrics libraries) ≡ ok (cm, hash)
        → build_deployment m (merge_metrics lib m.spec.metrics libraries) hash ≡ some dep
        → Fetched
            (C.get_ready_replicas
              (record { name = dep.object_meta.name; namespace = dep.object_meta.namespace }))
            replicas
        → Turned m.status.ready (is_positive replicas) kind reason
        → News m kind reason
    secret_lost :
        (ref : CredentialsSecretRef) (e : Error)
        → m.spec.database.credentials_secret ≡ some ref
        → Refused (C.get_secret (key_of m ref.name)) e
        → News m warning "SecretNotFound"
    library_lost :
        Unresolved C m m.spec.metrics.from_libraries → News m warning "LibraryResolveFailed"

module _ (C : Cluster) (lawful : IsLawful C) where
  pub set_condition-Tells :
      (m : PgpilotMonitor) (t : String) (status : ConditionStatus) (reason message : String)
      → Tells t status reason (set_condition C m t status reason message).status
  unfolding set_condition
  set_condition-Tells m t status reason message =
      let (c, found, p, q, _, _) = lawful.condition_self m.status.conditions _ in (c, found, p, q)

  pub set_condition-other :
      (m : PgpilotMonitor) (t : String) (status : ConditionStatus) (reason message : String)
      (other reason_of : String) (told : ConditionStatus)
      → other ≢ t
      → Tells other told reason_of m.status
      → Tells other told reason_of (set_condition C m t status reason message).status
  unfolding set_condition
  set_condition-other m t status reason message other reason_of told differ (c, found, p, q) =
      (c, lawful.condition_other m.status.conditions _ other differ ∙ found, p, q)
