-- ===== src/Controller/Monitor/Steady.antt =====
-- A run of `Reconcile` on a monitor whose status an earlier run has written, where nothing else has
-- changed since.
pub mod Renewed
pub mod Runs
pub mod Repeats
use pgpilot_operator.Base.{String, ◌≡◌, Bool, true, false, some, List, ◌++◌, All, Error, ok, arith}
use pgpilot_operator.Base.Int.{ℤ}
use pgpilot_operator.Kube.Meta.{NamespacedName, ConditionStatus}
use pgpilot_operator.Api.Metrics.{PgpilotMetricLibrary}
use pgpilot_operator.Api.Monitor.{CredentialsSecretRef, PgpilotMonitorStatus, PgpilotMonitor}
use pgpilot_operator.Builder.Library.{Library}
use pgpilot_operator.Builder.Secrecy.{HasCredentials}
use pgpilot_operator.Controller.Cluster.{Cluster, Object}
use pgpilot_operator.Controller.Session.{
  Request, update_request, apply_request, status_request, library_status_request, event_request,
}
use pgpilot_operator.Controller.Triple.{Fetched, Refused}
use pgpilot_operator.Controller.Checks.{key_of}
use pgpilot_operator.Controller.Monitor.{finalizer_name, is_deleted}
use pgpilot_operator.Controller.Monitor.Applied.{owned}
use pgpilot_operator.Controller.Monitor.Validation.{ResolvedAll, Unresolved}
use pgpilot_operator.Controller.Monitor.Statuses.{Tells, Observed}
use pgpilot_operator.Controller.Monitor.Statuses.Account.{ChildOf}

-- The monitor after its status was written: the API server keeps the version and the managed fields.
abbrev pub renewed : PgpilotMonitor → PgpilotMonitorStatus → String → List String → PgpilotMonitor
renewed m st version fields = record m {
  object_meta = record m.object_meta { resource_version = version; managed_fields = fields };
  status = st;
}

-- A later status with the same hash and the same flag `ready`. The times, the messages, the name of
-- the pod and the conditions may be others.
abbrev pub Follows : PgpilotMonitorStatus → PgpilotMonitorStatus → Type 0
Follows st later = (later.config_hash ≡ st.config_hash) × (later.ready ≡ st.ready)

-- Both statuses have the condition, with the same status and the same reason.
abbrev pub Agree : PgpilotMonitorStatus → PgpilotMonitorStatus → String → Type 0
Agree st now t =
    (status : ConditionStatus) × (reason : String) × Tells t status reason st
    × Tells t status reason now

module _ (C : Cluster) (lib : Library) (enabled : Bool) (req : NamespacedName) (m : PgpilotMonitor)
    (st : PgpilotMonitorStatus) where
  -- The API server answers with the monitor as a run, or a later one, has left it, and with what that
  -- run has read.
  pub record Unchanged (seen : Observed C lib m st) : Type 0 where
    pub alive : is_deleted m.object_meta.deletion_timestamp ≡ false
    pub credentials : HasCredentials m.spec.database
    pub monitor :
        (x : PgpilotMonitor)
        → Fetched (C.get_monitor req) x
        → (C.contains_finalizer x.object_meta finalizer_name ≡ true)
          × ((later : PgpilotMonitorStatus) × (version : String) × (fields : List String) × Follows
                st later
              × (x ≡ renewed m later version fields))
    pub secret :
        (ref : CredentialsSecretRef) (e : Error)
        → m.spec.database.credentials_secret ≡ some ref
        → ¬ Refused (C.get_secret (key_of m ref.name)) e
    pub granted : ¬ Unresolved C m m.spec.metrics.from_libraries
    pub libraries :
        (ls : List PgpilotMetricLibrary)
        → ResolvedAll C m m.spec.metrics.from_libraries ls
        → ls ≡ seen.libraries
    pub replicas :
        (n : ℤ)
        → Fetched
            (C.get_ready_replicas (record {
              name = seen.dep.object_meta.name;
              namespace = seen.dep.object_meta.namespace;
            }))
            n
        → n ≡ seen.replicas

  -- The request repeats what is there: it applies a child of the same making, or writes a status that
  -- agrees with the one that is there.
  abbrev pub Quiet : Observed C lib m st → Request → Type 0
  Quiet seen (status_request w) =
      (w.status.config_hash ≡ st.config_hash)
      × (w.status.ready ≡ st.ready)
      × (w.status.observed_generation ≡ st.observed_generation)
      × Agree st w.status "Ready"
      × Agree st w.status "ConfigGenerated"
      × Agree st w.status "DatabaseReachable"
  Quiet seen (apply_request o) =
      (version : String) × (fields : List String) × (child : Object) × ChildOf C lib enabled m
        seen.libraries child
      × (owned C (renewed m st version fields).object_meta child ≡ ok o)
  Quiet seen (update_request w) = ⊥
  Quiet seen (library_status_request l) = ⊥
  Quiet seen (event_request about kind reason message) = ⊥

  -- All that was sent after `before` is such.
  pub record Unmoved (seen : Observed C lib m st) (before now : List Request) : Type 0 where
    pub trace : List Request
    pub split : now ≡ before ++ trace
    pub quiet : All (Quiet seen) trace
