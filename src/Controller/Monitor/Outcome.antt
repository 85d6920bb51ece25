-- ===== src/Controller/Monitor/Outcome.antt =====
-- How a run of `Reconcile` may end.
use pgpilot_operator.Base.{
  ◌≡◌, Bool, true, false, List, [], ◌∷◌, ◌++◌, Error, err, ◌⊎◌, if◌then◌else◌,
}
use pgpilot_operator.Kube.Meta.{NamespacedName}
use pgpilot_operator.Api.Metrics.{PgpilotMetricLibrary}
use pgpilot_operator.Api.Monitor.{PgpilotMonitor}
use pgpilot_operator.Builder.Library.{Library}
use pgpilot_operator.Builder.Secrecy.{HasCredentials}
use pgpilot_operator.Builder.Metrics.{merge_metrics}
use pgpilot_operator.Builder.ConfigMap.{build_config_map}
use pgpilot_operator.Controller.Monitor.Applied.{Partial}
use pgpilot_operator.Controller.Cluster.{Cluster, is_not_found}
use pgpilot_operator.Controller.Session.{Request, update_request, CtrlResult, no_requeue}
use pgpilot_operator.Controller.Triple.{Assertion, Fetched, Refused}
use pgpilot_operator.Controller.Monitor.{finalizer_name, is_deleted}
use pgpilot_operator.Controller.Checks.{requeue_in}
use pgpilot_operator.Controller.Monitor.Progress.{Progress}
use pgpilot_operator.Controller.Monitor.Validation.{ResolvedAll, Blocked}
use pgpilot_operator.Controller.Monitor.Children.{Converged}

module _ (C : Cluster) (lib : Library) where
  -- The monitor as the API server answered: on the read, if it carries the finalizer, or else on the
  -- update that adds it. It is not being deleted.
  pub data Current (req : NamespacedName) : PgpilotMonitor → Type 0 where
    carried :
        (m : PgpilotMonitor)
        → Fetched (C.get_monitor req) m
        → is_deleted m.object_meta.deletion_timestamp ≡ false
        → C.contains_finalizer m.object_meta finalizer_name ≡ true
        → Current req m
    marked :
        (m m1 : PgpilotMonitor)
        → Fetched (C.get_monitor req) m
        → is_deleted m.object_meta.deletion_timestamp ≡ false
        → C.contains_finalizer m.object_meta finalizer_name ≡ false
        → Fetched
            (C.update_monitor
              (record m { object_meta = C.add_finalizer m.object_meta finalizer_name }))
            m1
        → Current req m1

  -- The children of the current monitor and of its libraries are in place.
  pub record Delivered (enabled : Bool) (req : NamespacedName) (before now : List Request)
      : Type 0 where
    pub monitor : PgpilotMonitor
    pub libraries : List PgpilotMetricLibrary
    pub current : Current req monitor
    pub credentials : HasCredentials monitor.spec.database
    pub resolved : ResolvedAll C monitor monitor.spec.metrics.from_libraries libraries
    pub converged : Converged C lib before enabled monitor libraries now

  -- What is sent for a monitor that is being deleted: it gives up its finalizer, if it carries it.
  abbrev pub cleanup : PgpilotMonitor → List Request
  cleanup m =
      if C.contains_finalizer m.object_meta finalizer_name
      then update_request
          (record m { object_meta = C.remove_finalizer m.object_meta finalizer_name })
        ∷ []
      else []

  -- The API server accepted the update, if there was one.
  abbrev pub Released : PgpilotMonitor → Type 0
  Released m =
      C.contains_finalizer m.object_meta finalizer_name ≡ true
      → (m1 : PgpilotMonitor) × Fetched
          (C.update_monitor
            (record m { object_meta = C.remove_finalizer m.object_meta finalizer_name }))
          m1

  -- Why a run returns without an error and has applied nothing.
  pub data Idle (req : NamespacedName) (before now : List Request) : CtrlResult → Type 0 where
    absent :
        (e : Error)
        → Refused (C.get_monitor req) e
        → is_not_found e ≡ true
        → now ≡ before
        → Idle req before now no_requeue
    deleted :
        (m : PgpilotMonitor)
        → Fetched (C.get_monitor req) m
        → is_deleted m.object_meta.deletion_timestamp ≡ true
        → now ≡ before ++ cleanup m
        → Released m
        → Idle req before now no_requeue
    blocked :
        (m : PgpilotMonitor)
        → Current req m
        → Blocked C m
        → Progress before [] 8 now
        → Idle req before now (requeue_in 30)

  -- The ConfigMap of the current monitor was not built, and nothing applied.
  pub record Unbuilt (req : NamespacedName) (before now : List Request) : Type 0 where
    pub monitor : PgpilotMonitor
    pub libraries : List PgpilotMetricLibrary
    pub current : Current req monitor
    pub resolved : ResolvedAll C monitor monitor.spec.metrics.from_libraries libraries
    pub error : Error
    pub failed :
        build_config_map lib monitor (merge_metrics lib monitor.spec.metrics libraries) ≡ err error
    pub progress : Progress before [] 8 now

  -- A run that returns without an error has applied no child, for a reason, or all of them.
  abbrev pub Outcome : Bool → NamespacedName → List Request → CtrlResult → Assertion
  Outcome enabled req before result now =
      Idle req before now result ⊎ Delivered enabled req before now

  -- A run that returns an error has met a refusal, or could not build the ConfigMap.
  abbrev pub Failed : NamespacedName → List Request → Assertion
  Failed req before now = Partial C lib before now ⊎ Unbuilt req before now
