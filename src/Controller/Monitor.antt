-- ===== src/Controller/Monitor.antt =====
-- internal/controller/pgpilotmonitor_controller.go: `Reconcile`.
pub mod Progress
pub mod Applied
pub mod Status
pub mod Validation
pub mod Report
pub mod Workload
pub mod Children
pub mod Outcome
pub mod Delivery
pub mod Contract
pub mod Liveness
pub mod Statuses
pub mod Steady
use Prim.Native.String.{len, slice}
use pgpilot_operator.Base.{
  ℕ, String, ◌<>◌, Bool, true, false, not, ◌&&◌, Option, none, some, List, [], ◌∷◌, Error,
  error_text, Result, ok, err, wrapping, ◌==◌, string_eq, nonempty, leb, if◌then◌else◌,
}
use pgpilot_operator.Base.Int.{ℤ, is_positive}
use pgpilot_operator.Kube.Meta.{NamespacedName, status_true, status_false}
use pgpilot_operator.Kube.Objects.{ConfigMap, Deployment}
use pgpilot_operator.Api.Metrics.{PgpilotMetricLibrary}
use pgpilot_operator.Api.Monitor.{CredentialsSecretRef, LibraryRef, DatabaseRef, PgpilotMonitor}
use pgpilot_operator.Builder.Library.{Library}
use pgpilot_operator.Builder.Metrics.{MergedMetrics, merge_metrics}
use pgpilot_operator.Builder.ConfigMap.{build_config_map}
use pgpilot_operator.Builder.Deployment.{build_deployment, selector_labels}
use pgpilot_operator.Builder.Service.{build_service}
use pgpilot_operator.Builder.ServiceMonitor.{build_service_monitor}
use pgpilot_operator.Controller.Cluster.{
  Cluster, config_map_object, deployment_object, service_object, service_monitor_object,
  is_not_found,
}
use pgpilot_operator.Controller.Session.{
  M, CtrlResult, no_requeue, normal, warning, event_request, pure, raise, lift, or_panic, call,
  attempt, in_context, send, clock, ◌>>=◌, ◌>>◌,
}
use pgpilot_operator.Controller.Client.{
  set_condition, update, patch_status, try_patch_status, apply_child,
}
use pgpilot_operator.Controller.Checks.{
  requeue_in, Verdict, validate_credentials, resolve_libraries, libraries_failed,
}

abbrev pub finalizer_name : String
finalizer_name = "pgpilot.io/finalizer"

-- `configHash[:12]`, which panics on a shorter string.
abbrev pub short_hash : String → Option String
short_hash hash = if leb 12 (len hash) then some (slice hash 0 12) else none

abbrev pub first_pod : PgpilotMonitor → Result (List String) → PgpilotMonitor
first_pod m (ok (pod ∷ pods)) = record m { status = record m.status { pod_name = pod } }
first_pod m (ok []) = m
first_pod m (err e) = m

-- `!monitor.DeletionTimestamp.IsZero()`
abbrev pub is_deleted : Option ℕ → Bool
is_deleted none = false
is_deleted (some t) = true

module _ (C : Cluster) (lib : Library) where
  -- The condition, the event and the status after the ConfigMap was applied.
  unfoldable pub config_generated : PgpilotMonitor → String → String → M C PgpilotMonitor
  config_generated m name hash = do
    short ← or_panic (short_hash hash)
    let m1 =
        set_condition C m "ConfigGenerated" status_true "ConfigMapUpdated"
          ("ConfigMap " <> (name <> (" up to date (hash=" <> (short <> ")"))))
    if m.status.config_hash == hash then pure m1 else do
      send (
          event_request m1 normal "ConfigMapUpdated"
            ("ConfigMap " <> (name <> (" reconciled (hash=" <> (short <> ")")))))
      pure (record m1 { status = record m1.status { config_hash = hash } })

  -- The condition and the event that tell of the pod.
  unfoldable pub report_ready : PgpilotMonitor → Bool → Bool → M C PgpilotMonitor
  report_ready m was_ready ready =
      if ready
      then (do
        let m1 =
            set_condition C m "Ready" status_true "PodRunning" "pgwatch pod running and scraping"
        if was_ready then pure m1 else (do
          send (event_request m1 normal "PodRunning" "pgwatch pod running and scraping")
          pure m1))
      else (do
        let m1 = set_condition C m "Ready" status_false "PodNotReady" "pgwatch pod is not ready yet"
        if was_ready
            then (do
              send (event_request m1 warning "PodNotReady" "pgwatch pod is not ready yet")
              pure m1)
            else pure m1)

  -- Step 7
  unfoldable pub report_status : PgpilotMonitor → Deployment → M C CtrlResult
  report_status m dep = do
    replicas ← call (
        C.get_ready_replicas
          (record { name = dep.object_meta.name; namespace = dep.object_meta.namespace }))
    let ready = is_positive replicas
    time ← clock
    m1 ←
        report_ready
          (record m {
            status = record m.status {
              ready = ready;
              observed_generation = m.object_meta.generation;
              last_reconciled = some time;
            };
          })
          m.status.ready ready
    pods ← attempt (call (C.list_pods m.object_meta.namespace (selector_labels m)))
    in_context "update status" (patch_status C (first_pod m1 pods))
    pure (if ready then no_requeue else requeue_in 15)

  -- Step 6b
  unfoldable pub apply_service_monitor : Bool → PgpilotMonitor → M C (Unit {0})
  apply_service_monitor enabled m =
      if enabled
      then apply_child C m "reconcile servicemonitor"
          (service_monitor_object (build_service_monitor m))
      else pure tt

  -- Steps 5 to 7
  unfoldable pub apply_workload : Bool → PgpilotMonitor → MergedMetrics → String → M C CtrlResult
  apply_workload enabled m merged hash = do
    dep ← or_panic (build_deployment m merged hash)
    apply_child C m "reconcile deployment" (deployment_object dep)
    apply_child C m "reconcile service" (service_object (build_service m))
    apply_service_monitor enabled m
    report_status m dep

  -- Step 4, and those after it
  unfoldable pub apply_children :
      Bool → PgpilotMonitor → MergedMetrics → ConfigMap × String → M C CtrlResult
  apply_children enabled m merged (cm, hash) = do
    apply_child C m "reconcile configmap" (config_map_object cm)
    m1 ← config_generated m cm.object_meta.name hash
    apply_workload enabled m1 merged hash

  -- Steps 3 to 7
  unfoldable pub reconcile_children :
      Bool → PgpilotMonitor → List PgpilotMetricLibrary → M C CtrlResult
  reconcile_children enabled m libraries = do
    let merged = merge_metrics lib m.spec.metrics libraries
    built ← lift (wrapping "build configmap" (build_config_map lib m merged))
    apply_children enabled m merged built

  unfoldable pub after_libraries :
      Bool → PgpilotMonitor → Result (List PgpilotMetricLibrary) → M C CtrlResult
  after_libraries enabled m (err e) = libraries_failed C lib m e
  after_libraries enabled m (ok libraries) = reconcile_children enabled m libraries

  unfoldable pub after_validation : Bool → Verdict → M C CtrlResult
  after_validation enabled (m, result, true) = do
    resolved ← attempt (resolve_libraries C lib m)
    after_libraries enabled m resolved
  after_validation enabled (m, result, false) = pure result

  unfoldable pub finalize : PgpilotMonitor → M C CtrlResult
  finalize m =
      if C.contains_finalizer m.object_meta finalizer_name
      then (do
        update C (record m { object_meta = C.remove_finalizer m.object_meta finalizer_name })
        pure no_requeue)
      else pure no_requeue

  unfoldable pub ensure_finalizer : PgpilotMonitor → M C PgpilotMonitor
  ensure_finalizer m =
      if C.contains_finalizer m.object_meta finalizer_name
      then pure m
      else update C (record m { object_meta = C.add_finalizer m.object_meta finalizer_name })

  unfoldable pub reconcile_found : Bool → PgpilotMonitor → M C CtrlResult
  reconcile_found enabled m =
      if is_deleted m.object_meta.deletion_timestamp then finalize m else (do
        m1 ← ensure_finalizer m
        verdict ← validate_credentials C lib m1
        after_validation enabled verdict)

  unfoldable pub after_get : Bool → Result PgpilotMonitor → M C CtrlResult
  after_get enabled (ok m) = reconcile_found enabled m
  after_get enabled (err e) = if is_not_found e then pure no_requeue else raise e

  -- `enabled` is the reconciler's `ServiceMonitorEnabled`.
  unfoldable pub reconcile : Bool → NamespacedName → M C CtrlResult
  reconcile enabled req = do found ← attempt (call (C.get_monitor req)); after_get enabled found
