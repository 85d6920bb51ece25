-- ===== src/Controller/MetricLibrary.antt =====
-- internal/controller/pgpilotmetriclibrary_controller.go: `Reconcile`.
pub mod Published
use pgpilot_operator.Base.{
  String, Bool, true, false, none, Error, Result, ok, err, has_items, if◌then◌else◌,
}
use pgpilot_operator.Kube.Meta.{NamespacedName, ConditionStatus, status_true, status_false}
use pgpilot_operator.Api.Metrics.{PgpilotMetricLibrary}
use pgpilot_operator.Controller.Cluster.{Cluster, is_not_found}
use pgpilot_operator.Controller.Session.{
  M, CtrlResult, no_requeue, library_status_request, pure, raise, call, attempt, send, ◌>>=◌, ◌>>◌,
}

module _ (C : Cluster) where
  -- The library as it is written, with its `Valid` condition.
  unfoldable pub assessed : PgpilotMetricLibrary → PgpilotMetricLibrary
  assessed l =
      let valid = has_items l.spec.metrics in
      record l {
        status = record l.status {
          conditions = C.set_status_condition l.status.conditions (record {
            condition_type = "Valid";
            status = if valid then status_true else status_false;
            observed_generation = l.object_meta.generation;
            last_transition_time = none;
            reason = if valid then "Valid" else "Empty";
            message =
                if valid
                then "Library contains metric definitions"
                else "Library has no metric definitions";
          });
          observed_generation = l.object_meta.generation;
        };
      }

  unfoldable pub publish : PgpilotMetricLibrary → M C CtrlResult
  publish l = do
    send (library_status_request (assessed l))
    call (C.update_library_status (assessed l))
    pure no_requeue

  -- `client.IgnoreNotFound`
  unfoldable pub after_get : Result PgpilotMetricLibrary → M C CtrlResult
  after_get (err e) = if is_not_found e then pure no_requeue else raise e
  after_get (ok l) = publish l

  unfoldable pub reconcile : NamespacedName → M C CtrlResult
  reconcile req = do found ← attempt (call (C.get_library req)); after_get found
