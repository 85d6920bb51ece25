-- ===== src/Controller/Client.antt =====
-- internal/controller/pgpilotmonitor_controller.go: the methods through which `Reconcile` reaches the
-- API server, `setCondition`, `patchStatus` and `serverSideApply`.
use pgpilot_operator.Base.{String, none, [], ◌∷◌, ◌++◌, Result, ok, err, string_eq}
use pgpilot_operator.Kube.Meta.{ObjectMeta, ConditionStatus}
use pgpilot_operator.Api.Monitor.{PgpilotMonitor}
use pgpilot_operator.Controller.Cluster.{
  Cluster, Object, config_map_object, deployment_object, service_object, service_monitor_object,
}
use pgpilot_operator.Controller.Session.{
  Session, M, update_request, apply_request, status_request, pure, lift, call, attempt, in_context,
  send, ◌>>=◌, ◌>>◌,
}

abbrev pub meta_of : Object → ObjectMeta
meta_of (config_map_object o) = o.object_meta
meta_of (deployment_object o) = o.object_meta
meta_of (service_object o) = o.object_meta
meta_of (service_monitor_object o) = o.object_meta

abbrev pub with_meta : Object → ObjectMeta → Object
with_meta (config_map_object o) meta = config_map_object (record o { object_meta = meta })
with_meta (deployment_object o) meta = deployment_object (record o { object_meta = meta })
with_meta (service_object o) meta = service_object (record o { object_meta = meta })
with_meta (service_monitor_object o) meta = service_monitor_object (record o { object_meta = meta })

-- `obj.SetManagedFields(nil)` and `obj.SetResourceVersion("")`
abbrev pub stripped : Object → Object
stripped obj = with_meta obj (record (meta_of obj) { managed_fields = []; resource_version = "" })

module _ (C : Cluster) where
  unfoldable pub set_condition :
      PgpilotMonitor → String → ConditionStatus → String → String → PgpilotMonitor
  set_condition m cond_type status reason message = record m {
    status = record m.status {
      conditions = C.set_status_condition m.status.conditions (record {
        condition_type = cond_type;
        status = status;
        observed_generation = m.object_meta.generation;
        last_transition_time = none;
        reason = reason;
        message = message;
      });
    };
  }

  -- `r.Update(ctx, &monitor)`
  unfoldable pub update : PgpilotMonitor → M C PgpilotMonitor
  update m = do send (update_request m); call (C.update_monitor m)

  -- The body of the retried function, from what its `Get` returned.
  abbrev pub write_status :
      PgpilotMonitor → Result PgpilotMonitor → Session C → Result (Unit {0}) × Session C
  write_status m (err e) s = (err e, s)
  write_status m (ok latest) s =
      let patched = record latest { status = m.status } in
      let (r, w) = C.update_status patched s.world in
      (r, record { world = w; requests = s.requests ++ status_request patched ∷ [] })

  -- One run of the function that `patchStatus` retries.
  unfoldable pub status_attempt : PgpilotMonitor → Session C → Result (Unit {0}) × Session C
  status_attempt m s =
      let (found, w) =
        C.get_monitor (record { name = m.object_meta.name; namespace = m.object_meta.namespace })
          s.world in
      write_status m found (record s { world = w })

  unfoldable pub patch_status : PgpilotMonitor → M C (Unit {0})
  patch_status m s = let (r, t) = C.retry_on_conflict (Session C) (status_attempt m) s in lift r t

  -- `if statusErr := r.patchStatus(…); statusErr != nil { log… }`
  unfoldable pub try_patch_status : PgpilotMonitor → M C (Unit {0})
  try_patch_status m = do attempt (patch_status m); pure tt

  unfoldable pub server_side_apply : Object → M C (Unit {0})
  server_side_apply obj = do send (apply_request (stripped obj)); call (C.apply (stripped obj))

  -- `SetControllerReference`, then `serverSideApply` with its error in context.
  unfoldable pub apply_child : PgpilotMonitor → String → Object → M C (Unit {0})
  apply_child m context obj = do
    meta ← lift (C.set_controller_reference m.object_meta (meta_of obj))
    in_context context (server_side_apply (with_meta obj meta))
