-- ===== src/Controller/Monitor/Statuses/Account.antt =====
-- The account that a run of `Reconcile` gives: what each request that it sends is sent for.
use mathlib.Core.List.{append_assoc, append-nil}
use mathlib.Core.Path.{subst}
use pgpilot_operator.Base.{
  String, ◌≡◌, sym, ◌∙◌, ap, Bool, true, false, some, List, [], ◌∷◌, ◌++◌, All, All-append, ok,
}
use pgpilot_operator.Kube.Meta.{NamespacedName}
use pgpilot_operator.Kube.Objects.{ConfigMap, Deployment}
use pgpilot_operator.Api.Metrics.{PgpilotMetricLibrary}
use pgpilot_operator.Api.Monitor.{PgpilotMonitorStatus, PgpilotMonitor}
use pgpilot_operator.Builder.Library.{Library}
use pgpilot_operator.Builder.Metrics.{merge_metrics}
use pgpilot_operator.Builder.ConfigMap.{build_config_map}
use pgpilot_operator.Builder.Deployment.{build_deployment}
use pgpilot_operator.Builder.Service.{build_service}
use pgpilot_operator.Builder.ServiceMonitor.{build_service_monitor}
use pgpilot_operator.Builder.Secrecy.{HasCredentials}
use pgpilot_operator.Controller.Cluster.{
  Cluster, Object, config_map_object, deployment_object, service_object, service_monitor_object,
}
use pgpilot_operator.Controller.Session.{
  Request, update_request, apply_request, status_request, library_status_request, event_request,
}
use pgpilot_operator.Controller.Triple.{Fetched}
use pgpilot_operator.Controller.Triple.Status.{KeptByStatus, own_key}
use pgpilot_operator.Controller.Monitor.Report.{Carried}
use pgpilot_operator.Controller.Monitor.{finalizer_name, is_deleted}
use pgpilot_operator.Controller.Monitor.Applied.{owned}
use pgpilot_operator.Controller.Monitor.Validation.{ResolvedAll}
use pgpilot_operator.Controller.Monitor.Outcome.{Current}
use pgpilot_operator.Controller.Monitor.Statuses.{Says, News}

module _ (C : Cluster) (lib : Library) where
  -- The objects that a monitor calls for, with the libraries that it names.
  pub data ChildOf (enabled : Bool) (m : PgpilotMonitor) (libraries : List PgpilotMetricLibrary)
      : Object → Type 0 where
    config_map_child :
        (cm : ConfigMap) (hash : String)
        → build_config_map lib m (merge_metrics lib m.spec.metrics libraries) ≡ ok (cm, hash)
        → ChildOf enabled m libraries (config_map_object cm)
    deployment_child :
        (cm : ConfigMap) (hash : String) (dep : Deployment)
        → build_config_map lib m (merge_metrics lib m.spec.metrics libraries) ≡ ok (cm, hash)
        → build_deployment m (merge_metrics lib m.spec.metrics libraries) hash ≡ some dep
        → ChildOf enabled m libraries (deployment_object dep)
    service_child : ChildOf enabled m libraries (service_object (build_service m))
    service_monitor_child :
        enabled ≡ true
        → ChildOf enabled m libraries (service_monitor_object (build_service_monitor m))

  -- The object is applied for a monitor with credentials whose libraries were all read, and it is
  -- the child that the builders make, with the monitor as its owner.
  pub record Applies (enabled : Bool) (req : NamespacedName) (o : Object) : Type 0 where
    pub monitor : PgpilotMonitor
    pub libraries : List PgpilotMetricLibrary
    pub child : Object
    pub current : Current C lib req monitor
    pub credentials : HasCredentials monitor.spec.database
    pub resolved : ResolvedAll C monitor monitor.spec.metrics.from_libraries libraries
    pub called_for : ChildOf enabled monitor libraries child
    pub owned_by : owned C monitor.object_meta child ≡ ok o

  -- The update takes the finalizer from a monitor that is being deleted and has it, or gives it to
  -- one that is not and lacks it, and leaves the rest as it was read.
  pub data Edits (req : NamespacedName) (w : PgpilotMonitor) : Type 0 where
    releases :
        (m : PgpilotMonitor)
        → Fetched (C.get_monitor req) m
        → is_deleted m.object_meta.deletion_timestamp ≡ true
        → C.contains_finalizer m.object_meta finalizer_name ≡ true
        → w ≡ record m { object_meta = C.remove_finalizer m.object_meta finalizer_name }
        → Edits req w
    marks :
        (m : PgpilotMonitor)
        → Fetched (C.get_monitor req) m
        → is_deleted m.object_meta.deletion_timestamp ≡ false
        → C.contains_finalizer m.object_meta finalizer_name ≡ false
        → w ≡ record m { object_meta = C.add_finalizer m.object_meta finalizer_name }
        → Edits req w

  -- The request is sent for a monitor that the API server answered, and says so of it.
  abbrev pub Told : Bool → NamespacedName → Request → Type 0
  Told enabled req (status_request w) =
      (m : PgpilotMonitor) × Current C lib req m × Says C lib m w.status × Carried C (own_key m) w
  Told enabled req (update_request w) = Edits req w
  Told enabled req (apply_request o) = Applies enabled req o
  Told enabled req (library_status_request l) = ⊥
  Told enabled req (event_request about kind reason message) =
      (m : PgpilotMonitor) × Current C lib req m
      × News C lib m kind reason
      × (about.object_meta ≡ m.object_meta)

  -- All that was sent after `before` is such.
  pub record Written (enabled : Bool) (req : NamespacedName) (before now : List Request)
      : Type 0 where
    pub trace : List Request
    pub split : now ≡ before ++ trace
    pub told : All (Told enabled req) trace

  module _ {enabled : Bool} {req : NamespacedName} {before : List Request} where
    pub Written-start : Written enabled req before before
    Written-start = record { trace = []; split = sym (append-nil before); told = tt }

    pub Written-append :
        {now : List Request} (qs : List Request)
        → All (Told enabled req) qs
        → Written enabled req before now
        → Written enabled req before (now ++ qs)
    Written-append qs k h = record {
      trace = h.trace ++ qs;
      split = ap (λ l. l ++ qs) h.split ∙ append_assoc before h.trace qs;
      told = All-append (Told enabled req) h.trace qs h.told k;
    }

    pub KeptByStatus-Written :
        (m : PgpilotMonitor) (st : PgpilotMonitorStatus) (key : NamespacedName)
        → Current C lib req m
        → Says C lib m st
        → key ≡ own_key m
        → KeptByStatus C key st (Written enabled req before)
    KeptByStatus-Written m st key current says same l latest f h =
        Written-append (status_request (record latest { status = st }) ∷ [])
          (
            (
              m,
              current,
              says,
              (
                latest,
                subst (λ k. Fetched (C.get_monitor k) latest) same f,
                λ i. record latest { status = st },
              ),
            ),
            tt,
          )
          h
