-- ===== src/Controller/Monitor/Statuses/Children.antt =====
-- The children that are applied.
use mathlib.Core.Path.{subst}
use Prim.Native.String.{len}
use pgpilot_operator.Base.{
  ◌≤◌, String, ◌≡◌, refl, sym, ◌∙◌, Bool, true, false, some, List, ok, string_eq, wrapping-ok,
}
use pgpilot_operator.Kube.Meta.{NamespacedName}
use pgpilot_operator.Kube.Objects.{ConfigMap}
use pgpilot_operator.Api.Metrics.{PgpilotMetricLibrary}
use pgpilot_operator.Api.Monitor.{PgpilotMonitorStatus, PgpilotMonitor}
use pgpilot_operator.Builder.Library.{Library}
use pgpilot_operator.Builder.Metrics.{MergedMetrics, merge_metrics}
use pgpilot_operator.Builder.ConfigMap.{build_config_map}
use pgpilot_operator.Builder.Deployment.{
  build_env_vars, build_args, container_image, prometheus_port, pgwatch_container, deployment,
  build_deployment,
}
use pgpilot_operator.Builder.Secrecy.{HasCredentials}
use pgpilot_operator.Controller.Cluster.{Cluster, Object, IsLawful}
use pgpilot_operator.Controller.Session.{Request}
use pgpilot_operator.Controller.Client.{meta_of, server_side_apply, apply_child}
use pgpilot_operator.Controller.Triple.{
  Triple, Triple-pure, Triple-bind, Triple-given, Triple-send, Triple-call, Triple-lift,
  Triple-in_context, Triple-or_panic,
}
use pgpilot_operator.Controller.Monitor.{
  apply_service_monitor, apply_workload, apply_children, reconcile_children,
}
use pgpilot_operator.Controller.Monitor.Status.{with_status}
use pgpilot_operator.Controller.Monitor.Validation.{ResolvedAll}
use pgpilot_operator.Controller.Monitor.Workload.{build_deployment-ne-none}
use pgpilot_operator.Builder.Service.{build_service}
use pgpilot_operator.Builder.ServiceMonitor.{build_service_monitor}
use pgpilot_operator.Controller.Monitor.Applied.{owned}
use pgpilot_operator.Controller.Monitor.Children.{
  build_config_map-with_status, build_config_map-digest,
}
use pgpilot_operator.Controller.Monitor.Outcome.{Current}
use pgpilot_operator.Controller.Monitor.Statuses.{Checked}
use pgpilot_operator.Controller.Monitor.Statuses.Account.{
  config_map_child, deployment_child, service_child, service_monitor_child, ChildOf, Applies,
  Written-append,
}
use pgpilot_operator.Controller.Monitor.Statuses.Checks.{Sent}
use pgpilot_operator.Controller.Monitor.Statuses.Observation.{Generated, Triple-report_status-Sent}
use pgpilot_operator.Controller.Monitor.Statuses.Generation.{Triple-config_generated-Sent}

module _ (C : Cluster) (lib : Library) (lawful : IsLawful C) (enabled : Bool) (req : NamespacedName)
    (before : List Request) (m : PgpilotMonitor) (current : Current C lib req m) where
  abbrev S : List Request → Type 0
  S = Sent C lib lawful enabled req before m current

  -- The object is applied for the monitor with another status.
  Triple-apply_child-Sent :
      (st : PgpilotMonitorStatus) (context : String) (obj : Object)
      → ((o : Object) → owned C m.object_meta obj ≡ ok o → Applies C lib enabled req o)
      → Triple S (apply_child C (with_status m st) context obj) (λ _. S) S
  unfolding apply_child server_side_apply
  Triple-apply_child-Sent st context obj applies =
      let reference = C.set_controller_reference m.object_meta (meta_of obj) in
      Triple-bind {R = λ meta now. (reference ≡ ok meta) × S now} _ _
        (Triple-lift _ (λ meta e l p. (e, p)) (λ e q l p. p))
        (λ meta. Triple-given _ λ e. Triple-in_context _ _ (
          Triple-bind {R = λ _. S} _ _
            (Triple-send _ (λ l p. Written-append C lib _ (applies _ (rw e refl), tt) p))
            (λ _. Triple-call _ (λ a l p. p) (λ l p. p))))

  build_deployment-with_status :
      (st : PgpilotMonitorStatus) (merged : MergedMetrics) (hash : String)
      → build_deployment (with_status m st) merged hash ≡ build_deployment m merged hash
  unfolding build_deployment deployment build_env_vars pgwatch_container container_image build_args
      prometheus_port
  build_deployment-with_status st merged hash = refl

  module _ (libraries : List PgpilotMetricLibrary)
      (long : (x : String) → 12 ≤ len (lib.hex_digest x))
      (credentials : HasCredentials m.spec.database)
      (resolved : ResolvedAll C m m.spec.metrics.from_libraries libraries) where
    Applies-child :
        (child : Object)
        → ChildOf C lib enabled m libraries child
        → (o : Object) → owned C m.object_meta child ≡ ok o
        → Applies C lib enabled req o
    Applies-child child called o e = record {
      monitor = m;
      libraries = libraries;
      child = child;
      current = current;
      credentials = credentials;
      resolved = resolved;
      called_for = called;
      owned_by = e;
    }

    Triple-scrape-Sent :
        (st : PgpilotMonitorStatus) (on : Bool)
        → on ≡ enabled
        → Triple S (apply_service_monitor C lib on (with_status m st)) (λ _. S) S
    unfolding apply_service_monitor build_service_monitor
    Triple-scrape-Sent st true e =
        Triple-apply_child-Sent st _ _ (Applies-child _ (service_monitor_child (sym e)))
    Triple-scrape-Sent st false e = Triple-pure _ (λ l p. p)

    Triple-apply_workload-Sent :
        (cm : ConfigMap) (hash : String) (st : PgpilotMonitorStatus)
        → Generated m hash st
        → build_config_map lib m (merge_metrics lib m.spec.metrics libraries) ≡ ok (cm, hash)
        → Triple S
            (apply_workload C lib enabled
              (with_status m st)
              (merge_metrics lib m.spec.metrics libraries)
              hash)
            (λ _. S)
            S
    unfolding apply_workload build_service prometheus_port
    Triple-apply_workload-Sent cm hash st generated built =
        let merged = merge_metrics lib m.spec.metrics libraries in
        let m1 = with_status m st in
        Triple-bind {R = λ dep now. (build_deployment m1 merged hash ≡ some dep) × S now} _ _
          (Triple-or_panic _ (build_deployment-ne-none m1 merged hash credentials)
            (λ a e l p. (e, p)))
          (λ dep. Triple-given _ λ deployed.
            let same = sym (build_deployment-with_status st merged hash) ∙ deployed in
            let deploys = Applies-child _ (deployment_child cm hash dep built same) in
            Triple-bind _ _ (Triple-apply_child-Sent st _ _ deploys) (λ _.
              Triple-bind _ _ (Triple-apply_child-Sent st _ _ (Applies-child _ service_child)) (λ _.
                Triple-bind _ _ (Triple-scrape-Sent st enabled refl) (λ _.
                  Triple-report_status-Sent C lib lawful enabled req before m current libraries cm
                    dep hash st generated resolved built same))))

    Triple-apply_children-Sent :
        (st : PgpilotMonitorStatus) (out : ConfigMap × String)
        → Checked m st
        → build_config_map lib m (merge_metrics lib m.spec.metrics libraries) ≡ ok out
        → Triple S
            (apply_children C lib enabled
              (with_status m st)
              (merge_metrics lib m.spec.metrics libraries)
              out)
            (λ _. S)
            S
    unfolding apply_children
    Triple-apply_children-Sent st (cm, hash) checked built =
        let merged = merge_metrics lib m.spec.metrics libraries in
        Triple-bind _ _
          (Triple-apply_child-Sent st _ _ (Applies-child _ (config_map_child cm hash built)))
          (λ _.
            Triple-bind _ _
              (Triple-config_generated-Sent C lib lawful enabled req before m current st _ hash
                (build_config_map-digest C lib before long m merged (cm, hash) built) checked
                libraries cm resolved built)
              (λ m1. Triple-given _ λ (st1, same, generated).
                subst (λ x. Triple S (apply_workload C lib enabled x merged hash) (λ _. S) S)
                  (sym same) (Triple-apply_workload-Sent cm hash st1 generated built)))

    pub Triple-reconcile_children-Sent :
        (st : PgpilotMonitorStatus)
        → Checked m st
        → Triple S (reconcile_children C lib enabled (with_status m st) libraries) (λ _. S) S
    unfolding reconcile_children
    Triple-reconcile_children-Sent st checked =
        let merged = merge_metrics lib m.spec.metrics libraries in
        Triple-bind
          {R = λ out now. (build_config_map lib (with_status m st) merged ≡ ok out) × S now} _ _
          (Triple-lift _ (λ out e l p. (wrapping-ok _ _ e, p)) (λ e q l p. p))
          (λ out. Triple-given _ λ built.
            Triple-apply_children-Sent st out checked
              (sym (build_config_map-with_status C lib before m st merged) ∙ built))
