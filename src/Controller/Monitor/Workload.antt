-- ===== src/Controller/Monitor/Workload.antt =====
-- What the steps of a reconcile after the ConfigMap send, as triples.
use mathlib.Core.List.{append-nil}
use pgpilot_operator.Base.{
  String, ◌≡◌, ◌≢◌, refl, Bool, true, false, Option, none, some, List, [], ◌∷◌, ◌++◌, arith,
  if◌then◌else◌,
}
use pgpilot_operator.Kube.Objects.{Deployment}
use pgpilot_operator.Api.Monitor.{PgpilotMonitorStatus, PgpilotMonitor}
use pgpilot_operator.Builder.Library.{Library}
use pgpilot_operator.Builder.Metrics.{MergedMetrics}
use pgpilot_operator.Builder.Deployment.{
  build_env_vars, build_args, container_image, prometheus_port, pgwatch_container, deployment,
  build_deployment,
}
use pgpilot_operator.Builder.Service.{build_service}
use pgpilot_operator.Builder.ServiceMonitor.{build_service_monitor}
use pgpilot_operator.Builder.Secrecy.{HasCredentials, build_env_vars-HasCredentials}
use pgpilot_operator.Controller.Cluster.{
  Cluster, Object, deployment_object, service_object, service_monitor_object, IsLawful,
}
use pgpilot_operator.Controller.Session.{Request}
use pgpilot_operator.Controller.Triple.{
  Triple, Triple-pure, Triple-bind, Triple-or_panic, Triple-given, Triple-weaken,
}
use pgpilot_operator.Controller.Triple.Status.{Wrote, own_key}
use pgpilot_operator.Controller.Monitor.{apply_service_monitor, apply_workload}
use pgpilot_operator.Controller.Monitor.Progress.{Progress, Progress-later}
use pgpilot_operator.Controller.Monitor.Applied.{
  Partial, OwnedAll, Triple-apply_child, Triple-applied,
}
use pgpilot_operator.Controller.Monitor.Status.{with_status, Triple-report_status}

-- The objects after the Service, and those after the ConfigMap.
abbrev pub scrape_objects : Bool → PgpilotMonitor → List Object
scrape_objects enabled m =
    if enabled then service_monitor_object (build_service_monitor m) ∷ [] else []

abbrev pub workload : Bool → PgpilotMonitor → Deployment → List Object
workload enabled m dep =
    deployment_object dep ∷ service_object (build_service m) ∷ scrape_objects enabled m

pub build_deployment-ne-none :
    (m : PgpilotMonitor) (merged : MergedMetrics) (hash : String)
    → HasCredentials m.spec.database
    → build_deployment m merged hash ≢ none
unfolding build_deployment
build_deployment-ne-none m merged hash credentials e =
    go (build_env_vars m) ((build_env_vars-HasCredentials m).1 credentials) e
  where
    go :
        (env : Option (List _))
        → env ≢ none
        → elim env [ none ↦ none | some vars ↦ some (deployment m merged hash vars) ] ≢ none
    go none h q = h refl
    go (some vars) h q = cc

module _ (C : Cluster) (before : List Request) where
  -- The Deployment, the Service and the ServiceMonitor were applied after the ConfigMap `o`, and the
  -- status was written; the API server accepted it all.
  pub record Running (enabled : Bool) (m : PgpilotMonitor) (merged : MergedMetrics) (hash : String)
      (o : Object) (now : List Request) : Type 0 where
    pub dep : Deployment
    pub objects : List Object
    pub deployed : build_deployment m merged hash ≡ some dep
    pub owned_all : OwnedAll C m.object_meta objects (workload enabled m dep)
    pub progress : Progress before (o ∷ objects) 8 now
    pub recorded :
        (st : PgpilotMonitorStatus) × Wrote C (Progress before (o ∷ objects) 7) (own_key m) st now

  -- The status does not enter into the children.
  pub Running-with_status :
      (enabled : Bool) (m : PgpilotMonitor) (st : PgpilotMonitorStatus) (merged : MergedMetrics)
      (hash : String) (o : Object) (now : List Request)
      → Running enabled (with_status m st) merged hash o now
      → Running enabled m merged hash o now
  unfolding build_deployment deployment build_env_vars pgwatch_container container_image build_args
      prometheus_port build_service build_service_monitor
  Running-with_status enabled m st merged hash o now r = record {
    dep = r.dep;
    objects = r.objects;
    deployed = r.deployed;
    owned_all = r.owned_all;
    progress = r.progress;
    recorded = r.recorded;
  }

  module _ (lib : Library) (lawful : IsLawful C) where
    Triple-scrape :
        (enabled : Bool) (m : PgpilotMonitor) (os : List Object)
        → Triple
            (Progress before os 5)
            (apply_service_monitor C lib enabled m)
            (λ _ now.
              (ds : List Object) × OwnedAll C m.object_meta ds (scrape_objects enabled m)
              × Progress before (os ++ ds) 6 now)
            (Partial C lib before)
    unfolding apply_service_monitor
    Triple-scrape true m os =
        Triple-weaken _ (λ l p. p) (λ a l p. (p.0 ∷ [], (p.1, p.2, tt), p.3)) (λ l p. p)
          (Triple-apply_child C lib before os 5 m _
            (service_monitor_object (build_service_monitor m)) (omega arith) (omega arith))
    Triple-scrape false m os =
        Triple-pure _ (λ l p. ([], tt, rw append-nil (Progress-later 5 6 (omega arith) p)))

    pub Triple-apply_workload :
        (enabled : Bool) (m : PgpilotMonitor) (merged : MergedMetrics) (hash : String) (o : Object)
        → HasCredentials m.spec.database
        → Triple
            (Progress before (o ∷ []) 3)
            (apply_workload C lib enabled m merged hash)
            (λ _. Running enabled m merged hash o)
            (Partial C lib before)
    unfolding apply_workload
    Triple-apply_workload enabled m merged hash o credentials =
        Triple-bind
          {R = λ dep now.
            (build_deployment m merged hash ≡ some dep) × Progress before (o ∷ []) 3 now}
          _ _
          (Triple-or_panic _ (build_deployment-ne-none m merged hash credentials)
            (λ a e l p. (e, p)))
          (λ dep. Triple-given _ λ deployed.
            Triple-applied C lib before (o ∷ []) 3 m _ (deployment_object dep) _ (omega arith)
              (omega arith)
              λ d own_d took_d.
                Triple-applied C lib before (o ∷ d ∷ []) 4 m _ (service_object (build_service m)) _
                  (omega arith) (omega arith)
                  λ s own_s took_s. Triple-bind _ _ (Triple-scrape enabled m (o ∷ d ∷ s ∷ [])) (λ _.
                    record {
                      at = λ t p.
                          (Triple-weaken _ (λ l q. q)
                              (λ a l q. record {
                                dep = dep;
                                objects = d ∷ s ∷ p.0;
                                deployed = deployed;
                                owned_all = (own_d, took_d, (own_s, took_s, p.1));
                                progress = q.0;
                                recorded = q.1;
                              })
                              (λ l q. q)
                              (Triple-report_status C lib lawful before (o ∷ d ∷ s ∷ p.0) m dep)).at
                            t p.2;
                    }))
