-- ===== src/Controller/Monitor/Children.antt =====
-- What the steps of a reconcile that build and apply the children send, as triples.
use mathlib.Core.Path.{subst}
use Prim.Native.String.{len}
use pgpilot_operator.Base.{
  ◌≤◌, String, ◌≡◌, sym, Bool, some, List, [], ◌∷◌, Result, ok, err, wrapping-ok, wrapping-err,
  refl, ◌⊎◌, inl, inr, Error, err, ok-injective, ◌>>=◌ as ◌>>>=◌, arith,
}
use pgpilot_operator.Base.Dict.{Dict}
use pgpilot_operator.Kube.Objects.{ConfigMap, Deployment}
use pgpilot_operator.Api.Metrics.{PgpilotMetricLibrary}
use pgpilot_operator.Api.Monitor.{PgpilotMonitorStatus, PgpilotMonitor}
use pgpilot_operator.Builder.Library.{Library}
use pgpilot_operator.Builder.Metrics.{MergedMetrics, merge_metrics}
use pgpilot_operator.Builder.Hash.{content_hash}
use pgpilot_operator.Builder.ConfigMap.{config_entries, config_map, build_config_map}
use pgpilot_operator.Builder.Deployment.{
  build_env_vars, build_args, container_image, prometheus_port, pgwatch_container, deployment,
  build_deployment,
}
use pgpilot_operator.Builder.Service.{build_service}
use pgpilot_operator.Builder.ServiceMonitor.{build_service_monitor}
use pgpilot_operator.Builder.Secrecy.{HasCredentials}
use pgpilot_operator.Controller.Cluster.{Cluster, Object, config_map_object, IsLawful}
use pgpilot_operator.Controller.Session.{Request}
use pgpilot_operator.Controller.Triple.{
  Triple, Triple-bind, Triple-given, Triple-weaken, Triple-lift,
}
use pgpilot_operator.Controller.Triple.Status.{Wrote, own_key}
use pgpilot_operator.Controller.Monitor.{apply_children, reconcile_children}
use pgpilot_operator.Controller.Monitor.Progress.{Progress}
use pgpilot_operator.Controller.Monitor.Applied.{Partial, OwnedAll, Triple-applied}
use pgpilot_operator.Controller.Monitor.Workload.{
  workload, Running, Running-with_status, Triple-apply_workload,
}
use pgpilot_operator.Builder.Sources.{build_conn_str, source_entry, render_sources}
use pgpilot_operator.Controller.Monitor.Status.{with_status, Triple-config_generated}

module _ (C : Cluster) (lib : Library) (before : List Request) where
  -- The ConfigMap, the Deployment, the Service and the ServiceMonitor that the monitor and its
  -- libraries call for were applied, in this order, and a status was written last. The API server
  -- accepted it all.
  pub record Converged (enabled : Bool) (m : PgpilotMonitor) (libraries : List PgpilotMetricLibrary)
      (now : List Request) : Type 0 where
    pub cm : ConfigMap
    pub hash : String
    pub dep : Deployment
    pub objects : List Object
    pub built : build_config_map lib m (merge_metrics lib m.spec.metrics libraries) ≡ ok (cm, hash)
    pub deployed : build_deployment m (merge_metrics lib m.spec.metrics libraries) hash ≡ some dep
    pub owned_all : OwnedAll C m.object_meta objects (config_map_object cm ∷ workload enabled m dep)
    pub progress : Progress before objects 8 now
    pub recorded :
        (st : PgpilotMonitorStatus) × Wrote C (Progress before objects 7) (own_key m) st now

  -- The status does not enter into the children.
  pub Converged-with_status :
      (enabled : Bool) (m : PgpilotMonitor) (st : PgpilotMonitorStatus)
      (libraries : List PgpilotMetricLibrary) (now : List Request)
      → Converged enabled (with_status m st) libraries now
      → Converged enabled m libraries now
  unfolding build_config_map config_entries config_map render_sources source_entry build_conn_str
      build_deployment deployment build_env_vars pgwatch_container container_image build_args
      prometheus_port build_service build_service_monitor
  Converged-with_status enabled m st libraries now r = record {
    cm = r.cm;
    hash = r.hash;
    dep = r.dep;
    objects = r.objects;
    built = r.built;
    deployed = r.deployed;
    owned_all = r.owned_all;
    progress = r.progress;
    recorded = r.recorded;
  }

  pub build_config_map-with_status :
      (m : PgpilotMonitor) (st : PgpilotMonitorStatus) (merged : MergedMetrics)
      → build_config_map lib (with_status m st) merged ≡ build_config_map lib m merged
  unfolding build_config_map config_entries config_map render_sources source_entry build_conn_str
  build_config_map-with_status m st merged = refl

  pub build_config_map-digest :
      ((x : String) → 12 ≤ len (lib.hex_digest x))
      → (m : PgpilotMonitor) (merged : MergedMetrics) (out : ConfigMap × String)
      → build_config_map lib m merged ≡ ok out
      → 12 ≤ len out.1
  unfolding build_config_map content_hash
  build_config_map-digest long m merged out e = go (config_entries lib m merged) e
    where
      go :
          (entries : Result (Dict String String))
          → (entries >>>= λ d. ok (config_map lib m d, content_hash lib d)) ≡ ok out
          → 12 ≤ len out.1
      go (err x) q = cc
      go (ok d) q = subst (λ o. 12 ≤ len o.1) (ok-injective q) (long _)

  module _ (lawful : IsLawful C) (long : (x : String) → 12 ≤ len (lib.hex_digest x)) where
    Triple-apply_children :
        (enabled : Bool) (m : PgpilotMonitor) (libraries : List PgpilotMetricLibrary)
        (out : ConfigMap × String)
        → HasCredentials m.spec.database
        → build_config_map lib m (merge_metrics lib m.spec.metrics libraries) ≡ ok out
        → Triple
            (Progress before [] 1)
            (apply_children C lib enabled m (merge_metrics lib m.spec.metrics libraries) out)
            (λ _. Converged enabled m libraries)
            (Partial C lib before)
    unfolding apply_children
    Triple-apply_children enabled m libraries (cm, hash) credentials built =
        let merged = merge_metrics lib m.spec.metrics libraries in
        Triple-applied C lib before [] 1 m _ (config_map_object cm) _ (omega arith) (omega arith)
          λ o own took.
            Triple-bind _ _
              (Triple-config_generated C lib lawful before (o ∷ []) m _ hash
                (build_config_map-digest long m merged (cm, hash) built))
              (λ m1. record {
                at = λ s p.
                    (Triple-weaken _ (λ l q. q)
                        (λ a l r.
                          let q =
                            Running-with_status C before enabled m p.0.0 merged hash o l
                              (subst (λ x. Running C before enabled x merged hash o l) p.0.1 r) in
                          record {
                            cm = cm;
                            hash = hash;
                            dep = q.dep;
                            objects = o ∷ q.objects;
                            built = built;
                            deployed = q.deployed;
                            owned_all = (own, took, q.owned_all);
                            progress = q.progress;
                            recorded = q.recorded;
                          })
                        (λ l q. q)
                        (Triple-apply_workload C before lib lawful enabled m1 merged hash o
                          (subst (λ x. HasCredentials x.spec.database) (sym p.0.1) credentials))).at
                      s p.1;
              })

    -- The run fails where the ConfigMap is not built, or else where a call is refused.
    pub Triple-reconcile_children :
        (enabled : Bool) (m : PgpilotMonitor) (libraries : List PgpilotMetricLibrary)
        → HasCredentials m.spec.database
        → Triple
            (Progress before [] 1)
            (reconcile_children C lib enabled m libraries)
            (λ _. Converged enabled m libraries)
            (λ now.
              Partial C lib before now
              ⊎ (((e : Error) × (build_config_map lib m (merge_metrics lib m.spec.metrics libraries)
                      ≡ err e))
                  × Progress before [] 1 now))
    unfolding reconcile_children
    Triple-reconcile_children enabled m libraries credentials =
        let merged = merge_metrics lib m.spec.metrics libraries in
        Triple-bind
          {R = λ out now. (build_config_map lib m merged ≡ ok out) × Progress before [] 1 now} _ _
          (Triple-lift _ (λ out e l p. (wrapping-ok _ _ e, p))
            (λ e q l p. inr (wrapping-err _ _ q, p)))
          (λ out. Triple-given _ λ built.
            Triple-weaken _ (λ l p. p) (λ a l p. p) (λ l p. inl p)
              (Triple-apply_children enabled m libraries out credentials built))
