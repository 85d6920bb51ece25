-- ===== src/Controller/Monitor/Steady/Renewed.antt =====
-- What the builders make of a monitor does not depend on what a write of its status changes.
use pgpilot_operator.Base.{String, ◌≡◌, refl, sym, ◌∙◌, Bool, inl, inr, List, [], ◌∷◌}
use pgpilot_operator.Api.Metrics.{PgpilotMetricLibrary}
use pgpilot_operator.Api.Monitor.{LibraryRef, PgpilotMonitorStatus, PgpilotMonitor}
use pgpilot_operator.Builder.Library.{Library}
use pgpilot_operator.Builder.Metrics.{MergedMetrics}
use pgpilot_operator.Builder.ConfigMap.{build_config_map, config_entries, config_map}
use pgpilot_operator.Builder.Sources.{build_conn_str, source_entry, render_sources}
use pgpilot_operator.Builder.Deployment.{
  build_env_vars, build_args, container_image, prometheus_port, pgwatch_container, deployment,
  build_deployment,
}
use pgpilot_operator.Builder.Service.{build_service}
use pgpilot_operator.Builder.ServiceMonitor.{build_service_monitor}
use pgpilot_operator.Controller.Cluster.{Cluster, Object}
use pgpilot_operator.Controller.Monitor.Validation.{ResolvedAll, Unresolved}
use pgpilot_operator.Controller.Monitor.Statuses.Account.{
  ChildOf, config_map_child, deployment_child, service_child, service_monitor_child,
}
use pgpilot_operator.Controller.Monitor.Steady.{renewed}

module _ (C : Cluster) (lib : Library) (m : PgpilotMonitor) (st : PgpilotMonitorStatus)
    (version : String) (fields : List String) where
  abbrev x : PgpilotMonitor
  x = renewed m st version fields

  pub ResolvedAll-renewed :
      (refs : List LibraryRef) (ls : List PgpilotMetricLibrary)
      → ResolvedAll C x refs ls
      → ResolvedAll C m refs ls
  ResolvedAll-renewed [] [] h = tt
  ResolvedAll-renewed [] (l ∷ ls) h = h
  ResolvedAll-renewed (r ∷ refs) [] h = h
  ResolvedAll-renewed (r ∷ refs) (l ∷ ls) (f, h) = (f, ResolvedAll-renewed refs ls h)

  pub Unresolved-renewed : (refs : List LibraryRef) → Unresolved C x refs → Unresolved C m refs
  Unresolved-renewed [] h = h
  Unresolved-renewed (r ∷ refs) (inl h) = inl h
  Unresolved-renewed (r ∷ refs) (inr h) = inr (Unresolved-renewed refs h)

  pub build_config_map-renewed :
      (merged : MergedMetrics) → build_config_map lib x merged ≡ build_config_map lib m merged
  unfolding build_config_map config_entries config_map render_sources source_entry build_conn_str
  build_config_map-renewed merged = refl

  pub build_deployment-renewed :
      (merged : MergedMetrics) (hash : String)
      → build_deployment x merged hash ≡ build_deployment m merged hash
  unfolding build_deployment deployment build_env_vars pgwatch_container container_image build_args
      prometheus_port
  build_deployment-renewed merged hash = refl

  pub ChildOf-renewed :
      (enabled : Bool) (ls : List PgpilotMetricLibrary) (child : Object)
      → ChildOf C lib enabled x ls child
      → ChildOf C lib enabled m ls child
  unfolding build_service build_service_monitor prometheus_port
  ChildOf-renewed enabled ls _ (config_map_child cm hash built) =
      config_map_child cm hash (sym (build_config_map-renewed _) ∙ built)
  ChildOf-renewed enabled ls _ (deployment_child cm hash dep built deployed) =
      deployment_child cm hash dep (sym (build_config_map-renewed _) ∙ built)
        (sym (build_deployment-renewed _ hash) ∙ deployed)
  ChildOf-renewed enabled ls _ service_child = service_child
  ChildOf-renewed enabled ls _ (service_monitor_child e) = service_monitor_child e
