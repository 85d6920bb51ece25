-- ===== src/Builder/ServiceMonitor.antt =====
-- internal/builder/servicemonitor.go
use pgpilot_operator.Base.{[], ◌∷◌}
use pgpilot_operator.Kube.Meta.{new_meta}
use pgpilot_operator.Kube.Objects.{ServiceMonitor}
use pgpilot_operator.Api.Monitor.{PgpilotMonitor}
use pgpilot_operator.Builder.Labels.{system_labels, merge_labels, resource_name}
use pgpilot_operator.Builder.Deployment.{selector_labels}

unfoldable pub build_service_monitor : PgpilotMonitor → ServiceMonitor
build_service_monitor monitor = record {
  type_meta = record { api_version = "monitoring.coreos.com/v1"; kind = "ServiceMonitor" };
  object_meta =
      new_meta (resource_name monitor.object_meta.name) monitor.object_meta.namespace
        (merge_labels (system_labels monitor.object_meta.name) monitor.spec.service_metadata.labels)
        [];
  selector = record { match_labels = selector_labels monitor };
  match_namespaces = monitor.object_meta.namespace ∷ [];
  endpoints = record { port = "metrics"; interval = "30s"; scrape_timeout = "10s" } ∷ [];
}
